-- ===== src/Base/Results.antt =====
-- A value or an error, as Go's `(value, error)` returns it.
use mathlib.Core.Path.{◌≡◌, refl}
use mathlib.Core.Bool.{Bool, true, false}
use mathlib.Core.Logic.{◌⊎◌, inl, inr}

pub data Result (E A : Type 0) : Type 0 where
  ok : A → Result E A
  err : E → Result E A

module _ {E A : Type 0} where
  pub Result-cases : (r : Result E A) → ((a : A) × (r ≡ ok a)) ⊎ ((e : E) × (r ≡ err e))
  Result-cases (ok a) = inl (a, refl)
  Result-cases (err e) = inr (e, refl)

  pub ok_inj : {a b : A} → ◌≡◌ {A = Result E A} (ok a) (ok b) → a ≡ b
  ok_inj h = cc

  pub ok≢err : {a : A} {e : E} → ◌≡◌ {A = Result E A} (ok a) (err e) → ⊥
  ok≢err h = cc

-- Go's `if err != nil { return err }`.
infixl 20 ◌>>=◌
unfoldable pub ◌>>=◌ : {E A B : Type 0} → Result E A → (A → Result E B) → Result E B
ok a >>= k = k a
err e >>= k = err e

infixl 20 ◌>>◌
unfoldable pub ◌>>◌ : {E A B : Type 0} → Result E A → Result E B → Result E B
unfolding ◌>>=◌
r >> s = r >>= (λ a. s)

-- A refusal, if the test holds.
unfoldable pub refuse_if : {E : Type 0} → Bool → E → Result E (Unit {0})
refuse_if true e = err e
refuse_if false e = ok tt

module _ {E A B : Type 0} where
  pub bind_ok :
      (r : Result E A) (k : A → Result E B) {b : B}
      → (r >>= k) ≡ ok b
      → (a : A) × (r ≡ ok a) × (k a ≡ ok b)
  unfolding ◌>>=◌
  bind_ok (ok a) k h = (a, refl, h)
  bind_ok (err e) k h = cc

module _ {E B : Type 0} where
  pub refuse_if-passed :
      (test : Bool) (e : E) (k : Result E B) {b : B}
      → (refuse_if test e >> k) ≡ ok b
      → (test ≡ false) × (k ≡ ok b)
  unfolding ◌>>=◌ ◌>>◌ refuse_if
  refuse_if-passed true e k h = cc
  refuse_if-passed false e k h = (refl, h)
