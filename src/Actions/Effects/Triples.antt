-- ===== src/Actions/Effects/Triples.antt =====
-- Rules for what a sequence of calls keeps and what it ends in.
use pademelon.Base.{String, ◌≡◌, refl, Bool, true, false, ◌∷◌, Result, ok, err}
use pademelon.Actions.Effects.{
  World, M, Event, Trace, pure, ◌>>=◌, on_result, attempt, branch, perform, set_step,
}
use pademelon.Actions.Job.{StepName, StepState, set_step_in}

-- From `P`, the calls of `m` end in a result and a world of `Q`.
pub record Triple {A : Type 0} (P : World → Type 0) (m : M A) (Q : A → World → Type 0)
    : Type 0 where
  pub at : (w : World) → P w → Q (m w).0 (m w).1

abbrev pub Keeps : {A : Type 0} → (World → Type 0) → M A → Type 0
Keeps P m = Triple P m (λ _. P)

module _ {A : Type 0} {P : World → Type 0} {Q : A → World → Type 0} where
  pub triple_pure : (a : A) → ((w : World) → P w → Q a w) → Triple P (pure a) Q
  unfolding pure
  triple_pure a h = record { at = h }

  pub triple_perform :
      (ask : Trace → A) (event : A → Event)
      → ((w : World) (r : A) → r ≡ ask w.trace → P w → Q r (record w { trace = event r ∷ w.trace }))
      → Triple P (perform ask event) Q
  unfolding perform
  triple_perform ask event h = record { at = λ w p. h w (ask w.trace) refl p }

  pub triple_branch :
      (b : Bool) (m n : M A)
      → (b ≡ true → Triple P m Q)
      → (b ≡ false → Triple P n Q)
      → Triple P (branch b m n) Q
  unfolding branch
  triple_branch true m n hm hn = hm refl
  triple_branch false m n hm hn = hn refl

module _ {A : Type 0} {F : Type 0} {P : World → Type 0} {Q : A → World → Type 0} {m : M A} where
  -- A fact that no world can change is taken out of the precondition.
  pub triple_given : (F → Triple P m Q) → Triple (λ w. F × P w) m Q
  triple_given h = record { at = λ w p. (h p.0).at w p.1 }

module _ {A : Type 0} {P F : World → Type 0} {Q : A → World → Type 0} {m : M A} where
  -- A part of the precondition that is not needed.
  pub triple_left : Triple P m Q → Triple (λ w. P w × F w) m Q
  triple_left h = record { at = λ w p. h.at w p.0 }

module _ {A B : Type 0} {P : World → Type 0} {R : B → World → Type 0} where
  pub triple_bind :
      {Q : A → World → Type 0} {m : M A} {f : A → M B}
      → Triple P m Q
      → ((a : A) → Triple (Q a) (f a) R)
      → Triple P (m >>= f) R
  unfolding ◌>>=◌
  triple_bind {m = m} hm hf = record { at = λ w p. (hf (m w).0).at (m w).1 (hm.at w p) }

module _ {E A B : Type 0} (Q : Result E A → World → Type 0) {R : B → World → Type 0} where
  pub triple_on_result :
      {f : E → M B} {g : A → M B} (r : Result E A)
      → ((e : E) → Triple (Q (err e)) (f e) R)
      → ((a : A) → Triple (Q (ok a)) (g a) R)
      → Triple (Q r) (on_result r f g) R
  unfolding on_result
  triple_on_result (ok a) hf hg = hg a
  triple_on_result (err e) hf hg = hf e

module _ {E A B : Type 0} {P : World → Type 0} {R : B → World → Type 0} where
  pub triple_attempt :
      {Q : Result E A → World → Type 0} {m : M (Result E A)} {f : E → M B} {g : A → M B}
      → Triple P m Q
      → ((e : E) → Triple (Q (err e)) (f e) R)
      → ((a : A) → Triple (Q (ok a)) (g a) R)
      → Triple P (attempt m f g) R
  unfolding attempt
  triple_attempt {Q = Q} {m = m} {f = f} {g = g} hm hf hg = record {
    at = λ w p. (triple_on_result Q (m w).0 hf hg).at (m w).1 (hm.at w p);
  }

  -- The same where the first call keeps what held before it.
  pub keeps_attempt :
      {m : M (Result E A)} {f : E → M B} {g : A → M B}
      → Keeps P m
      → ((e : E) → Triple P (f e) R)
      → ((a : A) → Triple P (g a) R)
      → Triple P (attempt m f g) R
  keeps_attempt hm hf hg = triple_attempt {Q = λ _. P} hm hf hg

module _ {A B : Type 0} {P : World → Type 0} {R : B → World → Type 0} where
  pub keeps_bind :
      {m : M A} {f : A → M B} → Keeps P m → ((a : A) → Triple P (f a) R) → Triple P (m >>= f) R
  keeps_bind hm hf = triple_bind {Q = λ _. P} hm hf

module _ {P : World → Type 0} {Q : Unit {0} → World → Type 0} where
  pub triple_set_step :
      (n : StepName) (state : StepState) (detail : String)
      → ((w : World) → P w → Q tt (record w { steps = set_step_in n state detail w.steps }))
      → Triple P (set_step n state detail) Q
  unfolding set_step
  triple_set_step n state detail h = record { at = h }

-- A step is no event.
pub set_step-Keeps :
    (P : Trace → Type 0) (n : StepName) (state : StepState) (detail : String)
    → Keeps (λ w. P w.trace) (set_step n state detail)
set_step-Keeps P n state detail = triple_set_step n state detail (λ w p. p)

-- One postcondition for a value, one for an error.
abbrev pub Either :
    {E A : Type 0} → (World → Type 0) → (World → Type 0) → Result E A → World → Type 0
Either Good Bad (ok _) w = Good w
Either Good Bad (err _) w = Bad w
