-- ===== src/Libvirt/Rates/Forget.antt =====
-- Which samples are gone once a domain was forgotten.
use Prim.Native.Char.{Char, code, nul}
use Prim.Native.String.{◌++◌}
use text.Mathlib.TextLemmas.{nil-append, cons-append}
use text.Mathlib.TextEquality.{Char-path}
use pademelon.Base.{
  true≢false, ◌≡◌, refl, String, Bool, true, false, none, [], ◌∷◌, Table, lookup, retain, not,
  arith, nat_eq, if◌then◌else◌, ◌==◌, eq_iff, has_prefix, ◌∙◌, sym, subst, Bool-cases, inl, inr,
}
use pademelon.Libvirt.Rates.{Sample, separator, sample_key, forget_domain_samples}

-- A name without the separator in it, as libvirt's names are.
unfoldable pub is_plain : String → Bool
is_plain String.[] = true
is_plain (String.◌∷◌ c s) = let rest = is_plain s in if nat_eq (code c) 0 then false else rest

prefix_nil : (s : String) → has_prefix s "" ≡ true
unfolding has_prefix
prefix_nil String.[] = refl
prefix_nil (String.◌∷◌ c s) = refl

prefix-cons :
    (d c : Char) (t s x y : String)
    → has_prefix (String.◌∷◌ d t ++ x) (String.◌∷◌ c s ++ y)
      ≡ (if nat_eq (code d) (code c) then has_prefix (t ++ x) (s ++ y) else false)
unfolding has_prefix
prefix-cons d c t s x y = rw (cons-append d t x, cons-append c s y) refl

-- An empty name against one that is not, either way round.
short-prefix :
    (c : Char) (s dev y : String)
    → nat_eq (code c) 0 ≡ false
    → has_prefix ("" ++ (separator ++ dev)) (String.◌∷◌ c s ++ y) ≡ false
unfolding has_prefix separator
short-prefix c s dev y h =
    rw (nil-append (separator ++ dev), cons-append nul "" dev, cons-append c s y) (ground arith)

prefix-short :
    (d : Char) (t x : String)
    → nat_eq (code d) 0 ≡ false
    → has_prefix (String.◌∷◌ d t ++ x) ("" ++ separator) ≡ false
unfolding has_prefix separator
prefix-short d t x h = rw (cons-append d t x) (ground arith)

-- A key that starts with a domain and a separator is a key of that domain.
same_domain :
    (domain other rest : String)
    → is_plain domain ≡ true
    → is_plain other ≡ true
    → has_prefix (other ++ (separator ++ rest)) (domain ++ separator) ≡ true
    → other ≡ domain
unfolding is_plain
same_domain String.[] String.[] dev p q h = refl
same_domain String.[] (String.◌∷◌ d t) dev p q h =
    absurd (true≢false (sym h ∙ prefix-short d t (separator ++ dev) (ground (arith, q))))
same_domain (String.◌∷◌ c s) String.[] dev p q h =
    absurd (true≢false (sym h ∙ short-prefix c s dev separator (ground (arith, p))))
same_domain (String.◌∷◌ c s) (String.◌∷◌ d t) dev p q h =
    let step = sym (prefix-cons d c t s (separator ++ dev) separator) ∙ h in
    elim (Bool-cases (nat_eq (code d) (code c))) [
      | inl e ↦
          let rest : t ≡ s =
            same_domain s t dev (ground (arith, p)) (ground (arith, q)) (ground (arith, step, e)) in
          rw (Char-path d c (ground (arith, e)), rest) refl
      | inr e ↦ absurd (true≢false (sym (ground (arith, step, e))))
    ]

own-prefix :
    (domain rest : String) → has_prefix (domain ++ (separator ++ rest)) (domain ++ separator) ≡ true
unfolding has_prefix separator
own-prefix String.[] dev =
    rw (nil-append (separator ++ dev), cons-append nul "" dev) (prefix_nil ("" ++ dev))
own-prefix (String.◌∷◌ c s) dev =
    rw (prefix-cons c c s s (separator ++ dev) separator) (ground (arith, own-prefix s dev))

lookup-retain :
    {V : Type 0} (keep_key : String → Bool) (key : String) (t : Table V)
    → lookup key (retain (λ k v. keep_key k) t) ≡ (if keep_key key then lookup key t else none)
unfolding lookup retain
lookup-retain keep_key key [] = ground arith
lookup-retain keep_key key ((k, v) ∷ rest) =
    let ih = lookup-retain keep_key key rest in
    elim (Bool-cases (k == key)) [
      | inl e ↦
          let same : k ≡ key = (eq_iff k key).0 e in
          rw (sym same) (elim (Bool-cases (keep_key k)) [
            | inl kept ↦ rw kept (ground arith)
            | inr dropped ↦ rw dropped (
                ground (
                  arith,
                  dropped,
                  subst
                      (λ x.
                        lookup x (retain (λ n v. keep_key n) rest)
                        ≡ (if keep_key x then lookup x rest else none))
                      (sym same) ih,
                ))
          ])
      | inr e ↦ elim (Bool-cases (keep_key k)) [
        | inl kept ↦ rw (kept, e) (ground (arith, ih, e))
        | inr dropped ↦ rw (dropped, e) ih
      ]
    ]

-- After a domain was forgotten none of its devices has a sample, and those of every other domain are
-- as they were, whatever domain's name is a part of another's.
pub forget_domain_samples_lem :
    (domain other dev : String) (prevs : Table Sample)
    → is_plain domain ≡ true
    → is_plain other ≡ true
    → lookup (sample_key other dev) (forget_domain_samples domain prevs)
      ≡ (if other == domain then none else lookup (sample_key other dev) prevs)
unfolding forget_domain_samples sample_key
forget_domain_samples_lem domain other dev prevs p q =
    let key =
      lookup-retain (λ k. not (has_prefix k (domain ++ separator))) (sample_key other dev) prevs in
    elim (Bool-cases (other == domain)) [
      | inl e ↦
          let own = own-prefix domain dev in
          let same : other ≡ domain = (eq_iff other domain).0 e in
          rw e (ground (arith, key, own, same))
      | inr e ↦ elim (Bool-cases (has_prefix (other ++ (separator ++ dev)) (domain ++ separator))) [
        | inl h ↦
            absurd
              (true≢false (sym ((eq_iff other domain).1 (same_domain domain other dev p q h)) ∙ e))
        | inr h ↦ rw e (ground (arith, key, h))
      ]
    ]
