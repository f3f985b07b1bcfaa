-- ===== src/Base/Text.antt =====
-- The functions of Go's `strings` that the program uses, over the characters of a text.
use Prim.Native.Char.{Char, code}
use Prim.Native.String.{String, ◌++◌}
use mathlib.Core.Option
use mathlib.Core.Path.{◌≡◌, ap, ◌∙◌}
use mathlib.Core.Logic.{inl, inr}
use mathlib.Core.Bool.{Bool, true, false}
use mathlib.Core.Option.{Option, none, some}
use native.Mathlib.Omega.{arith}
use text.Mathlib.Text.{find?}
use text.Mathlib.TextEquality.{Char-path}
use text.Mathlib.TextLemmas.{nil-append, cons-append}
use pademelon.Base.Tests.{nat_eq, if◌then◌else◌, Bool-cases, Option-cases}

-- `strings.Contains`.
abbrev pub contains : String → String → Bool
contains s t = elim (find? s t) [ none ↦ false | some _ ↦ true ]

-- `strings.Cut(s, "@")`; `none` where there is no `@`.
unfoldable pub cut_at : String → Option (String × String)
cut_at String.[] = none
cut_at (String.◌∷◌ c s) =
    if nat_eq (code c) b'@'
    then some ("", s)
    else Option.map (λ (p : String × String). (String.◌∷◌ c p.0, p.1)) (cut_at s)

-- `strings.CutPrefix`.
unfoldable pub strip_prefix : String → String → Option String
strip_prefix String.[] s = some s
strip_prefix (String.◌∷◌ c p) String.[] = none
strip_prefix (String.◌∷◌ c p) (String.◌∷◌ d s) =
    if nat_eq (code c) (code d) then strip_prefix p s else none

at_char : Char
at_char = "@"

at_sign : (c : Char) → nat_eq (code c) b'@' ≡ true → c ≡ at_char
unfolding at_char
at_sign c h = Char-path c "@" (ground arith)

-- Where a cut succeeds, the two parts around an `@` are the text.
pub cut_at-append : (s : String) {a b : String} → cut_at s ≡ some (a, b) → a ++ "@" ++ b ≡ s
unfolding cut_at at_char
cut_at-append String.[] h = cc
cut_at-append (String.◌∷◌ c s) {a} {b} h = elim (Bool-cases (nat_eq (code c) b'@')) [
  | inl e ↦
      let p : a ≡ "" = ground arith in
      let q : b ≡ s = ground arith in
      rw (p, q, at_sign c e)
        (nil-append ("@" ++ s) ∙ (cons-append "@" "" s ∙ ap (λ t. String.◌∷◌ "@" t) (nil-append s)))
  | inr e ↦ elim (Option-cases (cut_at s)) [
    | inl missing ↦ ground arith
    | inr (found, at) ↦
        let p : a ≡ String.◌∷◌ c found.0 = ground arith in
        let q : b ≡ found.1 = ground arith in
        rw (p, q)
          (cons-append c found.0 ("@" ++ found.1) ∙ ap (λ t. String.◌∷◌ c t) (cut_at-append s at))
  ]
]

-- What was stripped comes back.
pub strip_prefix-append :
    (p s : String) {rest : String} → strip_prefix p s ≡ some rest → p ++ rest ≡ s
unfolding strip_prefix
strip_prefix-append String.[] s {rest} h = nil-append rest ∙ (ground arith)
strip_prefix-append (String.◌∷◌ c p) String.[] h = cc
strip_prefix-append (String.◌∷◌ c p) (String.◌∷◌ d s) {rest} h =
    elim (Bool-cases (nat_eq (code c) (code d))) [
      | inl e ↦
          rw (Char-path c d (ground arith)) (
            cons-append d p rest
            ∙ ap (λ t. String.◌∷◌ d t) (strip_prefix-append p s (ground arith)))
      | inr e ↦ ground arith
    ]
