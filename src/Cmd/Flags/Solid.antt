-- ===== src/Cmd/Flags/Solid.antt =====
-- main.go: the token and the key, once they are resolved.
use pademelon.Base.{
  ◌≡◌, String, Bool, true, false, Result, ok, err, ◌&&◌, ◌||◌, not, ◌==◌, ok_inj, ok≢err, refl, ap,
  sym, subst, ◌∙◌, trim_space, trim_left, trim_right, arith, eq_iff, if◌then◌else◌, Bool-cases, inl,
  inr,
}
use pademelon.Cmd.Flags.{Outside, Secret, resolve_secret, reject_blank}

-- Whether a secret was given in any of the three ways.
unfoldable pub is_configured : Outside → String → String → String → Bool
is_configured o var file_var flag_value =
    not (flag_value == "") || not (o.getenv var == "") || not (o.getenv file_var == "")

-- A secret that was resolved: there exactly if it was given, and then not blank.
pub record IsSolid (configured : Bool) (value : String) : Type 0 where
  pub given : not (value == "") ≡ configured
  pub solid : not (value == "") && (trim_space value == "") ≡ false

blank_trimmed : trim_space "" ≡ ""
unfolding trim_space trim_left trim_right
blank_trimmed = refl

empty_blank : (value : String) → (value == "") ≡ true → (trim_space value == "") ≡ true
empty_blank value h =
    subst (λ v. (trim_space v == "") ≡ true) (sym ((eq_iff value "").0 h)) (rw blank_trimmed refl)

IsSolid-of :
    (configured : Bool) (value : String)
    → (configured ≡ false → value ≡ "")
    → (trim_space value == "") && configured ≡ false
    → IsSolid configured value
IsSolid-of true value unset h = record {
  given = ground (arith, h, empty_blank value);
  solid = ground (arith, h);
}
IsSolid-of false value unset h = rw (unset refl) (record { given = refl; solid = refl })

rejected-IsSolid :
    (complaint : String) (configured : Bool) (r : Result String Secret) {secret : Secret}
    → (configured ≡ false → r ≡ ok ("", ""))
    → reject_blank complaint configured r ≡ ok secret
    → IsSolid configured secret.0
unfolding reject_blank
rejected-IsSolid complaint configured (err e) unset h = absurd (ok≢err (sym h))
rejected-IsSolid complaint configured (ok (value, source)) {secret} unset h =
    elim (Bool-cases ((trim_space value == "") && configured)) [
      | inl blank ↦ absurd (ok≢err {e = complaint} (sym (sym (rw blank refl) ∙ h)))
      | inr fine ↦
          let same : (value, source) ≡ secret = ok_inj (sym (rw fine refl) ∙ h) in
          subst (IsSolid configured) (ap (λ (x : Secret). x.0) same) (
            IsSolid-of configured value (λ off. ap (λ (x : Secret). x.0) (ok_inj (unset off))) fine)
    ]

found_unset :
    (a b c : Bool) (x y z w : Result String Secret)
    → a || b || c ≡ false
    → (if a then x else if b then y else if c then z else w) ≡ w
found_unset true b c x y z w h = cc
found_unset false true c x y z w h = cc
found_unset false false true x y z w h = cc
found_unset false false false x y z w h = refl

pub resolve_secret-IsSolid :
    (o : Outside) (var file_var complaint flag_value : String) {secret : Secret}
    → resolve_secret o var file_var complaint flag_value ≡ ok secret
    → IsSolid (is_configured o var file_var flag_value) secret.0
unfolding resolve_secret is_configured
resolve_secret-IsSolid o var file_var complaint flag_value h =
    rejected-IsSolid complaint _ _
      (found_unset (not (flag_value == "")) (not (o.getenv var == ""))
        (not (o.getenv file_var == "")) _ _ _ _)
      h
