-- ===== src/Model/Stale.antt =====
-- What a failed poll leaves in the cache.
use pademelon.Base.{◌≡◌, refl, ◌∙◌, ap, String, true, false, List, [], ◌∷◌, map, All}
use pademelon.Model.{Vm, Cache, Snapshot, get, set, set_error, mark_stale}

All-mark_stale : (vms : List Vm) → All (λ v. v.stale ≡ true) (map mark_stale vms)
All-mark_stale [] = tt
All-mark_stale (v ∷ vms) = (refl, All-mark_stale vms)

un_mark : (vms : List Vm) → map mark_stale (map mark_stale vms) ≡ map mark_stale vms
un_mark [] = refl
un_mark (v ∷ vms) = ap (λ rest. mark_stale v ∷ rest) (un_mark vms)

-- Failed polls in a row, with their errors.
unfoldable pub set_errors : List String → Cache → Cache
set_errors [] c = c
set_errors (e ∷ rest) c = set_errors rest (set_error c e)

-- What no failed poll changes: the machines but for their marks, and the time of the good poll.
record IsKept (s : Snapshot) (c : Cache) : Type 0 where
  vms : map mark_stale c.snap.vms ≡ map mark_stale s.vms
  polled : c.snap.polled ≡ s.polled

set_error-IsKept : (s : Snapshot) (c : Cache) (e : String) → IsKept s c → IsKept s (set_error c e)
unfolding set_error
set_error-IsKept s c e h = record { vms = un_mark c.snap.vms ∙ h.vms; polled = h.polled }

set_errors-IsKept :
    (s : Snapshot) (failures : List String) (c : Cache)
    → IsKept s c
    → IsKept s (set_errors failures c)
unfolding set_errors
set_errors-IsKept s [] c h = h
set_errors-IsKept s (e ∷ rest) c h =
    set_errors-IsKept s rest (set_error c e) (set_error-IsKept s c e h)

-- However many polls fail in a row after a good one, the cache reports the error of the last,
-- and holds the machines of the good poll, each of them marked stale and otherwise as it was.
pub set_error_keeps :
    (c : Cache) (s : Snapshot) (failures : List String) (last : String)
    → let after = get (set_error (set_errors failures (set c s)) last) in
      (after.vms ≡ map mark_stale s.vms)
      × All (λ v. v.stale ≡ true) after.vms
      × (after.connected ≡ false)
      × (after.error ≡ last)
      × (after.polled ≡ s.polled)
unfolding get set set_error
set_error_keeps c s failures last =
    let kept = set_errors-IsKept s failures (set c s) (record { vms = refl; polled = refl }) in
    (kept.vms, All-mark_stale (set_errors failures (set c s)).snap.vms, refl, refl, kept.polled)
