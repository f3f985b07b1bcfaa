-- ===== src/Cmd/Loop/Debounce.antt =====
-- What becomes of a request for an early poll.
use mathlib.Core.List.{◌++◌}
use pademelon.Base.{
  ℕ, ◌+◌, ◌≤◌, ◌≡◌, ◌≢◌, ◌⊎◌, inl, inr, refl, Bool, true, false, List, [], ◌∷◌, if◌then◌else◌, leb,
  arith, All, All-append, Bool-cases, subst, nat_eq, length, le→leb, false≢true, sym, ap, ◌∙◌,
}
use pademelon.Clocks.{nudge_interval}
use pademelon.Cmd.Loop.{Loop, started, polled, tick, poke, take, fire, fire_from}

-- The loop after some steps, and whether a request has come since the last poll.
pub data Run : Loop → Bool → Type 0 where
  begun : (now : ℕ) → Run (started now) false
  ticked : (now : ℕ) {s : Loop} {w : Bool} → s.last ≤ now → Run s w → Run (tick now s) false
  poked : {s : Loop} {w : Bool} → Run s w → Run (poke s) true
  taken :
      (now : ℕ) {s : Loop} {w : Bool}
      → s.slot ≡ true
      → s.last ≤ now
      → Run s w
      → Run (take now s) (if nat_eq (length (take now s).polls) (length s.polls) then w else false)
  fired : {s : Loop} {w : Bool} → Run s w → Run (fire s) w

-- A request that no poll has met is in the slot, or a timer will put it there.
pub record IsKept (s : Loop) (w : Bool) : Type 0 where
  pub waits : (w ≡ false) ⊎ ((s.slot ≡ true) ⊎ (s.timers ≢ []))
  pub soon : All (λ (due : ℕ). due ≤ s.last + nudge_interval) s.timers

All-weaken :
    (a b : ℕ) (l : List ℕ) → a ≤ b → All (λ (due : ℕ). due ≤ a) l → All (λ (due : ℕ). due ≤ b) l
All-weaken a b [] le h = tt
All-weaken a b (x ∷ l) le h = (omega (arith, h.0, le), All-weaken a b l le h.1)

append_nonempty : (l : List ℕ) (x : ℕ) → l ++ (x ∷ []) ≢ []
append_nonempty [] x e = cc
append_nonempty (y ∷ l) x e = cc

fire-IsKept :
    (s : Loop) (w : Bool) (l : List ℕ) → s.timers ≡ l → IsKept s w → IsKept (fire_from l s) w
unfolding fire_from poke
fire-IsKept s w [] at k = k
fire-IsKept s w (x ∷ l) at k = record {
  waits = inr (inl refl);
  soon = (subst (All (λ (due : ℕ). due ≤ s.last + nudge_interval)) at k.soon).1;
}

take-IsKept :
    (now : ℕ) (s : Loop) (w : Bool)
    → s.last ≤ now
    → IsKept s w
    → IsKept (take now s) (if nat_eq (length (take now s).polls) (length s.polls) then w else false)
unfolding take polled
take-IsKept now s w later k = elim (Bool-cases (leb (s.last + nudge_interval) now)) [
  | inl late ↦ rw late (record {
    waits = inl (ground arith);
    soon =
        All-weaken (s.last + nudge_interval) (now + nudge_interval) s.timers (omega (arith, later))
          k.soon;
  })
  | inr early ↦ rw early (record {
    waits = inr (inr (append_nonempty s.timers (s.last + nudge_interval)));
    soon =
        All-append (λ (due : ℕ). due ≤ s.last + nudge_interval) s.timers
          ((s.last + nudge_interval) ∷ []) k.soon (omega arith, tt);
  })
]

Run-IsKept : {s : Loop} {w : Bool} → Run s w → IsKept s w
unfolding started tick poke fire polled
Run-IsKept (Run.begun now) = record { waits = inl refl; soon = tt }
Run-IsKept (Run.ticked now {s} {w} later r) = record {
  waits = inl refl;
  soon =
      All-weaken (s.last + nudge_interval) (now + nudge_interval) s.timers (omega (arith, later))
        (Run-IsKept r).soon;
}
Run-IsKept (Run.poked r) = record { waits = inr (inl refl); soon = (Run-IsKept r).soon }
Run-IsKept (Run.taken now {s} {w} full later r) = take-IsKept now s w later (Run-IsKept r)
Run-IsKept (Run.fired {s} {w} r) = fire-IsKept s w s.timers refl (Run-IsKept r)

refilled :
    (s : Loop) (l : List ℕ)
    → s.timers ≡ l
    → (s.slot ≡ true) ⊎ (s.timers ≢ [])
    → ((fire_from l s).slot ≡ true)
      × ((fire_from l s).last ≡ s.last)
      × ((fire_from l s).polls ≡ s.polls)
unfolding fire_from poke
refilled s [] at (inl full) = (full, refl, refl)
refilled s [] at (inr armed) = absurd (armed at)
refilled s (due ∷ rest) at h = (refl, refl, refl)

take_late :
    (now : ℕ) (s : Loop) → s.last + nudge_interval ≤ now → (take now s).polls ≡ now ∷ s.polls
unfolding take polled
take_late now s late = rw (le→leb (s.last + nudge_interval) now late) refl

wanted : {s : Loop} → IsKept s true → (s.slot ≡ true) ⊎ (s.timers ≢ [])
wanted k = elim k.waits [ inl e ↦ absurd (false≢true (sym e)) | inr h ↦ h ]

-- However ticks, requests, timers and the loop's own rounds follow each other: if a request has come
-- since the last poll, every timer is due by the end of the interval after that poll, and once the
-- earliest, if there is one, has fired, the slot is full, and the round that takes it at any time
-- from the end of the interval on polls. No request is lost.
pub request_served :
    {s : Loop} (now : ℕ)
    → Run s true
    → s.last + nudge_interval ≤ now
    → All (λ (due : ℕ). due ≤ now) s.timers
      × ((fire s).slot ≡ true)
      × ((take now (fire s)).polls ≡ now ∷ s.polls)
unfolding fire
request_served {s} now r late =
    let k = Run-IsKept r in
    let f = refilled s s.timers refl (wanted k) in
    (
      All-weaken (s.last + nudge_interval) now s.timers late k.soon,
      f.0,
      take_late now (fire_from s.timers s) (omega (arith, late, f.1)) ∙ ap (λ l. now ∷ l) f.2,
    )
