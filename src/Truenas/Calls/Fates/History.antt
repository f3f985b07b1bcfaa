-- ===== src/Truenas/Calls/Fates/History.antt =====
-- internal/truenas/truenas.go: where the answer to a call comes from.
use pademelon.Base.{
  ℕ, ◌≡◌, ◌≢◌, refl, ◌⊎◌, inl, inr, String, ok, nat_eq, arith, Bool-cases, sym, ◌∙◌,
}
use pademelon.Truenas.Calls.{CallResult, Calls, is_pending}
use pademelon.Truenas.Calls.Slots.{Reachable}
use pademelon.Truenas.Calls.Fates.{
  Fate, Book, Act, put, fail, Change, book, results_for, fate_of, answers,
}
use pademelon.Truenas.Calls.Fates.Refinement.{act_of, step-Change}

-- Among the steps that led to a state, a read loop read this reply off a connection.
unfoldable pub Came : ℕ → CallResult → {c : Calls} → Reachable c → Type 0
Came id r Reachable.fresh = ⊥
Came id r (Reachable.next h s) = (act_of s ≡ Act.reply_to id r) ⊎ Came id r h

put-answered :
    (k id : ℕ) (fate : Fate) (old : Book) (r : CallResult)
    → put k fate old id ≡ Fate.answered r
    → ((id ≡ k) × (fate ≡ Fate.answered r)) ⊎ (old id ≡ Fate.answered r)
unfolding put
put-answered k id fate old r h = elim (Bool-cases (nat_eq id k)) [
  | inl same ↦ inl (ground (arith, same), sym (rw same refl) ∙ h)
  | inr other ↦ inr (sym (rw other refl) ∙ h)
]

fail-answered :
    (e raw : String) (fate : Fate)
    → fail e fate ≡ Fate.answered (ok raw)
    → fate ≡ Fate.answered (ok raw)
unfolding fail
fail-answered e raw Fate.idle h = cc
fail-answered e raw Fate.waiting h = cc
fail-answered e raw (Fate.answered r) h = h

waiting≢answered : {r : CallResult} → Fate.waiting ≢ Fate.answered r
waiting≢answered e = cc

idle≢answered : {r : CallResult} → Fate.idle ≢ Fate.answered r
idle≢answered e = cc

-- Data comes into the book with a reply only, and for the id of that reply.
answered_before :
    {a : Act} {old new : Book} (id : ℕ) (raw : String)
    → Change a old new
    → new id ≡ Fate.answered (ok raw)
    → (a ≡ Act.reply_to id (ok raw)) ⊎ (old id ≡ Fate.answered (ok raw))
answered_before {old = old} id raw (Change.opened k idle at) h =
    elim (put-answered k id Fate.waiting old (ok raw) (sym (at id) ∙ h)) [
      | inl (same, e) ↦ absurd (waiting≢answered e)
      | inr before ↦ inr before
    ]
answered_before {old = old} id raw (Change.replied k r waiting at) h =
    elim (put-answered k id (Fate.answered r) old (ok raw) (sym (at id) ∙ h)) [
      | inl (same, here) ↦ inl cc
      | inr before ↦ inr before
    ]
answered_before id raw (Change.too_late k r settled at) h = inr (sym (at id) ∙ h)
answered_before {old = old} id raw (Change.all_failed e at) h =
    inr (fail-answered e raw (old id) (sym (at id) ∙ h))
answered_before {old = old} id raw (Change.given_up k waiting at) h =
    elim (put-answered k id Fate.idle old (ok raw) (sym (at id) ∙ h)) [
      | inl (same, e) ↦ absurd (idle≢answered e)
      | inr before ↦ inr before
    ]
answered_before id raw (Change.over_before k settled at) h = inr (sym (at id) ∙ h)
answered_before {old = old} id raw (Change.collected k r found at) h =
    elim (put-answered k id Fate.idle old (ok raw) (sym (at id) ∙ h)) [
      | inl (same, e) ↦ absurd (idle≢answered e)
      | inr before ↦ inr before
    ]
answered_before id raw (Change.nothing_yet k at) h = inr (sym (at id) ∙ h)
answered_before id raw (Change.unseen at) h = inr (sym (at id) ∙ h)

-- The data that a call was answered with came as the reply to its id.
pub answered-Came :
    (id : ℕ) (raw : String) {c : Calls} (h : Reachable c)
    → book c id ≡ Fate.answered (ok raw)
    → Came id (ok raw) h
unfolding Came book fate_of is_pending answers results_for
answered-Came id raw Reachable.fresh e = absurd (idle≢answered e)
answered-Came id raw (Reachable.next h s) e = elim (answered_before id raw (step-Change h s) e) [
  | inl came ↦ inl came
  | inr before ↦ inr (answered-Came id raw h before)
]
