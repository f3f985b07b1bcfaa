-- ===== src/Truenas/Calls/Fates/Channels.antt =====
-- internal/truenas/truenas.go: what the sends, the failure of all calls and a caller's receive do to
-- the book of fates.
use mathlib.Core.List.{append-nil}
use pademelon.Base.{
  ℕ, ◌+◌, ◌≤◌, ◌≡◌, refl, String, true, false, List, [], ◌∷◌, err, nat_eq, length, arith,
  Bool-cases, inl, inr, ap, sym, ◌∙◌,
}
use pademelon.Truenas.Calls.{
  CallResult, Calls, is_pending, deliver, fail_pending, send_from, take_from,
}
use pademelon.Truenas.Calls.Load.{count, held, load, turn_from}
use pademelon.Truenas.Calls.Fates.{
  Fate, Act, put, fail, Change, results_for, fate_of, answers, book,
}
use pademelon.Truenas.Calls.Fates.Holds.{
  length-results_for, count-pending, count-settled, results_for-append, is_nil-of,
  fail_each-settled, fail_each-pending,
}
use pademelon.Truenas.Calls.Fates.Table.{pending_fate}

-- The one result for a call is the head of what is in hand.
sole_result :
    (c : Calls) (id : ℕ) (r : CallResult) (rest : List (ℕ × CallResult))
    → c.in_hand ≡ (id, r) ∷ rest
    → load c id ≤ 1
    → (results_for id rest ≡ []) × (c.channels id ≡ [])
unfolding load held
sole_result c id r rest h bound =
    let one : 1 + held id rest + length (c.channels id) ≤ 1 = ground (arith, ap (held id) h) in
    (
      is_nil-of (results_for id rest) (omega (arith, length-results_for id rest)),
      is_nil-of (c.channels id) (omega arith),
    )

pub send_keeps :
    (c : Calls) (hand : List (ℕ × CallResult)) (k : ℕ)
    → c.in_hand ≡ hand
    → load c k ≤ 1
    → book (send_from hand c) k ≡ book c k
unfolding send_from book answers deliver results_for
send_keeps c [] k h bound = refl
send_keeps c ((id, r) ∷ rest) k h bound = elim (Bool-cases (nat_eq k id)) [
  | inl same ↦
      let at : k ≡ id = ground (arith, same) in
      let (first, free) = sole_result c k r rest (rw at h) bound in rw (h, same, first, free) refl
  | inr other ↦ rw (h, other) refl
]

pub turn_keeps :
    (c : Calls) (hand : List (ℕ × CallResult)) (k : ℕ)
    → c.in_hand ≡ hand
    → load c k ≤ 1
    → book (turn_from hand c) k ≡ book c k
unfolding turn_from book answers results_for
turn_keeps c [] k h bound = refl
turn_keeps c ((id, r) ∷ rest) k h bound = elim (Bool-cases (nat_eq k id)) [
  | inl same ↦
      let at : k ≡ id = ground (arith, same) in
      let (first, free) = sole_result c k r rest (rw at h) bound in
      rw (h, results_for-append k rest ((id, r) ∷ []), same, first) refl
  | inr other ↦
      rw (h, results_for-append k rest ((id, r) ∷ []), other, append-nil (results_for k rest)) refl
]

fail_pending-found :
    (e : String) (c : Calls) (k : ℕ)
    → load c k ≤ 1
    → is_pending k c.pending ≡ true
    → book (fail_pending e c) k ≡ Fate.answered (err e)
unfolding fail_pending book answers fate_of is_pending load
fail_pending-found e c k bound waiting =
    let once = count-pending k c.pending waiting in
    let none_held =
      is_nil-of (results_for k c.in_hand)
        (omega (arith, length-results_for k c.in_hand, bound, once)) in
    let free = is_nil-of (c.channels k) (omega (arith, bound, once)) in
    rw (none_held, fail_each-pending e c.pending c.channels k (omega (arith, bound, once)) free)
      refl

fail_pending-left :
    (e : String) (c : Calls) (k : ℕ)
    → is_pending k c.pending ≡ false
    → book (fail_pending e c) k ≡ book c k
unfolding fail_pending book answers is_pending
fail_pending-left e c k settled =
    rw (fail_each-settled e c.pending c.channels k (count-settled k c.pending settled), settled)
      refl

fail_settled :
    (e : String) (c : Calls) (k : ℕ) (l : List CallResult)
    → is_pending k c.pending ≡ false
    → answers c k ≡ l
    → fail e (book c k) ≡ book c k
unfolding fail fate_of book
fail_settled e c k [] settled h = rw (settled, h) refl
fail_settled e c k (r ∷ l) settled h = rw (settled, h) refl

pub fail_fate :
    (e : String) (c : Calls) (k : ℕ) → load c k ≤ 1 → book (fail_pending e c) k ≡ fail e (book c k)
unfolding fail
fail_fate e c k bound = elim (Bool-cases (is_pending k c.pending)) [
  | inl waiting ↦
      fail_pending-found e c k bound waiting ∙ sym (ap (fail e) (pending_fate c k waiting))
  | inr settled ↦
      fail_pending-left e c k settled ∙ sym (fail_settled e c k (answers c k) settled refl)
]

-- A result in the channel of a call is the only one, and the call is off the table.
channel_alone :
    (c : Calls) (id : ℕ) (r : CallResult) (rest : List CallResult)
    → c.channels id ≡ r ∷ rest
    → load c id ≤ 1
    → (is_pending id c.pending ≡ false) × (results_for id c.in_hand ≡ []) × (rest ≡ [])
unfolding load
channel_alone c id r rest h bound =
    let one : count id c.pending + held id c.in_hand + (1 + length rest) ≤ 1 =
      ground (arith, ap length h) in
    (
      ground (arith, count-pending id c.pending),
      is_nil-of (results_for id c.in_hand) (omega (arith, length-results_for id c.in_hand)),
      is_nil-of rest (omega arith),
    )

pub channel_fate :
    (c : Calls) (id : ℕ) (r : CallResult) (rest : List CallResult)
    → c.channels id ≡ r ∷ rest
    → load c id ≤ 1
    → book c id ≡ Fate.answered r
unfolding book answers fate_of
channel_fate c id r rest h bound =
    let (off, first, alone) = channel_alone c id r rest h bound in rw (off, first, h) refl

take_put :
    (c : Calls) (id : ℕ) (r : CallResult) (rest : List CallResult) (k : ℕ)
    → c.channels id ≡ r ∷ rest
    → load c id ≤ 1
    → book (take_from id (r ∷ rest) c).1 k ≡ put id Fate.idle (book c) k
unfolding take_from book answers fate_of put
take_put c id r rest k h bound = elim (Bool-cases (nat_eq k id)) [
  | inl same ↦
      let at : k ≡ id = ground (arith, same) in
      let (off, first, alone) = channel_alone c id r rest h bound in
      rw (same, at, off, first, alone) refl
  | inr other ↦ rw other refl
]

pub take_change :
    (c : Calls) (id : ℕ) (chan : List CallResult)
    → c.channels id ≡ chan
    → load c id ≤ 1
    → Change (Act.collect id (take_from id chan c).0) (book c) (book (take_from id chan c).1)
unfolding take_from
take_change c id [] h bound = Change.nothing_yet id λ k. refl
take_change c id (r ∷ rest) h bound =
    Change.collected id r (channel_fate c id r rest h bound) λ k. take_put c id r rest k h bound
