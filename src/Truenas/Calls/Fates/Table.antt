-- ===== src/Truenas/Calls/Fates/Table.antt =====
-- internal/truenas/truenas.go: what registering a call, taking it off the table and giving it up
-- do to the book of fates.
use pademelon.Base.{
  ℕ, ◌+◌, ◌≡◌, ◌≢◌, refl, true, false, [], ◌∷◌, List, nat_eq, arith, Bool-cases, inl, inr, ap,
  subst,
}
use pademelon.Truenas.Calls.{CallResult, Calls, is_pending, enroll, remove_pending, Message, claim}
use pademelon.Truenas.Calls.Load.{load}
use pademelon.Truenas.Calls.Slots.{IsSound}
use pademelon.Truenas.Calls.Fates.{Fate, Act, put, Change, results_for, fate_of, answers, book}
use pademelon.Truenas.Calls.Fates.Holds.{load-answers, count-pending, pending-without, is_nil-of}

pub pending_fate : (c : Calls) (id : ℕ) → is_pending id c.pending ≡ true → book c id ≡ Fate.waiting
unfolding book fate_of
pending_fate c id h = rw h refl

-- A call with no load is idle.
idle_fate : (c : Calls) (id : ℕ) → load c id ≡ 0 → book c id ≡ Fate.idle
unfolding book fate_of
idle_fate c id h = elim (Bool-cases (is_pending id c.pending)) [
  | inl waiting ↦ absurd (omega (arith, load-answers c id, count-pending id c.pending waiting))
  | inr settled ↦ rw (settled, is_nil-of (answers c id) (omega (arith, load-answers c id, h))) refl
]

book-enroll :
    (c : Calls) (k : ℕ) → book (enroll c).1 k ≡ put (c.next_id + 1) Fate.waiting (book c) k
unfolding enroll put book answers is_pending fate_of
book-enroll c k = ground arith

pub enroll_change :
    (c : Calls) → IsSound c → Change (Act.open_call (enroll c).0) (book c) (book (enroll c).1)
unfolding enroll
enroll_change c h =
    let id = c.next_id + 1 in
    Change.opened id (idle_fate c id (h.unused id (omega arith))) (book-enroll c)

book-claim :
    (id : ℕ) (r : CallResult) (c : Calls) (k : ℕ)
    → is_pending id c.pending ≡ true
    → book (claim (Message.reply id r) c) k ≡ put id (Fate.answered r) (book c) k
unfolding claim put book answers fate_of results_for
book-claim id r c k h = elim (Bool-cases (nat_eq k id)) [
  | inl same ↦ rw (h, pending-without id k c.pending, same) refl
  | inr other ↦ rw (h, pending-without id k c.pending, other) refl
]

claim_none :
    (id : ℕ) (r : CallResult) (c : Calls)
    → is_pending id c.pending ≡ false
    → claim (Message.reply id r) c ≡ c
unfolding claim
claim_none id r c h = rw h refl

-- What a message is to the callers.
unfoldable pub message_act : Message → Act
message_act Message.undecodable = Act.inner
message_act Message.notification = Act.inner
message_act Message.unreadable_id = Act.inner
message_act (Message.reply id r) = Act.reply_to id r

not_waiting : (l : List CallResult) → fate_of false l ≡ Fate.waiting → ⊥
unfolding fate_of
not_waiting [] e = cc
not_waiting (r ∷ l) e = cc

settled_fate : (c : Calls) (id : ℕ) → is_pending id c.pending ≡ false → book c id ≢ Fate.waiting
unfolding book
settled_fate c id h e =
    not_waiting (answers c id) (subst (λ b. fate_of b (answers c id) ≡ Fate.waiting) h e)

pub claim_change : (m : Message) (c : Calls) → Change (message_act m) (book c) (book (claim m c))
unfolding claim message_act
claim_change Message.undecodable c = Change.unseen λ k. refl
claim_change Message.notification c = Change.unseen λ k. refl
claim_change Message.unreadable_id c = Change.unseen λ k. refl
claim_change (Message.reply id r) c = elim (Bool-cases (is_pending id c.pending)) [
  | inl h ↦ Change.replied id r (pending_fate c id h) λ k. book-claim id r c k h
  | inr h ↦ Change.too_late id r (settled_fate c id h) λ k. ap (λ d. book d k) (claim_none id r c h)
]

remove_put :
    (id : ℕ) (c : Calls) (k : ℕ)
    → is_pending id c.pending ≡ true
    → answers c id ≡ []
    → book (remove_pending id c) k ≡ put id Fate.idle (book c) k
unfolding remove_pending put book answers fate_of
remove_put id c k h free = elim (Bool-cases (nat_eq k id)) [
  | inl same ↦
      let at : k ≡ id = ground (arith, same) in
      rw (pending-without id k c.pending, same, at, free) refl
  | inr other ↦ rw (pending-without id k c.pending, other) refl
]

remove_keeps :
    (id : ℕ) (c : Calls) (k : ℕ)
    → is_pending id c.pending ≡ false
    → book (remove_pending id c) k ≡ book c k
unfolding remove_pending book answers
remove_keeps id c k h = elim (Bool-cases (nat_eq k id)) [
  | inl same ↦
      let at : k ≡ id = ground (arith, same) in
      rw (pending-without id k c.pending, same, at, h) refl
  | inr other ↦ rw (pending-without id k c.pending, other) refl
]

pub remove_change :
    (id : ℕ) (c : Calls) → IsSound c → Change (Act.give_up id) (book c) (book (remove_pending id c))
remove_change id c h = elim (Bool-cases (is_pending id c.pending)) [
  | inl waiting ↦
      let free : answers c id ≡ [] =
        is_nil-of (answers c id)
          (omega (arith, load-answers c id, count-pending id c.pending waiting, h.bound id)) in
      Change.given_up id (pending_fate c id waiting) λ k. remove_put id c k waiting free
  | inr settled ↦ Change.over_before id (settled_fate c id settled) λ k. remove_keeps id c k settled
]
