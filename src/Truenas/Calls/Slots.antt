-- ===== src/Truenas/Calls/Slots.antt =====
-- How full the channels of the calls can get.
use pademelon.Base.{
  ℕ, ◌+◌, ◌≤◌, ◌<◌, ◌≡◌, refl, String, List, [], ◌∷◌, nat_eq, length, arith, Bool-cases, inl, inr,
}
use pademelon.Truenas.Calls.{
  CallResult, Calls, no_calls, enroll, remove_pending, Message, claim, send, fail_pending, receive,
  send_from, take_from,
}
use pademelon.Truenas.Calls.Load.{
  count, held, load, turn, turn_from, load-enroll, enroll-load_new, enroll-load_old,
  load-remove_pending, load-claim, load-send_from, load-turn_from, load-fail_pending,
  load-take_from,
}

-- One step of any goroutine: a caller, a read loop, or a loss of the connection.
pub data Step : Calls → Calls → Type 0 where
  enrolled : (c : Calls) → Step c (enroll c).1
  claimed : (m : Message) (c : Calls) → Step c (claim m c)
  sent : (c : Calls) → Step c (send c)
  turned : (c : Calls) → Step c (turn c)
  failed : (e : String) (c : Calls) → Step c (fail_pending e c)
  forgotten : (id : ℕ) (c : Calls) → Step c (remove_pending id c)
  received : (id : ℕ) (c : Calls) → Step c (receive id c).1

pub data Reachable : Calls → Type 0 where
  fresh : Reachable no_calls
  next : {c c' : Calls} → Reachable c → Step c c' → Reachable c'

-- No call has more than one result owed or unread, and no id of the future has any.
pub record IsSound (c : Calls) : Type 0 where
  pub bound : (id : ℕ) → load c id ≤ 1
  pub unused : (id : ℕ) → c.next_id < id → load c id ≡ 0

next_id-claim : (m : Message) (c : Calls) → (claim m c).next_id ≡ c.next_id
unfolding claim
next_id-claim Message.undecodable c = refl
next_id-claim Message.notification c = refl
next_id-claim Message.unreadable_id c = refl
next_id-claim (Message.reply id r) c = ground arith

next_id-send : (c : Calls) (hand : List (ℕ × CallResult)) → (send_from hand c).next_id ≡ c.next_id
unfolding send_from
next_id-send c [] = refl
next_id-send c (x ∷ rest) = refl

next_id-turn : (c : Calls) (hand : List (ℕ × CallResult)) → (turn_from hand c).next_id ≡ c.next_id
unfolding turn_from
next_id-turn c [] = refl
next_id-turn c (x ∷ rest) = refl

next_id-fail : (e : String) (c : Calls) → (fail_pending e c).next_id ≡ c.next_id
unfolding fail_pending
next_id-fail e c = refl

next_id-remove : (id : ℕ) (c : Calls) → (remove_pending id c).next_id ≡ c.next_id
unfolding remove_pending
next_id-remove id c = refl

next_id-take :
    (id : ℕ) (c : Calls) (chan : List CallResult) → (take_from id chan c).1.next_id ≡ c.next_id
unfolding take_from
next_id-take id c [] = refl
next_id-take id c (x ∷ rest) = refl

owed_one :
    (c : Calls) (id : ℕ)
    → load c id ≤ 1
    → 1 ≤ count id c.pending + held id c.in_hand
    → count id c.pending + held id c.in_hand ≡ 1
unfolding load
owed_one c id bound owed = omega arith

slot_length :
    (c : Calls) (id : ℕ)
    → load c id ≤ 1
    → 1 ≤ count id c.pending + held id c.in_hand
    → length (c.channels id) ≡ 0
unfolding load
slot_length c id bound owed = omega arith

empty_slot : (l : List CallResult) → length l ≡ 0 → l ≡ []
empty_slot [] h = refl
empty_slot (x ∷ l) h = absurd (omega arith)

-- A step that adds no load and no id keeps the calls sound.
lighter-IsSound :
    {c c' : Calls}
    → c'.next_id ≡ c.next_id
    → ((k : ℕ) → load c' k ≤ load c k)
    → IsSound c
    → IsSound c'
lighter-IsSound same less h = record {
  bound = λ k. omega (arith, less k, h.bound k);
  unused = λ k lt. omega (arith, less k, h.unused k (omega (arith, lt, same)));
}

enroll_empty : (c : Calls) (k : ℕ) → load c k ≡ 0 → k ≡ c.next_id + 1 → load (enroll c).1 k ≤ 1
unfolding load
enroll_empty c k free at = omega (arith, enroll-load_new c k at)

enroll_bound : (c : Calls) (k : ℕ) → IsSound c → load (enroll c).1 k ≤ 1
enroll_bound c k h = elim (Bool-cases (nat_eq k (c.next_id + 1))) [
  | inl same ↦
      let at : k ≡ c.next_id + 1 = ground (arith, same) in
      enroll_empty c k (h.unused k (omega (arith, at))) at
  | inr other ↦ omega (arith, enroll-load_old c k other, h.bound k)
]

enroll-IsSound : (c : Calls) → IsSound c → IsSound (enroll c).1
unfolding enroll
enroll-IsSound c h = record {
  bound = λ k. enroll_bound c k h;
  unused = λ k lt. ground (arith, load-enroll c k, h.unused k (omega arith));
}

Step-IsSound : {c c' : Calls} → Step c c' → IsSound c → IsSound c'
unfolding send turn receive
Step-IsSound (Step.enrolled c) h = enroll-IsSound c h
Step-IsSound (Step.claimed m c) h = lighter-IsSound (next_id-claim m c) (load-claim m c) h
Step-IsSound (Step.sent c) h =
    lighter-IsSound (next_id-send c c.in_hand)
      (λ k. omega (arith, load-send_from c c.in_hand k refl)) h
Step-IsSound (Step.turned c) h =
    lighter-IsSound (next_id-turn c c.in_hand)
      (λ k. omega (arith, load-turn_from c c.in_hand k refl)) h
Step-IsSound (Step.failed e c) h =
    lighter-IsSound (next_id-fail e c) (λ k. omega (arith, load-fail_pending e c k)) h
Step-IsSound (Step.forgotten id c) h =
    lighter-IsSound (next_id-remove id c) (load-remove_pending id c) h
Step-IsSound (Step.received id c) h =
    lighter-IsSound (next_id-take id c (c.channels id))
      (λ k. load-take_from id c k (c.channels id) refl) h

no_calls-IsSound : IsSound no_calls
unfolding load count held
no_calls-IsSound = record { bound = λ k. omega arith; unused = λ k lt. omega arith }

pub Reachable-IsSound : {c : Calls} → Reachable c → IsSound c
Reachable-IsSound Reachable.fresh = no_calls-IsSound
Reachable-IsSound (Reachable.next r s) = Step-IsSound s (Reachable-IsSound r)

-- However calls, replies, timeouts and losses of the connection follow each other, the channel of a
-- call that is on the table, or whose result a read loop has in hand, is empty, and it is owed one
-- result only: no send to a channel ever waits, so a read loop cannot hang and `failPending`, which
-- sends under the lock, cannot deadlock.
pub sends_never_wait :
    {c : Calls} (id : ℕ)
    → Reachable c
    → 1 ≤ count id c.pending + held id c.in_hand
    → (count id c.pending + held id c.in_hand ≡ 1) × (c.channels id ≡ [])
sends_never_wait {c} id r owed =
    let bound = (Reachable-IsSound r).bound id in
    (owed_one c id bound owed, empty_slot (c.channels id) (slot_length c id bound owed))
