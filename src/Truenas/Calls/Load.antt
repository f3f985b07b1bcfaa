-- ===== src/Truenas/Calls/Load.antt =====
-- How many results the calls in flight can still get, and what the steps make of that.
use pademelon.Base.{
  ℕ, ◌+◌, ◌≤◌, ◌≡◌, refl, String, true, false, List, [], ◌∷◌, err, nat_eq, length, length-append,
  arith, if◌then◌else◌, Bool-cases, inl, inr, ap, ◌∙◌,
}
use mathlib.Core.List.{◌++◌}
use pademelon.Truenas.Calls.{
  CallResult, Calls, without, is_pending, deliver, enroll, remove_pending, Message, claim,
  fail_each, fail_pending, send_from, take_from,
}

-- How often an id is on the table, and how many results for it are in hand.
unfoldable pub count : ℕ → List ℕ → ℕ
count id [] = 0
count id (k ∷ rest) = (if nat_eq k id then 1 else 0) + count id rest

unfoldable pub held : ℕ → List (ℕ × CallResult) → ℕ
held id [] = 0
held id ((k, result) ∷ rest) = (if nat_eq k id then 1 else 0) + held id rest

-- The results that a call can still get, with those that lie in its channel.
unfoldable pub load : Calls → ℕ → ℕ
load c id = count id c.pending + held id c.in_hand + length (c.channels id)

count-without :
    (id k : ℕ) (l : List ℕ) → count k (without id l) ≡ (if nat_eq k id then 0 else count k l)
unfolding count without
count-without id k [] = ground arith
count-without id k (j ∷ rest) = ground (arith, count-without id k rest)

is_pending-count : (id : ℕ) (l : List ℕ) → is_pending id l ≡ true → 1 ≤ count id l
unfolding is_pending count
is_pending-count id [] h = cc
is_pending-count id (j ∷ rest) h = ground (arith, is_pending-count id rest)

length-deliver :
    (id k : ℕ) (r : CallResult) (channels : ℕ → List CallResult)
    → length (deliver id r channels k) ≡ (if nat_eq k id then 1 else 0) + length (channels k)
unfolding deliver
length-deliver id k r channels = ground (arith, length-append {0} (channels k) (r ∷ []))

length-fail_each :
    (e : String) (l : List ℕ) (channels : ℕ → List CallResult) (k : ℕ)
    → length (fail_each e l channels k) ≡ count k l + length (channels k)
unfolding fail_each count
length-fail_each e [] channels k = omega arith
length-fail_each e (id ∷ rest) channels k = ground (
  arith,
  length-fail_each e rest (deliver id (err e) channels) k,
  length-deliver id k (err e) channels,
)

held-append : (id : ℕ) (l m : List (ℕ × CallResult)) → held id (l ++ m) ≡ held id l + held id m
unfolding held
held-append id [] m = omega arith
held-append id ((k, r) ∷ rest) m = omega (arith, held-append id rest m)

unfoldable pub turn_from : List (ℕ × CallResult) → Calls → Calls
turn_from [] c = c
turn_from (x ∷ rest) c = record c { in_hand = rest ++ (x ∷ []) }

-- The turn of another read loop to send what it holds.
unfoldable pub turn : Calls → Calls
unfolding turn_from
turn c = turn_from c.in_hand c

pub load-enroll :
    (c : Calls) (k : ℕ)
    → load (enroll c).1 k
      ≡ (if nat_eq k (c.next_id + 1) then 1 + count k c.pending + held k c.in_hand else load c k)
unfolding enroll load count
load-enroll c k = ground arith

pub enroll-load_new :
    (c : Calls) (k : ℕ)
    → k ≡ c.next_id + 1
    → load (enroll c).1 k ≡ 1 + count k c.pending + held k c.in_hand
enroll-load_new c k at = ground (arith, load-enroll c k, at)

pub enroll-load_old :
    (c : Calls) (k : ℕ) → nat_eq k (c.next_id + 1) ≡ false → load (enroll c).1 k ≡ load c k
enroll-load_old c k other = rw (load-enroll c k, other) refl

pub load-remove_pending : (id : ℕ) (c : Calls) (k : ℕ) → load (remove_pending id c) k ≤ load c k
unfolding remove_pending load
load-remove_pending id c k = ground (arith, count-without id k c.pending)

pub load-claim : (m : Message) (c : Calls) (k : ℕ) → load (claim m c) k ≤ load c k
unfolding claim load held
load-claim Message.undecodable c k = omega arith
load-claim Message.notification c k = omega arith
load-claim Message.unreadable_id c k = omega arith
load-claim (Message.reply id r) c k =
    ground (arith, count-without id k c.pending, is_pending-count id c.pending)

nat_eq_sym : (a b : ℕ) → nat_eq a b ≡ nat_eq b a
nat_eq_sym a b = ground arith

pub load-send_from :
    (c : Calls) (hand : List (ℕ × CallResult)) (k : ℕ)
    → c.in_hand ≡ hand
    → load (send_from hand c) k ≡ load c k
unfolding send_from load held
load-send_from c [] k h = refl
load-send_from c ((id, r) ∷ rest) k h =
    ground (arith, nat_eq_sym k id, length-deliver id k r c.channels, ap (held k) h)

pub load-turn_from :
    (c : Calls) (hand : List (ℕ × CallResult)) (k : ℕ)
    → c.in_hand ≡ hand
    → load (turn_from hand c) k ≡ load c k
unfolding turn_from load held
load-turn_from c [] k h = refl
load-turn_from c (x ∷ rest) k h = omega (arith, held-append k rest (x ∷ []), ap (held k) h)

pub load-fail_pending : (e : String) (c : Calls) (k : ℕ) → load (fail_pending e c) k ≡ load c k
unfolding fail_pending load count
load-fail_pending e c k = omega (arith, length-fail_each e c.pending c.channels k)

pub load-take_from :
    (id : ℕ) (c : Calls) (k : ℕ) (chan : List CallResult)
    → c.channels id ≡ chan
    → load (take_from id chan c).1 k ≤ load c k
unfolding take_from load
load-take_from id c k [] h = omega arith
load-take_from id c k (r ∷ rest) h = elim (Bool-cases (nat_eq k id)) [
  | inl same ↦
      let at : k ≡ id = ground (arith, same) in
      rw same (omega (arith, ap length (ap c.channels at ∙ h)))
  | inr other ↦ rw other (omega arith)
]
