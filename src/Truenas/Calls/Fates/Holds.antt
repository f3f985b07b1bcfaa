-- ===== src/Truenas/Calls/Fates/Holds.antt =====
-- Where the calls of internal/truenas/truenas.go are held: on the table, in hand, in a channel.
use mathlib.Core.List.{◌++◌}
use pademelon.Base.{
  ℕ, ◌+◌, ◌≤◌, ◌≡◌, refl, String, true, false, List, [], ◌∷◌, err, nat_eq, length, length-append,
  arith, if◌then◌else◌,
}
use pademelon.Truenas.Calls.{CallResult, Calls, without, is_pending, deliver, fail_each}
use pademelon.Truenas.Calls.Load.{count, held, load}
use pademelon.Truenas.Calls.Fates.{results_for, answers}

pub length-results_for :
    (id : ℕ) (l : List (ℕ × CallResult)) → length (results_for id l) ≡ held id l
unfolding results_for held
length-results_for id [] = refl
length-results_for id ((k, r) ∷ rest) = ground (arith, length-results_for id rest)

pub length-answers :
    (c : Calls) (id : ℕ) → length (answers c id) ≡ held id c.in_hand + length (c.channels id)
unfolding answers
length-answers c id = omega (
  arith,
  length-append (results_for id c.in_hand) (c.channels id),
  length-results_for id c.in_hand,
)

pub load-answers : (c : Calls) (id : ℕ) → load c id ≡ count id c.pending + length (answers c id)
unfolding load
load-answers c id = omega (arith, length-answers c id)

pub count-pending : (id : ℕ) (l : List ℕ) → is_pending id l ≡ true → 1 ≤ count id l
unfolding is_pending count
count-pending id [] h = cc
count-pending id (j ∷ rest) h = ground (arith, count-pending id rest)

pub count-settled : (id : ℕ) (l : List ℕ) → is_pending id l ≡ false → count id l ≡ 0
unfolding is_pending count
count-settled id [] h = refl
count-settled id (j ∷ rest) h = ground (arith, count-settled id rest)

pub pending-without :
    (id k : ℕ) (l : List ℕ)
    → is_pending k (without id l) ≡ (if nat_eq k id then false else is_pending k l)
unfolding is_pending without
pending-without id k [] = ground arith
pending-without id k (j ∷ rest) = ground (arith, pending-without id k rest)

pub results_for-append :
    (id : ℕ) (l m : List (ℕ × CallResult))
    → results_for id (l ++ m) ≡ results_for id l ++ results_for id m
unfolding results_for
results_for-append id [] m = refl
results_for-append id ((k, r) ∷ rest) m = ground (arith, results_for-append id rest m)

pub is_nil-of : (l : List CallResult) → length l ≡ 0 → l ≡ []
is_nil-of [] h = refl
is_nil-of (x ∷ l) h = absurd (omega arith)

-- A failure leaves the channel of a call off the table alone, and reaches one on it once.
pub fail_each-settled :
    (e : String) (l : List ℕ) (channels : ℕ → List CallResult) (k : ℕ)
    → count k l ≡ 0
    → fail_each e l channels k ≡ channels k
unfolding fail_each count deliver
fail_each-settled e [] channels k h = refl
fail_each-settled e (id ∷ rest) channels k h =
    ground (arith, fail_each-settled e rest (deliver id (err e) channels) k)

pub fail_each-pending :
    (e : String) (l : List ℕ) (channels : ℕ → List CallResult) (k : ℕ)
    → count k l ≡ 1
    → channels k ≡ []
    → fail_each e l channels k ≡ err e ∷ []
unfolding fail_each count deliver
fail_each-pending e [] channels k h free = absurd (omega arith)
fail_each-pending e (id ∷ rest) channels k h free = ground (
  arith,
  fail_each-settled e rest (deliver id (err e) channels) k,
  fail_each-pending e rest (deliver id (err e) channels) k,
)
