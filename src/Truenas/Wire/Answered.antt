-- ===== src/Truenas/Wire/Answered.antt =====
-- internal/truenas/truenas.go: what `request` returns, and what it leaves behind.
use pademelon.Base.{
  ℕ, ◌≡◌, ◌≢◌, refl, sym, ◌∙◌, ap, String, false, Option, none, some, List, [], ◌∷◌, Result, ok,
  err, ok_inj, some_inj, none≢some, ok≢err, nat_eq, arith, ◌⊎◌, inl, inr,
}
use pademelon.Truenas.Calls.{CallResult, Calls, is_pending, remove_pending, receive, take_from}
use pademelon.Truenas.Calls.Slots.{Reachable, Reachable-IsSound}
use pademelon.Truenas.Calls.Fates.{Fate, answers, book}
use pademelon.Truenas.Calls.Fates.Holds.{pending-without}
use pademelon.Truenas.Calls.Fates.Channels.{channel_fate}
use pademelon.Truenas.Calls.Fates.History.{Came, answered-Came}
use pademelon.Truenas.Wire.{Wait, payload, await, finish, conclude}

-- No other call is touched, data is returned only where a reply with the call's id brought that data,
-- and the call is off the table unless its channel is empty and the wait goes on.
pub record IsOwn (id : ℕ) {c : Calls} (h : Reachable c)
    (end : Option (Result String String) × Calls) : Type 0 where
  pub off : (is_pending id end.1.pending ≡ false) ⊎ ((end.0 ≡ none) × (c.channels id ≡ []))
  pub others : (k : ℕ) → k ≢ id → book end.1 k ≡ book c k
  pub own : (raw : String) → end.0 ≡ some (ok raw) → Came id (ok raw) h

other_id : (k id : ℕ) → k ≢ id → nat_eq k id ≡ false
other_id k id h = ground (arith, h)

remove_off : (id : ℕ) (c : Calls) → is_pending id (remove_pending id c).pending ≡ false
unfolding remove_pending
remove_off id c = pending-without id id c.pending ∙ (ground arith)

remove_others : (id : ℕ) (c : Calls) (k : ℕ) → k ≢ id → book (remove_pending id c) k ≡ book c k
unfolding remove_pending book answers
remove_others id c k h = rw (pending-without id k c.pending, other_id k id h) refl

take_others :
    (id : ℕ) (chan : List CallResult) (c : Calls) (k : ℕ)
    → k ≢ id
    → book (take_from id chan c).1 k ≡ book c k
unfolding take_from book answers
take_others id [] c k h = refl
take_others id (r ∷ rest) c k h = rw (other_id k id h) refl

removed-IsOwn :
    (id : ℕ) {c : Calls} (r : Reachable c) (e : String)
    → IsOwn id r (some (err e), remove_pending id c)
removed-IsOwn id {c} r e = record {
  off = inl (remove_off id c);
  others = remove_others id c;
  own = λ raw h. absurd (ok≢err (some_inj (sym h)));
}

-- What the channel of a call has is what the call was answered with.
taken-IsOwn :
    (method : String) (id : ℕ) (chan : List CallResult) {c : Calls} (r : Reachable c)
    → c.channels id ≡ chan
    → let got = take_from id chan c in IsOwn id r (finish id (payload method got.0, got.1))
unfolding take_from payload finish
taken-IsOwn method id [] {c} r at = record {
  off = inr (refl, at);
  others = λ k h. refl;
  own = λ raw h. absurd (none≢some h);
}
taken-IsOwn method id (ok got ∷ rest) {c} r at = record {
  off = inl (remove_off id (take_from id (ok got ∷ rest) c).1);
  others = λ k h.
      remove_others id (take_from id (ok got ∷ rest) c).1 k h
      ∙ take_others id (ok got ∷ rest) c k h;
  own = λ raw h. answered-Came id raw r (
      channel_fate c id (ok got) rest at ((Reachable-IsSound r).bound id)
      ∙ ap (λ t. Fate.answered (ok t)) (ok_inj (some_inj h)));
}
taken-IsOwn method id (err e ∷ rest) {c} r at = record {
  off = inl (remove_off id (take_from id (err e ∷ rest) c).1);
  others = λ k h.
      remove_others id (take_from id (err e ∷ rest) c).1 k h ∙ take_others id (err e ∷ rest) c k h;
  own = λ raw h. absurd (ok≢err (some_inj (sym h)));
}

-- Whether the write fails, the reply is there or the context ends: a request touches no other call,
-- returns data only if a read loop read a reply with its own id and exactly that data before, and
-- leaves its call off the table, unless there is nothing in its channel yet and it goes on waiting.
pub conclude-IsOwn :
    (method : String) (id : ℕ) (written : Result String (Unit {0})) (wait : Wait) {c : Calls}
    (r : Reachable c)
    → IsOwn id r (conclude method id written wait c)
unfolding conclude await receive finish
conclude-IsOwn method id (err e) wait {c} r = removed-IsOwn id r _
conclude-IsOwn method id (ok written) (Wait.expired e) {c} r = removed-IsOwn id r _
conclude-IsOwn method id (ok written) Wait.delivered {c} r =
    taken-IsOwn method id (c.channels id) r refl
