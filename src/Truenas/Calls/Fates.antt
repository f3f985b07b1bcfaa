-- ===== src/Truenas/Calls/Fates.antt =====
-- What a caller can know of the calls in flight: a fate per id, whichever of the table, a read loop
-- and the channel holds it. The table of `request`, `readLoop` and `failPending` refines the book
-- of these fates.
pub mod Holds
mod Table
pub mod Channels
pub mod Refinement
pub mod History
use mathlib.Core.List.{◌++◌}
use pademelon.Base.{
  ℕ, ◌≡◌, ◌≢◌, String, Bool, true, false, Option, none, some, List, [], ◌∷◌, err, nat_eq,
  if◌then◌else◌,
}
use pademelon.Truenas.Calls.{CallResult, Calls, is_pending}

pub data Fate : Type 0 where
  idle waiting : Fate
  answered : CallResult → Fate

abbrev pub Book : Type 0
Book = ℕ → Fate

-- A book, changed at one id.
unfoldable pub put : ℕ → Fate → Book → Book
put id fate book k = if nat_eq k id then fate else book k

unfoldable pub fail : String → Fate → Fate
fail e Fate.idle = Fate.idle
fail e Fate.waiting = Fate.answered (err e)
fail e (Fate.answered r) = Fate.answered r

-- What happens, as the callers and the middleware see it: a call with its new id, a reply to an id, the
-- loss of the connection, a call given up, a caller that looks for the result of a call, or a step
-- inside the client.
pub data Act : Type 0 where
  open_call : ℕ → Act
  reply_to : ℕ → CallResult → Act
  lose : String → Act
  give_up : ℕ → Act
  collect : ℕ → Option CallResult → Act
  inner : Act

-- The contract: how each of these changes the book.
pub data Change : Act → Book → Book → Type 0 where
  opened :
      {old new : Book} (id : ℕ)
      → old id ≡ Fate.idle
      → ((k : ℕ) → new k ≡ put id Fate.waiting old k)
      → Change (Act.open_call id) old new
  replied :
      {old new : Book} (id : ℕ) (r : CallResult)
      → old id ≡ Fate.waiting
      → ((k : ℕ) → new k ≡ put id (Fate.answered r) old k)
      → Change (Act.reply_to id r) old new
  too_late :
      {old new : Book} (id : ℕ) (r : CallResult)
      → old id ≢ Fate.waiting
      → ((k : ℕ) → new k ≡ old k)
      → Change (Act.reply_to id r) old new
  all_failed :
      {old new : Book} (e : String)
      → ((k : ℕ) → new k ≡ fail e (old k))
      → Change (Act.lose e) old new
  given_up :
      {old new : Book} (id : ℕ)
      → old id ≡ Fate.waiting
      → ((k : ℕ) → new k ≡ put id Fate.idle old k)
      → Change (Act.give_up id) old new
  over_before :
      {old new : Book} (id : ℕ)
      → old id ≢ Fate.waiting
      → ((k : ℕ) → new k ≡ old k)
      → Change (Act.give_up id) old new
  collected :
      {old new : Book} (id : ℕ) (r : CallResult)
      → old id ≡ Fate.answered r
      → ((k : ℕ) → new k ≡ put id Fate.idle old k)
      → Change (Act.collect id (some r)) old new
  nothing_yet :
      {old new : Book} (id : ℕ) → ((k : ℕ) → new k ≡ old k) → Change (Act.collect id none) old new
  unseen : {old new : Book} → ((k : ℕ) → new k ≡ old k) → Change Act.inner old new

-- The results for an id that read loops have in hand.
unfoldable pub results_for : ℕ → List (ℕ × CallResult) → List CallResult
results_for id [] = []
results_for id ((k, r) ∷ rest) =
    let later = results_for id rest in if nat_eq id k then r ∷ later else later

unfoldable pub fate_of : Bool → List CallResult → Fate
fate_of true l = Fate.waiting
fate_of false [] = Fate.idle
fate_of false (r ∷ l) = Fate.answered r

-- The results that were found for an id, and its fate.
unfoldable pub answers : Calls → ℕ → List CallResult
answers c id = results_for id c.in_hand ++ c.channels id

unfoldable pub book : Calls → Book
book c id = fate_of (is_pending id c.pending) (answers c id)
