-- ===== src/Truenas/Calls.antt =====
-- internal/truenas/truenas.go: the calls in flight. `request`, `readLoop`, `removePending` and
-- `failPending` share a table of waiting calls; each waits on a channel with one slot.
pub mod Fates
pub mod Load
pub mod Slots
use Prim.Native.String.{◌++◌}
use mathlib.Core.List
use pademelon.Base.{
  ℕ, suc, ◌+◌, String, Bool, true, false, Option, none, some, List, [], ◌∷◌, Result, ok, err,
  nat_eq, ◌==◌, not, ◌&&◌, if◌then◌else◌, contains,
}

-- A `callResult`: the payload of a reply, or the text of an error.
abbrev pub CallResult : Type 0
CallResult = Result String String

-- The numbers and tables under `connMu`, the content of every call's channel, and the results that
-- a read loop took off the table and has not sent yet. An id is the channel's name: each call makes
-- its own.
pub record Calls : Type 0 where
  pub next_id : ℕ
  pub pending : List ℕ
  pub in_hand : List (ℕ × CallResult)
  pub channels : ℕ → List CallResult

abbrev pub no_calls : Calls
no_calls = record { next_id = 0; pending = []; in_hand = []; channels = λ _. [] }

-- `delete(c.pending, id)`.
unfoldable pub without : ℕ → List ℕ → List ℕ
without id [] = []
without id (k ∷ rest) = let others = without id rest in if nat_eq k id then others else k ∷ others

unfoldable pub is_pending : ℕ → List ℕ → Bool
is_pending id [] = false
is_pending id (k ∷ rest) = let later = is_pending id rest in if nat_eq k id then true else later

-- `wait <- result`.
unfoldable pub deliver : ℕ → CallResult → (ℕ → List CallResult) → ℕ → List CallResult
deliver id result channels k =
    if nat_eq k id then List.◌++◌ (channels k) (result ∷ []) else channels k

-- The start of `request`: the new id, and the call on the table.
unfoldable pub enroll : Calls → ℕ × Calls
enroll c =
    let id = c.next_id + 1 in
    (
      id,
      record c {
        next_id = id;
        pending = id ∷ c.pending;
        channels = λ k. if nat_eq k id then [] else c.channels k;
      },
    )

-- `removePending`.
unfoldable pub remove_pending : ℕ → Calls → Calls
remove_pending id c = record c { pending = without id c.pending }

-- A message as `readLoop` sees it, once `encoding/json` was asked.
pub data Message : Type 0 where
  undecodable notification unreadable_id : Message
  reply : ℕ → CallResult → Message

-- The part of a round of `readLoop` under the lock: the call is taken off the table.
unfoldable pub claim : Message → Calls → Calls
claim Message.undecodable c = c
claim Message.notification c = c
claim Message.unreadable_id c = c
claim (Message.reply id result) c =
    if is_pending id c.pending
    then record c { pending = without id c.pending; in_hand = (id, result) ∷ c.in_hand }
    else c

unfoldable pub send_from : List (ℕ × CallResult) → Calls → Calls
send_from [] c = c
send_from ((id, result) ∷ rest) c = record c {
  in_hand = rest;
  channels = deliver id result c.channels;
}

-- The rest of that round: the send, of the result at the head of what is in hand.
unfoldable pub send : Calls → Calls
unfolding send_from
send c = send_from c.in_hand c

-- The loop of `failPendingLocked` over the table.
unfoldable pub fail_each : String → List ℕ → (ℕ → List CallResult) → ℕ → List CallResult
fail_each e [] channels = channels
fail_each e (id ∷ rest) channels = fail_each e rest (deliver id (err e) channels)

-- `failPending`.
unfoldable pub fail_pending : String → Calls → Calls
fail_pending e c = record c { pending = []; channels = fail_each e c.pending c.channels }

unfoldable pub take_from : ℕ → List CallResult → Calls → Option CallResult × Calls
take_from id [] c = (none, c)
take_from id (result ∷ rest) c =
    (some result, record c { channels = λ k. if nat_eq k id then rest else c.channels k })

-- The caller's side of the channel: its `select` takes the result.
unfoldable pub receive : ℕ → Calls → Option CallResult × Calls
unfolding take_from
receive id c = take_from id (c.channels id) c
