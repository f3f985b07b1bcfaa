-- ===== src/Cmd/Loop.antt =====
-- main.go: `pollLoop`, as the steps that its `select` takes. Times are in nanoseconds. The slot is
-- the `nudge` channel, and the timers are those of `time.AfterFunc`, the earliest first.
pub mod Debounce
use mathlib.Core.List
use pademelon.Base.{
  ℕ, ◌+◌, ◌-◌, Bool, true, false, List, [], ◌∷◌, Result, ok, err, String, if◌then◌else◌, leb,
}
use pademelon.Clocks.{nudge_interval}
use pademelon.Model.{Cache, Snapshot, set, set_error}

-- `polls` lists the times of the polls, the last first.
pub record Loop : Type 0 where
  pub last : ℕ
  pub slot : Bool
  pub timers : List ℕ
  pub polls : List ℕ

-- The closure `poll`, given what `src.Poll` answers: the cache it leaves.
unfoldable pub poll_into : Result String Snapshot → Cache → Cache
poll_into (ok snap) c = set c snap
poll_into (err e) c = set_error c e

-- A poll, and the time taken after it.
unfoldable pub polled : ℕ → Loop → Loop
polled now s = record s { last = now; polls = now ∷ s.polls }

-- The loop's first poll.
unfoldable pub started : ℕ → Loop
started now = record { last = now; slot = false; timers = []; polls = now ∷ [] }

-- `case <-ticker.C`.
unfoldable pub tick : ℕ → Loop → Loop
tick now s = polled now s

-- A send to `nudge` that does not wait.
unfoldable pub poke : Loop → Loop
poke s = record s { slot = true }

-- `case <-nudge`.
unfoldable pub take : ℕ → Loop → Loop
take now s =
    let emptied = record s { slot = false } in
    if leb (s.last + nudge_interval) now
    then polled now emptied
    else record emptied { timers = List.◌++◌ s.timers ((s.last + nudge_interval) ∷ []) }

fire_from : List ℕ → Loop → Loop
fire_from [] s = s
fire_from (due ∷ rest) s = poke (record s { timers = rest })

-- The function of the earliest timer.
unfoldable pub fire : Loop → Loop
unfolding fire_from
fire s = fire_from s.timers s
