-- ===== src/Libvirt/Watch.antt =====
-- source.go: what is kept from poll to poll so that a thing is said or done once: the logged
-- transitions, the switch of the balloon's timer, and the hints that events leave for the next poll.
use pademelon.Base.{
  ℕ, String, Bool, true, false, Option, none, some, List, [], ◌∷◌, Table, lookup, insert, remove,
  nat_eq, not, if◌then◌else◌,
}
use pademelon.Model.{AgentState}

-- The lines of `logAgentTransition`.
pub data AgentNote : Type 0 where
  back responding not_running not_answering : AgentNote

abbrev pub same_state : AgentState → AgentState → Bool
same_state AgentState.absent AgentState.absent = true
same_state AgentState.disconnected AgentState.disconnected = true
same_state AgentState.ok AgentState.ok = true
same_state AgentState.error AgentState.error = true
same_state _ _ = false

agent_note : Bool → AgentState → Option AgentNote
agent_note had AgentState.ok = some (if had then AgentNote.back else AgentNote.responding)
agent_note had AgentState.disconnected = some AgentNote.not_running
agent_note had AgentState.error = some AgentNote.not_answering
agent_note had AgentState.absent = none

agent_note_after : AgentState → Option AgentState → Option AgentNote
unfolding agent_note
agent_note_after now none = agent_note false now
agent_note_after now (some prev) = if same_state prev now then none else agent_note true now

-- `logAgentTransition`.
unfoldable pub log_agent_transition :
    String → AgentState → Table AgentState → Option AgentNote × Table AgentState
unfolding agent_note_after
log_agent_transition domain now last =
    (agent_note_after now (lookup domain last), insert domain now last)

pub data MemoryNote : Type 0 where
  stale fresh_again : MemoryNote

-- `m[key]` of a map to Booleans.
unfoldable pub marked : String → Table Bool → Bool
marked key t = elim (lookup key t) [ none ↦ false | some b ↦ b ]

same_bool : Bool → Bool → Bool
same_bool true b = b
same_bool false b = not b

-- `logMemoryStale`.
unfoldable pub log_memory_stale : String → Bool → Table Bool → Option MemoryNote × Table Bool
unfolding same_bool
log_memory_stale domain dated last = (
  if same_bool (marked domain last) dated
      then none
      else if dated
      then some MemoryNote.stale
      else if marked domain last
      then some MemoryNote.fresh_again
      else none,
  insert domain dated last,
)

-- `enableStatsPeriod`: whether libvirt was called, and the marks left. `accepted` is its answer.
unfoldable pub enable_stats_period : ℕ → Bool → String → Table Bool → Bool × Table Bool
enable_stats_period period accepted domain marks =
    if nat_eq period 0
    then (false, marks)
    else if marked domain marks
    then (false, insert domain true marks)
    else if accepted
    then (true, insert domain true marks)
    else (true, remove domain (insert domain true marks))

-- `forgetStatsPeriod`.
unfoldable pub forget_stats_period : String → Table Bool → Table Bool
forget_stats_period domain marks = remove domain marks

-- The pending hints by libvirt's domain id, with one entry for an id.
abbrev pub Hints : Type 0
Hints = List (ℕ × ℕ)

unfoldable pub hint_of : ℕ → Hints → Option ℕ
hint_of id [] = none
hint_of id ((k, at) ∷ rest) = let later = hint_of id rest in if nat_eq k id then some at else later

unfoldable pub clear_hint : ℕ → Hints → Hints
clear_hint id [] = []
clear_hint id ((k, at) ∷ rest) =
    let others = clear_hint id rest in if nat_eq k id then others else (k, at) ∷ others

-- `handleAgentEvent`, less the call of `Notify`.
unfoldable pub handle_agent_event : ℕ → ℕ → Hints → Hints
handle_agent_event id now hints = (id, now) ∷ clear_hint id hints

-- `drainAgentEvents` over the messages of one stream, with the times they come at.
unfoldable pub drain_agent_events : List (ℕ × ℕ) → Hints → Hints
drain_agent_events [] hints = hints
drain_agent_events ((id, now) ∷ rest) hints =
    drain_agent_events rest (handle_agent_event id now hints)

-- `consumeAgentEvent`.
unfoldable pub consume_agent_event : ℕ → Hints → Option ℕ × Hints
consume_agent_event id hints = (hint_of id hints, clear_hint id hints)
