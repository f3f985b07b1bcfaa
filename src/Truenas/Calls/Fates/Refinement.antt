-- ===== src/Truenas/Calls/Fates/Refinement.antt =====
-- internal/truenas/truenas.go: `request`, `readLoop`, `removePending` and `failPending` against the
-- book of the fates of the calls.
use pademelon.Base.{refl}
use pademelon.Truenas.Calls.{Calls, enroll, send, receive}
use pademelon.Truenas.Calls.Load.{turn}
use pademelon.Truenas.Calls.Slots.{Step, Reachable, Reachable-IsSound}
use pademelon.Truenas.Calls.Fates.{Act, Change, book}
use pademelon.Truenas.Calls.Fates.Table.{message_act, enroll_change, claim_change, remove_change}
use pademelon.Truenas.Calls.Fates.Channels.{send_keeps, turn_keeps, fail_fate, take_change}

-- What a step is to the callers and the middleware, read off its own arguments and what it returns.
unfoldable pub act_of : {c c' : Calls} → Step c c' → Act
act_of (Step.enrolled c) = Act.open_call (enroll c).0
act_of (Step.claimed m c) = message_act m
act_of (Step.sent c) = Act.inner
act_of (Step.turned c) = Act.inner
act_of (Step.failed e c) = Act.lose e
act_of (Step.forgotten id c) = Act.give_up id
act_of (Step.received id c) = Act.collect id (receive id c).0

-- Every step of a caller, of a read loop or of a loss of the connection changes the book of fates
-- as the contract allows for what that step is, in any state that such steps lead to. A call gets an
-- id that was idle. A reply answers the call with the reply's own id, with the reply's own result,
-- if that call waits, and changes nothing otherwise. A loss answers all that wait with its error, and
-- nobody else. A call that is given up is idle if it waited, and nothing changes otherwise. What a
-- caller gets is the result that its own call was answered with, which is then gone. The sends in
-- between change nothing.
pub step-Change :
    {c c' : Calls} → Reachable c → (s : Step c c') → Change (act_of s) (book c) (book c')
unfolding act_of send turn receive
step-Change r (Step.enrolled c) = enroll_change c (Reachable-IsSound r)
step-Change r (Step.claimed m c) = claim_change m c
step-Change r (Step.sent c) =
    Change.unseen λ k. send_keeps c c.in_hand k refl ((Reachable-IsSound r).bound k)
step-Change r (Step.turned c) =
    Change.unseen λ k. turn_keeps c c.in_hand k refl ((Reachable-IsSound r).bound k)
step-Change r (Step.failed e c) =
    Change.all_failed e λ k. fail_fate e c k ((Reachable-IsSound r).bound k)
step-Change r (Step.forgotten id c) = remove_change id c (Reachable-IsSound r)
step-Change r (Step.received id c) =
    take_change c id (c.channels id) refl ((Reachable-IsSound r).bound id)
