-- ===== src/Tests/Agents.antt =====
-- A guest agent's answers, and two calls of the middleware in flight.
use mathlib.Core.List
use mathlib.Core.List.{Memᴰ}
use pademelon.Base.{
  err, ◌+◌, ◌≤◌, ◌≡◌, ◌↔◌, refl, false, none, some, List, [], ◌∷◌, ok, All, arith, to_lower,
  lower_char, has_prefix,
}
use pademelon.Model.{Iface, Filesystem, Vm, primary_ips}
use pademelon.Agent.Filter.{
  skip_filesystem, is_virtual_iface, skip_addr, is_pseudo_type, in_pseudo_tree,
  is_drive_letter_path,
}
use pademelon.Agent.{
  Decoders, Caller, FsReply, Address, call, filesystems, interfaces, fsinfo_command, to_filesystem,
  to_iface, add_addr, add_addrs, over, real_filesystems,
}
use pademelon.Agent.Shown.{IsReal, IsReachable, filesystems-IsReal, primary_ips-IsReachable}
use pademelon.Truenas.Calls.{
  Calls, no_calls, enroll, claim, send, receive, Message, is_pending, without, send_from, take_from,
  deliver,
}
use pademelon.Truenas.Calls.Fates.{Act, Change, book}
use pademelon.Truenas.Calls.Fates.Refinement.{act_of, step-Change}
use pademelon.Truenas.Calls.Load.{count, held}
use pademelon.Truenas.Calls.Slots.{Step, Reachable, sends_never_wait}
use pademelon.Truenas.Wire.{Wait, conclude}
use pademelon.Truenas.Wire.{Replies, dial, login}
use pademelon.Truenas.Wire.{attempt as attempt_with}
use pademelon.Truenas.Wire.LoggedIn.{IsLoggedIn, attempt-IsLoggedIn}
use pademelon.Truenas.Wire.Answered.{IsOwn, conclude-IsOwn}
use pademelon.Truenas.Client.{
  Attempt, Signal, CallError, new_client, ensure_connected, set_state, run_round,
}
use pademelon.Truenas.Client.Truthful as Truthful
use pademelon.Truenas.Client.Truthful.{IsTruthful, Reachable-IsTruthful}
use pademelon.Tests.{running_vm}

abbrev pub root_fs : FsReply
root_fs = record { mountpoint = "/"; kind = "ext4"; used_bytes = 3; total_bytes = 9 }

abbrev pub public_address : Address
public_address = record { kind = "ipv4"; address = "10.0.0.7" }

abbrev pub decoders : Decoders
decoders = record {
  envelope = λ raw. ok (record { return = raw; error = none });
  ping = λ raw. ok (record { return = some raw; error = none });
  info = λ raw. ok (record { version = "8.2"; supported = [] });
  time = λ raw. ok 0;
  hostname = λ raw. ok "guest";
  os = λ raw. ok (record {
    pretty_name = "Linux";
    name = "";
    version = "";
    kernel_release = "";
    id = "linux";
  });
  ifaces = λ raw.
      ok (record { name = "eth0"; mac = "52:54:00:00:00:01"; ips = public_address ∷ [] } ∷ []);
  filesystems = λ raw. ok (root_fs ∷ []);
  parse_ip = λ a.
      some (record { is_loopback = false; is_link_local_unicast = false; is_unspecified = false });
}

abbrev answers : Caller
answers cmd = ok "{}"

abbrev listed : List Filesystem
listed = to_filesystem root_fs ∷ []

answers_fs : call decoders decoders.filesystems answers fsinfo_command ≡ ok (root_fs ∷ [])
unfolding call
answers_fs = refl

fs_listed : filesystems decoders answers ≡ ok listed
unfolding filesystems over call real_filesystems skip_filesystem has_prefix is_pseudo_type
    in_pseudo_tree to_lower lower_char is_drive_letter_path
fs_listed = refl

filesystems-IsReal_example :
    All IsReal listed × (IsReal (to_filesystem root_fs) ↔ Memᴰ (to_filesystem root_fs) listed)
filesystems-IsReal_example =
    filesystems-IsReal decoders answers (root_fs ∷ []) listed root_fs answers_fs fs_listed
      (List.Memᴰ.head refl)

abbrev eth0 : Iface
eth0 = record {
  name = "eth0";
  mac = "52:54:00:00:00:01";
  ipv4 = "10.0.0.7" ∷ [];
  ipv6 = [];
  virtual = false;
}

abbrev seen_vm : Vm
seen_vm = record running_vm { interfaces = eth0 ∷ [] }

ifaces_listed : interfaces decoders answers ≡ ok seen_vm.interfaces
unfolding interfaces over call to_iface add_addrs add_addr is_virtual_iface to_lower lower_char
    has_prefix skip_addr
ifaces_listed = refl

primary_ips-IsReachable_example : All (IsReachable decoders) (primary_ips seen_vm)
primary_ips-IsReachable_example = primary_ips-IsReachable decoders answers seen_vm ifaces_listed

-- Two calls, the reply to the first in the hand of the read loop.
abbrev two_calls : Calls
two_calls = claim (Message.reply 1 (ok "pong")) (enroll (enroll no_calls).1).1

two_calls-Reachable : Reachable two_calls
two_calls-Reachable =
    Reachable.next
      (Reachable.next (Reachable.next Reachable.fresh (Step.enrolled no_calls))
        (Step.enrolled (enroll no_calls).1))
      (Step.claimed (Message.reply 1 (ok "pong")) (enroll (enroll no_calls).1).1)

one_owed : 1 ≤ count 1 two_calls.pending + held 1 two_calls.in_hand
unfolding enroll claim count held is_pending without
one_owed = omega arith

sends_never_wait_example :
    (count 1 two_calls.pending + held 1 two_calls.in_hand ≡ 1) × (two_calls.channels 1 ≡ [])
sends_never_wait_example = sends_never_wait 1 two_calls-Reachable one_owed

-- The reply in the channel of the first call, whose caller takes it.
abbrev replied : Calls
replied = send two_calls

step-Change_example :
    Change (Act.collect 1 (some (ok "pong"))) (book replied) (book (receive 1 replied).1)
unfolding act_of receive take_from send send_from deliver claim enroll is_pending
step-Change_example =
    step-Change (Reachable.next two_calls-Reachable (Step.sent two_calls)) (Step.received 1 replied)

conclude-IsOwn_example :
    IsOwn 1 two_calls-Reachable
      (conclude "core.ping" 1 (ok tt) (Wait.expired "deadline exceeded") two_calls)
conclude-IsOwn_example =
    conclude-IsOwn "core.ping" 1 (ok tt) (Wait.expired "deadline exceeded") two_calls-Reachable

abbrev replies : Replies
replies = record { now = 5; dialled = ok 1; login = ok "reply"; version = ok "25.10" }

connected_nas :
    (ensure_connected (attempt_with "nas" (λ reply. ok "SUCCESS") ok replies) new_client).1.conn
    ≡ some 1
unfolding ensure_connected attempt_with dial login set_state
connected_nas = refl

attempt-IsLoggedIn_example : IsLoggedIn (λ reply. ok "SUCCESS") replies 1
attempt-IsLoggedIn_example =
    attempt-IsLoggedIn "nas" (λ reply. ok "SUCCESS") ok replies 1 new_client refl connected_nas

-- A connection, and a ping that the busy server does not answer in time.
abbrev attempt : Attempt
attempt = record { now = 5; dial = ok 1; login = ok tt; version = ok "25.10" }

abbrev timed_out : Signal
timed_out = Signal.tick (err (CallError.failed "core.ping: context deadline exceeded"))

Reachable-IsTruthful_example : IsTruthful (run_round attempt false 65 timed_out new_client).1
Reachable-IsTruthful_example =
    Reachable-IsTruthful
      (Truthful.Reachable.round attempt false 65 timed_out Truthful.Reachable.made)
