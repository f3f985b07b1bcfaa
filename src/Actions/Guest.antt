-- ===== src/Actions/Guest.antt =====
-- actions.go: the calls on one guest: finding it, its agent, a graceful shutdown, the wait until it
-- is off, and the reboot.
pub mod Waiting
pub mod Off
pub mod Reboot
use Prim.Native.String.{◌++◌}
use pademelon.Base.{
  ℕ, zero, suc, ◌+◌, ◌-◌, ◌/◌, String, Bool, true, false, Option, none, some, List, [], ◌∷◌, Result,
  ok, err, contains, nat_eq, ltb, leb, ◌==◌, if◌then◌else◌,
}
use pademelon.Model.{Vm, AgentState}
use pademelon.Actions.Job.{StepName, StepState, Error, Kind, wrap, plain_error}
use pademelon.Actions.Effects.{
  Domain, Command, guest_shutdown, Env, M, pure, ◌>>=◌, ◌>>◌, on_result, attempt, branch, fail,
  succeed, set_step, domain_get_info, domain_create, domain_shutdown_acpi, agent_command,
  list_all_domains, read_snapshot, read_clock, nudge_poller, sleep,
}

-- `rawAgentCall`: an empty reply is no error.
unfoldable pub first_reply : Result String (List String) → Result String String
first_reply (ok []) = ok ""
first_reply (ok (reply ∷ _)) = ok reply
first_reply (err e) = err e

unfoldable pub raw_agent_call : Env → Domain → Command → M (Result String String)
raw_agent_call env d c = do reply ← agent_command env d c; pure (first_reply reply)

-- The sign that the guest is going down: the agent left while it ran the command.
unfoldable pub is_agent_gone_err : String → Bool
is_agent_gone_err message = contains message "Guest agent disappeared"

unfoldable pub find_named : String → List Domain → Result Error Domain
find_named name [] = err (record {
  kind = Kind.unknown_domain;
  message = "unknown domain: " ++ name ++ " not running right now";
})
find_named name (d ∷ rest) = if d.name == name then ok d else find_named name rest

-- `findDomain`.
unfoldable pub find_domain : Env → String → M (Result Error Domain)
unfolding find_named
find_domain env name =
    attempt (list_all_domains env) (λ e. fail (plain_error ("list domains: " ++ e)))
      (λ ds. pure (find_named name ds))

unfoldable pub is_agent_ok : AgentState → Bool
is_agent_ok AgentState.ok = true
is_agent_ok _ = false

unfoldable pub connected_in : List Vm → String → Bool
connected_in [] domain = false
connected_in (vm ∷ rest) domain =
    if vm.domain == domain then is_agent_ok vm.agent else connected_in rest domain

-- `agentConnected`.
unfoldable pub agent_connected : Env → String → M Bool
unfolding connected_in is_agent_ok
agent_connected env domain = do snap ← read_snapshot env; pure (connected_in snap.vms domain)

-- The agent first, then the ACPI button. No reply and a vanished agent both mean that it works.
unfoldable pub shutdown : Env → Domain → String → M (Result String (Unit {0}))
shutdown env d domain = do
  connected ← agent_connected env domain
  branch connected
      (attempt (raw_agent_call env d guest_shutdown)
        (λ e. branch (is_agent_gone_err e) (pure (ok tt)) (domain_shutdown_acpi env d))
        (λ _. pure (ok tt)))
      (domain_shutdown_acpi env d)

-- The `resend` of the reboot and of the staged restore, the same text in both.
unfoldable pub resend_note : Env → ℕ → Result String (Unit {0}) → String
resend_note env attempt_no (ok _) =
    "shutdown re-sent (attempt " ++ env.show_nat attempt_no ++ ") — some guests ignore the first"
resend_note env attempt_no (err e) =
    "shutdown re-sent (attempt "
    ++ env.show_nat attempt_no
    ++ ") — some guests ignore the first; re-send failed: "
    ++ e

unfoldable pub resend : Env → Domain → String → ℕ → M (Unit {0})
resend env d domain attempt_no = do
  sent ← shutdown env d domain
  set_step StepName.stop StepState.done (resend_note env attempt_no sent)

-- The error of a wait whose deadline passed.
abbrev pub not_stopped : Env → String → Error
not_stopped env hint = record {
  kind = Kind.guest_not_stopped;
  message =
      "guest did not stop in time within "
      ++ env.show_duration env.config.reboot_timeout
      ++ " — "
      ++ hint;
}

abbrev pub out_of_fuel : Error
out_of_fuel = record { kind = Kind.out_of_fuel; message = "" }

-- One re-send, if the last is long enough ago; the new attempt number and time of sending.
unfoldable pub resend_if_due : Env → (ℕ → M (Unit {0})) → ℕ → ℕ → M (ℕ × ℕ)
resend_if_due env again attempt_no last_sent = do
  t ← read_clock env
  branch (leb env.config.shutdown_retry (t - last_sent))
      (do again (attempt_no + 1); sent ← read_clock env; pure (attempt_no + 1, sent))
      (pure (attempt_no, last_sent))

-- The loop of `waitStopped`. The fuel bounds the rounds.
unfoldable pub wait_loop :
    Env → Domain → String → (ℕ → M (Unit {0})) → ℕ → ℕ → ℕ → ℕ → M (Result Error (Unit {0}))
wait_loop env d hint again deadline zero attempt_no last_sent = fail out_of_fuel
wait_loop env d hint again deadline (suc fuel) attempt_no last_sent =
    attempt (domain_get_info env d) (λ e. fail (plain_error ("waiting for shutdown: " ++ e)))
      λ state. branch (nat_eq state env.domain_shutoff) (succeed tt) (do
        t ← read_clock env
        branch (ltb deadline t) (fail (not_stopped env hint)) (do
          due ← resend_if_due env again attempt_no last_sent
          sleep env.config.wait_poll
          wait_loop env d hint again deadline fuel due.0 due.1))

abbrev pub wait_fuel : Env → ℕ
wait_fuel env = suc (suc (env.config.reboot_timeout / env.config.wait_poll))

-- `waitStopped`; both of its callers pass a `resend`.
unfoldable pub wait_stopped :
    Env → Domain → String → (ℕ → M (Unit {0})) → M (Result Error (Unit {0}))
wait_stopped env d hint again = do
  started ← read_clock env
  last_sent ← read_clock env
  wait_loop env d hint again (started + env.config.reboot_timeout) (wait_fuel env) 1 last_sent

-- The end of `reboot`, once the guest is off.
unfoldable pub start_again : Env → Domain → M (Result Error (Unit {0}))
start_again env d = do
  set_step StepName.verify StepState.done "libvirt confirms the guest is off"
  nudge_poller env
  set_step StepName.start StepState.active "starting the guest again"
  attempt (domain_create env d)
      (λ e. do
        set_step StepName.start StepState.failed e
        fail (plain_error ("guest stopped but start failed: " ++ e)))
      (λ _. do set_step StepName.start StepState.done "guest started"; nudge_poller env; succeed tt)

unfoldable pub reboot : Env → Domain → String → M (Result Error (Unit {0}))
reboot env d domain = do
  set_step StepName.stop StepState.active "shutdown request sent"
  attempt (shutdown env d domain)
      (λ e. do
        set_step StepName.stop StepState.failed ("shutdown request failed: " ++ e)
        fail (plain_error ("shutdown phase: " ++ e)))
      (λ _. do
        set_step StepName.stop StepState.done ""
        set_step StepName.verify StepState.active "waiting for libvirt to confirm the guest is off"
        attempt (wait_stopped env d "force off or start it manually" (resend env d domain))
            (λ e. do
              set_step StepName.verify StepState.failed (
                  "libvirt still reports the guest on after "
                  ++ env.show_duration env.config.reboot_timeout
                  ++ " — force off or start it manually")
              fail e)
            (λ _. start_again env d))
