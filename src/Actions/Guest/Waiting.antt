-- ===== src/Actions/Guest/Waiting.antt =====
-- The end of the wait of `waitStopped`, and the clock that it needs.
use native.Mathlib.Nat.{div-add-mod, mod-lt}
use pademelon.Base.{
  ℕ, zero, suc, ◌+◌, ◌*◌, ◌/◌, ◌≤◌, ◌<◌, ◌≢◌, String, ◌∷◌, Result, ok, err, arith, ltb→le,
}
use pademelon.Actions.Job.{Error, Kind}
use pademelon.Actions.Effects.{Domain, Env, Event, Trace, World, M, perform}
use pademelon.Actions.Effects.Triples.{
  Triple, Keeps, triple_pure, triple_perform, triple_branch, triple_bind, triple_attempt,
  triple_set_step, triple_given,
}
use pademelon.Actions.Guest.{resend, wait_loop, wait_stopped}
use pademelon.Actions.Guest.Off.{IsStable, quiet, shutdown-Keeps, resend_if_due-Keeps}

-- What Go documents of the monotonic clock and of `time.Sleep`.
pub record IsClock (env : Env) : Type 0 where
  pub monotone : (t : Trace) (e : Event) → env.now t ≤ env.now (e ∷ t)
  pub sleeps : (t : Trace) (d : ℕ) → env.now t + d ≤ env.now (Event.slept d ∷ t)

-- A wait that ran to an end: it did not run out of the model's fuel.
abbrev pub Ended : {A : Type 0} → Result Error A → Type 0
Ended (ok _) = Unit {0}
Ended (err e) = e.kind ≢ Kind.out_of_fuel

module _ (env : Env) (clock : IsClock env) where
  abbrev Since : ℕ → World → Type 0
  Since b w = b ≤ env.now w.trace

  Since-IsStable : (b : ℕ) → IsStable (Since b)
  Since-IsStable b = record { grows = λ w e q p. omega (arith, clock.monotone w.trace e) }

  read_clock-Since :
      (b : ℕ) → Triple (Since b) (perform env.now Event.clock_read) (λ t w. (b ≤ t) × Since b w)
  read_clock-Since b =
      triple_perform _ _ (λ w r e p. (rw e p, (Since-IsStable b).grows w (Event.clock_read r) tt p))

  module _ (d : Domain) (hint : String) (again : ℕ → M (Unit {0}))
      (keeps : (b n : ℕ) → Keeps (Since b) (again n)) where
    -- One round, with what the next round starts from.
    wait_round :
        (deadline fuel attempt_no last_sent b : ℕ)
        → ((t : ℕ)
            → b ≤ t
            → t ≤ deadline
            → (due : ℕ × ℕ)
            → Triple
                (Since (b + env.config.wait_poll))
                (wait_loop env d hint again deadline fuel due.0 due.1)
                (λ r _. Ended r))
        → Triple
            (Since b)
            (wait_loop env d hint again deadline (suc fuel) attempt_no last_sent)
            (λ r _. Ended r)
    unfolding wait_loop
    wait_round deadline fuel attempt_no last_sent b next =
        triple_attempt {Q = λ _. Since b} (quiet (Since-IsStable b) _ _ (λ _. tt))
          (λ e. triple_pure _ (λ w p q. cc))
          λ s.
            triple_branch _ _ _ (λ _. triple_pure _ (λ w p. tt))
              (λ _. triple_bind (read_clock-Since b) λ t. triple_given λ b_le.
                triple_branch _ _ _ (λ _. triple_pure _ (λ w p q. cc))
                  (λ late.
                    triple_bind
                      (resend_if_due-Keeps (Since-IsStable b) env again attempt_no last_sent
                        (keeps b))
                      λ due.
                        triple_bind
                          (triple_perform _ _
                            (λ w r e p. omega (arith, clock.sleeps w.trace env.config.wait_poll)))
                          λ _. next t b_le (ltb→le deadline t late) due))

    wait_loop-Ended :
        (fuel deadline attempt_no last_sent b : ℕ)
        → deadline < b + fuel * env.config.wait_poll
        → Triple
            (Since b)
            (wait_loop env d hint again deadline (suc fuel) attempt_no last_sent)
            (λ r _. Ended r)
    wait_loop-Ended zero deadline attempt_no last_sent b h =
        wait_round deadline zero attempt_no last_sent b (λ t b_le t_le. absurd (omega arith))
    wait_loop-Ended (suc fuel) deadline attempt_no last_sent b h =
        wait_round deadline (suc fuel) attempt_no last_sent b
          (λ t b_le t_le due. wait_loop-Ended fuel deadline due.0 due.1 _ (grind arith))

    -- The rounds that fit into the bound, and one more.
    enough_rounds : (bound poll b : ℕ) → 0 < poll → b + bound < b + suc (bound / poll) * poll
    enough_rounds bound poll b h = grind (arith, div-add-mod bound poll, mod-lt bound h)

    wait_stopped-Ended :
        0 < env.config.wait_poll
        → Triple (λ _. Unit {0}) (wait_stopped env d hint again) (λ r _. Ended r)
    unfolding wait_stopped
    wait_stopped-Ended pos =
        triple_bind {Q = λ b. Since b}
          (triple_perform _ _ (λ w r e p. rw e (clock.monotone w.trace _)))
          λ b.
            triple_bind (quiet (Since-IsStable b) _ _ (λ _. tt))
              λ last_sent. wait_loop-Ended _ _ 1 last_sent b (enough_rounds _ _ b pos)

  resend-Since : (d : Domain) (domain : String) (b n : ℕ) → Keeps (Since b) (resend env d domain n)
  unfolding resend
  resend-Since d domain b n =
      triple_bind (shutdown-Keeps (Since-IsStable b) env d domain)
        λ sent. triple_set_step _ _ _ (λ w p. p)

-- Under a clock that never runs backwards and a sleep that lasts at least as long as asked, the
-- wait for a guest to stop, with the re-sent shutdowns of a reboot or a staged restore, comes to
-- an end from every state and whatever libvirt answers, within the rounds that the model gives it.
pub wait_stopped_ends :
    (env : Env) (d : Domain) (domain hint : String) (w : World)
    → IsClock env
    → 0 < env.config.wait_poll
    → Ended (wait_stopped env d hint (resend env d domain) w).0
wait_stopped_ends env d domain hint w clock pos =
    (wait_stopped-Ended env clock d hint (resend env d domain) (resend-Since env clock d domain)
        pos).at
      w tt
