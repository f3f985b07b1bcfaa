-- ===== src/Actions/Guest/Off.antt =====
-- What the trace says of the guest: whether the last sign of it is that libvirt saw it off.
use pademelon.Base.{
  ℕ, zero, suc, ◌≡◌, refl, ◌∙◌, String, Bool, true, false, List, [], ◌∷◌, Result, ok, err, nat_eq,
}
use pademelon.Actions.Job.{StepName, StepState}
use pademelon.Actions.Effects.{
  Domain, Command, guest_shutdown, Env, Event, Trace, World, M, perform, set_step, nudge_poller,
}
use pademelon.Actions.Effects.Triples.{
  Triple, Keeps, triple_pure, triple_perform, triple_branch, triple_bind, triple_attempt, Either,
}
use pademelon.Actions.Guest.{
  raw_agent_call, first_reply, shutdown, agent_connected, resend, resend_if_due, wait_loop,
  wait_stopped,
}

-- The calls of a shutdown request and of a wait: none of them starts a guest, and none is a write
-- of the middleware.
abbrev pub IsQuiet : Event → Type 0
IsQuiet (Event.listed _) = Unit {0}
IsQuiet (Event.info_read _ _) = Unit {0}
IsQuiet (Event.acpi_sent _ _) = Unit {0}
IsQuiet (Event.agent_answered _ guest_shutdown _) = Unit {0}
IsQuiet (Event.snapshot_read _) = Unit {0}
IsQuiet (Event.clock_read _) = Unit {0}
IsQuiet (Event.slept _) = Unit {0}
IsQuiet Event.nudged = Unit {0}
IsQuiet _ = ⊥

-- An invariant of the trace that no quiet call breaks.
pub record IsStable (P : World → Type 0) : Type 0 where
  pub grows : (w : World) (e : Event) → IsQuiet e → P w → P (record w { trace = e ∷ w.trace })

pub nudge_lem :
    {P : World → Type 0} (env : Env)
    → ((w : World) → P w → P (record w { trace = Event.nudged ∷ w.trace }))
    → Keeps P (nudge_poller env)
unfolding nudge_poller
nudge_lem env h =
    triple_branch _ _ _ (λ _. triple_perform _ _ (λ w r e p. h w p))
      (λ _. triple_pure tt (λ w p. p))

-- An agent command ends as its answer does.
pub raw_agent_call-Either :
    {P Good Bad : World → Type 0} (env : Env) (d : Domain) (c : Command)
    → ((w : World) (replies : List String)
        → P w
        → Good (record w { trace = Event.agent_answered d c (ok replies) ∷ w.trace }))
    → ((w : World) (e : String)
        → P w
        → Bad (record w { trace = Event.agent_answered d c (err e) ∷ w.trace }))
    → Triple P (raw_agent_call env d c) (Either Good Bad)
unfolding raw_agent_call first_reply
raw_agent_call-Either {P} {Good} {Bad} env d c good bad =
    triple_bind {Q = Either Good Bad} (triple_perform _ _ (λ w r e p. answered w r p))
      (λ r. triple_pure _ (λ w p. first r w p))
  where
    answered :
        (w : World) (r : Result String (List String))
        → P w
        → Either Good Bad r (record w { trace = Event.agent_answered d c r ∷ w.trace })
    answered w (ok replies) p = good w replies p
    answered w (err e) p = bad w e p

    first :
        (r : Result String (List String)) (w : World)
        → Either Good Bad r w
        → Either Good Bad (first_reply r) w
    first (ok []) w p = p
    first (ok (_ ∷ _)) w p = p
    first (err _) w p = p

module _ {P : World → Type 0} (stable : IsStable P) where
  pub quiet :
      {A : Type 0} (ask : Trace → A) (event : A → Event)
      → ((a : A) → IsQuiet (event a))
      → Keeps P (perform ask event)
  quiet ask event q = triple_perform ask event (λ w r e p. stable.grows w (event r) (q r) p)

  pub nudge-Keeps : (env : Env) → Keeps P (nudge_poller env)
  nudge-Keeps env = nudge_lem env (λ w p. stable.grows w Event.nudged tt p)

  pub shutdown-Keeps : (env : Env) (d : Domain) (domain : String) → Keeps P (shutdown env d domain)
  unfolding shutdown agent_connected raw_agent_call
  shutdown-Keeps env d domain =
      triple_bind (triple_bind (quiet _ _ (λ _. tt)) (λ snap. triple_pure _ (λ w p. p)))
        λ connected.
          triple_branch connected _ _
            (λ _.
              triple_attempt {Q = λ _. P}
                (triple_bind (quiet _ _ (λ _. tt)) (λ r. triple_pure _ (λ w p. p)))
                (λ e.
                  triple_branch _ _ _ (λ _. triple_pure _ (λ w p. p)) (λ _. quiet _ _ (λ _. tt)))
                (λ _. triple_pure _ (λ w p. p)))
            (λ _. quiet _ _ (λ _. tt))

  pub resend_if_due-Keeps :
      (env : Env) (again : ℕ → M (Unit {0})) (attempt_no last_sent : ℕ)
      → ((n : ℕ) → Keeps P (again n))
      → Keeps P (resend_if_due env again attempt_no last_sent)
  unfolding resend_if_due
  resend_if_due-Keeps env again attempt_no last_sent keeps = triple_bind (quiet _ _ (λ _. tt)) λ t.
      triple_branch _ _ _
        (λ _.
          triple_bind (keeps _)
            λ _. triple_bind (quiet _ _ (λ _. tt)) λ _. triple_pure _ (λ w p. p))
        (λ _. triple_pure _ (λ w p. p))

  pub resend-Keeps :
      (env : Env) (d : Domain) (domain : String) (n : ℕ)
      → ((detail : String) → Keeps P (set_step StepName.stop StepState.done detail))
      → Keeps P (resend env d domain n)
  unfolding resend
  resend-Keeps env d domain n step = triple_bind (shutdown-Keeps env d domain) λ sent. step _

-- Whether the last word on the guest is that libvirt reported it off.
unfoldable pub guest_off : Env → Trace → Bool
guest_off env [] = false
guest_off env (Event.info_read _ (ok state) ∷ t) = nat_eq state env.domain_shutoff
guest_off env (Event.created _ _ ∷ t) = false
guest_off env (Event.resumed _ _ ∷ t) = false
guest_off env (_ ∷ t) = guest_off env t

abbrev pub IfOk : {E A : Type 0} → Result E A → Type 0 → Type 0
IfOk (ok _) T = T
IfOk (err _) T = Unit {0}

module _ {P : World → Type 0} (stable : IsStable P) (env : Env) (d : Domain) (hint : String)
    (again : ℕ → M (Unit {0})) (keeps : (n : ℕ) → Keeps P (again n)) where
  wait_loop-IfOk :
      (deadline fuel attempt_no last_sent : ℕ)
      → Triple P
          (wait_loop env d hint again deadline fuel attempt_no last_sent)
          (λ r w. P w × IfOk r (guest_off env w.trace ≡ true))
  unfolding wait_loop
  wait_loop-IfOk deadline zero attempt_no last_sent = triple_pure _ (λ w p. (p, tt))
  wait_loop-IfOk deadline (suc fuel) attempt_no last_sent =
      triple_attempt
        {Q = λ r w.
          P w × ((s : ℕ) → r ≡ ok s → guest_off env w.trace ≡ nat_eq s env.domain_shutoff)}
        (triple_perform _ _ (λ w r e p. (stable.grows w _ tt p, unfold guest_off in λ s h. rw h)))
        (λ e. triple_pure _ (λ w p. (p.0, tt)))
        λ s.
          triple_branch _ _ _ (λ off. triple_pure _ (λ w p. (p.0, p.1 s refl ∙ off)))
            (λ _.
              triple_bind {Q = λ _. P} (triple_perform _ _ (λ w r e p. stable.grows w _ tt p.0))
                λ t.
                  triple_branch _ _ _ (λ _. triple_pure _ (λ w p. (p, tt)))
                    (λ _.
                      triple_bind (resend_if_due-Keeps stable env again attempt_no last_sent keeps)
                        λ due.
                          triple_bind (quiet stable _ _ (λ _. tt))
                            λ _. wait_loop-IfOk deadline fuel due.0 due.1))

  -- A wait that ends well ended on libvirt's report that the guest is off.
  pub wait_stopped-IfOk :
      Triple P (wait_stopped env d hint again) (λ r w. P w × IfOk r (guest_off env w.trace ≡ true))
  unfolding wait_stopped
  wait_stopped-IfOk =
      triple_bind (quiet stable _ _ (λ _. tt))
        λ started. triple_bind (quiet stable _ _ (λ _. tt)) λ last_sent. wait_loop-IfOk _ _ _ _
