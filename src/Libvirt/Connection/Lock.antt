-- ===== src/Libvirt/Connection/Lock.antt =====
-- When `connect` comes back, and how it leaves the connection.
use pademelon.Base.{
  ℕ, ◌≡◌, ◌↔◌, ◌⊎◌, inl, inr, refl, String, Bool, true, false, Option, none, some, Result, ok, err,
  not, arith, Bool-cases, ◌&&◌, Option-cases, ◌≢◌, ◌∙◌,
}
use pademelon.Libvirt.Connection.{
  Link, Daemon, lock, unlock, start_agent_events, stop_agent_events, hang_up, connect, close,
  dialled, held_conn, connect_locked, started, start_subscribed, warn_events_unavailable,
  warn_locked, drop_note, hang_up_from, close_locked,
}

-- There is no live handle, so that `connect` dials.
unfoldable pub needs_dial : Daemon → Option ℕ → Bool
needs_dial m none = true
needs_dial m (some handle) = not (m.is_connected handle)

unfoldable pub succeeded : {A : Type 0} → Result String A → Bool
succeeded (ok a) = true
succeeded (err e) = false

-- The case in which `warnEventsUnavailable` is called under the lock.
unfoldable pub fails_to_subscribe : Daemon → Option ℕ → Bool
fails_to_subscribe m conn =
    needs_dial m conn && succeeded m.dial && m.notify && not (succeeded m.subscribe)

-- A link between two calls: the lock is free, and a subscription rides on a connection.
pub record IsSound (l : Link) : Type 0 where
  pub free : l.locked ≡ false
  pub rides : l.subscribed ≡ false ⊎ ((handle : ℕ) × (l.conn ≡ some handle))

-- What `connect` answers with, from a dial.
pub data IsAnswered (m : Daemon) : Option (Result String ℕ × Link) → Type 0 where
  live :
      (handle : ℕ) (l : Link)
      → IsSound l
      → l.conn ≡ some handle
      → IsAnswered m (some (ok handle, l))
  refused :
      (e : String) (l : Link)
      → IsSound l
      → l.conn ≡ none
      → m.dial ≡ err e
      → IsAnswered m (some (err e, l))

answered : (m : Daemon) {o : Option (Result String ℕ × Link)} → IsAnswered m o → o ≢ none
answered m (IsAnswered.live handle l sound at) e = cc
answered m (IsAnswered.refused text l sound gone at) e = cc

subscribed_waits :
    (r : Result String (Unit {0})) (l : Link)
    → l.locked ≡ true
    → not (succeeded r) ≡ true
    → start_subscribed r l ≡ none
unfolding start_subscribed drop_note warn_events_unavailable warn_locked lock succeeded
subscribed_waits (ok done) l taken h = cc
subscribed_waits (err e) l taken h = rw taken refl

subscribed_done :
    (r : Result String (Unit {0})) (l : Link)
    → not (succeeded r) ≡ false
    → start_subscribed r l ≡ some (record l { subscribed = true })
unfolding start_subscribed succeeded
subscribed_done (ok done) l h = refl
subscribed_done (err e) l h = cc

start_waits :
    (m : Daemon) (l : Link)
    → l.locked ≡ true
    → m.notify && not (succeeded m.subscribe) ≡ true
    → start_agent_events m l ≡ none
unfolding start_agent_events
start_waits m l taken h = elim (Bool-cases m.notify) [
  | inl asked ↦ rw asked (subscribed_waits m.subscribe l taken (ground (arith, h, asked)))
  | inr silent ↦ ground (arith, h, silent)
]

start_done :
    (m : Daemon) (l : Link)
    → m.notify && not (succeeded m.subscribe) ≡ false
    → (l' : Link) × (start_agent_events m l ≡ some l') × (l'.conn ≡ l.conn)
unfolding start_agent_events
start_done m l h = elim (Bool-cases m.notify) [
  | inl asked ↦ (
    record l { subscribed = true },
    rw asked (subscribed_done m.subscribe l (ground (arith, h, asked))),
    refl,
  )
  | inr silent ↦ (l, rw silent refl, refl)
]

-- A dial on a link that has the lock and no connection left.
dialled_waits :
    (m : Daemon) (r : Result String ℕ) (l : Link)
    → l.locked ≡ true
    → succeeded r && m.notify && not (succeeded m.subscribe) ≡ true
    → dialled m r l ≡ none
unfolding dialled started succeeded
dialled_waits m (err e) l taken h = cc
dialled_waits m (ok handle) l taken h =
    rw (start_waits m (record l { conn = some handle }) taken h) refl

dialled-IsAnswered :
    (m : Daemon) (r : Result String ℕ) (l : Link)
    → m.dial ≡ r
    → l.conn ≡ none
    → l.subscribed ≡ false
    → succeeded r && m.notify && not (succeeded m.subscribe) ≡ false
    → IsAnswered m (dialled m r l)
unfolding dialled started succeeded unlock
dialled-IsAnswered m (err e) l at gone quiet h =
    IsAnswered.refused e (record l { locked = false }) (record { free = refl; rides = inl quiet })
      gone at
dialled-IsAnswered m (ok handle) l at gone quiet h =
    let s = start_done m (record l { conn = some handle }) h in
    rw s.1 (
      IsAnswered.live handle (record s.0 { locked = false })
        (record { free = refl; rides = inr (handle, s.2) }) s.2)

hung_up :
    (l : Link)
    → ((hang_up l).locked ≡ l.locked)
      × ((hang_up l).conn ≡ none)
      × ((hang_up l).subscribed ≡ l.subscribed)
unfolding hang_up hang_up_from
hung_up l = elim (Option-cases l.conn) [
  | inl gone ↦ rw gone (refl, refl, refl)
  | inr (handle, at) ↦ rw at (refl, refl, refl)
]

-- `Close` leaves no connection.
pub closed :
    (l : Link) → IsSound l → (l' : Link) × (close l ≡ some l') × IsSound l' × (l'.conn ≡ none)
unfolding close close_locked lock unlock stop_agent_events
closed l sound =
    let left = hung_up (record l { locked = true; subscribed = false }) in
    (
      record (hang_up (record l { locked = true; subscribed = false })) { locked = false },
      rw sound.free refl,
      record { free = refl; rides = inl left.2 },
      left.1,
    )

held_waits :
    (m : Daemon) (o : Option ℕ) (l : Link)
    → l.locked ≡ true
    → fails_to_subscribe m o ≡ true
    → held_conn m o l ≡ none
unfolding held_conn fails_to_subscribe needs_dial stop_agent_events
held_waits m none l taken h = dialled_waits m m.dial l taken h
held_waits m (some handle) l taken h = elim (Bool-cases (m.is_connected handle)) [
  | inl alive ↦ ground (arith, h, alive)
  | inr dead ↦
      let left = hung_up (record l { subscribed = false }) in
      rw dead (
        dialled_waits m m.dial (hang_up (record l { subscribed = false })) (left.0 ∙ taken)
          (ground (arith, h, dead)))
]

quiet_without :
    (l : Link)
    → l.conn ≡ none
    → (l.subscribed ≡ false) ⊎ ((handle : ℕ) × (l.conn ≡ some handle))
    → l.subscribed ≡ false
quiet_without l gone (inl quiet) = quiet
quiet_without l gone (inr (handle, at)) = cc

held-IsAnswered :
    (m : Daemon) (o : Option ℕ) (l : Link)
    → l.conn ≡ o
    → (l.subscribed ≡ false) ⊎ ((handle : ℕ) × (l.conn ≡ some handle))
    → fails_to_subscribe m o ≡ false
    → IsAnswered m (held_conn m o l)
unfolding held_conn fails_to_subscribe needs_dial stop_agent_events unlock
held-IsAnswered m none l at rides h =
    dialled-IsAnswered m m.dial l refl at (quiet_without l at rides) h
held-IsAnswered m (some handle) l at rides h = elim (Bool-cases (m.is_connected handle)) [
  | inl alive ↦ rw alive (
      IsAnswered.live handle (record l { locked = false })
        (record { free = refl; rides = inr (handle, at) }) at)
  | inr dead ↦
      let left = hung_up (record l { subscribed = false }) in
      rw dead (
        dialled-IsAnswered m m.dial (hang_up (record l { subscribed = false })) refl left.1 left.2
          (ground (arith, h, dead)))
]

-- From a sound link, `connect` waits for ever, with the lock held, exactly if it has to dial, the
-- dial succeeds, `Notify` is set and libvirt refuses the subscription; otherwise it answers with a
-- handle that is the connection, or, if the dial failed, with its error and no connection, and leaves
-- the link sound again: the lock is free, and a subscription rides on a connection.
pub connect_waits_iff :
    (m : Daemon) (l : Link)
    → IsSound l
    → ((connect m l ≡ none) ↔ (fails_to_subscribe m l.conn ≡ true))
      × ((fails_to_subscribe m l.conn ≡ true) ⊎ IsAnswered m (connect m l))
unfolding connect connect_locked lock
connect_waits_iff m l sound =
    let taken = record l { locked = true } in
    rw sound.free (elim (Bool-cases (fails_to_subscribe m l.conn)) [
      | inl fails ↦ (((λ e. fails), λ e. held_waits m l.conn taken refl fails), inl fails)
      | inr fine ↦
          let answer = held-IsAnswered m l.conn taken refl sound.rides fine in
          (((λ e. absurd (answered m answer e)), λ e. cc), inr answer)
    ])
