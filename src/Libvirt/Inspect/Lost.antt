-- ===== src/Libvirt/Inspect/Lost.antt =====
-- A poll whose list of domains fails.
use Prim.Native.String.{◌++◌}
use pademelon.Base.{
  true≢false, ℕ, ◌≡◌, inl, inr, refl, String, false, Option, none, some, Result, err, ◌∙◌, sym, ◌⊎◌,
  true,
}
use pademelon.Libvirt.Connection.{Link, Daemon, connect}
use pademelon.Libvirt.Connection.Lock.{
  IsSound, IsAnswered, connect_waits_iff, fails_to_subscribe, closed,
}
use pademelon.Libvirt.Fill.{Host, Kept}
use pademelon.Libvirt.Inspect.{Polled, poll, poll_connected, poll_listed, poll_failed}

-- A poll that failed: what is kept is as before, and the link has no connection to write to.
pub record IsLost (m : Daemon) (e : String) (k : Kept) (p : Polled) : Type 0 where
  pub failed :
      (p.answer ≡ err ("list domains: " ++ e))
      ⊎ ((text : String) × (m.dial ≡ err text) × (p.answer ≡ err text))
  pub kept : p.kept ≡ k
  pub sound : IsSound p.link
  pub gone : p.link.conn ≡ none

listed-IsLost :
    (h : Host) (took : ℕ) (m : Daemon) (e : String) (k : Kept) (l : Link)
    → IsSound l
    → (p : Polled) × (poll_listed h took (err e) k l ≡ some p) × IsLost m e k p
unfolding poll_listed poll_failed
listed-IsLost h took m e k l sound =
    let c = closed l sound in
    (
      record { answer = err ("list domains: " ++ e); kept = k; link = c.0 },
      rw c.1 refl,
      record { failed = inl refl; kept = refl; sound = c.2; gone = c.3 },
    )

answered-IsLost :
    (h : Host) (took : ℕ) (m : Daemon) (e : String) (k : Kept) (o : Option (Result String ℕ × Link))
    → IsAnswered m o
    → (p : Polled) × (poll_connected h took (λ handle. err e) k o ≡ some p) × IsLost m e k p
unfolding poll_connected
answered-IsLost h took m e k _ (IsAnswered.live handle l sound at) =
    listed-IsLost h took m e k l sound
answered-IsLost h took m e k _ (IsAnswered.refused text l sound gone at) = (
  record { answer = err text; kept = k; link = l },
  refl,
  record { failed = inr (text, at, refl); kept = refl; sound = sound; gone = gone },
)

-- Where libvirt refuses the list of domains, and not the subscription of a new connection, a poll
-- comes back with an error, that one or the one of its dial; the samples, marks and hints are as
-- they were; and the link is left sound and without a connection, so that the next poll dials again.
pub poll-IsLost :
    (h : Host) (took : ℕ) (m : Daemon) (e : String) (k : Kept) (l : Link)
    → IsSound l
    → fails_to_subscribe m l.conn ≡ false
    → (p : Polled) × (poll h took m (λ handle. err e) k l ≡ some p) × IsLost m e k p
unfolding poll
poll-IsLost h took m e k l sound subscribes =
    answered-IsLost h took m e k (connect m l) (settled (connect_waits_iff m l sound).1)
  where
    settled :
        (fails_to_subscribe m l.conn ≡ true) ⊎ IsAnswered m (connect m l)
        → IsAnswered m (connect m l)
    settled (inl fails) = absurd (true≢false (sym fails ∙ subscribes))
    settled (inr answer) = answer
