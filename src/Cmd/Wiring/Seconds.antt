-- ===== src/Cmd/Wiring/Seconds.antt =====
-- main.go with source.go: the timeout that a guest's agent gets.
use pademelon.Base.{
  ℕ, ℤ, zero, suc, is_below, positive_or, ◌+◌, ◌*◌, ◌/◌, ◌%◌, ◌^◌, ◌≤◌, ◌<◌, ◌≡◌, refl, String,
  Bool, true, false, arith, true≢false, ltb→lt, lt→ltb, ltb→le,
}
use pademelon.Clocks.{second, default_agent_timeout}
use pademelon.Libvirt.Start.{new_source, seconds_int32}
use pademelon.Cmd.Wiring.{source_config}
use pademelon.Cmd.Flags.{Outside, Level, Format}
use pademelon.Cmd.Start.{Given, Settings, Outcome, main}
use pademelon.Cmd.Start.Servable.{main-IsServable}

-- A number of seconds for libvirt: at least one, and short of the flag by less than a second.
pub record IsWhole (flag : ℤ) (seconds : ℤ) : Type 0 where
  pub count : ℕ
  pub same : seconds ≡ ℤ.pos count
  pub some_time : 1 ≤ count
  pub within : (d : ℕ) → flag ≡ ℤ.pos d → (count * second ≤ d) × (d < (count + 1) * second)

small_seconds : (d : ℕ) → d < 2 ^ 31 * second → seconds_int32 d ≡ ℤ.pos (d / second)
unfolding seconds_int32
small_seconds d h =
    let small : d / second < 2 ^ 31 = omega (arith, h) in
    let kept : d / second % 2 ^ 32 ≡ d / second = omega (arith, small) in
    rw (kept, lt→ltb (d / second) (2 ^ 31) small) refl

pos_inj : {a b : ℕ} → ◌≡◌ {A = ℤ} (ℤ.pos a) (ℤ.pos b) → a ≡ b
pos_inj e = cc

whole :
    (flag : ℤ)
    → is_below flag second ≡ false
    → is_below flag (2 ^ 31 * second) ≡ true
    → IsWhole flag (seconds_int32 (positive_or default_agent_timeout flag))
unfolding is_below positive_or
whole (ℤ.negsuc n) long short = cc
whole (ℤ.pos zero) long short = absurd (true≢false long)
whole (ℤ.pos (suc n)) long short =
    let more : second ≤ suc n = ltb→le (suc n) second long in
    record {
      count = suc n / second;
      same = small_seconds (suc n) (ltb→lt (suc n) (2 ^ 31 * second) short);
      some_time = omega (arith, more);
      within = λ d e. let at : suc n ≡ d = pos_inj e in (omega (arith, at), omega (arith, at));
    }

-- A timeout for the guests' agents with which `main` starts a server, and which is less than 2^31
-- seconds, goes to libvirt as a number of seconds that is at least one and falls short of the flag
-- by less than a second: a part of a second is cut off.
pub main-IsWhole :
    (o : Outside) (probe : ℕ) (append_certs : String → Bool) (g : Given) (s : Settings)
    (log : Level × Format) (concurrency : ℤ)
    → main o probe append_certs g ≡ Outcome.serving s log
    → is_below s.agent_timeout (2 ^ 31 * second) ≡ true
    → IsWhole s.agent_timeout (seconds_int32 (new_source (source_config s concurrency)).1)
unfolding new_source source_config
main-IsWhole o probe append_certs g s log concurrency h short =
    whole s.agent_timeout (main-IsServable o probe append_certs g s log h).timeout short
