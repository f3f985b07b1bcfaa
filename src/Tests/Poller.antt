-- ===== src/Tests/Poller.antt =====
-- A poll of two machines, and the parts of it.
use pademelon.Base.{
  ℕ, ℤ, ◌-◌, ◌/◌, ◌*◌, ◌≡◌, ◌↔◌, ◌⊎◌, inl, refl, String, true, false, none, some, List, [], ◌∷◌,
  Result, ok, err, Table, if◌then◌else◌, ltb, leb, ◌&&◌,
}
use pademelon.Clocks.{second}
use pademelon.Model.{Vm, Snapshot}
use pademelon.Libvirt.Memory.{
  MemoryStat, mem_stat_available, mem_stat_unused, mem_stat_usable, mem_stat_last_update,
  balloon_memory,
}
use pademelon.Libvirt.Memory.Reading.{IsVerdict, last, balloon_memory-IsVerdict}
use pademelon.Libvirt.Rates.{Sample, fill_disk_live}
use pademelon.Libvirt.Rates.Polls.{Shows, two_polls}
use pademelon.Libvirt.Rates.Forget.{is_plain}
use pademelon.Libvirt.Connection.{Daemon, no_link, connect, lock, unlock, start_agent_events}
use pademelon.Libvirt.Connection.Lock.{
  IsSound, IsAnswered, fails_to_subscribe, needs_dial, succeeded, connect_waits_iff,
}
use pademelon.Libvirt.Fill.{Domain, Host, Kept}
use pademelon.Libvirt.Inspect.{Polled, poll, inspect, inspect_all}
use pademelon.Libvirt.Inspect.Rows.{IsRows, poll-IsRows}
use pademelon.Libvirt.Inspect.Lost.{IsLost, poll-IsLost}
use pademelon.Tests.{zvol_disk}
use pademelon.Tests.Agents.{decoders}

abbrev stats : List MemoryStat
stats =
    record { tag = 5; val = 4096 }
    ∷ record { tag = 4; val = 100 }
    ∷ record { tag = 8; val = 1024 }
    ∷ record { tag = 9; val = 1000 }
    ∷ []

balloon_memory-IsVerdict_example :
    IsVerdict
      (1010 * second)
      (last mem_stat_available stats)
      (last mem_stat_unused stats)
      (last mem_stat_usable stats)
      (last mem_stat_last_update stats)
      (balloon_memory stats (1010 * second))
balloon_memory-IsVerdict_example = balloon_memory-IsVerdict stats (1010 * second)

abbrev quotient : ℕ → ℕ → ℕ
quotient bytes elapsed = bytes * second / elapsed

abbrev after_one : Table Sample
after_one =
    (fill_disk_live quotient "1_web" (5 * second) none (some (ℤ.pos 100, ℤ.pos 7)) zvol_disk []).1

two_polls_example :
    Shows quotient
      (fill_disk_live quotient "1_web"
        (9 * second)
        (some 64)
        (some (ℤ.pos 500, ℤ.pos 7))
        zvol_disk
        after_one).0
      (ltb (5 * second) (9 * second) && leb 100 500 && leb 7 7)
      (if ltb (5 * second) (9 * second) && leb 100 500
        then quotient (500 - 100) (9 * second - 5 * second)
        else 0)
      (if ltb (5 * second) (9 * second) && leb 7 7
        then quotient (7 - 7) (9 * second - 5 * second)
        else 0)
two_polls_example =
    two_polls quotient "1_web" (5 * second) 100 7 (9 * second) 500 7 none (some 64) zvol_disk
      zvol_disk [] after_one refl refl

plain_web : is_plain "1_web" ≡ true
unfolding is_plain
plain_web = refl

plain_webs : is_plain "1_webs" ≡ true
unfolding is_plain
plain_webs = refl

-- A libvirt that takes connections and refuses subscriptions.
abbrev old_daemon : Daemon
old_daemon = record {
  is_connected = λ h. true;
  dial = ok 3;
  subscribe = err "unsupported";
  notify = true;
}

no_link-IsSound : IsSound no_link
no_link-IsSound = record { free = refl; rides = inl refl }

connect_waits_iff_example :
    ((connect old_daemon no_link ≡ none) ↔ (fails_to_subscribe old_daemon no_link.conn ≡ true))
    × ((fails_to_subscribe old_daemon no_link.conn ≡ true)
        ⊎ IsAnswered old_daemon (connect old_daemon no_link))
connect_waits_iff_example = connect_waits_iff old_daemon no_link no_link-IsSound

abbrev daemon : Daemon
daemon = record old_daemon { subscribe = ok tt }

abbrev host : Host
host = record {
  now = 9;
  domain_info = λ d. ok (record { state = 5; max_mem = 4096; vcpus = 2; cpu_time = 0 });
  xml_desc = λ d. err "no xml";
  parse_domain_xml = λ xml. record { uuid = ""; disks = []; interfaces = []; channels = [] };
  memory_stats = λ d. ok stats;
  set_stats_period = λ d. true;
  block_info = λ d dev. none;
  block_stats = λ d dev. none;
  interface_stats = λ d dev. none;
  agent_command = λ d cmd. ok ("{}" ∷ []);
  decoders = decoders;
  per_second = quotient;
  stats_period = 10 * second;
}

abbrev kept : Kept
kept = record {
  prev_cpu = [];
  prev_block = after_one;
  prev_net = [];
  last_agent = [];
  last_mem_stale = [];
  stats_period_set = [];
  agent_events = [];
}

abbrev web : Domain
web = record { name = "1_web"; id = 4 }

subscribes : fails_to_subscribe daemon no_link.conn ≡ false
unfolding fails_to_subscribe needs_dial succeeded
subscribes = refl

poll-IsLost_example :
    (p : Polled) × (poll host 0 daemon (λ handle. err "gone") kept no_link ≡ some p)
    × IsLost daemon "gone" kept p
poll-IsLost_example = poll-IsLost host 0 daemon "gone" kept no_link no_link-IsSound subscribes

abbrev listing : ℕ → Result String (List Domain)
listing handle = ok (web ∷ [])

-- The machine is off, and its XML cannot be read.
abbrev row : Vm
row = (inspect host web kept).0

abbrev snap : Snapshot
snap = record { vms = row ∷ []; polled = 9; poll_ms = 0; connected = true; error = "" }

abbrev polled : Polled
polled = record {
  answer = ok snap;
  kept = (inspect host web kept).1;
  link = record no_link { conn = some 3; subscribed = true };
}

polled_web : poll host 0 daemon listing kept no_link ≡ some polled
unfolding poll connect start_agent_events lock unlock inspect_all
polled_web = refl

poll-IsRows_example :
    (handle : ℕ) × (ds : List Domain) × (listing handle ≡ ok ds) × IsRows ds snap.vms
poll-IsRows_example = poll-IsRows host 0 daemon listing kept no_link polled snap polled_web refl
