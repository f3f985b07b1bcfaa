-- ===== src/Tests/Snapshots.antt =====
-- A snapshot service with one machine that was fetched and one that is gone.
use pademelon.Base.{
  nat_eq, ok, err, String, ◌≡◌, refl, true, false, some, ◌&&◌, not, [], ◌∷◌, lookup, if◌then◌else◌,
}
use pademelon.Model.{ZfsSnapshot}
use pademelon.Snapshots.{
  Status, State, Service, fresh_state, started, begin_check, settle, is_nil, look, contains_id,
}
use pademelon.Snapshots.Shown.{failed, settle_shows}
use pademelon.Snapshots.Check.{Watched, validate_known, watch, Verdict, validate_known-Verdict}
use pademelon.Snapshots.Fetch.{Found, IsOver, fetch, fetch-IsOver}
use pademelon.Tests.{running_vm}

abbrev monday : ZfsSnapshot
monday = record {
  id = "tank/vm1@monday";
  dataset = "tank/vm1";
  name = "monday";
  created = 1;
  used = 0;
  referenced = 0;
}

abbrev held : State
held = record fresh_state { snapshots = monday ∷ []; fetched_at = some 5 }

abbrev service : Service
service = record { states = ("vm1", held) ∷ ("gone", fresh_state) ∷ []; sweeping = false }

abbrev down : Status
down = record { connected = false; error = "refused" }

settle_shows_example :
    let after = settle 9 down ("tank/vm1" ∷ []) [] "refused" held in
    (after.fetching ≡ false)
    × (after.stale ≡ (failed ("tank/vm1" ∷ []) [] "refused" && not (is_nil held.snapshots)))
    × (after.snapshots ≡ (
        if is_nil {A = String} ("tank/vm1" ∷ [])
        then []
        else if failed ("tank/vm1" ∷ []) [] "refused"
        then held.snapshots
        else []))
    × (after.err ≡ (if is_nil {A = String} ("tank/vm1" ∷ []) then "" else "refused"))
settle_shows_example = settle_shows 9 down ("tank/vm1" ∷ []) [] "refused" held

-- A fetch that is still running at the first look of a check, and clean at the second.
abbrev pub fetching : Service
fetching = record { states = ("vm1", started fresh_state) ∷ []; sweeping = false }

abbrev pub watched : Watched
watched = record {
  looks = λ k. some (if nat_eq k 0 then started fresh_state else held);
  done = λ k. nat_eq k 1;
}

validate_known-Verdict_example :
    Verdict watched "tank/vm1@monday"
      (some (started fresh_state))
      (validate_known 2 watched "vm1" "tank/vm1@monday" fetching)
unfolding lookup
validate_known-Verdict_example =
    validate_known-Verdict 1 watched "vm1" "tank/vm1@monday" fetching refl

pub checked_in_time : validate_known 2 watched "vm1" "tank/vm1@monday" fetching ≡ some (ok true)
unfolding validate_known begin_check lookup watch look contains_id
checked_in_time = refl

abbrev found : Found
found = record {
  vms = running_vm ∷ [];
  status = λ k. down;
  rounds = 3;
  list = λ dataset. err "no answer";
  expired = λ k. false;
  sort = λ rows. rows;
  now = 9;
  meanwhile = λ s. s;
}

fetch-IsOver_example : IsOver found "vm1" fetching (fetch found "vm1" fetching)
fetch-IsOver_example = fetch-IsOver found "vm1" fetching
