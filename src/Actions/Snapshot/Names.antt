-- ===== src/Actions/Snapshot/Names.antt =====
-- The counting of datasets in the snapshot phase.
use pademelon.Base.{ℕ, ◌+◌, ◌≡◌, String, List, [], ◌∷◌, Result, ok, err, length, arith}
use pademelon.Actions.Effects.{Env, World, pure, ◌>>=◌, create_zfs_snapshot}
use pademelon.Actions.Snapshot.{Outcome, create_all, add_outcome}

add_outcome_count :
    (ds : String) (r : Result String String) (o : Outcome) (n : ℕ)
    → length o.created + length o.failed ≡ n
    → length (add_outcome ds r o).created + length (add_outcome ds r o).failed ≡ n + 1
add_outcome_count ds (ok _) o n h = omega arith
add_outcome_count ds (err _) o n h = omega arith

-- Every dataset is tried whatever happened to those before it, and each is counted once, as
-- created or as failed.
pub create_all_accounts :
    (env : Env) (name : String) (datasets : List String) (w : World)
    → length (create_all env name datasets w).0.created
        + length (create_all env name datasets w).0.failed
      ≡ length datasets
unfolding create_all pure ◌>>=◌
create_all_accounts env name [] w = omega arith
create_all_accounts env name (ds ∷ rest) w =
    let first = create_zfs_snapshot env ds name w in
    omega (
      arith,
      add_outcome_count ds first.0 (create_all env name rest first.1).0 _
          (create_all_accounts env name rest first.1),
    )
