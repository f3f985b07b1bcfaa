-- ===== src/Actions/Runner/Delete.antt =====
-- What the run of a delete sends.
use pademelon.Base.{
  ◌≡◌, refl, ap, ◌⊎◌, inl, inr, String, Bool, Option, none, some, ◌∷◌, Result, cut_at,
  cut_at-append,
}
use Prim.Native.String.{◌++◌}
use pademelon.Actions.Verb.{Action}
use pademelon.Actions.Job.{Job}
use pademelon.Actions.Effects.{Domain, Env, World, Event, Trace}
use pademelon.Actions.Effects.Triples.{
  Triple, triple_pure, triple_perform, triple_branch, triple_attempt,
}
use pademelon.Actions.Restore.{execute_delete, malformed}
use pademelon.Actions.Runner.{execute}

-- The trace grew by at most one call, the removal of the snapshot that the job names.
abbrev pub OnlyDeleted : Job → Trace → Trace → Type 0
OnlyDeleted job before after =
    (after ≡ before)
    ⊎ ((dataset name : String) × (r : Result String Bool) × (dataset ++ "@" ++ name ≡ job.snapshot)
        × (after ≡ Event.snapshot_deleted dataset name r ∷ before))

module _ (env : Env) (job : Job) (before : Trace) where
  abbrev At : World → Type 0
  At w = w.trace ≡ before

  abbrev After : World → Type 0
  After w = OnlyDeleted job before w.trace

  execute_delete-After :
      (d : Domain) (o : Option (String × String))
      → cut_at job.snapshot ≡ o
      → Triple At (execute_delete env d job) (λ _. After)
  unfolding execute_delete malformed
  execute_delete-After d none e = rw (e, execute_delete) (triple_pure _ (λ w p. inl p))
  execute_delete-After d (some (dataset, name)) e =
      rw (e, execute_delete)
        (triple_attempt {Q = λ _. After}
          (triple_perform _ _ (λ w r same p. inr (
            dataset,
            name,
            r,
            cut_at-append job.snapshot e,
            ap (λ t. Event.snapshot_deleted dataset name r ∷ t) p,
          )))
          (λ _. triple_pure _ (λ w p. p))
          (λ deleted.
            triple_branch _ _ _ (λ _. triple_pure _ (λ w p. p)) (λ _. triple_pure _ (λ w p. p))))

-- The execution of a delete, once its run has a connection, sends nothing to libvirt, to an agent
-- or to the poller, and at most one request to the middleware, for the snapshot that the job names.
pub delete-OnlyDeleted :
    (env : Env) (job : Job) (w : World)
    → OnlyDeleted job w.trace (execute env job Action.delete w).1.trace
unfolding execute
delete-OnlyDeleted env job w =
    (execute_delete-After env job w.trace _ (cut_at job.snapshot) refl).at w refl
