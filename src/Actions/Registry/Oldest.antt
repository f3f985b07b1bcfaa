-- ===== src/Actions/Registry/Oldest.antt =====
-- actions.go: the list of jobs, and its order.
use mathlib.Core.List.{◌++◌, Perm, perm_middle, append-nil}
use mathlib.Core.List.Perm
use pademelon.Base.{
  if◌then◌else◌, ℕ, ◌≤◌, ◌-◌, ◌≡◌, refl, List, [], ◌∷◌, Table, arith, All, ltb, leb, retain, keep,
  subst, ◌∙◌, Bool-cases, inl, inr,
}
use pademelon.Clocks.{job_retention}
use pademelon.Actions.Job.{Job}
use pademelon.Actions.Registry.{sweep_jobs}

-- The walk of one job to the left, past the jobs requested later; the part of the list that is
-- sorted is kept with its right end first.
walk_left : Job → List Job → List Job
walk_left j [] = j ∷ []
walk_left j (k ∷ rest) =
    let further = walk_left j rest in
    if ltb j.requested k.requested then k ∷ further else j ∷ k ∷ rest

sort_from : List Job → List Job → List Job
unfolding walk_left
sort_from sorted [] = sorted
sort_from sorted (j ∷ rest) = sort_from (walk_left j sorted) rest

turned : List Job → List Job → List Job
turned [] done = done
turned (j ∷ rest) done = turned rest (j ∷ done)

pub entries : Table Job → List Job
entries [] = []
entries ((id, j) ∷ rest) = j ∷ entries rest

-- `List`, with the registry it leaves.
unfoldable pub list_jobs : ℕ → Table Job → List Job × Table Job
unfolding sort_from turned entries
list_jobs now jobs =
    let swept = sweep_jobs now jobs in (turned (sort_from [] (entries swept)) [], swept)

-- Every job was requested no later than those after it.
abbrev pub IsOldestFirst : List Job → Type 0
IsOldestFirst [] = Unit {0}
IsOldestFirst (j ∷ rest) = All (λ k. j.requested ≤ k.requested) rest × IsOldestFirst rest

abbrev IsNewestFirst : List Job → Type 0
IsNewestFirst [] = Unit {0}
IsNewestFirst (j ∷ rest) = All (λ k. k.requested ≤ j.requested) rest × IsNewestFirst rest

All-trans :
    (a b : ℕ) (l : List Job) → a ≤ b → All (λ k. k.requested ≤ a) l → All (λ k. k.requested ≤ b) l
All-trans a b [] h p = tt
All-trans a b (k ∷ l) h p = (omega (arith, p.0), All-trans a b l h p.1)

All-both : (P Q : Job → Type 0) (l : List Job) → All P l → All Q l → All (λ k. P k × Q k) l
All-both P Q [] p q = tt
All-both P Q (k ∷ l) p q = ((p.0, q.0), All-both P Q l p.1 q.1)

All-empty : (l : List Job) → All (λ _. Unit {0}) l
All-empty [] = tt
All-empty (k ∷ l) = (tt, All-empty l)

walk_left-All : (P : Job → Type 0) (j : Job) (l : List Job) → P j → All P l → All P (walk_left j l)
unfolding walk_left
walk_left-All P j [] h p = (h, tt)
walk_left-All P j (k ∷ l) h p = ground (arith, walk_left-All P j l h p.1)

walk_left-IsNewestFirst : (j : Job) (l : List Job) → IsNewestFirst l → IsNewestFirst (walk_left j l)
unfolding walk_left
walk_left-IsNewestFirst j [] h = (tt, tt)
walk_left-IsNewestFirst j (k ∷ l) h = elim (Bool-cases (ltb j.requested k.requested)) [
  | inl earlier ↦
      rw earlier
        (walk_left-All _ j l (ground (arith, earlier)) h.0, walk_left-IsNewestFirst j l h.1)
  | inr later ↦
      rw later (
        (ground (arith, later), All-trans k.requested j.requested l (ground (arith, later)) h.0),
        h,
      )
]

sort_from-IsNewestFirst :
    (l done : List Job) → IsNewestFirst done → IsNewestFirst (sort_from done l)
unfolding sort_from
sort_from-IsNewestFirst [] done h = h
sort_from-IsNewestFirst (j ∷ l) done h =
    sort_from-IsNewestFirst l (walk_left j done) (walk_left-IsNewestFirst j done h)

-- Turning a list that is newest first over the start of one that is oldest first.
turned-IsOldestFirst :
    (l done : List Job)
    → IsNewestFirst l
    → IsOldestFirst done
    → All (λ k. All (λ b. k.requested ≤ b.requested) done) l
    → IsOldestFirst (turned l done)
unfolding turned
turned-IsOldestFirst [] done h p q = p
turned-IsOldestFirst (j ∷ l) done h p q =
    turned-IsOldestFirst l (j ∷ done) h.1 (q.0, p) (All-both _ _ l h.0 q.1)

walk_left-Perm : (j : Job) (l : List Job) → Perm (walk_left j l) (j ∷ l)
unfolding walk_left
walk_left-Perm j [] = Perm.rfl
walk_left-Perm j (k ∷ l) = elim (Bool-cases (ltb j.requested k.requested)) [
  | inl earlier ↦ rw earlier (Perm.trans (Perm.cons k (walk_left-Perm j l)) (Perm.swap j k l))
  | inr later ↦ rw later Perm.rfl
]

sort_from-Perm : (l done : List Job) → Perm (sort_from done l) (l ++ done)
unfolding sort_from
sort_from-Perm [] done = Perm.rfl
sort_from-Perm (j ∷ l) done =
    Perm.trans (sort_from-Perm l (walk_left j done))
      (Perm.trans (Perm.append_left l (walk_left-Perm j done)) (perm_middle l done))

turned-Perm : (l done : List Job) → Perm (turned l done) (l ++ done)
unfolding turned
turned-Perm [] done = Perm.rfl
turned-Perm (j ∷ l) done = Perm.trans (turned-Perm l (j ∷ done)) (perm_middle l done)

-- The jobs of the registry that were requested no longer than the retention ago.
abbrev pub kept : ℕ → List Job → List Job
kept now l = keep (λ j. leb (now - j.requested) job_retention) l

entries-sweep_jobs :
    (now : ℕ) (jobs : Table Job) → entries (sweep_jobs now jobs) ≡ kept now (entries jobs)
unfolding entries sweep_jobs retain
entries-sweep_jobs now [] = refl
entries-sweep_jobs now ((id, j) ∷ rest) = ground (arith, entries-sweep_jobs now rest)

-- The list of jobs holds exactly the jobs whose request is no older than the retention, each once,
-- and it is ordered by the time of the request.
pub list_jobs-IsOldestFirst :
    (now : ℕ) (jobs : Table Job)
    → IsOldestFirst (list_jobs now jobs).0 × Perm (list_jobs now jobs).0 (kept now (entries jobs))
unfolding list_jobs
list_jobs-IsOldestFirst now jobs =
    let l = entries (sweep_jobs now jobs) in
    let sorted = sort_from [] l in
    (
      turned-IsOldestFirst sorted [] (sort_from-IsNewestFirst l [] tt) tt (All-empty sorted),
      subst (Perm (turned sorted [])) (append-nil l ∙ entries-sweep_jobs now jobs) (
          Perm.trans (subst (Perm (turned sorted [])) (append-nil sorted) (turned-Perm sorted []))
            (sort_from-Perm l [])),
    )
