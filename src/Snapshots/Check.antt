-- ===== src/Snapshots/Check.antt =====
-- internal/snapshots/snapshots.go: `ValidateKnown`. What other goroutines make of the machine's state
-- between two looks, and when the context ends, is given.
use pademelon.Base.{
  ℕ, zero, suc, ◌+◌, ◌≡◌, sym, ap, ◌∙◌, true≢false, ◌≢◌, ◌⊎◌, inl, inr, refl, String, Bool, true,
  false, Option, none, some, Result, ok, err, arith, eq_iff, not, ◌&&◌, ◌==◌, lookup, if◌then◌else◌,
  Bool-cases,
}
use pademelon.Snapshots.{State, Service, begin_check, look, contains_id}

-- The state at each look, and whether the `select` after it took the end of the context.
pub record Watched : Type 0 where
  pub looks : ℕ → Option State
  pub done : ℕ → Bool

judged :
    Option (Result String Bool) → Bool → Option (Result String Bool) → Option (Result String Bool)
judged (some answer) done later = some answer
judged none true later = some (err "the snapshot check did not finish in time")
judged none false later = later

-- The loop of `ValidateKnown`, for at most `fuel` looks from look `k` on.
unfoldable pub watch : ℕ → Watched → String → String → ℕ → Option (Result String Bool)
unfolding judged
watch zero w domain id k = none
watch (suc fuel) w domain id k =
    judged (look domain (w.looks k) id) (w.done k) (watch fuel w domain id (suc k))

-- `ValidateKnown`.
unfoldable pub validate_known :
    ℕ → Watched → String → String → Service → Option (Result String Bool)
validate_known fuel w domain id s =
    if (begin_check domain id s).0 then some (ok true) else watch fuel w domain id 0

-- No fetch runs and none has left an error. A state that no fetch was made for yet is such a state.
pub record IsIdle (st : State) : Type 0 where
  pub resting : st.fetching ≡ false
  pub clean : st.err ≡ ""

-- Why an answer was given: what the list held at the start, or a look, had.
unfoldable pub Reason : Watched → String → Option State → Result String Bool → Type 0
Reason w id held (ok true) =
    ((st : State) × (((held ≡ some st) ⊎ ((k : ℕ) × (w.looks k ≡ some st)))
        × IsIdle st
        × (contains_id st.snapshots id ≡ true)))
Reason w id held (ok false) =
    (k : ℕ) × (st : State) × (w.looks k ≡ some st)
    × IsIdle st
    × (contains_id st.snapshots id ≡ false)
Reason w id held (err e) =
    (k : ℕ) × ((w.looks k ≡ none)
      ⊎ ((st : State) × (w.looks k ≡ some st)
          × (((st.fetching ≡ false) × (st.err ≢ "")) ⊎ ((st.fetching ≡ true) × (w.done k ≡ true)))))

-- An answer with its reason.
pub record Verdict (w : Watched) (id : String) (held : Option State)
    (o : Option (Result String Bool)) : Type 0 where
  pub answer : Result String Bool
  pub given : o ≡ some answer
  pub reason : Reason w id held answer

idle-Reason :
    (w : Watched) (id : String) (held : Option State) (k : ℕ) (st : State) (found : Bool)
    → w.looks k ≡ some st
    → IsIdle st
    → contains_id st.snapshots id ≡ found
    → Reason w id held (ok found)
unfolding Reason
idle-Reason w id held k st true at clean h = (st, (inr (k, at), clean, h))
idle-Reason w id held k st false at clean h = (k, st, at, clean, h)

state_judged :
    (w : Watched) (domain id : String) (held : Option State) (k : ℕ) (st : State)
    (later : Option (Result String Bool))
    → w.looks k ≡ some st
    → (w.done k ≡ false → Verdict w id held later)
    → Verdict w id held (judged (look domain (some st) id) (w.done k) later)
unfolding judged look Reason
state_judged w domain id held k st later at go = elim (Bool-cases st.fetching) [
  | inl fetching ↦ elim (Bool-cases (w.done k)) [
    | inl done ↦
        rw (fetching, done)
          (record {
            answer = err _;
            given = refl;
            reason = (k, inr (st, at, inr (fetching, done)));
          })
    | inr waiting ↦ rw (fetching, waiting) (go waiting)
  ]
  | inr finished ↦ elim (Bool-cases (st.err == "")) [
    | inl clean ↦
        let found = contains_id st.snapshots id in
        let sound : IsIdle st = record {
          resting = finished;
          clean = ground (arith, clean, eq_iff st.err "");
        } in
        rw (finished, clean)
          (record {
            answer = ok found;
            given = refl;
            reason = idle-Reason w id held k st found at sound refl;
          })
    | inr failed ↦
        rw (finished, failed)
          (record {
            answer = err _;
            given = refl;
            reason =
                (k, inr (st, at, inl (finished, λ e. ground (arith, failed, e, eq_iff st.err ""))));
          })
  ]
]

look_judged :
    (w : Watched) (domain id : String) (held : Option State) (k : ℕ) (o : Option State)
    (later : Option (Result String Bool))
    → w.looks k ≡ o
    → (w.done k ≡ false → Verdict w id held later)
    → Verdict w id held (judged (look domain o id) (w.done k) later)
unfolding judged look Reason
look_judged w domain id held k none later at go = record {
  answer = err _;
  given = refl;
  reason = (k, inl at);
}
look_judged w domain id held k (some st) later at go =
    state_judged w domain id held k st later at go

-- From look `k` on, with the context ended at look `k + n`.
watch_ends :
    (n k last : ℕ) (w : Watched) (domain id : String) (held : Option State)
    → k + n ≡ last
    → w.done last ≡ true
    → Verdict w id held (watch (suc n) w domain id k)
unfolding watch
watch_ends zero k last w domain id held e ends =
    let here : k ≡ last = omega (arith, e) in
    look_judged w domain id held k (w.looks k) none refl
      λ on. absurd (true≢false (sym ends ∙ sym (ap w.done here) ∙ on))
watch_ends (suc n) k last w domain id held e ends =
    look_judged w domain id held k (w.looks k) (watch (suc n) w domain id (suc k)) refl
      λ on. watch_ends n (suc k) last w domain id held (omega (arith, e)) ends

passed :
    (fetching clean found : Bool) (fetch : Bool) (s s' : Service)
    → (if◌then◌else◌ {A = Bool × Bool × Service}
        (not fetching && clean && found)
        (true, false, s)
        (false, fetch, s')).0
      ≡ true
    → (fetching ≡ false) × (clean ≡ true) × (found ≡ true)
passed true clean found fetch s s' h = cc
passed false true true fetch s s' h = (refl, refl, refl)
passed false true false fetch s s' h = cc
passed false false found fetch s s' h = cc

begin-Reason :
    (domain id : String) (s : Service) (w : Watched) (o : Option State)
    → lookup domain s.states ≡ o
    → (begin_check domain id s).0 ≡ true
    → Reason w id o (ok true)
unfolding begin_check Reason contains_id
begin-Reason domain id s w none at h = absurd (true≢false (sym (rw at at h)))
begin-Reason domain id s w (some st) at h =
    let (fetched, clean, found) = passed st.fetching (st.err == "") _ _ _ _ (rw at at h) in
    (
      st,
      (
        inl refl,
        record { resting = fetched; clean = ground (arith, clean, eq_iff st.err "") },
        found,
      ),
    )

-- Where the wait after look `n` takes the end of the context, a check answers within `n + 1` looks, and
-- with a reason: a yes has a state with the id in its list, no fetch running and no error, held at
-- the start or found by a look; a no has a look that found a state with no fetch running and no error,
-- whose list lacks the id (it may be the empty list of a state that was never fetched); an error has
-- a look that found the machine gone, a fetch that failed, or a fetch still running as the context
-- ended.
pub validate_known-Verdict :
    (n : ℕ) (w : Watched) (domain id : String) (s : Service)
    → w.done n ≡ true
    → Verdict w id (lookup domain s.states) (validate_known (suc n) w domain id s)
unfolding validate_known
validate_known-Verdict n w domain id s ends = elim (Bool-cases (begin_check domain id s).0) [
  | inl known ↦ rw known (record {
    answer = ok true;
    given = refl;
    reason = begin-Reason domain id s w (lookup domain s.states) refl known;
  })
  | inr open_yet ↦
      rw open_yet (watch_ends n 0 n w domain id (lookup domain s.states) (omega arith) ends)
]
