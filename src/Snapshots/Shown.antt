-- ===== src/Snapshots/Shown.antt =====
-- What a panel shows after a fetch, and what a check of an id rests on.
use pademelon.Base.{
  ℕ, String, ◌≡◌, refl, Bool, true, false, some, ◌&&◌, not, List, [], ◌∷◌, ok, arith, eq_iff, ◌==◌,
  if◌then◌else◌,
}
use pademelon.Model.{ZfsSnapshot}
use pademelon.Snapshots.{Status, State, is_nil, settle, look, contains_id}

-- The fetch brought nothing and has an error to show.
abbrev pub failed : List String → List ZfsSnapshot → String → Bool
failed datasets list msg = not (is_nil datasets) && not (msg == "") && is_nil list

is_nil_iff : (list : List ZfsSnapshot) → is_nil list ≡ true → list ≡ []
unfolding is_nil
is_nil_iff [] h = refl
is_nil_iff (sn ∷ list) h = cc

-- After a fetch the machine is no longer being fetched. Its list is marked stale exactly if the
-- fetch failed and there was a list before, and exactly then it is the list of before; otherwise
-- it is what the fetch brought, or none without zvols. So a failed fetch never empties a list.
pub settle_shows :
    (now : ℕ) (status : Status) (datasets : List String) (list : List ZfsSnapshot) (msg : String)
    (st : State)
    → let after = settle now status datasets list msg st in
      (after.fetching ≡ false)
      × (after.stale ≡ (failed datasets list msg && not (is_nil st.snapshots)))
      × (after.snapshots ≡ (
          if is_nil datasets then [] else if failed datasets list msg then st.snapshots else list))
      × (after.err ≡ (if is_nil datasets then "" else msg))
unfolding settle is_nil
settle_shows now status [] list msg st = (refl, refl, refl, refl)
settle_shows now status (ds ∷ datasets) list msg st =
    ground (arith, eq_iff msg "", is_nil_iff list, is_nil_iff st.snapshots)

-- A check of an id that says yes saw a finished, clean fetch whose list has the id.
pub look_sound :
    (domain : String) (st : State) (id : String)
    → look domain (some st) id ≡ some (ok true)
    → (st.fetching ≡ false) × (st.err ≡ "") × (contains_id st.snapshots id ≡ true)
unfolding look
look_sound domain st id h = ground (arith, h, eq_iff st.err "")
