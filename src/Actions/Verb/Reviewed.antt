-- ===== src/Actions/Verb/Reviewed.antt =====
-- Which texts are verbs, and what the table of states lets through.
use pademelon.Base.{
  String, ◌≡◌, refl, subst, true, false, some, List, [], ◌∷◌, arith, eq_iff, ◌≢◌, ◌↔◌, All,
}
use pademelon.Actions.Verb.{Action, to_string, all_actions, find_action, parse_action, allows}

-- What a search returns has the text that was sought, and any property of the whole list.
find_action_sound :
    (P : Action → Type 0) (l : List Action) (s : String) (a : Action)
    → All P l
    → find_action l s ≡ some a
    → (to_string a ≡ s) × P a
unfolding find_action
find_action_sound P [] s a h e = cc
find_action_sound P (x ∷ l) s a h e =
    ground (arith, eq_iff (to_string x) s, find_action_sound P l s a h.1)

abbrev IsGeneral : Action → Type 0
IsGeneral a = (a ≢ Action.restore) × (a ≢ Action.delete)

general : All IsGeneral all_actions
general = ground arith

parse-to_string : (a : Action) → IsGeneral a → parse_action (to_string a) ≡ some a
unfolding parse_action
parse-to_string Action.restore h = absurd (h.0 refl)
parse-to_string Action.delete h = absurd (h.1 refl)
parse-to_string _ h = refl

-- A text is taken as a verb exactly when it is the text of that verb and the verb is neither
-- restore nor delete: the general route reaches the seven reviewed verbs and no other.
pub parse_action_iff :
    (s : String) (a : Action)
    → (parse_action s ≡ some a) ↔ ((to_string a ≡ s) × (a ≢ Action.restore) × (a ≢ Action.delete))
unfolding parse_action
parse_action_iff s a = (
  λ e. let h = find_action_sound IsGeneral all_actions s a general e in (h.0, h.1.0, h.1.1),
  λ h. subst (λ t. parse_action t ≡ some a) h.0 (parse-to_string a (h.1, h.2)),
)

states_differ : (◌≢◌ {A = String} "paused" "stopped") × (◌≢◌ {A = String} "running" "stopped")
states_differ = ground (arith, eq_iff "paused" "stopped", eq_iff "running" "stopped")

-- A state that allows a shutdown allows a reboot and force off as well; it allows neither a start
-- nor, through the general table, a restore or a delete.
pub allows-stop :
    (s : String)
    → allows Action.shutdown s ≡ true
    → (allows Action.reboot s ≡ true)
      × (allows Action.force_off s ≡ true)
      × (allows Action.start s ≡ false)
      × (allows Action.restore s ≡ false)
      × (allows Action.delete s ≡ false)
unfolding allows
allows-stop s h = ground (
  arith,
  h,
  eq_iff "stopped" s,
  eq_iff "running" s,
  eq_iff "paused" s,
  states_differ.0,
  states_differ.1,
)
