-- ===== src/Json/Actions.antt =====
-- src/json-io.c: parsing of actions.
use simet_lmapd.Base.{List, [], ◌∷◌, Option, none, some}
use simet_lmapd.Text.{Str, codes}
use simet_lmapd.Model.{Rc, failed, Action}
use simet_lmapd.Data.Action.{
  lmap_action_add_destination, lmap_action_add_option, lmap_action_add_suppression_tag,
  lmap_action_add_tag, lmap_action_new, lmap_action_set_failures, lmap_action_set_invocations,
  lmap_action_set_last_completion, lmap_action_set_last_failed_completion,
  lmap_action_set_last_failed_message, lmap_action_set_last_failed_status,
  lmap_action_set_last_invocation, lmap_action_set_last_message, lmap_action_set_last_status,
  lmap_action_set_name, lmap_action_set_overlaps, lmap_action_set_state, lmap_action_set_storage,
  lmap_action_set_suppressions, lmap_action_set_task,
}
use simet_lmapd.Json.{Json, object, JsonC, What}
use simet_lmapd.Json.Lookup.{
  Entry, yang_config_true, yang_config_false, yang_key, entry_string, entry_strarray, entry_int2str,
  entry_objarray, foreach_field, kept,
}
use simet_lmapd.Json.Tasks.{parse_option}

abbrev pub xx_lact_name : Action → Str → Option (Action × Rc)
xx_lact_name a s = some (lmap_action_set_name a (some s))

abbrev pub xx_lact_task : Action → Str → Option (Action × Rc)
xx_lact_task a s = some (lmap_action_set_task a (some s))

abbrev pub xx_lact_destination : Action → Str → Option (Action × Rc)
xx_lact_destination a s = lmap_action_add_destination a s

abbrev pub xx_lact_tag : Action → Str → Option (Action × Rc)
xx_lact_tag a s = lmap_action_add_tag a s

abbrev pub xx_lact_supp_tag : Action → Str → Option (Action × Rc)
xx_lact_supp_tag a s = lmap_action_add_suppression_tag a s

abbrev pub xx_lact_state : Action → Str → Option (Action × Rc)
xx_lact_state a s = some (lmap_action_set_state a s)

abbrev pub xx_lact_storage : Action → Str → Option (Action × Rc)
xx_lact_storage a s = some (lmap_action_set_storage a s)

abbrev pub xx_lact_invocations : Action → Str → Option (Action × Rc)
xx_lact_invocations a s = some (lmap_action_set_invocations a s)

abbrev pub xx_lact_suppressions : Action → Str → Option (Action × Rc)
xx_lact_suppressions a s = some (lmap_action_set_suppressions a s)

abbrev pub xx_lact_overlaps : Action → Str → Option (Action × Rc)
xx_lact_overlaps a s = some (lmap_action_set_overlaps a s)

abbrev pub xx_lact_failures : Action → Str → Option (Action × Rc)
xx_lact_failures a s = some (lmap_action_set_failures a s)

abbrev pub xx_lact_last_invocation : Action → Str → Option (Action × Rc)
xx_lact_last_invocation a s = some (lmap_action_set_last_invocation a s)

abbrev pub xx_lact_last_completion : Action → Str → Option (Action × Rc)
xx_lact_last_completion a s = some (lmap_action_set_last_completion a s)

abbrev pub xx_lact_last_status : Action → Str → Option (Action × Rc)
xx_lact_last_status a s = some (lmap_action_set_last_status a s)

abbrev pub xx_lact_last_message : Action → Str → Option (Action × Rc)
xx_lact_last_message a s = some (lmap_action_set_last_message a (some s))

abbrev pub xx_lact_last_failed_completion : Action → Str → Option (Action × Rc)
xx_lact_last_failed_completion a s = some (lmap_action_set_last_failed_completion a s)

abbrev pub xx_lact_last_failed_status : Action → Str → Option (Action × Rc)
xx_lact_last_failed_status a s = some (lmap_action_set_last_failed_status a s)

abbrev pub xx_lact_last_failed_message : Action → Str → Option (Action × Rc)
xx_lact_last_failed_message a s = some (lmap_action_set_last_failed_message a (some s))

module _ (lib : JsonC) where
  unfoldable pub xx_lact_option : Action → Json → What → Option (Action × Rc)
  unfolding parse_option
  xx_lact_option a v what = elim (parse_option lib v what) [
    | none ↦ none
    | some none ↦ some (a, failed)
    | some (some o) ↦ lmap_action_add_option a o
  ]

  abbrev pub action_table : List (Entry Action)
  action_table =
      entry_string (codes "name") yang_key xx_lact_name
      ∷ entry_string (codes "task") yang_config_true xx_lact_task
      ∷ entry_objarray (codes "option") yang_config_true xx_lact_option
      ∷ entry_strarray (codes "destination") yang_config_true xx_lact_destination
      ∷ entry_strarray (codes "tag") yang_config_true xx_lact_tag
      ∷ entry_strarray (codes "suppression-tag") yang_config_true xx_lact_supp_tag
      ∷ entry_string (codes "state") yang_config_false xx_lact_state
      ∷ entry_string (codes "storage") yang_config_false xx_lact_storage
      ∷ entry_int2str (codes "invocations") yang_config_false xx_lact_invocations
      ∷ entry_int2str (codes "suppressions") yang_config_false xx_lact_suppressions
      ∷ entry_int2str (codes "overlaps") yang_config_false xx_lact_overlaps
      ∷ entry_int2str (codes "failures") yang_config_false xx_lact_failures
      ∷ entry_string (codes "last-invocation") yang_config_false xx_lact_last_invocation
      ∷ entry_string (codes "last-completion") yang_config_false xx_lact_last_completion
      ∷ entry_int2str (codes "last-status") yang_config_false xx_lact_last_status
      ∷ entry_string (codes "last-message") yang_config_false xx_lact_last_message
      ∷ entry_string (codes "last-failed-completion") yang_config_false
          xx_lact_last_failed_completion
      ∷ entry_int2str (codes "last-failed-status") yang_config_false xx_lact_last_failed_status
      ∷ entry_string (codes "last-failed-message") yang_config_false xx_lact_last_failed_message
      ∷ []

  unfoldable pub parse_action : Json → What → Option (Option Action)
  unfolding foreach_field
  parse_action (object fs) what =
      kept (foreach_field lib failed lmap_action_new what fs action_table)
  parse_action v what = some none
