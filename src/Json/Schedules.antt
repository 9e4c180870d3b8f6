-- ===== src/Json/Schedules.antt =====
-- src/json-io.c: parsing of schedules.
use simet_lmapd.Base.{List, [], ◌∷◌, Option, none, some}
use simet_lmapd.Text.{Str, codes}
use simet_lmapd.Model.{Rc, done, failed, Schedule, Lmap}
use simet_lmapd.Data.Containers.{lmap_add_schedule, lmap_schedule_add_action}
use simet_lmapd.Data.Schedule.{
  lmap_schedule_add_suppression_tag, lmap_schedule_add_tag, lmap_schedule_new,
  lmap_schedule_set_duration, lmap_schedule_set_end, lmap_schedule_set_exec_mode,
  lmap_schedule_set_failures, lmap_schedule_set_invocations, lmap_schedule_set_last_invocation,
  lmap_schedule_set_name, lmap_schedule_set_overlaps, lmap_schedule_set_start,
  lmap_schedule_set_state, lmap_schedule_set_storage, lmap_schedule_set_suppressions,
}
use simet_lmapd.Json.{Json, object, array, Values, end, value, JsonC, What}
use simet_lmapd.Json.Lookup.{
  Entry, yang_config_true, yang_config_false, yang_key, entry_string, entry_strarray, entry_int2str,
  entry_objarray, foreach_field, kept,
}
use simet_lmapd.Json.Tasks.{only_field}
use simet_lmapd.Json.Actions.{parse_action}

abbrev pub xx_lsch_name : Schedule → Str → Option (Schedule × Rc)
xx_lsch_name x s = some (lmap_schedule_set_name x (some s))

abbrev pub xx_lsch_start : Schedule → Str → Option (Schedule × Rc)
xx_lsch_start x s = some (lmap_schedule_set_start x (some s))

abbrev pub xx_lsch_end : Schedule → Str → Option (Schedule × Rc)
xx_lsch_end x s = some (lmap_schedule_set_end x (some s))

abbrev pub xx_lsch_duration : Schedule → Str → Option (Schedule × Rc)
xx_lsch_duration x s = some (lmap_schedule_set_duration x s)

abbrev pub xx_lsch_exec_mode : Schedule → Str → Option (Schedule × Rc)
xx_lsch_exec_mode x s = some (lmap_schedule_set_exec_mode x s)

abbrev pub xx_lsch_tag : Schedule → Str → Option (Schedule × Rc)
xx_lsch_tag x s = lmap_schedule_add_tag x s

abbrev pub xx_lsch_supp_tag : Schedule → Str → Option (Schedule × Rc)
xx_lsch_supp_tag x s = lmap_schedule_add_suppression_tag x s

abbrev pub xx_lsch_state : Schedule → Str → Option (Schedule × Rc)
xx_lsch_state x s = some (lmap_schedule_set_state x s)

abbrev pub xx_lsch_storage : Schedule → Str → Option (Schedule × Rc)
xx_lsch_storage x s = some (lmap_schedule_set_storage x s)

abbrev pub xx_lsch_invocations : Schedule → Str → Option (Schedule × Rc)
xx_lsch_invocations x s = some (lmap_schedule_set_invocations x s)

abbrev pub xx_lsch_suppressions : Schedule → Str → Option (Schedule × Rc)
xx_lsch_suppressions x s = some (lmap_schedule_set_suppressions x s)

abbrev pub xx_lsch_overlaps : Schedule → Str → Option (Schedule × Rc)
xx_lsch_overlaps x s = some (lmap_schedule_set_overlaps x s)

abbrev pub xx_lsch_failures : Schedule → Str → Option (Schedule × Rc)
xx_lsch_failures x s = some (lmap_schedule_set_failures x s)

abbrev pub xx_lsch_last_invocation : Schedule → Str → Option (Schedule × Rc)
xx_lsch_last_invocation x s = some (lmap_schedule_set_last_invocation x s)

module _ (lib : JsonC) where
  unfoldable pub xx_lsch_action : Schedule → Json → What → Option (Schedule × Rc)
  unfolding parse_action
  xx_lsch_action s v what = elim (parse_action lib v what) [
    | none ↦ none
    | some none ↦ some (s, failed)
    | some (some a) ↦ lmap_schedule_add_action s a
  ]

  abbrev pub schedule_table : List (Entry Schedule)
  schedule_table =
      entry_string (codes "name") yang_key xx_lsch_name
      ∷ entry_string (codes "start") yang_config_true xx_lsch_start
      ∷ entry_string (codes "end") yang_config_true xx_lsch_end
      ∷ entry_string (codes "duration") yang_config_true xx_lsch_duration
      ∷ entry_string (codes "execution-mode") yang_config_true xx_lsch_exec_mode
      ∷ entry_strarray (codes "tag") yang_config_true xx_lsch_tag
      ∷ entry_strarray (codes "suppression-tag") yang_config_true xx_lsch_supp_tag
      ∷ entry_objarray (codes "action") yang_config_true xx_lsch_action
      ∷ entry_string (codes "state") yang_config_false xx_lsch_state
      ∷ entry_string (codes "storage") yang_config_false xx_lsch_storage
      ∷ entry_int2str (codes "invocations") yang_config_false xx_lsch_invocations
      ∷ entry_int2str (codes "suppressions") yang_config_false xx_lsch_suppressions
      ∷ entry_int2str (codes "overlaps") yang_config_false xx_lsch_overlaps
      ∷ entry_int2str (codes "failures") yang_config_false xx_lsch_failures
      ∷ entry_string (codes "last-invocation") yang_config_false xx_lsch_last_invocation
      ∷ []

  unfoldable pub parse_schedule : Json → What → Option (Option Schedule)
  unfolding foreach_field
  parse_schedule (object fs) what =
      kept (foreach_field lib failed lmap_schedule_new what fs schedule_table)
  parse_schedule v what = some none

  -- The loop over the array. The code of `lmap_add_schedule` is not looked at.
  unfoldable pub parse_schedule_array : Lmap → What → Values → Option (Lmap × Rc)
  unfolding parse_schedule
  parse_schedule_array lmap what end = some (lmap, done)
  parse_schedule_array lmap what (value v vs) = elim (parse_schedule v what) [
    | none ↦ none
    | some none ↦ some (lmap, failed)
    | some (some x) ↦ elim (lmap_add_schedule lmap x) [
      | none ↦ none
      | some (lmap1, rc) ↦ parse_schedule_array lmap1 what vs
    ]
  ]

  unfoldable pub xx_lctrl_schedules : Lmap → Json → What → Option (Lmap × Rc)
  unfolding only_field parse_schedule_array
  xx_lctrl_schedules lmap v what = elim (only_field (codes "schedule") v) [
    | some (array vs) ↦ parse_schedule_array lmap what vs
    | _ ↦ some (lmap, failed)
  ]
