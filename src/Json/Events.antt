-- ===== src/Json/Events.antt =====
-- src/json-io.c: parsing of events.
use simet_lmapd.Base.{List, [], ◌∷◌, Option, none, some, not, if◌then◌else◌}
use simet_lmapd.Text.{Str, codes}
use simet_lmapd.Model.{Rc, done, failed, Event, Lmap}
use simet_lmapd.Data.Containers.{lmap_add_event}
use simet_lmapd.Data.Event.{
  lmap_event_new, lmap_event_set_timezone_offset, lmap_event_set_cycle_interval, lmap_event_set_end,
  lmap_event_set_interval, lmap_event_set_name, lmap_event_set_random_spread, lmap_event_set_start,
  lmap_event_set_type,
}
use simet_lmapd.Data.Event.Calendar.{
  lmap_event_add_month, lmap_event_add_day_of_month, lmap_event_add_day_of_week,
  lmap_event_add_hour, lmap_event_add_minute, lmap_event_add_second,
}
use simet_lmapd.Json.{
  Json, null, object, array, Values, end, value, JsonC, What, lmap_json_object_is_empty,
}
use simet_lmapd.Json.Lookup.{
  Entry, yang_config_true, yang_key, entry_string, entry_strarray, entry_int2str, entry_objarray,
  entry_object, entry_objany, foreach_field, kept,
}
use simet_lmapd.Json.Tasks.{only_field}

abbrev pub xx_lce_interval : Event → Str → Option (Event × Rc)
xx_lce_interval e s = some (lmap_event_set_interval e s)

abbrev pub xx_lce_start : Event → Str → Option (Event × Rc)
xx_lce_start e s = some (lmap_event_set_start e s)

abbrev pub xx_lce_end : Event → Str → Option (Event × Rc)
xx_lce_end e s = some (lmap_event_set_end e s)

abbrev pub xx_lce_name : Event → Str → Option (Event × Rc)
xx_lce_name e s = some (lmap_event_set_name e (some s))

abbrev pub xx_lce_random_spread : Event → Str → Option (Event × Rc)
xx_lce_random_spread e s = some (lmap_event_set_random_spread e s)

abbrev pub xx_lce_cycle_interval : Event → Str → Option (Event × Rc)
xx_lce_cycle_interval e s = some (lmap_event_set_cycle_interval e s)

abbrev pub xx_lcec_month : Event → Str → Option (Event × Rc)
xx_lcec_month e s = some (lmap_event_add_month e s)

abbrev pub xx_lcec_timezone_offset : Event → Str → Option (Event × Rc)
xx_lcec_timezone_offset e s = some (lmap_event_set_timezone_offset e s)

module _ (lib : JsonC) where
  -- A handler that asks for the text of a tree itself: it is NULL for a null, which strcmp() faults at.
  abbrev pub add_text : (Event → Str → Event × Rc) → Event → Json → Option (Event × Rc)
  add_text add e null = none
  add_text add e v = some (add e (lib.get_string v))

  abbrev pub xx_lcec_day_of_month : Event → Json → What → Option (Event × Rc)
  xx_lcec_day_of_month e v unused = add_text lmap_event_add_day_of_month e v

  abbrev pub xx_lcec_day_of_week : Event → Json → What → Option (Event × Rc)
  xx_lcec_day_of_week e v unused = add_text lmap_event_add_day_of_week e v

  abbrev pub xx_lcec_hour : Event → Json → What → Option (Event × Rc)
  xx_lcec_hour e v unused = add_text lmap_event_add_hour e v

  abbrev pub xx_lcec_minute : Event → Json → What → Option (Event × Rc)
  xx_lcec_minute e v unused = add_text lmap_event_add_minute e v

  abbrev pub xx_lcec_second : Event → Json → What → Option (Event × Rc)
  xx_lcec_second e v unused = add_text lmap_event_add_second e v

  -- The type is set behind the fields; its code is not looked at.
  abbrev pub typed : Str → Option (Event × Rc) → Option (Event × Rc)
  typed type none = none
  typed type (some (e, failed)) = some (e, failed)
  typed type (some (e, done)) = some ((lmap_event_set_type e type).0, done)

  unfoldable pub xx_lcee : Event → Json → What → Str → List (Entry Event) → Option (Event × Rc)
  unfolding foreach_field
  xx_lcee e (object fs) what type table = typed type (foreach_field lib failed e what fs table)
  xx_lcee e null what type table = some (e, failed)
  xx_lcee e v what type table = none

  abbrev pub periodic_table : List (Entry Event)
  periodic_table =
      entry_int2str (codes "interval") yang_config_true xx_lce_interval
      ∷ entry_string (codes "start") yang_config_true xx_lce_start
      ∷ entry_string (codes "end") yang_config_true xx_lce_end
      ∷ []

  unfoldable pub xx_lcee_periodic : Event → Json → What → Option (Event × Rc)
  unfolding xx_lcee
  xx_lcee_periodic e v what = xx_lcee e v what (codes "periodic") periodic_table

  abbrev pub calendar_table : List (Entry Event)
  calendar_table =
      entry_strarray (codes "month") yang_config_true xx_lcec_month
      ∷ entry_objarray (codes "day-of-month") yang_config_true xx_lcec_day_of_month
      ∷ entry_objarray (codes "day-of-week") yang_config_true xx_lcec_day_of_week
      ∷ entry_objarray (codes "hour") yang_config_true xx_lcec_hour
      ∷ entry_objarray (codes "minute") yang_config_true xx_lcec_minute
      ∷ entry_objarray (codes "second") yang_config_true xx_lcec_second
      ∷ entry_string (codes "timezone-offset") yang_config_true xx_lcec_timezone_offset
      ∷ entry_string (codes "start") yang_config_true xx_lce_start
      ∷ entry_string (codes "end") yang_config_true xx_lce_end
      ∷ []

  unfoldable pub xx_lcee_calendar : Event → Json → What → Option (Event × Rc)
  unfolding xx_lcee
  xx_lcee_calendar e v what = xx_lcee e v what (codes "calendar") calendar_table

  abbrev pub one_off_table : List (Entry Event)
  one_off_table = entry_string (codes "time") yang_config_true xx_lce_start ∷ []

  unfoldable pub xx_lcee_one_off : Event → Json → What → Option (Event × Rc)
  unfolding xx_lcee
  xx_lcee_one_off e v what = xx_lcee e v what (codes "one-off") one_off_table

  unfoldable pub xx_lceez : Event → Json → Str → Option (Event × Rc)
  unfolding lmap_json_object_is_empty
  xx_lceez e null type = some (e, failed)
  xx_lceez e v type =
      if not (lmap_json_object_is_empty v)
      then some (e, failed)
      else some (lmap_event_set_type e type)

  abbrev pub xx_lceez_immediate : Event → Json → What → Option (Event × Rc)
  xx_lceez_immediate e v unused = xx_lceez e v (codes "immediate")

  abbrev pub xx_lceez_startup : Event → Json → What → Option (Event × Rc)
  xx_lceez_startup e v unused = xx_lceez e v (codes "startup")

  abbrev pub xx_lceez_controller_lost : Event → Json → What → Option (Event × Rc)
  xx_lceez_controller_lost e v unused = xx_lceez e v (codes "controller-lost")

  abbrev pub xx_lceez_controller_connected : Event → Json → What → Option (Event × Rc)
  xx_lceez_controller_connected e v unused = xx_lceez e v (codes "controller-connected")

  abbrev pub event_table : List (Entry Event)
  event_table =
      entry_string (codes "name") yang_key xx_lce_name
      ∷ entry_int2str (codes "random-spread") yang_config_true xx_lce_random_spread
      ∷ entry_int2str (codes "cycle-interval") yang_config_true xx_lce_cycle_interval
      ∷ entry_object (codes "periodic") yang_config_true xx_lcee_periodic
      ∷ entry_object (codes "calendar") yang_config_true xx_lcee_calendar
      ∷ entry_object (codes "one-off") yang_config_true xx_lcee_one_off
      ∷ entry_objany (codes "immediate") yang_config_true xx_lceez_immediate
      ∷ entry_objany (codes "startup") yang_config_true xx_lceez_startup
      ∷ entry_objany (codes "controller-lost") yang_config_true xx_lceez_controller_lost
      ∷ entry_objany (codes "controller-connected") yang_config_true xx_lceez_controller_connected
      ∷ []

  unfoldable pub parse_event : Json → What → Option (Option Event)
  unfolding foreach_field
  parse_event (object fs) what = kept (foreach_field lib failed lmap_event_new what fs event_table)
  parse_event v what = some none

  -- The loop over the array. The code of `lmap_add_event` is not looked at.
  unfoldable pub parse_event_array : Lmap → What → Values → Option (Lmap × Rc)
  unfolding parse_event
  parse_event_array lmap what end = some (lmap, done)
  parse_event_array lmap what (value v vs) = elim (parse_event v what) [
    | none ↦ none
    | some none ↦ some (lmap, failed)
    | some (some x) ↦ elim (lmap_add_event lmap x) [
      | none ↦ none
      | some (lmap1, rc) ↦ parse_event_array lmap1 what vs
    ]
  ]

  unfoldable pub xx_lctrl_events : Lmap → Json → What → Option (Lmap × Rc)
  unfolding only_field parse_event_array
  xx_lctrl_events lmap v what = elim (only_field (codes "event") v) [
    | some (array vs) ↦ parse_event_array lmap what vs
    | _ ↦ some (lmap, failed)
  ]
