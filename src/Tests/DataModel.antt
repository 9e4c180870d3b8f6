-- ===== src/Tests/DataModel.antt =====
-- src/data.c at concrete inputs.
use mathlib.Core.Path.{subst}
use simet_lmapd.Base.{
  ◌≡◌, ◌↔◌, refl, true, false, [], ◌∷◌, Option, none, some, arith, All, if◌then◌else◌,
}
use simet_lmapd.Base.Int.{pos, ◌-ℤ◌, ◌*ℤ◌, negsuc}
use simet_lmapd.Text.{Str, codes, str_eq}
use simet_lmapd.Model.{done, failed}
use simet_lmapd.Data.Scalar.Timezone.{format_offset}
use simet_lmapd.Data.DateTime.{DateFields, timegm, is_minus_one, set_dateandtime}
use simet_lmapd.Data.DateTime.Offsets.{format_date, date_round_trip}
use simet_lmapd.Data.Containers.{
  add_tag, find_name, lmap_find_event, lmap_find_task, lmap_find_schedule,
}
use simet_lmapd.Data.Containers.Names.{AddContract, add_unique_contract}
use simet_lmapd.Data.Containers.Tags.{new_tag, add_tag_empty_faults}
use simet_lmapd.Data.Agent.{lmap_agent_set_agent_id, lmap_agent_new}
use simet_lmapd.Data.Agent.Uuid.{uuid_pattern, accepts, set_agent_id_iff}
use simet_lmapd.Data.Schedule.{lmap_schedule_new}
use simet_lmapd.Data.Schedule.Exclusive.{
  IsExclusive, apply_all, end_setting, duration_setting, new-IsExclusive,
}
use simet_lmapd.Data.Event.Calendar.{LocalTime, lmap_event_calendar_match, is_calendar}
use simet_lmapd.Data.Event.Calendar.Matching.{InRange, match_result, calendar_match_iff}
use simet_lmapd.Data.Validity.{
  lmap_valid, lmap_agent_valid, lmap_supp_valid, lmap_task_valid, lmap_event_valid,
  lmap_schedule_valid, lmap_action_valid, periodic_valid, calendar_valid,
}
use simet_lmapd.Data.Validity.References.{ScheduleRefs, valid-refs}
use simet_lmapd.Data.Validity.Events.{EventOk, event_valid_iff}
use simet_lmapd.Tests.Fixtures.{night, ping_task, tick_event, night_lmap}

valid-refs_example : All (ScheduleRefs night_lmap) night_lmap.schedules
unfolding lmap_valid lmap_agent_valid lmap_supp_valid lmap_task_valid lmap_event_valid
    lmap_schedule_valid lmap_action_valid periodic_valid calendar_valid lmap_find_event
    lmap_find_task lmap_find_schedule find_name str_eq
valid-refs_example = valid-refs night_lmap refl

event_valid_iff_example : (lmap_event_valid tick_event ≡ true) ↔ EventOk tick_event
event_valid_iff_example = event_valid_iff tick_event

add_unique_contract_example : AddContract (λ t. t.name) (ping_task ∷ []) ping_task (codes "ping")
unfolding find_name
add_unique_contract_example =
    add_unique_contract (λ t. t.name) (ping_task ∷ []) ping_task (codes "ping")
      (codes "ping", refl, refl, tt) refl

add_tag_empty_faults_example :
    (add_tag (night ∷ []) [] ≡ some (night ∷ new_tag none ∷ [], done))
    × (add_tag (night ∷ new_tag none ∷ []) (codes "day") ≡ none)
unfolding find_name str_eq
add_tag_empty_faults_example =
    add_tag_empty_faults (night ∷ []) (codes "day") (codes "night", refl, refl, tt) refl refl

abbrev new_year : DateFields
new_year = record { year = 2024; mon = 1; mday = 1; hour = 12; min = 30; sec = 0 }

date_round_trip_example :
    set_dateandtime (pos 0) (format_date new_year (format_offset false 3 0)) ≡ (
      if is_minus_one (timegm new_year)
      then (pos 0, failed)
      else (timegm new_year -ℤ pos 180 *ℤ pos 60, done))
date_round_trip_example =
    date_round_trip (pos 0) new_year false 3 0
      (record {
        year_le = omega arith;
        mon_ge = omega arith;
        mon_le = omega arith;
        mday_ge = omega arith;
        mday_le = omega arith;
        hour_le = omega arith;
        min_le = omega arith;
        sec_le = omega arith;
      })
      (omega arith) (omega arith)

abbrev uuid : Str
uuid = codes "550e8400-e29b-41d4-a716-446655440000"

set_agent_id_iff_example : lmap_agent_set_agent_id lmap_agent_new (some uuid) ≡ (
    if accepts uuid_pattern uuid
    then (record lmap_agent_new { agent_id = some uuid }, done)
    else (lmap_agent_new, failed))
set_agent_id_iff_example = set_agent_id_iff lmap_agent_new uuid

new-IsExclusive_example : IsExclusive (
    apply_all lmap_schedule_new
      (end_setting (some (codes "stop")) ∷ duration_setting (codes "60") ∷ []))
new-IsExclusive_example =
    new-IsExclusive (end_setting (some (codes "stop")) ∷ duration_setting (codes "60") ∷ [])

abbrev noon : LocalTime
noon = record { sec = 0; min = 0; hour = 12; mday = 1; mon = 0; wday = 1 }

noon-InRange : InRange noon
noon-InRange = record {
  mon_lt = omega arith;
  mday_lt = omega arith;
  wday_lt = omega arith;
  hour_lt = omega arith;
  min_lt = omega arith;
  sec_lt = omega arith;
}

abbrev AtTime : Option LocalTime → Type 0
AtTime none = Unit
AtTime (some tm) = InRange tm

calendar_match_iff_example :
    lmap_event_calendar_match (λ t. some noon) tick_event (pos 10)
    ≡ (if is_calendar tick_event.type then match_result tick_event (some noon) else negsuc 0)
calendar_match_iff_example =
    calendar_match_iff (λ t. some noon) tick_event (pos 10) (λ tm e. subst AtTime e noon-InRange)
