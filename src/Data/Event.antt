-- ===== src/Data/Event.antt =====
-- The setters of struct event in src/data.c, but for the calendar fields.
use simet_lmapd.Base.{
  ℕ, Bool, true, false, not, ◌&&◌, ◌||◌, List, [], ◌∷◌, Option, none, some, if◌then◌else◌, ltb, leb,
  ◌==◌, ◌-◌, ◌^◌, bit_or,
}
use simet_lmapd.Base.Int.{ℤ, pos, negsuc}
use simet_lmapd.Text.{Str, codes, str_eq, isxdigit}
use simet_lmapd.Model.{
  Event, EventType, unset, periodic, calendar, one_off, immediate, startup, controller_lost,
  controller_connected, Rc, done, failed, is_done,
}
use simet_lmapd.Data.Scalar.{
  set_string, set_lmap_identifier, set_boolean, set_tag, set_int32, set_uint32, set_uint64,
  set_timezoneoffset, is_empty,
}
use simet_lmapd.Data.Containers.{add_tag, put_back, add_option}
use simet_lmapd.Data.DateTime.{set_dateandtime}
pub mod Intervals
pub mod Calendar

unfoldable pub lmap_event_new : Event
lmap_event_new = record {
  name = none;
  type = unset;
  interval_set = false;
  start_set = false;
  end_set = false;
  random_spread_set = false;
  cycle_interval_set = false;
  timezone_offset_set = false;
  last_invocation = pos 0;
  interval = 0;
  start = pos 0;
  end = pos 0;
  random_spread = 0;
  cycle_interval = 0;
  months = 0;
  days_of_month = 0;
  days_of_week = 0;
  hours = 0;
  minutes = 0;
  seconds = 0;
  timezone_offset = pos 0;
}

unfoldable pub lmap_event_set_name : Event → Option Str → Event × Rc
unfolding set_lmap_identifier
lmap_event_set_name event value =
    let (v, rc) = set_lmap_identifier event.name value in (record event { name = v }, rc)

-- A table of names, scanned up to its end or the first match.
unfoldable pub find_entry {ℓ} : {A : Type ℓ} → List (Str × A) → Str → Option A
find_entry [] value = none
find_entry ((n, a) ∷ tab) value = elim (str_eq n value) [
  | true ↦ some a
  | false ↦ find_entry tab value
]

abbrev pub event_types : List (Str × EventType)
event_types =
    (codes "periodic", periodic)
    ∷ (codes "calendar", calendar)
    ∷ (codes "one-off", one_off)
    ∷ (codes "immediate", immediate)
    ∷ (codes "startup", startup)
    ∷ (codes "controller-lost", controller_lost)
    ∷ (codes "controller-connected", controller_connected)
    ∷ []

unfoldable pub lmap_event_set_type : Event → Str → Event × Rc
unfolding find_entry
lmap_event_set_type event value = elim (find_entry event_types value) [
  | none ↦ (event, failed)
  | some t ↦ (record event { type = t }, done)
]

-- A zero is stored and then refused; the flag keeps its old value.
unfoldable pub lmap_event_set_interval : Event → Str → Event × Rc
unfolding set_uint32
lmap_event_set_interval event value =
    let (v, rc) = set_uint32 event.interval value in
    let e = record event { interval = v } in
    if is_done rc
    then (if ltb v 1 then (e, failed) else (record e { interval_set = true }, done))
    else (e, rc)

unfoldable pub lmap_event_set_start : Event → Str → Event × Rc
unfolding set_dateandtime
lmap_event_set_start event value =
    let (v, rc) = set_dateandtime event.start value in
    (record event { start = v; start_set = is_done rc || event.start_set }, rc)

unfoldable pub lmap_event_set_end : Event → Str → Event × Rc
unfolding set_dateandtime
lmap_event_set_end event value =
    let (v, rc) = set_dateandtime event.end value in
    (record event { end = v; end_set = is_done rc || event.end_set }, rc)

-- RAND_MAX of the GNU C library.
abbrev pub rand_max : ℕ
rand_max = 2 ^ 31 - 1

unfoldable pub lmap_event_set_random_spread : Event → Str → Event × Rc
unfolding set_uint32
lmap_event_set_random_spread event value =
    let (v, rc) = set_uint32 event.random_spread value in
    let e = record event { random_spread = v } in
    if is_done rc
    then (if leb rand_max v then (e, failed) else (record e { random_spread_set = true }, done))
    else (e, rc)

unfoldable pub lmap_event_set_cycle_interval : Event → Str → Event × Rc
unfolding set_uint32
lmap_event_set_cycle_interval event value =
    let (v, rc) = set_uint32 event.cycle_interval value in
    (
      record event {
        cycle_interval = v;
        cycle_interval_set = is_done rc || event.cycle_interval_set;
      },
      rc,
    )

unfoldable pub lmap_event_set_timezone_offset : Event → Str → Event × Rc
unfolding set_timezoneoffset
lmap_event_set_timezone_offset event value =
    let (v, rc) = set_timezoneoffset event.timezone_offset value in
    (
      record event {
        timezone_offset = v;
        timezone_offset_set = is_done rc || event.timezone_offset_set;
      },
      rc,
    )
