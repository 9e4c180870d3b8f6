-- ===== src/Runner/Timers.antt =====
-- The timers of src/runner.c: which events lmapd_run arms and with what delay, and what the callbacks of
-- the event loop arm next.
use simet_lmapd.Base.{
  ℕ, ◌+◌, ◌-◌, ◌*◌, ◌/◌, Bool, true, false, not, ◌&&◌, ◌||◌, List, [], ◌∷◌, Option, none, some,
  ◌==◌, if◌then◌else◌,
}
use simet_lmapd.Base.Int.{ℤ, pos_part, pos, negsuc, ◌+ℤ◌, ◌-ℤ◌, ltb_ℤ}
use simet_lmapd.Text.{Str}
use simet_lmapd.Model.{
  Schedule, Supp, Event, EventType, unset, periodic, calendar, one_off, immediate, startup,
  controller_lost, controller_connected, Lmap,
}
use simet_lmapd.Data.Event.Calendar.{LocalTime, lmap_event_calendar_match}
use simet_lmapd.Runner.Random.{rand_interval}
use simet_lmapd.Runner.Suppression.{names}
pub mod Arming

unfoldable pub used_by_schedules : List Schedule → Str → Bool
used_by_schedules [] ename = false
used_by_schedules (s ∷ ss) ename =
    names s.start ename || names s.end ename || used_by_schedules ss ename

unfoldable pub used_by_supps : List Supp → Str → Bool
used_by_supps [] ename = false
used_by_supps (s ∷ ss) ename = names s.start ename || names s.end ename || used_by_supps ss ename

-- The three events of the event loop that an event of the model has, each with a callback.
pub data Timer : Type 0 where
  start_event trigger_event fire_event : Timer

-- A timer that is armed, with the seconds that it waits.
pub record Armed : Type 0 where
  pub timer : Timer
  pub seconds : ℤ

-- tv_sec with the random part; `none` while rand_interval goes on with the random numbers rs.
unfoldable pub add_random_spread : Event → List ℕ → ℤ → Option ℤ
add_random_spread e rs seconds =
    if e.random_spread_set
    then elim (rand_interval 0 e.random_spread rs) [
      | none ↦ none
      | some spread ↦ some (seconds +ℤ pos spread)
    ]
    else some seconds

-- add_random_spread() and event_gaga() for the event itself.
abbrev pub fire_after : Option ℤ → Option (Option Armed)
fire_after none = none
fire_after (some seconds) = some (some (record { timer = fire_event; seconds = seconds }))

-- The delay of a periodic event that has a start. The interval is not 0.
unfoldable pub periodic_delay : ℤ → Event → ℤ
periodic_delay now e =
    if not e.start_set
    then pos 0
    else if ltb_ℤ e.start now
    then (let delta = pos_part (now -ℤ e.start) / e.interval in
        e.start +ℤ pos ((delta + 1) * e.interval) -ℤ now)
    else e.start -ℤ now

abbrev pub ended : ℤ → Event → Bool
ended now e = e.end_set && ltb_ℤ e.end now

-- The switch of `lmapd_run`: the timer that is armed, if any; the outer `none` while rand_interval goes on.
unfoldable pub arm : List ℕ → ℤ → Bool → Event → Option (Option Armed)
unfolding add_random_spread
arm rs now skip_startup e = elim e.type [
  | periodic ↦
      if ended now e
      then some none
      else some (some (record { timer = start_event; seconds = periodic_delay now e }))
  | calendar ↦
      if ended now e
      then some none
      else some (some (record { timer = start_event; seconds = pos 0 }))
  | one_off ↦
      if ltb_ℤ now e.start then some none else fire_after (add_random_spread e rs (e.start -ℤ now))
  | startup ↦ if skip_startup then some none else fire_after (add_random_spread e rs (pos 0))
  | immediate ↦ fire_after (add_random_spread e rs (pos 0))
  | unset ↦ some none
  | controller_lost ↦ some none
  | controller_connected ↦ some none
]

-- The body of the loop over the events: events without a name and events that nobody uses are skipped.
unfoldable pub arm_event : List ℕ → Lmap → ℤ → Bool → Event → Option (Option Armed)
arm_event rs lmap now skip_startup e = elim e.name [
  | none ↦ some none
  | some n ↦
      if used_by_schedules lmap.schedules n || used_by_supps lmap.supps n
      then arm rs now skip_startup e
      else some none
]

-- What a trigger does: it is shut down, or waits for some seconds and has the event fired or not.
pub data Triggered : Type 0 where
  shut_down : Triggered
  waits : ℕ → Triggered
  fires_and_waits : ℕ → Triggered

-- The trigger of a periodic event persists, with the period of its interval.
unfoldable pub trigger_periodic_cb : ℤ → Event → Triggered
trigger_periodic_cb now e = if ended now e then shut_down else fires_and_waits e.interval

-- `lmap_event_calendar_match` is -1 on an error, 0 without a match, else the seconds to wait.
unfoldable pub trigger_calendar_cb : (ℤ → Option LocalTime) → ℤ → Event → Triggered
trigger_calendar_cb localtime now e =
    if ended now e then shut_down else elim (lmap_event_calendar_match localtime e now) [
      | negsuc n ↦ shut_down
      | pos n ↦ if n == 0 then waits 1 else fires_and_waits n
    ]
