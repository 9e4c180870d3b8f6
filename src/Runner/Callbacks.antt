-- ===== src/Runner/Callbacks.antt =====
-- execute_cb and fire_cb of src/runner.c.
use simet_lmapd.Base.{
  ℕ, ◌+◌, ◌*◌, ◌/◌, Bool, true, false, not, ◌&&◌, ◌||◌, List, [], ◌∷◌, Option, none, some, ◌==◌,
  if◌then◌else◌,
}
use simet_lmapd.Base.Int.{ℤ, pos, negsuc, pos_part, neg_part}
use simet_lmapd.Text.{Str, str_eq, negated}
use simet_lmapd.Model.{
  Action, Schedule, Supp, Event, EventType, one_off, immediate, startup, Lmap, RunState, enabled,
  disabled, running, suppressed, is_disabled, is_running, is_suppressed, incr32,
}
use simet_lmapd.Data.Validity.{given}
use simet_lmapd.Runner.{Effect, schedule_move, Io, emit}
use simet_lmapd.Runner.Exec.{schedule_exec, schedule_kill}
use simet_lmapd.Runner.Suppression.{names, suppress_cb}
pub mod Starting

-- (t / n) * n, where the division of C truncates towards zero.
unfoldable pub truncate_to : ℤ → ℕ → ℤ
truncate_to (pos t) n = pos (t / n * n)
truncate_to (negsuc t) n = negated ((t + 1) / n * n)

unfoldable pub cycle_number_of : Event → ℤ → ℤ
cycle_number_of event now =
    if event.cycle_interval_set && not (event.cycle_interval == 0)
    then truncate_to now event.cycle_interval
    else pos 0

-- Events that happen once.
abbrev pub happens_once : EventType → Bool
happens_once one_off = true
happens_once immediate = true
happens_once startup = true
happens_once _ = false

abbrev pub is_startup : EventType → Bool
is_startup startup = true
is_startup _ = false

-- The body of `execute_cb` for a schedule that starts at the event.
unfoldable pub start_now : Lmap → ℤ → Event → Schedule → Io → Schedule × Bool × Io
start_now lmap now event s io =
    if is_suppressed s.state
    then (record s { cnt_suppressions = incr32 s.cnt_suppressions }, false, io)
    else if is_running s.state
    then (record s { cnt_overlaps = incr32 s.cnt_overlaps }, false, io)
    else let t = record s { cycle_number = cycle_number_of event now } in
      let (u, io1) = schedule_exec lmap now t (emit (schedule_move s.name) io) in
      (
        record u { state = if happens_once event.type then disabled else u.state },
        is_startup event.type,
        io1,
      )

-- Up to the label `next`: the schedule, and whether the startup is done.
unfoldable pub execute_start : Lmap → ℤ → Event → Str → Schedule → Io → Schedule × Bool × Io
execute_start lmap now event ename s io =
    if is_disabled s.state
    then (s, false, io)
    else if not (given s.name)
    then (record s { state = disabled }, false, io)
    else if names s.start ename
    then start_now lmap now event s io
    else (s, false, io)

unfoldable pub execute_one : Lmap → ℤ → Event → Str → Schedule → Io → Schedule × Bool × Io
execute_one lmap now event ename s io =
    let (t, up, io1) = execute_start lmap now event ename s io in
    (t, up, if names t.end ename then schedule_kill t io1 else io1)

-- The callback for the schedules; `ename` is the name of the event. The flag is
-- LMAPD_FLAG_STARTUPDONE.
unfoldable pub execute_cb : Lmap → ℤ → Event → Str → List Schedule → Io → List Schedule × Bool × Io
execute_cb lmap now event ename [] io = ([], false, io)
execute_cb lmap now event ename (s ∷ ss) io =
    let (s', up, io1) = execute_one lmap now event ename s io in
    let (ss', up', io2) = execute_cb lmap now event ename ss io1 in (s' ∷ ss', up || up', io2)

-- The daemon's state that an event changes; `fire_cb` runs only for events with a name.
unfoldable pub fire_cb : (Str → Str → Bool) → ℤ → Event → Str → Lmap → Io → Lmap × Bool × Io
fire_cb fnmatch now event ename lmap io =
    let (supps, ss, io1) = suppress_cb fnmatch ename lmap.supps lmap.schedules io in
    let lmap1 = record lmap { supps = supps; schedules = ss } in
    let (ss', up, io2) = execute_cb lmap1 now event ename ss io1 in
    (record lmap1 { schedules = ss' }, up, io2)
