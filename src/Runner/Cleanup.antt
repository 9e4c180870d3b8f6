-- ===== src/Runner/Cleanup.antt =====
-- lmapd_cleanup of src/runner.c: what happens when a child process changes its status.
use simet_lmapd.Base.{
  ℕ, Bool, true, false, not, ◌&&◌, ◌||◌, List, [], ◌∷◌, Option, none, some, ◌==◌, if◌then◌else◌,
}
use simet_lmapd.Base.Int.{ℤ, pos, negsuc}
use simet_lmapd.Text.{Str, negated}
use simet_lmapd.Model.{
  Tag, Action, Schedule, Lmap, ExecMode, sequential, parallel, pipelined, RunState, enabled,
  disabled, running, suppressed, is_running, is_suppressed, incr32,
}
use simet_lmapd.Data.Containers.{lmap_find_schedule}
use simet_lmapd.Runner.{
  Effect, action_clean, action_meta_end, action_move, schedule_clean, Io, emit, head_or, tail,
}
use simet_lmapd.Runner.Exec.{action_exec}
pub mod Outcomes
pub mod Frame

-- What waitpid() reports of a child: its exit status, the signal that ended it, or another change.
pub data Status : Type 0 where
  exited signaled : ℕ → Status
  other : Status

abbrev pub is_zero : ℤ → Bool
is_zero (pos n) = n == 0
is_zero (negsuc n) = false

-- `last_status` for a child that has ended.
abbrev pub status_value : Status → ℤ
status_value (exited n) = pos n
status_value (signaled n) = negated n
status_value other = pos 0

-- The fields of the action that ended.
unfoldable pub complete_action : ℤ → Status → Action → Action
complete_action now status a =
    let v = status_value status in
    let b = record a { pid = 0; state = enabled; last_completion = now; last_status = v } in
    if is_zero v then b else record b {
      last_failed_completion = now;
      last_failed_status = v;
      cnt_failures = incr32 a.cnt_failures;
    }

-- The moves to the destinations that exist, and whether one of them asked for a deferral.
unfoldable pub move_results : Lmap → Option Str → Option Str → Bool → List Tag → Io → Bool × Io
move_results lmap schedule action first [] io = (false, io)
move_results lmap schedule action first (t ∷ ts) io = elim t.tag [
  | none ↦ move_results lmap schedule action first ts io
  | some n ↦ elim (lmap_find_schedule lmap n) [
    | none ↦ move_results lmap schedule action first ts io
    | some dst ↦
        let (later, io1) = move_results lmap schedule action first ts (
          emit (action_move schedule action dst.name first)
            (record io { moves = tail io.moves })) in
        (head_or io.moves false || later, io1)
  ]
]

-- From the end of the action to its early clean-up.
unfoldable pub finish_action : Lmap → ℤ → Status → Schedule → Action → Io → Action × Io
finish_action lmap now status s a io =
    let b = complete_action now status a in
    let io1 = emit (action_meta_end s.name a.name) io in
    let (deferred, io2) =
      if is_zero b.last_status
      then move_results lmap s.name a.name true a.destinations io1
      else (false, io1) in
    let c = record b { move_deferred = deferred || b.move_deferred } in
    (c, if c.move_deferred then io2 else emit (action_clean c.name) io2)

abbrev pub is_sequential : ExecMode → Bool
is_sequential sequential = true
is_sequential parallel = false
is_sequential pipelined = false

-- The next action of a sequential schedule, unless the schedule was suppressed or is to stop.
unfoldable pub exec_next : Lmap → ℤ → Schedule → List Action → Io → List Action × Io
exec_next lmap now s [] io = ([], io)
exec_next lmap now s (a ∷ as_) io =
    if is_sequential s.mode && not (is_suppressed s.state) && not s.stop_running
    then (let (a', rc, io1) = action_exec lmap now s a io in (a' ∷ as_, io1))
    else (a ∷ as_, io)

-- The action with the pid, and the one behind it.
unfoldable pub reap_actions : Lmap → ℤ → ℕ → Status → Schedule → List Action → Io → List Action × Io
reap_actions lmap now pid status s [] io = ([], io)
reap_actions lmap now pid status s (a ∷ as_) io =
    if a.pid == pid
    then (let (a', io1) = finish_action lmap now status s a io in
        let (as', io2) = exec_next lmap now s as_ io1 in (a' ∷ as', io2))
    else (let (as', io1) = reap_actions lmap now pid status s as_ io in (a ∷ as', io1))

unfoldable pub any_running : List Action → Bool
any_running [] = false
any_running (a ∷ as_) = is_running a.state || any_running as_

unfoldable pub any_succeeded : List Action → Bool
any_succeeded [] = false
any_succeeded (a ∷ as_) = is_zero a.last_status || any_succeeded as_

-- The deferred moves and the clean-up of every action, once none runs.
unfoldable pub flush_actions : Lmap → Schedule → List Action → Io → List Action × Io
flush_actions lmap s [] io = ([], io)
flush_actions lmap s (a ∷ as_) io =
    let io1 =
      if a.move_deferred then (move_results lmap s.name a.name false a.destinations io).1 else io in
    let (as', io2) = flush_actions lmap s as_ (emit (action_clean a.name) io1) in
    (record a { move_deferred = false } ∷ as', io2)

-- A running schedule none of whose actions runs is enabled, or suppressed if it ought to be.
unfoldable pub settled : Schedule → Bool → RunState
settled s still_running =
    if is_running s.state && not still_running
    then (if s.cnt_active_suppressions == 0 then enabled else suppressed)
    else s.state

unfoldable pub settle_schedule : Lmap → Schedule → List Action → Io → Schedule × Io
settle_schedule lmap s as_ io =
    let still_running = any_running as_ in
    let succeeded = any_succeeded as_ in
    let t = record s { state = settled s still_running; actions = as_ } in
    if still_running
    then (t, io)
    else let (as', io1) = flush_actions lmap s as_ io in
      let u = record t { actions = as' } in
      if succeeded
      then (u, emit (schedule_clean s.name) io1)
      else (record u { cnt_failures = incr32 s.cnt_failures }, io1)

unfoldable pub has_pid : ℕ → List Action → Bool
has_pid pid [] = false
has_pid pid (a ∷ as_) = a.pid == pid || has_pid pid as_

-- The first schedule with an action of the pid; an unknown pid is ignored.
unfoldable pub reap_schedules : Lmap → ℤ → ℕ → Status → List Schedule → Io → List Schedule × Io
reap_schedules lmap now pid status [] io = ([], io)
reap_schedules lmap now pid status (s ∷ ss) io =
    if has_pid pid s.actions
    then (let (as_, io1) = reap_actions lmap now pid status s s.actions io in
        let (s', io2) = settle_schedule lmap s as_ io1 in (s' ∷ ss, io2))
    else (let (ss', io1) = reap_schedules lmap now pid status ss io in (s ∷ ss', io1))

abbrev pub has_ended : Status → Bool
has_ended (exited n) = true
has_ended (signaled n) = true
has_ended other = false

-- The loop over the children that waitpid() reports, up to its end.
unfoldable pub lmapd_cleanup : ℤ → List (ℕ × Status) → Lmap → Io → Lmap × Io
lmapd_cleanup now [] lmap io = (lmap, io)
lmapd_cleanup now ((pid, status) ∷ rest) lmap io =
    if has_ended status
    then (let (ss, io1) = reap_schedules lmap now pid status lmap.schedules io in
        lmapd_cleanup now rest (record lmap { schedules = ss }) io1)
    else lmapd_cleanup now rest lmap io
