-- ===== src/Runner/Exec.antt =====
-- action_exec, schedule_exec, action_kill and schedule_kill of src/runner.c, in the parent process.
use simet_lmapd.Base.{
  ℕ, ◌+◌, Bool, true, false, not, ◌&&◌, ◌||◌, List, [], ◌∷◌, ◌++◌, Option, none, some, leb, ◌==◌,
  length, if◌then◌else◌,
}
use simet_lmapd.Base.Int.{ℤ, pos, negsuc}
use simet_lmapd.Text.{Str, str_eq}
use simet_lmapd.Model.{
  Task, LmapOption, Capability, Action, Schedule, Lmap, sequential, parallel, pipelined, ExecMode,
  RunState, enabled, disabled, running, suppressed, is_disabled, is_running, is_suppressed, incr32,
}
use simet_lmapd.Data.Validity.{given}
use simet_lmapd.Data.Containers.{lmap_find_task}
use simet_lmapd.Runner.{
  Effect, spawn, kill_group, kill_process, action_clean, Io, emit, head_or, tail,
}
pub mod Argv
pub mod Launch
pub mod Frame

-- sizeof(argv) / sizeof(argv[0]) - 4
abbrev pub argv_limit : ℕ
argv_limit = 252

abbrev pub push : List Str → Option Str → List Str
push argv none = argv
push argv (some s) = argv ++ s ∷ []

-- The loop over the options of a task or an action: `argv` holds the elements 0 .. i.
unfoldable pub push_options : List LmapOption → List Str → Option (List Str)
push_options [] argv = some argv
push_options (o ∷ os) argv = elim (leb (argv_limit + 1) (length argv)) [
  | true ↦ none
  | false ↦ push_options os (push (push argv o.name) o.value)
]

unfoldable pub build_argv : Str → List LmapOption → List LmapOption → Option (List Str)
build_argv program task_options action_options = elim (push_options task_options (program ∷ [])) [
  | none ↦ none
  | some argv ↦ push_options action_options argv
]

-- The loop over the tasks of the capabilities.
unfoldable pub lists_program : List Task → Str → Bool
lists_program [] program = false
lists_program (t ∷ ts) program = elim t.program [
  | none ↦ lists_program ts program
  | some p ↦ str_eq program p || lists_program ts program
]

unfoldable pub capable : Lmap → Str → Bool
capable lmap program = elim lmap.capabilities [
  | none ↦ false
  | some c ↦ lists_program c.tasks program
]

abbrev pub minus_one : ℤ
minus_one = negsuc 0

-- fork() and what the parent does after it.
unfoldable pub launch : ℤ → Schedule → Action → Str → List Str → Io → Action × ℤ × Io
launch now schedule a program argv io =
    let pid = head_or io.forks 0 in
    let io1 = record io { forks = tail io.forks } in
    if pid == 0 then (a, minus_one, io1) else (
      record a {
        pid = pid;
        last_invocation = now;
        state = running;
        cnt_invocations = incr32 a.cnt_invocations;
      },
      pos 1,
      emit (spawn schedule.name a.name program argv) io1,
    )

-- The checks from the task's program on.
unfoldable pub exec_task : Lmap → ℤ → Schedule → Action → Task → Io → Action × ℤ × Io
exec_task lmap now schedule a task io = elim task.program [
  | none ↦ (a, minus_one, io)
  | some program ↦
      if not (capable lmap program)
      then (a, minus_one, io)
      else if not (a.pid == 0)
      then (record a { cnt_overlaps = incr32 a.cnt_overlaps }, minus_one, io)
      else elim (build_argv program task.options a.options) [
        | none ↦ (a, minus_one, io)
        | some argv ↦ launch now schedule a program argv io
      ]
]

-- The checks of the action, whose task has the name `key`.
unfoldable pub exec_key : Lmap → ℤ → Schedule → Action → Option Str → Io → Action × ℤ × Io
exec_key lmap now schedule a none io = (a, pos 0, io)
exec_key lmap now schedule a (some key) io =
    if not (given a.name) || not (given a.workspace)
    then (a, pos 0, io)
    else if is_suppressed a.state
    then (record a { cnt_suppressions = incr32 a.cnt_suppressions }, pos 0, io)
    else if is_disabled a.state
    then (a, pos 0, io)
    else elim (lmap_find_task lmap key) [
      | none ↦ (a, minus_one, io)
      | some task ↦ exec_task lmap now schedule a task io
    ]

unfoldable pub action_exec : Lmap → ℤ → Schedule → Action → Io → Action × ℤ × Io
action_exec lmap now schedule a io = exec_key lmap now schedule a a.task io

abbrev pub is_one : ℤ → Bool
is_one (pos n) = n == 1
is_one (negsuc n) = false

-- The loop of the parallel mode: the actions, and whether one of them was started.
unfoldable pub exec_all : Lmap → ℤ → Schedule → List Action → Io → List Action × Bool × Io
exec_all lmap now schedule [] io = ([], false, io)
exec_all lmap now schedule (a ∷ as_) io =
    let (a', rc, io1) = action_exec lmap now schedule a io in
    let (as', started, io2) = exec_all lmap now schedule as_ io1 in
    (a' ∷ as', is_one rc || started, io2)

-- The sequential mode starts the first action alone.
unfoldable pub exec_first : Lmap → ℤ → Schedule → List Action → Io → List Action × Bool × Io
exec_first lmap now schedule [] io = ([], false, io)
exec_first lmap now schedule (a ∷ as_) io =
    let (a', rc, io1) = action_exec lmap now schedule a io in (a' ∷ as_, is_one rc, io1)

unfoldable pub clean_actions : List Action → Io → Io
clean_actions [] io = io
clean_actions (a ∷ as_) io = clean_actions as_ (emit (action_clean a.name) io)

abbrev pub invoked : ℤ → Schedule → List Action → Bool → Schedule
invoked now s as_ started = record s {
  last_invocation = now;
  cnt_invocations = incr32 s.cnt_invocations;
  actions = as_;
  state = if started then running else s.state;
}

unfoldable pub exec_mode : Lmap → ℤ → Schedule → ExecMode → Io → Schedule × Io
exec_mode lmap now s sequential io =
    let (as_, started, io1) = exec_first lmap now s s.actions io in (invoked now s as_ started, io1)
exec_mode lmap now s parallel io =
    let (as_, started, io1) = exec_all lmap now s s.actions io in (invoked now s as_ started, io1)
exec_mode lmap now s pipelined io = (record s { state = disabled }, io)

unfoldable pub schedule_exec : Lmap → ℤ → Schedule → Io → Schedule × Io
schedule_exec lmap now s io =
    if not (given s.name) then (s, io) else exec_mode lmap now s s.mode (clean_actions s.actions io)

-- SIGTERM to the process group, and to the process itself if that fails.
unfoldable pub action_kill : Action → Io → Io
action_kill a io =
    if not (given a.name) || not (is_running a.state) || a.pid == 0
    then io
    else let io1 = emit (kill_group a.pid) (record io { kills = tail io.kills }) in
      if head_or io.kills false
      then io1
      else emit (kill_process a.pid) (record io1 { kills = tail io1.kills })

unfoldable pub kill_actions : List Action → Io → Io
kill_actions [] io = io
kill_actions (a ∷ as_) io = kill_actions as_ (action_kill a io)

unfoldable pub schedule_kill : Schedule → Io → Io
schedule_kill s io = if not (given s.name) then io else kill_actions s.actions io
