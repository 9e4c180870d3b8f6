-- ===== src/Runner/Exec/Launch.antt =====
-- When `action_exec` starts a process, and what it leaves alone when it does not.
use simet_lmapd.Base.{
  ℕ, ◌≤◌, ◌≡◌, refl, ◌≢◌, ◌⊎◌, inl, inr, true, not, ◌||◌, List, ◌∷◌, Option, none, some, arith,
  ◌==◌, Bool-cases, Option-cases, length,
}
use simet_lmapd.Base.Int.{ℤ, pos}
use simet_lmapd.Text.{Str}
use simet_lmapd.Model.{
  Task, Action, Schedule, Lmap, running, disabled, suppressed, is_suppressed, is_disabled, incr32,
}
use simet_lmapd.Data.Containers.{lmap_find_task}
use simet_lmapd.Data.Validity.{given}
use simet_lmapd.Runner.{Io, spawn, head_or}
use simet_lmapd.Runner.Exec.{
  action_exec, exec_key, exec_task, launch, capable, build_argv, minus_one,
}
use simet_lmapd.Runner.Exec.Argv.{build_argv-le}

-- A process was started: the action could run, its task's program is among the capabilities, and
-- only the fields of a started action changed.
pub record Launched (lmap : Lmap) (now : ℤ) (s : Schedule) (a a' : Action) (io io' : Io)
    : Type 0 where
  pub program : Str
  pub argv : List Str
  pub pid : ℕ
  pub not_suppressed : a.state ≢ suppressed
  pub not_disabled : a.state ≢ disabled
  pub idle : a.pid ≡ 0
  pub alive : pid ≢ 0
  pub permitted : capable lmap program ≡ true
  pub fits : length argv ≤ 254
  pub started : a' ≡ record a {
    pid = pid;
    last_invocation = now;
    state = running;
    cnt_invocations = incr32 a.cnt_invocations;
  }
  pub traced : io'.trace ≡ spawn s.name a.name program argv ∷ io.trace

-- No process was started: at most a counter changed.
pub record Refused (a a' : Action) (io io' : Io) : Type 0 where
  pub kept :
      a' ≡ record a { cnt_overlaps = a'.cnt_overlaps; cnt_suppressions = a'.cnt_suppressions }
  pub silent : io'.trace ≡ io.trace

abbrev pub Outcome : Lmap → ℤ → Schedule → Action → Io → Action × ℤ × Io → Type 0
Outcome lmap now s a io r =
    ((r.1 ≡ pos 1) × Launched lmap now s a r.0 io r.2) ⊎ ((r.1 ≢ pos 1) × Refused a r.0 io r.2)

minus-ne-one : minus_one ≢ pos 1
minus-ne-one = λ e. cc

zero-ne-one : pos 0 ≢ pos 1
zero-ne-one = λ e. ground arith

-- Nothing happened.
unchanged : (a : Action) (io : Io) → Refused a a io io
unchanged a io = record { kept = refl; silent = refl }

launch-Outcome :
    (lmap : Lmap) (now : ℤ) (s : Schedule) (a : Action) (program : Str) (argv : List Str) (io : Io)
    → a.state ≢ suppressed
    → a.state ≢ disabled
    → a.pid ≡ 0
    → capable lmap program ≡ true
    → length argv ≤ 254
    → Outcome lmap now s a io (launch now s a program argv io)
unfolding launch
launch-Outcome lmap now s a program argv io p q r c l =
    elim (Bool-cases (head_or io.forks 0 == 0)) [
      | inl bad ↦ rw (bad, launch) (inr (minus-ne-one, record { kept = refl; silent = refl }))
      | inr good ↦
          rw (good, launch)
            (inl (
              refl,
              record {
                program = program;
                argv = argv;
                pid = head_or io.forks 0;
                not_suppressed = p;
                not_disabled = q;
                idle = r;
                alive = ground arith;
                permitted = c;
                fits = l;
                started = refl;
                traced = refl;
              },
            ))
    ]

exec_task-Outcome :
    (lmap : Lmap) (now : ℤ) (s : Schedule) (a : Action) (task : Task) (io : Io)
    → a.state ≢ suppressed
    → a.state ≢ disabled
    → Outcome lmap now s a io (exec_task lmap now s a task io)
unfolding exec_task
exec_task-Outcome lmap now s a task io p q = elim (Option-cases task.program) [
  | inl bad ↦ rw (bad, exec_task) (inr (minus-ne-one, unchanged a io))
  | inr (program, e) ↦
      rw (e, exec_task)
        (elim (Bool-cases (capable lmap program)) [
          | inr bad ↦ rw bad (inr (minus-ne-one, unchanged a io))
          | inl can ↦ rw can (elim (Bool-cases (a.pid == 0)) [
            | inr busy ↦ rw busy (inr (minus-ne-one, record { kept = refl; silent = refl }))
            | inl idle ↦ rw idle (elim (Option-cases (build_argv program task.options a.options)) [
              | inl many ↦ rw many (inr (minus-ne-one, unchanged a io))
              | inr (argv, built) ↦ rw built (
                  launch-Outcome lmap now s a program argv io p q (ground arith) can
                    (build_argv-le program task.options a.options argv built))
            ])
          ])
        ])
]

exec_key-Outcome :
    (lmap : Lmap) (now : ℤ) (s : Schedule) (a : Action) (key : Option Str) (io : Io)
    → Outcome lmap now s a io (exec_key lmap now s a key io)
unfolding exec_key
exec_key-Outcome lmap now s a none io = inr (zero-ne-one, unchanged a io)
exec_key-Outcome lmap now s a (some key) io =
    elim (Bool-cases (not (given a.name) || not (given a.workspace))) [
      | inl bad ↦ rw bad (inr (zero-ne-one, unchanged a io))
      | inr ok ↦ rw ok (elim (Bool-cases (is_suppressed a.state)) [
        | inl bad ↦ rw bad (inr (zero-ne-one, record { kept = refl; silent = refl }))
        | inr free ↦ rw free (elim (Bool-cases (is_disabled a.state)) [
          | inl bad ↦ rw bad (inr (zero-ne-one, unchanged a io))
          | inr on ↦ rw on (elim (Option-cases (lmap_find_task lmap key)) [
            | inl bad ↦ rw bad (inr (minus-ne-one, unchanged a io))
            | inr (task, found) ↦
                rw found (exec_task-Outcome lmap now s a task io (ground arith) (ground arith))
          ])
        ])
      ])
    ]

-- `action_exec` starts at most one process, and only for an action that is neither suppressed nor
-- disabled and has none, with a program that the capabilities list and arguments within bounds; it
-- returns 1 exactly then. In all other cases no process is started and only counters change.
pub action_exec-Outcome :
    (lmap : Lmap) (now : ℤ) (s : Schedule) (a : Action) (io : Io)
    → Outcome lmap now s a io (action_exec lmap now s a io)
unfolding action_exec
action_exec-Outcome lmap now s a io = exec_key-Outcome lmap now s a a.task io
