-- ===== src/Tests/Running.antt =====
-- Histories, executions and starts of src/runner.c at concrete inputs.
use simet_lmapd.Base.{◌≤◌, ◌≡◌, refl, List, [], ◌∷◌, map, some, arith, All, length}
use simet_lmapd.Base.Int.{pos}
use simet_lmapd.Text.{codes, str_eq}
use simet_lmapd.Model.{enabled}
use simet_lmapd.Data.Containers.{lmap_find_task}
use simet_lmapd.Runner.{big_tag_match, matches_any}
use simet_lmapd.Runner.Exec.{
  build_argv, push_options, action_exec, exec_key, exec_task, launch, capable, lists_program,
  exec_first, exec_mode, schedule_exec, clean_actions, action_kill, kill_actions, schedule_kill,
}
use simet_lmapd.Runner.Exec.Launch.{Outcome, action_exec-Outcome}
use simet_lmapd.Runner.Exec.Argv.{build_argv-le}
use simet_lmapd.Runner.Suppression.{
  start_schedule, stops, start_action_io, start_action, start_actions, start_one, start_schedules,
  suppression_start, end_schedule, end_action, end_actions, end_one, end_schedules, suppression_end,
  on_start, on_end, suppress_one, suppress_cb,
}
use simet_lmapd.Runner.Cleanup.{
  exited, complete_action, move_results, finish_action, exec_next, reap_actions, any_running,
  any_succeeded, flush_actions, settled, settle_schedule, has_pid, reap_schedules, lmapd_cleanup,
}
use simet_lmapd.Runner.Callbacks.{
  truncate_to, cycle_number_of, start_now, execute_start, execute_one, execute_cb, fire_cb,
}
use simet_lmapd.Runner.System.Disabled.{Each}
use simet_lmapd.Runner.System.Once.{once_only, IsSpent}
use simet_lmapd.Runner.System.{Input, fires, children, step, run}
use simet_lmapd.Runner.System.Suppressions.{run-Counting, Counting}
use simet_lmapd.Runner.System.Permissions.{AllPermitted, run-AllPermitted}
use simet_lmapd.Runner.System.Processes.{IsLive, run-IsLive}
use simet_lmapd.Tests.Fixtures.{
  first_action, hourly_schedule, tick_event, once_event, dusk_event, dawn_event, night_lmap,
  two_forks, plain_match,
}

-- A start, a suppression that kills, the end of the child, and the end of the suppression.
abbrev history : List Input
history =
    fires (pos 4600) tick_event (codes "tick")
    ∷ fires (pos 4700) dusk_event (codes "dusk")
    ∷ children (pos 4701) ((100, exited 0) ∷ [])
    ∷ fires (pos 4800) dawn_event (codes "dawn")
    ∷ []

night_lmap-Counting : Counting plain_match night_lmap
night_lmap-Counting = record {
  named = (refl, tt);
  few = omega arith;
  counts = (
    record {
      counted = λ on. refl;
      enabled_free = λ on. refl;
      suppressed_held = λ held. ground arith;
      actions = λ on. ((λ on. refl, λ off. refl), ((λ on. refl, λ off. refl), tt));
    },
    tt,
  );
}

run-Counting_example : Counting plain_match (run plain_match (night_lmap, two_forks) history).0
run-Counting_example =
    run-Counting plain_match night_lmap two_forks history (tt, (tt, ((ground arith, tt), (tt, tt))))
      night_lmap-Counting

run-AllPermitted_example :
    AllPermitted night_lmap (run plain_match (night_lmap, two_forks) history).1
run-AllPermitted_example = run-AllPermitted plain_match night_lmap two_forks history tt

run-IsLive_example : All IsLive (run plain_match (night_lmap, two_forks) history).0.schedules
run-IsLive_example =
    run-IsLive plain_match night_lmap two_forks history
      (record { actions = (refl, (refl, tt)); process = refl }, tt)

-- The first action was started and killed, and the schedule is enabled at the end.
history_trace :
    map (λ s. s.state) (run plain_match (night_lmap, two_forks) history).0.schedules ≡ enabled ∷ []
unfolding run step fire_cb suppress_cb suppress_one on_start on_end suppression_start
    suppression_end start_schedules start_one start_schedule start_actions start_action
    start_action_io stops end_schedules end_one end_schedule end_actions end_action big_tag_match
    matches_any str_eq execute_cb execute_one execute_start start_now schedule_exec schedule_kill
    kill_actions action_kill clean_actions exec_mode exec_first action_exec exec_key exec_task
    launch capable lists_program lmap_find_task build_argv push_options cycle_number_of truncate_to
    lmapd_cleanup reap_schedules has_pid reap_actions finish_action complete_action move_results
    exec_next settle_schedule settled any_running any_succeeded flush_actions
history_trace = refl

action_exec-Outcome_example :
    Outcome night_lmap
      (pos 10)
      hourly_schedule
      first_action
      two_forks
      (action_exec night_lmap (pos 10) hourly_schedule first_action two_forks)
action_exec-Outcome_example =
    action_exec-Outcome night_lmap (pos 10) hourly_schedule first_action two_forks

build_argv-le_example : length (codes "/bin/ping" ∷ codes "-c" ∷ codes "3" ∷ []) ≤ 254
unfolding build_argv push_options
build_argv-le_example =
    build_argv-le (codes "/bin/ping")
      (record { id = some (codes "c"); name = some (codes "-c"); value = some (codes "3") } ∷ []) []
      (codes "/bin/ping" ∷ codes "-c" ∷ codes "3" ∷ []) refl

once_only_example :
    let (ss, up, io1) =
      execute_cb night_lmap (pos 4600) once_event (codes "tick") (hourly_schedule ∷ []) two_forks in
    Each
      (IsSpent (codes "tick"))
      (hourly_schedule ∷ [])
      (run plain_match (record night_lmap { schedules = ss }, io1) history).0.schedules
once_only_example =
    once_only plain_match night_lmap (pos 4600) once_event (codes "tick") two_forks history refl
