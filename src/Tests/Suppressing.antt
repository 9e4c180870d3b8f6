-- ===== src/Tests/Suppressing.antt =====
-- The suppressions and the ended children of src/runner.c at concrete inputs.
use simet_lmapd.Base.{◌≡◌, refl, false, List, [], ◌∷◌, some, arith}
use simet_lmapd.Base.Int.{pos}
use simet_lmapd.Text.{codes, str_eq}
use simet_lmapd.Model.{Action, Schedule, parallel, enabled, suppressed}
use simet_lmapd.Runner.{Effect, schedule_clean, big_tag_match, matches_any}
use simet_lmapd.Runner.Suppression.{start_action, start_one, end_action, end_one}
use simet_lmapd.Runner.Suppression.StopRunning.{stop_running_sticks, end_action-start_action}
use simet_lmapd.Runner.Cleanup.{
  exited, exec_next, any_running, settle_schedule, reap_schedules, has_pid,
}
use simet_lmapd.Runner.Cleanup.Outcomes.{failure_masked, suppression_lost, flushed}
use simet_lmapd.Tests.Fixtures.{
  running_action, running_schedule, first_action, second_action, hourly_schedule, night_supp,
  night_lmap, two_forks, plain_match,
}

stop_running_sticks_example :
    exec_next night_lmap
      (pos 10)
      (end_one plain_match night_supp
        (start_one plain_match night_supp hourly_schedule two_forks).0)
      (second_action ∷ [])
      two_forks
    ≡ (second_action ∷ [], two_forks)
unfolding big_tag_match matches_any str_eq
stop_running_sticks_example =
    stop_running_sticks plain_match night_supp hourly_schedule two_forks refl refl refl night_lmap
      (pos 10) (second_action ∷ []) two_forks

end_action-start_action_example :
    end_action plain_match night_supp (start_action plain_match night_supp false first_action)
    ≡ first_action
end_action-start_action_example =
    end_action-start_action plain_match night_supp false first_action (omega arith) refl
      (λ held. cc) (λ on. refl)

abbrev failed_action : Action
failed_action = record second_action { last_status = pos 1 }

failure_masked_example :
    let (s', io') =
      settle_schedule night_lmap running_schedule (failed_action ∷ first_action ∷ []) two_forks in
    (s'.cnt_failures ≡ 0)
    × ((rest : List Effect) × (io'.trace ≡ schedule_clean (some (codes "hourly")) ∷ rest))
unfolding any_running
failure_masked_example =
    failure_masked night_lmap running_schedule (failed_action ∷ []) [] first_action two_forks refl
      refl

-- An action that runs and that a suppression holds, in a parallel schedule that it holds too.
abbrev held_action : Action
held_action = record running_action { cnt_active_suppressions = 1 }

abbrev held_schedule : Schedule
held_schedule = record running_schedule {
  mode = parallel;
  cnt_active_suppressions = 1;
  actions = second_action ∷ held_action ∷ [];
}

suppression_lost_example :
    (t : Schedule) × (b : Action) × ((reap_schedules night_lmap
        (pos 10)
        100
        (exited 0)
        (held_schedule ∷ [])
        two_forks).0
      ≡ t ∷ [])
    × (t.state ≡ suppressed)
    × (t.actions ≡ flushed second_action ∷ b ∷ [])
    × (b.state ≡ enabled)
    × (b.pid ≡ 0)
    × (b.cnt_active_suppressions ≡ 1)
unfolding has_pid any_running
suppression_lost_example =
    suppression_lost night_lmap (pos 10) 100 (exited 0) held_schedule [] (second_action ∷ []) []
      held_action two_forks refl refl refl refl refl refl (omega arith)
