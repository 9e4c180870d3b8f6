-- ===== src/Runner/System/Processes/Settling.antt =====
-- A schedule whose child ends stays running only with another process.
use simet_lmapd.Base.{ℕ, ◌≡◌, inl, inr, true, List, [], ◌∷◌, arith, All, Bool-cases}
use simet_lmapd.Base.Int.{ℤ}
use simet_lmapd.Model.{Action, Schedule, Lmap}
use simet_lmapd.Runner.{Io}
use simet_lmapd.Runner.Cleanup.{
  Status, finish_action, complete_action, any_running, any_succeeded, flush_actions, settled,
  settle_schedule, has_pid, reap_schedules,
}
use simet_lmapd.Runner.Cleanup.Frame.{reap_actions-All, flush_actions-All}
use simet_lmapd.Runner.System.Processes.Executing.{
  HasProcess, any_process, IsLive, action_exec-HasProcess,
}

any_running-any_process :
    (as_ : List Action) → All HasProcess as_ → any_running as_ ≡ true → any_process as_ ≡ true
unfolding any_running any_process
any_running-any_process [] h r = cc
any_running-any_process (a ∷ as_) h r = ground (arith, h.0, any_running-any_process as_ h.1)

finish_action-HasProcess :
    (l : Lmap) (now : ℤ) (status : Status) (s : Schedule) (a : Action) (io : Io)
    → HasProcess a
    → HasProcess (finish_action l now status s a io).0
unfolding finish_action complete_action
finish_action-HasProcess l now status s a io h = ground arith

settle_schedule-IsLive :
    (l : Lmap) (s : Schedule) (as_ : List Action) (io : Io)
    → All HasProcess as_
    → IsLive (settle_schedule l s as_ io).0
unfolding settle_schedule settled
settle_schedule-IsLive l s as_ io h = elim (Bool-cases (any_running as_)) [
  | inl still ↦
      rw (still, settle_schedule)
        (record { actions = h; process = ground (arith, any_running-any_process as_ h still) })
  | inr over ↦
      rw (over, settle_schedule)
        (elim (Bool-cases (any_succeeded as_)) [
          | inl ok ↦ rw ok (record { actions = flushed; process = ground arith })
          | inr bad ↦ rw bad (record { actions = flushed; process = ground arith })
        ])
]
  where
    flushed : All HasProcess (flush_actions l s as_ io).0
    flushed = flush_actions-All l s HasProcess (λ a k. k) as_ io h

pub reap_schedules-IsLive :
    (l : Lmap) (now : ℤ) (pid : ℕ) (status : Status) (ss : List Schedule) (io : Io)
    → All IsLive ss
    → All IsLive (reap_schedules l now pid status ss io).0
unfolding reap_schedules
reap_schedules-IsLive l now pid status [] io h = tt
reap_schedules-IsLive l now pid status (s ∷ ss) io h = elim (Bool-cases (has_pid pid s.actions)) [
  | inr miss ↦ rw (miss, reap_schedules) (h.0, reap_schedules-IsLive l now pid status ss io h.1)
  | inl hit ↦
      rw (hit, reap_schedules)
        (
          settle_schedule-IsLive l s _ _ (
              reap_actions-All l now s HasProcess (action_exec-HasProcess l now s) pid status
                (λ a io1 e. finish_action-HasProcess l now status s a io1) s.actions io
                h.0.actions),
          h.1,
        )
]
