-- ===== src/Runner/System/Suppressions/Reaping.antt =====
-- The counters of active suppressions where children end.
use simet_lmapd.Base.{
  ℕ, ◌≡◌, refl, ◌≢◌, inl, inr, Bool, true, false, List, [], ◌∷◌, arith, All, Bool-cases,
}
use simet_lmapd.Base.Int.{ℤ}
use simet_lmapd.Text.{Str}
use simet_lmapd.Model.{Tag, Action, Schedule, Lmap, is_disabled}
use simet_lmapd.Runner.{Io}
use simet_lmapd.Runner.Cleanup.{
  Status, complete_action, finish_action, settled, settle_schedule, flush_actions, any_running,
  any_succeeded, reap_schedules, has_pid, has_ended, lmapd_cleanup,
}
use simet_lmapd.Runner.Cleanup.Frame.{reap_actions-All, flush_actions-All}
use simet_lmapd.Runner.Suppression.Counting.{ActionCounts, ScheduleCounts}
use simet_lmapd.Runner.System.Suppressions.Executing.{action_exec-Counts, recounted}

-- waitpid() reports positive process ids.
abbrev pub IsPid : ℕ × Status → Type 0
IsPid x = x.0 ≢ 0

module _ (fnmatch : Str → Str → Bool) (m : List Tag → ℕ) where
  finish_action-Counts :
      (lmap : Lmap) (now : ℤ) (status : Status) (s : Schedule) (a : Action) (io : Io)
      → a.pid ≢ 0
      → ActionCounts fnmatch m a
      → ActionCounts fnmatch m (finish_action lmap now status s a io).0
  unfolding finish_action complete_action
  finish_action-Counts lmap now status s a io h c = ground arith

  -- The state that a schedule settles in fits its counter.
  settled-Counts :
      (s : Schedule) (still : Bool) (as_ : List Action)
      → ScheduleCounts fnmatch m s
      → (is_disabled s.state ≡ false → All (ActionCounts fnmatch m) as_)
      → ScheduleCounts fnmatch m (record s { state = settled s still; actions = as_ })
  unfolding settled
  settled-Counts s still as_ c d = record {
    counted = ground (arith, c.counted);
    enabled_free = ground (arith, c.counted, c.enabled_free);
    suppressed_held = ground (arith, c.counted, c.suppressed_held);
    actions = λ on. d (ground arith);
  }

  settle_schedule-Counts :
      (lmap : Lmap) (s : Schedule) (as_ : List Action) (io : Io)
      → ScheduleCounts fnmatch m s
      → (is_disabled s.state ≡ false → All (ActionCounts fnmatch m) as_)
      → ScheduleCounts fnmatch m (settle_schedule lmap s as_ io).0
  unfolding settle_schedule
  settle_schedule-Counts lmap s as_ io c d = elim (Bool-cases (any_running as_)) [
    | inl still ↦ rw (still, settle_schedule) (settled-Counts s true as_ c d)
    | inr over ↦
        rw (over, settle_schedule)
          (elim (Bool-cases (any_succeeded as_)) [
            | inl ok ↦ rw ok (settled-Counts s false _ c (λ on. flushed (d on)))
            | inr bad ↦ rw bad (
                recounted fnmatch m
                  (record s { state = settled s false; actions = (flush_actions lmap s as_ io).0 })
                  _ refl refl refl refl (settled-Counts s false _ c (λ on. flushed (d on))))
          ])
  ]
    where
      flushed :
          All (ActionCounts fnmatch m) as_
          → All (ActionCounts fnmatch m) (flush_actions lmap s as_ io).0
      flushed = flush_actions-All lmap s (ActionCounts fnmatch m) (λ a h. h) as_ io

  reap_schedules-Counts :
      (lmap : Lmap) (now : ℤ) (pid : ℕ) (status : Status) (ss : List Schedule) (io : Io)
      → pid ≢ 0
      → All (ScheduleCounts fnmatch m) ss
      → All (ScheduleCounts fnmatch m) (reap_schedules lmap now pid status ss io).0
  unfolding reap_schedules
  reap_schedules-Counts lmap now pid status [] io h c = tt
  reap_schedules-Counts lmap now pid status (s ∷ ss) io h c =
      elim (Bool-cases (has_pid pid s.actions)) [
        | inr miss ↦
            rw (miss, reap_schedules) (c.0, reap_schedules-Counts lmap now pid status ss io h c.1)
        | inl hit ↦
            rw (hit, reap_schedules)
              (
                settle_schedule-Counts lmap s _ _ c.0 (λ on.
                    reap_actions-All lmap now s (ActionCounts fnmatch m)
                      (action_exec-Counts fnmatch m lmap now s) pid status
                      (λ a io1 e.
                        finish_action-Counts lmap now status s a io1 (λ z. h (ground arith)))
                      s.actions io (c.0.actions on)),
                c.1,
              )
      ]

  pub lmapd_cleanup-Counts :
      (now : ℤ) (ended : List (ℕ × Status)) (lmap : Lmap) (io : Io)
      → All IsPid ended
      → All (ScheduleCounts fnmatch m) lmap.schedules
      → All (ScheduleCounts fnmatch m) (lmapd_cleanup now ended lmap io).0.schedules
  unfolding lmapd_cleanup
  lmapd_cleanup-Counts now [] lmap io h c = c
  lmapd_cleanup-Counts now ((pid, status) ∷ rest) lmap io h c =
      elim (Bool-cases (has_ended status)) [
        | inr on ↦ rw (on, lmapd_cleanup) (lmapd_cleanup-Counts now rest lmap io h.1 c)
        | inl over ↦
            rw (over, lmapd_cleanup)
              (lmapd_cleanup-Counts now rest _ _ h.1
                (reap_schedules-Counts lmap now pid status lmap.schedules io h.0 c))
      ]
