-- ===== src/Runner/System/Suppressions/Executing.antt =====
-- The counters of active suppressions where schedules and actions are executed.
use simet_lmapd.Base.{
  ℕ, ◌≡◌, refl, inl, inr, Bool, false, not, List, [], ◌∷◌, arith, All, Bool-cases,
}
use simet_lmapd.Base.Int.{ℤ}
use simet_lmapd.Text.{Str}
use simet_lmapd.Model.{
  Tag, Action, Schedule, Event, Lmap, ExecMode, sequential, parallel, pipelined, disabled,
  is_disabled, is_running, is_suppressed,
}
use simet_lmapd.Data.Validity.{given}
use simet_lmapd.Runner.{Io}
use simet_lmapd.Runner.Exec.{action_exec, exec_mode, schedule_exec, invoked}
use simet_lmapd.Runner.Exec.Launch.{action_exec-Outcome, Outcome}
use simet_lmapd.Runner.Exec.Frame.{exec_all-All, exec_first-All}
use simet_lmapd.Runner.Suppression.{names}
use simet_lmapd.Runner.Suppression.Counting.{ActionCounts, ScheduleCounts}
use simet_lmapd.Runner.Callbacks.{
  cycle_number_of, happens_once, start_now, execute_start, execute_one, execute_cb,
}

module _ (fnmatch : Str → Str → Bool) (m : List Tag → ℕ) where
  pub action_exec-Counts :
      (lmap : Lmap) (now : ℤ) (s : Schedule) (a : Action) (io : Io)
      → ActionCounts fnmatch m a
      → ActionCounts fnmatch m (action_exec lmap now s a io).0
  action_exec-Counts lmap now s a io c = outcome (action_exec-Outcome lmap now s a io)
    where
      outcome : {r : Action × ℤ × Io} → Outcome lmap now s a io r → ActionCounts fnmatch m r.0
      outcome (inl (e, l)) = rw l.started (ground (arith, l.not_disabled))
      outcome (inr (e, k)) = rw k.kept c

  -- The counts depend on four fields.
  pub recounted :
      (s t : Schedule)
      → t.state ≡ s.state
      → t.cnt_active_suppressions ≡ s.cnt_active_suppressions
      → t.suppression_tags ≡ s.suppression_tags
      → t.actions ≡ s.actions
      → ScheduleCounts fnmatch m s
      → ScheduleCounts fnmatch m t
  recounted s t p q r u c = record {
    counted = rw (p, q, r) c.counted;
    enabled_free = rw (p, r) c.enabled_free;
    suppressed_held = rw (p, r) c.suppressed_held;
    actions = rw (p, u) c.actions;
  }

  invoked-Counts :
      (now : ℤ) (s : Schedule) (as_ : List Action) (started : Bool)
      → is_disabled s.state ≡ false
      → ScheduleCounts fnmatch m s
      → All (ActionCounts fnmatch m) as_
      → ScheduleCounts fnmatch m (invoked now s as_ started)
  invoked-Counts now s as_ started on c d = record {
    counted = λ _. c.counted on;
    enabled_free = ground (arith, c.enabled_free);
    suppressed_held = ground (arith, c.suppressed_held);
    actions = λ _. d;
  }

  -- A disabled schedule is not counted.
  disabled-Counts : (s : Schedule) → s.state ≡ disabled → ScheduleCounts fnmatch m s
  disabled-Counts s e = record {
    counted = ground arith;
    enabled_free = ground arith;
    suppressed_held = ground arith;
    actions = ground arith;
  }

  exec_mode-Counts :
      (lmap : Lmap) (now : ℤ) (s : Schedule) (mode : ExecMode) (io : Io)
      → is_disabled s.state ≡ false
      → ScheduleCounts fnmatch m s
      → ScheduleCounts fnmatch m (exec_mode lmap now s mode io).0
  unfolding exec_mode
  exec_mode-Counts lmap now s sequential io on c = invoked-Counts now s _ _ on c (
      exec_first-All lmap now s (ActionCounts fnmatch m) (action_exec-Counts lmap now s) s.actions
        io (c.actions on))
  exec_mode-Counts lmap now s parallel io on c = invoked-Counts now s _ _ on c (
      exec_all-All lmap now s (ActionCounts fnmatch m) (action_exec-Counts lmap now s) s.actions io
        (c.actions on))
  exec_mode-Counts lmap now s pipelined io on c = disabled-Counts _ refl

  schedule_exec-Counts :
      (lmap : Lmap) (now : ℤ) (s : Schedule) (io : Io)
      → is_disabled s.state ≡ false
      → ScheduleCounts fnmatch m s
      → ScheduleCounts fnmatch m (schedule_exec lmap now s io).0
  unfolding schedule_exec
  schedule_exec-Counts lmap now s io on c = elim (Bool-cases (not (given s.name))) [
    | inl bad ↦ rw (bad, schedule_exec) c
    | inr ok ↦ rw (ok, schedule_exec) (exec_mode-Counts lmap now s s.mode _ on c)
  ]

  -- Fields that the counts do not speak of.
  start_now-Counts :
      (lmap : Lmap) (now : ℤ) (event : Event) (s : Schedule) (io : Io)
      → is_disabled s.state ≡ false
      → ScheduleCounts fnmatch m s
      → ScheduleCounts fnmatch m (start_now lmap now event s io).0
  unfolding start_now
  start_now-Counts lmap now event s io on c = elim (Bool-cases (is_suppressed s.state)) [
    | inl held ↦ rw (held, start_now) (recounted s _ refl refl refl refl c)
    | inr free ↦
        rw (free, start_now)
          (elim (Bool-cases (is_running s.state)) [
            | inl busy ↦ rw busy (recounted s _ refl refl refl refl c)
            | inr idle ↦ rw idle (elim (Bool-cases (happens_once event.type)) [
              | inl once ↦ rw once (disabled-Counts _ refl)
              | inr again ↦ rw again (
                  schedule_exec-Counts lmap now
                    (record s { cycle_number = cycle_number_of event now }) _ on
                    (recounted s _ refl refl refl refl c))
            ])
          ])
  ]

  execute_one-Counts :
      (lmap : Lmap) (now : ℤ) (event : Event) (ename : Str) (s : Schedule) (io : Io)
      → ScheduleCounts fnmatch m s
      → ScheduleCounts fnmatch m (execute_one lmap now event ename s io).0
  unfolding execute_one execute_start
  execute_one-Counts lmap now event ename s io c = elim (Bool-cases (is_disabled s.state)) [
    | inl off ↦ rw (off, execute_start) c
    | inr on ↦
        rw (on, execute_start)
          (elim (Bool-cases (not (given s.name))) [
            | inl bad ↦ rw bad (disabled-Counts _ refl)
            | inr ok ↦ rw ok (elim (Bool-cases (names s.start ename)) [
              | inl go ↦ rw go (start_now-Counts lmap now event s io on c)
              | inr stay ↦ rw stay c
            ])
          ])
  ]

  pub execute_cb-Counts :
      (lmap : Lmap) (now : ℤ) (event : Event) (ename : Str) (ss : List Schedule) (io : Io)
      → All (ScheduleCounts fnmatch m) ss
      → All (ScheduleCounts fnmatch m) (execute_cb lmap now event ename ss io).0
  unfolding execute_cb
  execute_cb-Counts lmap now event ename [] io c = tt
  execute_cb-Counts lmap now event ename (s ∷ ss) io c = (
    execute_one-Counts lmap now event ename s io c.0,
    execute_cb-Counts lmap now event ename ss _ c.1,
  )
