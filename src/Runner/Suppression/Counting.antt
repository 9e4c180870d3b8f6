-- ===== src/Runner/Suppression/Counting.antt =====
-- The counter of active suppressions, of a schedule or an action, across the start and the end of one
-- suppression.
use simet_lmapd.Base.{
  ℕ, ◌+◌, ◌≤◌, ◌<◌, ◌^◌, ◌≡◌, ◌≢◌, inl, inr, Bool, true, false, ◌&&◌, List, [], ◌∷◌, arith, All,
  length, Bool-cases,
}
use simet_lmapd.Text.{Str}
use simet_lmapd.Model.{Tag, Action, Schedule, Supp, enabled, suppressed, is_disabled}
use simet_lmapd.Runner.{Io, big_tag_match}
use simet_lmapd.Runner.Suppression.{
  supp_active, start_schedule, start_action, start_actions, start_schedules, start_one, end_one,
  end_schedule, end_action, end_actions, end_schedules,
}

abbrev pub to_nat : Bool → ℕ
to_nat false = 0
to_nat true = 1

-- A count that a uint32_t holds.
abbrev pub Small : (List Tag → ℕ) → Type 0
Small m = (tags : List Tag) → m tags < 2 ^ 32

module _ (fnmatch : Str → Str → Bool) where
  -- 1 if the suppression is active and has a tag that matches.
  abbrev pub holds : Supp → List Tag → ℕ
  holds supp tags = to_nat (supp_active supp.state && big_tag_match fnmatch supp.match tags)

  abbrev pub active_count : List Supp → List Tag → ℕ
  active_count [] tags = 0
  active_count (p ∷ ps) tags = holds p tags + active_count ps tags

  pub active_count-le : (ps : List Supp) (tags : List Tag) → active_count ps tags ≤ length ps
  active_count-le [] tags = omega arith
  active_count-le (p ∷ ps) tags = ground (arith, active_count-le ps tags)

  -- An action that is not disabled counts the active suppressions that match it; one that is has no
  -- process.
  abbrev pub ActionCounts : (List Tag → ℕ) → Action → Type 0
  ActionCounts m a =
      (is_disabled a.state ≡ false → a.cnt_active_suppressions ≡ m a.suppression_tags)
      × (is_disabled a.state ≡ true → a.pid ≡ 0)

  -- A schedule that is not disabled counts them too; it is enabled only if none is active, and
  -- suppressed only if one is.
  pub record ScheduleCounts (m : List Tag → ℕ) (s : Schedule) : Type 0 where
    pub counted : is_disabled s.state ≡ false → s.cnt_active_suppressions ≡ m s.suppression_tags
    pub enabled_free : s.state ≡ enabled → m s.suppression_tags ≡ 0
    pub suppressed_held : s.state ≡ suppressed → m s.suppression_tags ≢ 0
    pub actions : is_disabled s.state ≡ false → All (ActionCounts m) s.actions

  module _ (m : List Tag → ℕ) (supp : Supp) where
    -- The count with the suppression added.
    abbrev pub plus : List Tag → ℕ
    plus tags = m tags + to_nat (big_tag_match fnmatch supp.match tags)

    start_action-Counts :
        (stop : Bool) (a : Action)
        → Small plus
        → ActionCounts m a
        → ActionCounts plus (start_action fnmatch supp stop a)
    unfolding start_action
    start_action-Counts stop a b c = ground (arith, b a.suppression_tags)

    start_actions-Counts :
        (stop : Bool) (as_ : List Action) (io : Io)
        → Small plus
        → All (ActionCounts m) as_
        → All (ActionCounts plus) (start_actions fnmatch supp stop as_ io).0
    unfolding start_actions
    start_actions-Counts stop [] io b c = tt
    start_actions-Counts stop (a ∷ as_) io b c =
        (start_action-Counts stop a b c.0, start_actions-Counts stop as_ _ b c.1)

    end_action-Counts :
        (a : Action) → ActionCounts plus a → ActionCounts m (end_action fnmatch supp a)
    unfolding end_action
    end_action-Counts a c = ground arith

    end_actions-Counts :
        (as_ : List Action)
        → All (ActionCounts plus) as_
        → All (ActionCounts m) (end_actions fnmatch supp as_)
    unfolding end_actions
    end_actions-Counts [] c = tt
    end_actions-Counts (a ∷ as_) c = (end_action-Counts a c.0, end_actions-Counts as_ c.1)

    start_schedule-actions : (s : Schedule) → (start_schedule fnmatch supp s).actions ≡ s.actions
    unfolding start_schedule
    start_schedule-actions s = ground arith

    end_schedule-actions : (s : Schedule) → (end_schedule fnmatch supp s).actions ≡ s.actions
    unfolding end_schedule
    end_schedule-actions s = ground arith

    start_schedule-Counts :
        (s : Schedule) (as_ : List Action)
        → is_disabled s.state ≡ false
        → Small plus
        → ScheduleCounts m s
        → All (ActionCounts plus) as_
        → ScheduleCounts plus (record (start_schedule fnmatch supp s) { actions = as_ })
    unfolding start_schedule
    start_schedule-Counts s as_ on b c d = record {
      counted = ground (arith, b s.suppression_tags, c.counted on);
      enabled_free = ground (arith, b s.suppression_tags, c.counted on, c.enabled_free);
      suppressed_held = ground (arith, b s.suppression_tags, c.counted on, c.suppressed_held);
      actions = λ _. d;
    }

    start_one-Counts :
        (s : Schedule) (io : Io)
        → Small plus
        → ScheduleCounts m s
        → ScheduleCounts plus (start_one fnmatch supp s io).0
    unfolding start_one
    start_one-Counts s io b c = elim (Bool-cases (is_disabled s.state)) [
      | inl off ↦
          rw (off, start_one)
            (record {
              counted = ground arith;
              enabled_free = ground arith;
              suppressed_held = ground arith;
              actions = ground arith;
            })
      | inr on ↦
          rw (on, start_one)
            (start_schedule-Counts s _ on b c
              (start_actions-Counts _ _ io b (rw (start_schedule-actions s) (c.actions on))))
    ]

    pub start_schedules-Counts :
        (ss : List Schedule) (io : Io)
        → Small plus
        → All (ScheduleCounts m) ss
        → All (ScheduleCounts plus) (start_schedules fnmatch supp ss io).0
    unfolding start_schedules
    start_schedules-Counts [] io b c = tt
    start_schedules-Counts (s ∷ ss) io b c =
        (start_one-Counts s io b c.0, start_schedules-Counts ss _ b c.1)

    end_schedule-Counts :
        (s : Schedule) (as_ : List Action)
        → is_disabled s.state ≡ false
        → ScheduleCounts plus s
        → All (ActionCounts m) as_
        → ScheduleCounts m (record (end_schedule fnmatch supp s) { actions = as_ })
    unfolding end_schedule
    end_schedule-Counts s as_ on c d = record {
      counted = ground (arith, c.counted on);
      enabled_free = ground (arith, c.counted on, c.enabled_free);
      suppressed_held = ground (arith, c.counted on, c.suppressed_held);
      actions = λ _. d;
    }

    end_one-Counts :
        (s : Schedule) → ScheduleCounts plus s → ScheduleCounts m (end_one fnmatch supp s)
    unfolding end_one
    end_one-Counts s c = elim (Bool-cases (is_disabled s.state)) [
      | inl off ↦
          rw (off, end_one)
            (record {
              counted = ground arith;
              enabled_free = ground arith;
              suppressed_held = ground arith;
              actions = ground arith;
            })
      | inr on ↦
          rw (on, end_one)
            (end_schedule-Counts s _ on c
              (end_actions-Counts _ (rw (end_schedule-actions s) (c.actions on))))
    ]

    pub end_schedules-Counts :
        (ss : List Schedule)
        → All (ScheduleCounts plus) ss
        → All (ScheduleCounts m) (end_schedules fnmatch supp ss)
    unfolding end_schedules
    end_schedules-Counts [] c = tt
    end_schedules-Counts (s ∷ ss) c = (end_one-Counts s c.0, end_schedules-Counts ss c.1)
