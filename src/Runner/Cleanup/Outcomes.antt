-- ===== src/Runner/Cleanup/Outcomes.antt =====
-- What `lmapd_cleanup` makes of failures and of suppressions.
use mathlib.Core.List.{map-append}
use simet_lmapd.Base.{
  ℕ, ◌≡◌, refl, ◌≢◌, true, false, not, List, [], ◌∷◌, ◌++◌, all, arith, Bool-cases, inl, inr, ap,
  ◌∙◌, ◌==◌, map,
}
use simet_lmapd.Base.Int.{ℤ}
use simet_lmapd.Model.{Action, Schedule, Lmap, enabled, running, suppressed, is_running}
use simet_lmapd.Runner.{Effect, Io, schedule_clean}
use simet_lmapd.Runner.Cleanup.{
  Status, complete_action, finish_action, is_zero, any_running, any_succeeded, settled,
  settle_schedule, reap_actions, exec_next, flush_actions, is_sequential, has_pid, reap_schedules,
}

any_succeeded-append :
    (xs ys : List Action) (a : Action)
    → is_zero a.last_status ≡ true
    → any_succeeded (xs ++ a ∷ ys) ≡ true
unfolding any_succeeded
any_succeeded-append [] ys a h = rw h refl
any_succeeded-append (x ∷ xs) ys a h = ground (arith, any_succeeded-append xs ys a h)

-- When no action of a schedule runs any more, one action whose last status is 0 (wherever it stands,
-- and so also one that has never run) is enough for the run not to be counted as a failure and for
-- the queue of the schedule to be cleaned, whatever the other actions returned.
pub failure_masked :
    (lmap : Lmap) (s : Schedule) (xs ys : List Action) (a : Action) (io : Io)
    → is_zero a.last_status ≡ true
    → any_running (xs ++ a ∷ ys) ≡ false
    → let (s', io') = settle_schedule lmap s (xs ++ a ∷ ys) io in
      (s'.cnt_failures ≡ s.cnt_failures)
      × ((rest : List Effect) × (io'.trace ≡ schedule_clean s.name ∷ rest))
unfolding settle_schedule
failure_masked lmap s xs ys a io h over =
    rw (any_succeeded-append xs ys a h, over, settle_schedule) (refl, (_, refl))

-- Which of the actions ended, where the schedule goes on to no other.
reap_actions-at :
    (lmap : Lmap) (now : ℤ) (pid : ℕ) (status : Status) (s : Schedule) (xs ys : List Action)
    (a : Action) (io : Io)
    → is_sequential s.mode ≡ false
    → has_pid pid xs ≡ false
    → a.pid ≡ pid
    → reap_actions lmap now pid status s (xs ++ a ∷ ys) io
      ≡ (let (b, io1) = finish_action lmap now status s a io in (xs ++ b ∷ ys, io1))
unfolding reap_actions exec_next has_pid
reap_actions-at lmap now pid status s [] ys a io mode fresh same =
    rw (hit, stays ys, reap_actions) refl
  where
    hit : (a.pid == pid) ≡ true
    hit = ground arith

    stays :
        (zs : List Action)
        → exec_next lmap now s zs (finish_action lmap now status s a io).1
          ≡ (zs, (finish_action lmap now status s a io).1)
    stays [] = refl
    stays (z ∷ zs) = rw (mode, exec_next) refl
reap_actions-at lmap now pid status s (x ∷ xs) ys a io mode fresh same =
    rw (other, reap_actions-at lmap now pid status s xs ys a io mode unknown same, reap_actions)
      refl
  where
    other : (x.pid == pid) ≡ false
    other = ground arith

    unknown : has_pid pid xs ≡ false
    unknown = ground arith

has_pid-at :
    (pid : ℕ) (xs ys : List Action) (a : Action) → a.pid ≡ pid → has_pid pid (xs ++ a ∷ ys) ≡ true
unfolding has_pid
has_pid-at pid [] ys a h = ground arith
has_pid-at pid (x ∷ xs) ys a h = ground (arith, has_pid-at pid xs ys a h)

any_running-at :
    (xs ys : List Action) (a : Action)
    → any_running (xs ++ ys) ≡ false
    → is_running a.state ≡ false
    → any_running (xs ++ a ∷ ys) ≡ false
unfolding any_running
any_running-at [] ys a h k = ground arith
any_running-at (x ∷ xs) ys a h k = ground (arith, any_running-at xs ys a (ground arith) k)

-- No deferred move is left to do.
abbrev pub flushed : Action → Action
flushed a = record a { move_deferred = false }

flush_actions-flushed :
    (lmap : Lmap) (s : Schedule) (as_ : List Action) (io : Io)
    → (flush_actions lmap s as_ io).0 ≡ map flushed as_
unfolding flush_actions
flush_actions-flushed lmap s [] io = refl
flush_actions-flushed lmap s (a ∷ as_) io =
    ap (λ t. flushed a ∷ t) (flush_actions-flushed lmap s as_ _)

settle-suppressed :
    (lmap : Lmap) (s : Schedule) (as_ : List Action) (io : Io)
    → s.state ≡ running
    → s.cnt_active_suppressions ≢ 0
    → any_running as_ ≡ false
    → ((settle_schedule lmap s as_ io).0.state ≡ suppressed)
      × ((settle_schedule lmap s as_ io).0.actions ≡ map flushed as_)
unfolding settle_schedule settled
settle-suppressed lmap s as_ io on held over = (
  ground arith,
  elim (Bool-cases (any_succeeded as_)) [
    | inl good ↦ rw (over, good, settle_schedule) (flush_actions-flushed lmap s as_ io)
    | inr bad ↦ rw (over, bad, settle_schedule) (flush_actions-flushed lmap s as_ io)
  ],
)

-- When a child ends whose action is the first with its pid, in the first schedule with such an action, a
-- running one that is not sequential, nothing else of which runs and which a suppression holds: the
-- schedule is left suppressed, but that action is left enabled, without a process, and with its counter
-- of active suppressions unchanged, whatever that is; the other actions keep all but a deferred move.
pub suppression_lost :
    (lmap : Lmap) (now : ℤ) (pid : ℕ) (status : Status) (s : Schedule) (ss : List Schedule)
    (xs ys : List Action) (a : Action) (io : Io)
    → s.actions ≡ xs ++ a ∷ ys
    → a.pid ≡ pid
    → has_pid pid xs ≡ false
    → is_sequential s.mode ≡ false
    → s.state ≡ running
    → any_running (xs ++ ys) ≡ false
    → s.cnt_active_suppressions ≢ 0
    → (t : Schedule) × (b : Action) × ((reap_schedules lmap now pid status (s ∷ ss) io).0 ≡ t ∷ ss)
      × (t.state ≡ suppressed)
      × (t.actions ≡ map flushed xs ++ b ∷ map flushed ys)
      × (b.state ≡ enabled)
      × (b.pid ≡ 0)
      × (b.cnt_active_suppressions ≡ a.cnt_active_suppressions)
unfolding reap_schedules finish_action complete_action
suppression_lost lmap now pid status s ss xs ys a io parts same fresh mode on alone held = (
  t,
  flushed b,
  rw (hit, reaped, reap_schedules) refl,
  left.0,
  left.1 ∙ map-append flushed xs (b ∷ ys),
  fields.0,
  fields.1,
  fields.2,
)
  where
    hit : has_pid pid s.actions ≡ true
    hit = ap (has_pid pid) parts ∙ has_pid-at pid xs ys a same

    reaped :
        reap_actions lmap now pid status s s.actions io
        ≡ (let (b, io1) = finish_action lmap now status s a io in (xs ++ b ∷ ys, io1))
    reaped =
        ap (λ as_. reap_actions lmap now pid status s as_ io) parts
        ∙ reap_actions-at lmap now pid status s xs ys a io mode fresh same

    b : Action
    b = (finish_action lmap now status s a io).0

    t : Schedule
    t = (settle_schedule lmap s (xs ++ b ∷ ys) (finish_action lmap now status s a io).1).0

    fields :
        (b.state ≡ enabled) × (b.pid ≡ 0) × (b.cnt_active_suppressions ≡ a.cnt_active_suppressions)
    fields = ground arith

    left : (t.state ≡ suppressed) × (t.actions ≡ map flushed (xs ++ b ∷ ys))
    left =
        settle-suppressed lmap s (xs ++ b ∷ ys) _ on held
          (any_running-at xs ys b alone (ground (arith, fields.0)))

-- A process that no action has is ignored: no schedule changes, and no call is made.
pub unknown_pid_ignored :
    (lmap : Lmap) (now : ℤ) (pid : ℕ) (status : Status) (ss : List Schedule) (io : Io)
    → all (λ s. not (has_pid pid s.actions)) ss ≡ true
    → reap_schedules lmap now pid status ss io ≡ (ss, io)
unfolding reap_schedules
unknown_pid_ignored lmap now pid status [] io h = refl
unknown_pid_ignored lmap now pid status (s ∷ ss) io h = elim (Bool-cases (has_pid pid s.actions)) [
  | inl hit ↦ cc (rw hit at h)
  | inr miss ↦
      let later = unknown_pid_ignored lmap now pid status ss io (ground arith) in
      rw (miss, reap_schedules, later) refl
]
