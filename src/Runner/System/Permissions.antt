-- ===== src/Runner/System/Permissions.antt =====
-- Which programs the daemon ever runs.
use simet_lmapd.Base.{
  ℕ, ◌≤◌, ◌≡◌, refl, sym, ◌∙◌, ap, inl, inr, Bool, true, false, not, ◌&&◌, ◌||◌, List, [], ◌∷◌,
  Option, All, length, if◌then◌else◌, Bool-cases,
}
use simet_lmapd.Base.Int.{ℤ}
use simet_lmapd.Text.{Str}
use simet_lmapd.Model.{Schedule, Event, Lmap, Capability, is_disabled, is_running, is_suppressed}
use simet_lmapd.Data.Validity.{given}
use simet_lmapd.Runner.{
  Effect, spawn, kill_group, kill_process, action_clean, action_meta_end, action_move,
  schedule_move, schedule_clean, Io, emit,
}
use simet_lmapd.Runner.Exec.{capable, schedule_kill}
use simet_lmapd.Runner.Suppression.{names, suppress_cb}
use simet_lmapd.Runner.Cleanup.{Status, reap_schedules, lmapd_cleanup, has_pid, has_ended}
use simet_lmapd.Runner.Callbacks.{start_now, execute_start, execute_one, execute_cb, fire_cb}
use simet_lmapd.Runner.System.{Input, fires, children, step, run}
mod Operations
mod Suppressing
pub use Operations.{AllPermitted}
use Operations.{
  Permitted, schedule_kill-AllPermitted, schedule_exec-AllPermitted, reap_actions-AllPermitted,
  settle_schedule-AllPermitted,
}
use Suppressing.{suppress_cb-AllPermitted}

start_now-AllPermitted :
    (l : Lmap) (now : ℤ) (event : Event) (s : Schedule) (io : Io)
    → AllPermitted l io
    → AllPermitted l (start_now l now event s io).2
unfolding start_now
start_now-AllPermitted l now event s io h = elim (Bool-cases (is_suppressed s.state)) [
  | inl held ↦ rw (held, start_now) h
  | inr free ↦
      rw (free, start_now)
        (elim (Bool-cases (is_running s.state)) [
          | inl busy ↦ rw busy h
          | inr idle ↦ rw idle (schedule_exec-AllPermitted l now _ _ (tt, h))
        ])
]

execute_start-AllPermitted :
    (l : Lmap) (now : ℤ) (event : Event) (ename : Str) (s : Schedule) (io : Io)
    → AllPermitted l io
    → AllPermitted l (execute_start l now event ename s io).2
unfolding execute_start
execute_start-AllPermitted l now event ename s io h = elim (Bool-cases (is_disabled s.state)) [
  | inl off ↦ rw (off, execute_start) h
  | inr on ↦
      rw (on, execute_start)
        (elim (Bool-cases (not (given s.name))) [
          | inl bad ↦ rw bad h
          | inr ok ↦ rw ok (elim (Bool-cases (names s.start ename)) [
            | inl go ↦ rw go (start_now-AllPermitted l now event s io h)
            | inr stay ↦ rw stay h
          ])
        ])
]

execute_one-AllPermitted :
    (l : Lmap) (now : ℤ) (event : Event) (ename : Str) (s : Schedule) (io : Io)
    → AllPermitted l io
    → AllPermitted l (execute_one l now event ename s io).2
unfolding execute_one
execute_one-AllPermitted l now event ename s io h =
    ended (names (execute_start l now event ename s io).0.end ename)
  where
    ended :
        (b : Bool)
        → AllPermitted l (
            if b
            then schedule_kill
                (execute_start l now event ename s io).0
                (execute_start l now event ename s io).2
            else (execute_start l now event ename s io).2)
    ended true =
        schedule_kill-AllPermitted l _ _ (execute_start-AllPermitted l now event ename s io h)
    ended false = execute_start-AllPermitted l now event ename s io h

execute_cb-AllPermitted :
    (l : Lmap) (now : ℤ) (event : Event) (ename : Str) (ss : List Schedule) (io : Io)
    → AllPermitted l io
    → AllPermitted l (execute_cb l now event ename ss io).2
unfolding execute_cb
execute_cb-AllPermitted l now event ename [] io h = h
execute_cb-AllPermitted l now event ename (s ∷ ss) io h =
    execute_cb-AllPermitted l now event ename ss _
      (execute_one-AllPermitted l now event ename s io h)

reap_schedules-AllPermitted :
    (l : Lmap) (now : ℤ) (pid : ℕ) (status : Status) (ss : List Schedule) (io : Io)
    → AllPermitted l io
    → AllPermitted l (reap_schedules l now pid status ss io).1
unfolding reap_schedules
reap_schedules-AllPermitted l now pid status [] io h = h
reap_schedules-AllPermitted l now pid status (s ∷ ss) io h =
    elim (Bool-cases (has_pid pid s.actions)) [
      | inl hit ↦
          rw (hit, reap_schedules)
            (settle_schedule-AllPermitted l l s _ _
              (reap_actions-AllPermitted l now pid status s s.actions io h))
      | inr miss ↦ rw (miss, reap_schedules) (reap_schedules-AllPermitted l now pid status ss io h)
    ]

-- What is permitted depends on the capabilities alone, which never change.
abbrev Permits : Option Capability → Lmap × Io → Type 0
Permits c s = (s.0.capabilities ≡ c) × AllPermitted s.0 s.1

lmapd_cleanup-AllPermitted :
    (now : ℤ) (ended : List (ℕ × Status)) (c : Option Capability) (l : Lmap) (io : Io)
    → Permits c (l, io)
    → Permits c (lmapd_cleanup now ended l io)
unfolding lmapd_cleanup capable
lmapd_cleanup-AllPermitted now [] c l io h = h
lmapd_cleanup-AllPermitted now ((pid, status) ∷ rest) c l io h =
    elim (Bool-cases (has_ended status)) [
      | inl over ↦
          rw (over, lmapd_cleanup)
            (lmapd_cleanup-AllPermitted now rest c _ _
              (h.0, reap_schedules-AllPermitted l now pid status l.schedules io h.1))
      | inr on ↦ rw (on, lmapd_cleanup) (lmapd_cleanup-AllPermitted now rest c l io h)
    ]

module _ (fnmatch : Str → Str → Bool) where
  fire_cb-AllPermitted :
      (now : ℤ) (event : Event) (ename : Str) (l : Lmap) (io : Io)
      → AllPermitted l io
      → AllPermitted
          (fire_cb fnmatch now event ename l io).0
          (fire_cb fnmatch now event ename l io).2
  unfolding fire_cb capable
  fire_cb-AllPermitted now event ename l io h =
      execute_cb-AllPermitted _ now event ename _ _
        (suppress_cb-AllPermitted fnmatch l ename l.supps l.schedules io h)

  fire_cb-capabilities :
      (now : ℤ) (event : Event) (ename : Str) (l : Lmap) (io : Io)
      → (fire_cb fnmatch now event ename l io).0.capabilities ≡ l.capabilities
  unfolding fire_cb
  fire_cb-capabilities now event ename l io = refl

  step-AllPermitted :
      (c : Option Capability) (l : Lmap) (io : Io) (i : Input)
      → Permits c (l, io)
      → Permits c (step fnmatch (l, io) i)
  unfolding step
  step-AllPermitted c l io (fires now event ename) h = (
    fire_cb-capabilities now event ename l io ∙ h.0,
    fire_cb-AllPermitted now event ename l io h.1,
  )
  step-AllPermitted c l io (children now ended) h = lmapd_cleanup-AllPermitted now ended c l io h

  run-Permits :
      (c : Option Capability) (l : Lmap) (io : Io) (is : List Input)
      → Permits c (l, io)
      → Permits c (run fnmatch (l, io) is)
  unfolding run
  run-Permits c l io [] h = h
  run-Permits c l io (i ∷ is) h =
      let (l', io') = step fnmatch (l, io) i in
      run-Permits c l' io' is (step-AllPermitted c l io i h)

same-Permitted :
    (l m : Lmap) → l.capabilities ≡ m.capabilities → (e : Effect) → Permitted l e → Permitted m e
unfolding capable
same-Permitted l m same (spawn s a program argv) h = (rw (sym same) h.0, h.1)
same-Permitted l m same (kill_group pid) h = tt
same-Permitted l m same (kill_process pid) h = tt
same-Permitted l m same (action_clean a) h = tt
same-Permitted l m same (action_meta_end s a) h = tt
same-Permitted l m same (action_move s a d first) h = tt
same-Permitted l m same (schedule_move s) h = tt
same-Permitted l m same (schedule_clean s) h = tt

same-AllPermitted :
    (l m : Lmap)
    → l.capabilities ≡ m.capabilities
    → (es : List Effect) → All (Permitted l) es
    → All (Permitted m) es
same-AllPermitted l m same [] h = tt
same-AllPermitted l m same (e ∷ es) h =
    (same-Permitted l m same e h.0, same-AllPermitted l m same es h.1)

module _ (fnmatch : Str → Str → Bool) where
  -- Whatever events fire and whichever children end, and however fork, kill and the workspace answer:
  -- if every process started so far runs a program that the tasks of the capabilities list, with at
  -- most 254 arguments, then so does every process started by the end of the run.
  pub run-AllPermitted :
      (l : Lmap) (io : Io) (is : List Input)
      → AllPermitted l io
      → AllPermitted l (run fnmatch (l, io) is).1
  run-AllPermitted l io is h =
      let r = run-Permits fnmatch l.capabilities l io is (refl, h) in
      same-AllPermitted _ l r.0 _ r.1
