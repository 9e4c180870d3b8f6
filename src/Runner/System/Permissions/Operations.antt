-- ===== src/Runner/System/Permissions/Operations.antt =====
-- The effects of a single operation of the daemon are permitted.
use simet_lmapd.Base.{
  ℕ, ◌≤◌, ◌≡◌, inl, inr, Bool, true, false, not, ◌&&◌, ◌||◌, List, [], ◌∷◌, Option, ◌==◌, All,
  length, if◌then◌else◌, Bool-cases, Option-cases,
}
use simet_lmapd.Base.Int.{ℤ}
use simet_lmapd.Text.{Str}
use simet_lmapd.Model.{
  Tag, Action, Schedule, Lmap, ExecMode, sequential, parallel, pipelined, is_running, is_suppressed,
}
use simet_lmapd.Data.Validity.{given}
use simet_lmapd.Data.Containers.{lmap_find_schedule}
use simet_lmapd.Runner.{Effect, spawn, Io, emit, head_or}
use simet_lmapd.Runner.Exec.{
  capable, action_exec, exec_mode, schedule_exec, clean_actions, action_kill, kill_actions,
  schedule_kill,
}
use simet_lmapd.Runner.Exec.Launch.{action_exec-Outcome, Outcome}
use simet_lmapd.Runner.Exec.Frame.{exec_all-Io, exec_first-Io}
use simet_lmapd.Runner.Cleanup.{
  Status, finish_action, complete_action, is_zero, move_results, exec_next, is_sequential,
  reap_actions, flush_actions, settle_schedule, any_running, any_succeeded,
}

-- A process runs a program of the capabilities, with arguments that fit the array.
abbrev pub Permitted : Lmap → Effect → Type 0
Permitted lmap (spawn s a program argv) = (capable lmap program ≡ true) × (length argv ≤ 254)
Permitted lmap _ = Unit

abbrev pub AllPermitted : Lmap → Io → Type 0
AllPermitted lmap io = All (Permitted lmap) io.trace

pub action_kill-AllPermitted :
    (l : Lmap) (a : Action) (io : Io) → AllPermitted l io → AllPermitted l (action_kill a io)
unfolding action_kill
action_kill-AllPermitted l a io h =
    elim (Bool-cases (not (given a.name) || not (is_running a.state) || a.pid == 0)) [
      | inl skip ↦ rw (skip, action_kill) h
      | inr go ↦
          rw (go, action_kill)
            (elim (Bool-cases (head_or io.kills false)) [
              | inl ok ↦ rw ok (tt, h)
              | inr bad ↦ rw bad (tt, (tt, h))
            ])
    ]

kill_actions-AllPermitted :
    (l : Lmap) (as_ : List Action) (io : Io)
    → AllPermitted l io
    → AllPermitted l (kill_actions as_ io)
unfolding kill_actions
kill_actions-AllPermitted l [] io h = h
kill_actions-AllPermitted l (a ∷ as_) io h =
    kill_actions-AllPermitted l as_ _ (action_kill-AllPermitted l a io h)

pub schedule_kill-AllPermitted :
    (l : Lmap) (s : Schedule) (io : Io) → AllPermitted l io → AllPermitted l (schedule_kill s io)
unfolding schedule_kill
schedule_kill-AllPermitted l s io h = elim (Bool-cases (not (given s.name))) [
  | inl bad ↦ rw (bad, schedule_kill) h
  | inr ok ↦ rw (ok, schedule_kill) (kill_actions-AllPermitted l s.actions io h)
]

pub action_exec-AllPermitted :
    (l : Lmap) (now : ℤ) (s : Schedule) (a : Action) (io : Io)
    → AllPermitted l io
    → AllPermitted l (action_exec l now s a io).2
action_exec-AllPermitted l now s a io h = outcome (action_exec-Outcome l now s a io)
  where
    outcome : {r : Action × ℤ × Io} → Outcome l now s a io r → AllPermitted l r.2
    outcome (inl (e, x)) = rw x.traced ((x.permitted, x.fits), h)
    outcome (inr (e, x)) = rw x.silent h

clean_actions-AllPermitted :
    (l : Lmap) (as_ : List Action) (io : Io)
    → AllPermitted l io
    → AllPermitted l (clean_actions as_ io)
unfolding clean_actions
clean_actions-AllPermitted l [] io h = h
clean_actions-AllPermitted l (a ∷ as_) io h = clean_actions-AllPermitted l as_ _ (tt, h)

exec_mode-AllPermitted :
    (l : Lmap) (now : ℤ) (s : Schedule) (mode : ExecMode) (io : Io)
    → AllPermitted l io
    → AllPermitted l (exec_mode l now s mode io).1
unfolding exec_mode
exec_mode-AllPermitted l now s sequential io h =
    exec_first-Io l now s (AllPermitted l) (action_exec-AllPermitted l now s) s.actions io h
exec_mode-AllPermitted l now s parallel io h =
    exec_all-Io l now s (AllPermitted l) (action_exec-AllPermitted l now s) s.actions io h
exec_mode-AllPermitted l now s pipelined io h = h

pub schedule_exec-AllPermitted :
    (l : Lmap) (now : ℤ) (s : Schedule) (io : Io)
    → AllPermitted l io
    → AllPermitted l (schedule_exec l now s io).1
unfolding schedule_exec
schedule_exec-AllPermitted l now s io h = elim (Bool-cases (not (given s.name))) [
  | inl bad ↦ rw (bad, schedule_exec) h
  | inr ok ↦
      rw (ok, schedule_exec)
        (exec_mode-AllPermitted l now s s.mode _ (clean_actions-AllPermitted l s.actions io h))
]

pub move_results-AllPermitted :
    (l m : Lmap) (schedule action : Option Str) (first : Bool) (ts : List Tag) (io : Io)
    → AllPermitted l io
    → AllPermitted l (move_results m schedule action first ts io).1
unfolding move_results
move_results-AllPermitted l m schedule action first [] io h = h
move_results-AllPermitted l m schedule action first (t ∷ ts) io h = elim (Option-cases t.tag) [
  | inl e ↦ rw (e, move_results) (move_results-AllPermitted l m schedule action first ts io h)
  | inr (n, e) ↦
      rw (e, move_results)
        (elim (Option-cases (lmap_find_schedule m n)) [
          | inl f ↦ rw f (move_results-AllPermitted l m schedule action first ts io h)
          | inr (dst, f) ↦ rw f (move_results-AllPermitted l m schedule action first ts _ (tt, h))
        ])
]

finish_action-AllPermitted :
    (l m : Lmap) (now : ℤ) (status : Status) (s : Schedule) (a : Action) (io : Io)
    → AllPermitted l io
    → AllPermitted l (finish_action m now status s a io).1
unfolding finish_action
finish_action-AllPermitted l m now status s a io h =
    elim (Bool-cases (is_zero (complete_action now status a).last_status)) [
      | inl ok ↦
          rw (ok, finish_action)
            (cleaned _ _ _
              (move_results-AllPermitted l m s.name a.name true a.destinations _ (tt, h)))
      | inr bad ↦
          rw (bad, finish_action)
            (cleaned _ _ (emit (Effect.action_meta_end s.name a.name) io) (tt, h))
    ]
  where
    cleaned :
        (b : Bool) (n : Option Str) (io1 : Io)
        → AllPermitted l io1
        → AllPermitted l (if b then io1 else emit (Effect.action_clean n) io1)
    cleaned true n io1 k = k
    cleaned false n io1 k = (tt, k)

exec_next-AllPermitted :
    (l : Lmap) (now : ℤ) (s : Schedule) (as_ : List Action) (io : Io)
    → AllPermitted l io
    → AllPermitted l (exec_next l now s as_ io).1
unfolding exec_next
exec_next-AllPermitted l now s [] io h = h
exec_next-AllPermitted l now s (a ∷ as_) io h =
    elim (Bool-cases (is_sequential s.mode && not (is_suppressed s.state) && not s.stop_running)) [
      | inl go ↦ rw (go, exec_next) (action_exec-AllPermitted l now s a io h)
      | inr stay ↦ rw (stay, exec_next) h
    ]

pub reap_actions-AllPermitted :
    (l : Lmap) (now : ℤ) (pid : ℕ) (status : Status) (s : Schedule) (as_ : List Action) (io : Io)
    → AllPermitted l io
    → AllPermitted l (reap_actions l now pid status s as_ io).1
unfolding reap_actions
reap_actions-AllPermitted l now pid status s [] io h = h
reap_actions-AllPermitted l now pid status s (a ∷ as_) io h = elim (Bool-cases (a.pid == pid)) [
  | inl hit ↦
      rw (hit, reap_actions)
        (exec_next-AllPermitted l now s as_ _ (finish_action-AllPermitted l l now status s a io h))
  | inr miss ↦ rw (miss, reap_actions) (reap_actions-AllPermitted l now pid status s as_ io h)
]

flush_actions-AllPermitted :
    (l m : Lmap) (s : Schedule) (as_ : List Action) (io : Io)
    → AllPermitted l io
    → AllPermitted l (flush_actions m s as_ io).1
unfolding flush_actions
flush_actions-AllPermitted l m s [] io h = h
flush_actions-AllPermitted l m s (a ∷ as_) io h = elim (Bool-cases a.move_deferred) [
  | inl e ↦
      rw (e, flush_actions)
        (flush_actions-AllPermitted l m s as_ _
          (tt, move_results-AllPermitted l m s.name a.name false a.destinations io h))
  | inr e ↦ rw (e, flush_actions) (flush_actions-AllPermitted l m s as_ _ (tt, h))
]

pub settle_schedule-AllPermitted :
    (l m : Lmap) (s : Schedule) (as_ : List Action) (io : Io)
    → AllPermitted l io
    → AllPermitted l (settle_schedule m s as_ io).1
unfolding settle_schedule
settle_schedule-AllPermitted l m s as_ io h = elim (Bool-cases (any_running as_)) [
  | inl still ↦ rw (still, settle_schedule) h
  | inr over ↦
      rw (over, settle_schedule)
        (elim (Bool-cases (any_succeeded as_)) [
          | inl ok ↦ rw ok (tt, flush_actions-AllPermitted l m s as_ io h)
          | inr bad ↦ rw bad (flush_actions-AllPermitted l m s as_ io h)
        ])
]
