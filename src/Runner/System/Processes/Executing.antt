-- ===== src/Runner/System/Processes/Executing.antt =====
-- A schedule that is executed runs only if a process was started.
use simet_lmapd.Base.{
  ◌≡◌, refl, inl, inr, Bool, true, false, not, ◌||◌, List, [], ◌∷◌, arith, ◌==◌, All, if◌then◌else◌,
  Bool-cases,
}
use simet_lmapd.Base.Int.{ℤ}
use simet_lmapd.Text.{Str}
use simet_lmapd.Model.{
  Action, Schedule, Event, Lmap, ExecMode, sequential, parallel, pipelined, RunState, is_disabled,
  is_running, is_suppressed,
}
use simet_lmapd.Data.Validity.{given}
use simet_lmapd.Runner.{Io}
use simet_lmapd.Runner.Exec.{
  action_exec, exec_all, exec_first, exec_mode, schedule_exec, invoked, is_one,
}
use simet_lmapd.Runner.Exec.Launch.{action_exec-Outcome, Outcome}
use simet_lmapd.Runner.Exec.Frame.{exec_all-All, exec_first-All}
use simet_lmapd.Runner.Suppression.{names}
use simet_lmapd.Runner.Callbacks.{happens_once, start_now, execute_start, execute_one, execute_cb}

-- A running action has a process.
abbrev pub HasProcess : Action → Type 0
HasProcess a = (not (is_running a.state) || not (a.pid == 0)) ≡ true

-- Some action has a process.
unfoldable pub any_process : List Action → Bool
any_process [] = false
any_process (a ∷ as_) = not (a.pid == 0) || any_process as_

pub record IsLive (s : Schedule) : Type 0 where
  pub actions : All HasProcess s.actions
  pub process : (not (is_running s.state) || any_process s.actions) ≡ true

pub action_exec-HasProcess :
    (l : Lmap) (now : ℤ) (s : Schedule) (a : Action) (io : Io)
    → HasProcess a
    → HasProcess (action_exec l now s a io).0
action_exec-HasProcess l now s a io h = outcome (action_exec-Outcome l now s a io)
  where
    outcome : {r : Action × ℤ × Io} → Outcome l now s a io r → HasProcess r.0
    outcome (inl (e, x)) = rw x.started (ground (arith, x.alive))
    outcome (inr (e, x)) = rw x.kept h

action_exec-started :
    (l : Lmap) (now : ℤ) (s : Schedule) (a : Action) (io : Io)
    → is_one (action_exec l now s a io).1 ≡ true
    → not ((action_exec l now s a io).0.pid == 0) ≡ true
action_exec-started l now s a io = outcome (action_exec-Outcome l now s a io)
  where
    outcome :
        {r : Action × ℤ × Io}
        → Outcome l now s a io r
        → is_one r.1 ≡ true
        → not (r.0.pid == 0) ≡ true
    outcome (inl (e, x)) h = rw x.started (ground (arith, x.alive))
    outcome (inr (e, x)) h = ground (arith, e)

exec_all-started :
    (l : Lmap) (now : ℤ) (s : Schedule) (as_ : List Action) (io : Io)
    → (exec_all l now s as_ io).1 ≡ true
    → any_process (exec_all l now s as_ io).0 ≡ true
unfolding exec_all any_process
exec_all-started l now s [] io h = cc
exec_all-started l now s (a ∷ as_) io h =
    let (a', rc, io1) = action_exec l now s a io in
    ground (arith, action_exec-started l now s a io, exec_all-started l now s as_ io1)

exec_first-started :
    (l : Lmap) (now : ℤ) (s : Schedule) (as_ : List Action) (io : Io)
    → (exec_first l now s as_ io).1 ≡ true
    → any_process (exec_first l now s as_ io).0 ≡ true
unfolding exec_first any_process
exec_first-started l now s [] io h = cc
exec_first-started l now s (a ∷ as_) io h = ground (arith, action_exec-started l now s a io)

invoked-IsLive :
    (now : ℤ) (s : Schedule) (as_ : List Action) (started : Bool)
    → is_running s.state ≡ false
    → All HasProcess as_
    → (started ≡ true → any_process as_ ≡ true)
    → IsLive (invoked now s as_ started)
invoked-IsLive now s as_ true idle h p = record { actions = h; process = p refl }
invoked-IsLive now s as_ false idle h p = record { actions = h; process = ground arith }

exec_mode-IsLive :
    (l : Lmap) (now : ℤ) (s : Schedule) (mode : ExecMode) (io : Io)
    → is_running s.state ≡ false
    → IsLive s
    → IsLive (exec_mode l now s mode io).0
unfolding exec_mode
exec_mode-IsLive l now s sequential io idle h =
    invoked-IsLive now s _ _ idle
      (exec_first-All l now s HasProcess (action_exec-HasProcess l now s) s.actions io h.actions)
      (exec_first-started l now s s.actions io)
exec_mode-IsLive l now s parallel io idle h =
    invoked-IsLive now s _ _ idle
      (exec_all-All l now s HasProcess (action_exec-HasProcess l now s) s.actions io h.actions)
      (exec_all-started l now s s.actions io)
exec_mode-IsLive l now s pipelined io idle h = record { actions = h.actions; process = refl }

schedule_exec-IsLive :
    (l : Lmap) (now : ℤ) (s : Schedule) (io : Io)
    → is_running s.state ≡ false
    → IsLive s
    → IsLive (schedule_exec l now s io).0
unfolding schedule_exec
schedule_exec-IsLive l now s io idle h = elim (Bool-cases (not (given s.name))) [
  | inl bad ↦ rw (bad, schedule_exec) h
  | inr ok ↦ rw (ok, schedule_exec) (exec_mode-IsLive l now s s.mode _ idle h)
]

-- The state is set to one that is not running.
stopped-IsLive :
    (s : Schedule) (b : Bool)
    → IsLive s
    → IsLive (record s { state = if b then RunState.disabled else s.state })
stopped-IsLive s true h = record { actions = h.actions; process = refl }
stopped-IsLive s false h = record { actions = h.actions; process = h.process }

start_now-IsLive :
    (l : Lmap) (now : ℤ) (event : Event) (s : Schedule) (io : Io)
    → IsLive s
    → IsLive (start_now l now event s io).0
unfolding start_now
start_now-IsLive l now event s io h = elim (Bool-cases (is_suppressed s.state)) [
  | inl held ↦ rw (held, start_now) (record { actions = h.actions; process = h.process })
  | inr free ↦
      rw (free, start_now)
        (elim (Bool-cases (is_running s.state)) [
          | inl busy ↦ rw busy (record { actions = h.actions; process = h.process })
          | inr idle ↦ rw idle (
              stopped-IsLive _ (happens_once event.type) (
                schedule_exec-IsLive l now _ _ idle
                  (record { actions = h.actions; process = h.process })))
        ])
]

execute_one-IsLive :
    (l : Lmap) (now : ℤ) (event : Event) (ename : Str) (s : Schedule) (io : Io)
    → IsLive s
    → IsLive (execute_one l now event ename s io).0
unfolding execute_one execute_start
execute_one-IsLive l now event ename s io h = elim (Bool-cases (is_disabled s.state)) [
  | inl off ↦ rw (off, execute_start) h
  | inr on ↦
      rw (on, execute_start)
        (elim (Bool-cases (not (given s.name))) [
          | inl bad ↦ rw bad (record { actions = h.actions; process = refl })
          | inr ok ↦ rw ok (elim (Bool-cases (names s.start ename)) [
            | inl go ↦ rw go (start_now-IsLive l now event s io h)
            | inr stay ↦ rw stay h
          ])
        ])
]

pub execute_cb-IsLive :
    (l : Lmap) (now : ℤ) (event : Event) (ename : Str) (ss : List Schedule) (io : Io)
    → All IsLive ss
    → All IsLive (execute_cb l now event ename ss io).0
unfolding execute_cb
execute_cb-IsLive l now event ename [] io h = tt
execute_cb-IsLive l now event ename (s ∷ ss) io h =
    (execute_one-IsLive l now event ename s io h.0, execute_cb-IsLive l now event ename ss _ h.1)
