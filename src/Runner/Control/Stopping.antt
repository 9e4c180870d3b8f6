-- ===== src/Runner/Control/Stopping.antt =====
-- That a daemon which stops signals its children, and what a restart remembers.
use simet_lmapd.Base.{
  ◌≡◌, refl, ◌↔◌, ◌⊎◌, ◌∙◌, ap, sym, inl, inr, true, false, not, ◌&&◌, ◌||◌, List, [], ◌∷◌, ◌++◌,
  append_assoc, none, some, arith, ◌==◌, All, Bool-cases, Option-cases, ℕ,
}
use simet_lmapd.Base.Int.{ℤ, pos}
use simet_lmapd.Model.{Action, Schedule, Lmap, Event, startup, is_running}
use simet_lmapd.Data.Validity.{given}
use simet_lmapd.Runner.{Effect, kill_group, Io, head_or}
use simet_lmapd.Runner.Exec.{action_kill, kill_actions, schedule_kill}
use simet_lmapd.Runner.Control.{
  Daemon, sighup, sigterm, kill_schedules, lmapd_killall, lmapd_stop, lmapd_restart, on_signal,
}
use simet_lmapd.Runner.Timers.{arm, add_random_spread}

-- The trace of the second is that of the first and later calls.
abbrev pub Extends : Io → Io → Type 0
Extends io io' = (later : List Effect) × (io'.trace ≡ later ++ io.trace)

Extends-trans : (a b c : Io) → Extends a b → Extends b c → Extends a c
Extends-trans a b c (xs, e) (ys, f) =
    (ys ++ xs, f ∙ ap (λ t. ys ++ t) e ∙ sym (append_assoc ys xs a.trace))

-- The call was made.
abbrev pub Called : Effect → Io → Type 0
Called e io = (after : List Effect) × (before : List Effect) × (io.trace ≡ after ++ e ∷ before)

Called-later : (e : Effect) (a b : Io) → Extends a b → Called e a → Called e b
Called-later e a b (xs, h) (after, before, k) =
    (xs ++ after, before, h ∙ ap (λ t. xs ++ t) k ∙ sym (append_assoc xs after (e ∷ before)))

-- The process group of a running action is signalled.
abbrev pub Signalled : Io → Action → Type 0
Signalled io a =
    ((given a.name && is_running a.state && not (a.pid == 0)) ≡ false)
    ⊎ Called (kill_group a.pid) io

action_kill-Extends : (a : Action) (io : Io) → Extends io (action_kill a io)
unfolding action_kill
action_kill-Extends a io =
    elim (Bool-cases (not (given a.name) || not (is_running a.state) || a.pid == 0)) [
      | inl skip ↦ rw (skip, action_kill) ([], refl)
      | inr go ↦
          rw (go, action_kill)
            (elim (Bool-cases (head_or io.kills false)) [
              | inl ok ↦ rw ok (kill_group a.pid ∷ [], refl)
              | inr bad ↦ rw bad (Effect.kill_process a.pid ∷ kill_group a.pid ∷ [], refl)
            ])
    ]

action_kill-Signalled : (a : Action) (io : Io) → Signalled (action_kill a io) a
unfolding action_kill
action_kill-Signalled a io =
    elim (Bool-cases (not (given a.name) || not (is_running a.state) || a.pid == 0)) [
      | inl skip ↦ inl (ground arith)
      | inr go ↦ inr (
          rw (go, action_kill)
            (elim (Bool-cases (head_or io.kills false)) [
              | inl ok ↦ rw ok ([], _, refl)
              | inr bad ↦ rw bad (Effect.kill_process a.pid ∷ [], _, refl)
            ]))
    ]

Signalled-later : (x : Action) (a b : Io) → Extends a b → Signalled a x → Signalled b x
Signalled-later x a b h (inl idle) = inl idle
Signalled-later x a b h (inr called) = inr (Called-later (kill_group x.pid) a b h called)

kill_actions-Extends : (as_ : List Action) (io : Io) → Extends io (kill_actions as_ io)
unfolding kill_actions
kill_actions-Extends [] io = ([], refl)
kill_actions-Extends (a ∷ as_) io =
    Extends-trans io (action_kill a io) (kill_actions as_ (action_kill a io))
      (action_kill-Extends a io) (kill_actions-Extends as_ (action_kill a io))

kill_actions-Signalled : (as_ : List Action) (io : Io) → All (Signalled (kill_actions as_ io)) as_
unfolding kill_actions
kill_actions-Signalled [] io = tt
kill_actions-Signalled (a ∷ as_) io = (
  Signalled-later a (action_kill a io) (kill_actions as_ (action_kill a io))
      (kill_actions-Extends as_ (action_kill a io)) (action_kill-Signalled a io),
  kill_actions-Signalled as_ (action_kill a io),
)

-- All actions of a schedule that has a name.
abbrev pub AllSignalled : Io → Schedule → Type 0
AllSignalled io s = (given s.name ≡ false) ⊎ All (Signalled io) s.actions

later-All :
    (a b : Io) → Extends a b → (as_ : List Action) → All (Signalled a) as_ → All (Signalled b) as_
later-All a b h [] k = tt
later-All a b h (x ∷ xs) k = (Signalled-later x a b h k.0, later-All a b h xs k.1)

schedule_kill-Extends : (s : Schedule) (io : Io) → Extends io (schedule_kill s io)
unfolding schedule_kill
schedule_kill-Extends s io = elim (Bool-cases (given s.name)) [
  | inl ok ↦ rw (ok, schedule_kill) (kill_actions-Extends s.actions io)
  | inr bad ↦ rw (bad, schedule_kill) ([], refl)
]

schedule_kill-AllSignalled : (s : Schedule) (io : Io) → AllSignalled (schedule_kill s io) s
unfolding schedule_kill
schedule_kill-AllSignalled s io = elim (Bool-cases (given s.name)) [
  | inl ok ↦ inr (rw (ok, schedule_kill) (kill_actions-Signalled s.actions io))
  | inr bad ↦ inl bad
]

AllSignalled-later : (s : Schedule) (a b : Io) → Extends a b → AllSignalled a s → AllSignalled b s
AllSignalled-later s a b h (inl bad) = inl bad
AllSignalled-later s a b h (inr k) = inr (later-All a b h s.actions k)

kill_schedules-Extends : (ss : List Schedule) (io : Io) → Extends io (kill_schedules ss io)
unfolding kill_schedules
kill_schedules-Extends [] io = ([], refl)
kill_schedules-Extends (s ∷ ss) io =
    Extends-trans io (schedule_kill s io) (kill_schedules ss (schedule_kill s io))
      (schedule_kill-Extends s io) (kill_schedules-Extends ss (schedule_kill s io))

kill_schedules-AllSignalled :
    (ss : List Schedule) (io : Io) → All (AllSignalled (kill_schedules ss io)) ss
unfolding kill_schedules
kill_schedules-AllSignalled [] io = tt
kill_schedules-AllSignalled (s ∷ ss) io = (
  AllSignalled-later s (schedule_kill s io) (kill_schedules ss (schedule_kill s io))
      (kill_schedules-Extends ss (schedule_kill s io)) (schedule_kill-AllSignalled s io),
  kill_schedules-AllSignalled ss (schedule_kill s io),
)

-- SIGTERM and SIGHUP both break the event loop after SIGTERM was sent to the process group of every
-- running action with a name and a process, in every schedule with a name; the first leaves the daemon to
-- end, the second to restart.
pub signals_reach_children :
    (d : Daemon) (lmap : Lmap) (io : Io)
    → d.lmap ≡ some lmap
    → let (d1, io1) = on_signal sigterm d io in
      let (d2, io2) = on_signal sighup d io in
      (All (AllSignalled io1) lmap.schedules × (d1.looping ≡ false) × (d1.flags.restart ≡ false))
      × All (AllSignalled io2) lmap.schedules
      × (d2.looping ≡ false)
      × (d2.flags.restart ≡ true)
unfolding on_signal lmapd_stop lmapd_restart lmapd_killall
signals_reach_children d lmap io e = ((all_signalled, refl, refl), all_signalled, refl, refl)
  where
    all_signalled : All (AllSignalled (lmapd_killall d io)) lmap.schedules
    all_signalled = rw (e, lmapd_killall) (kill_schedules-AllSignalled lmap.schedules io)

-- After a restart by SIGHUP the startup events are not armed exactly if the startup was done, or was
-- to be skipped already.
pub restart-arm :
    (d : Daemon) (io : Io) (rs : List ℕ) (now : ℤ) (e : Event)
    → e.type ≡ startup
    → (arm rs now (on_signal sighup d io).0.flags.skip_startup e ≡ some none)
      ↔ (d.flags.startup_done || d.flags.skip_startup ≡ true)
unfolding on_signal lmapd_restart arm
restart-arm d io rs now e h = elim (Option-cases (add_random_spread e rs (pos 0))) [
  | inl more ↦ ground arith
  | inr (seconds, drawn) ↦ ground arith
]
