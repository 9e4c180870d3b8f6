-- ===== src/Runner/Cleanup/Frame.antt =====
-- What holds of every action of a schedule is kept by the loops of `lmapd_cleanup`.
use simet_lmapd.Base.{
  ℕ, ◌≡◌, false, List, [], ◌∷◌, All, ◌==◌, ◌&&◌, not, Bool-cases, inl, inr, arith,
}
use simet_lmapd.Base.Int.{ℤ}
use simet_lmapd.Model.{Action, Schedule, Lmap, is_suppressed}
use simet_lmapd.Runner.{Io}
use simet_lmapd.Runner.Exec.{action_exec}
use simet_lmapd.Runner.Cleanup.{
  Status, finish_action, is_sequential, exec_next, reap_actions, flush_actions,
}

module _ (lmap : Lmap) (now : ℤ) (s : Schedule) (P : Action → Type 0)
    (keep : (a : Action) (io : Io) → P a → P (action_exec lmap now s a io).0) where
  pub exec_next-All :
      (as_ : List Action) (io : Io) → All P as_ → All P (exec_next lmap now s as_ io).0
  unfolding exec_next
  exec_next-All [] io h = tt
  exec_next-All (a ∷ as_) io h =
      elim (Bool-cases
        (is_sequential s.mode && not (is_suppressed s.state) && not s.stop_running)) [
          | inl go ↦ rw (go, exec_next) (keep a io h.0, h.1)
          | inr stay ↦ rw (stay, exec_next) h
        ]

  pub reap_actions-All :
      (pid : ℕ) (status : Status)
      → ((a : Action) (io : Io) → a.pid ≡ pid → P a → P (finish_action lmap now status s a io).0)
      → (as_ : List Action) (io : Io) → All P as_
      → All P (reap_actions lmap now pid status s as_ io).0
  unfolding reap_actions
  reap_actions-All pid status finish [] io h = tt
  reap_actions-All pid status finish (a ∷ as_) io h = elim (Bool-cases (a.pid == pid)) [
    | inl hit ↦ rw (hit, reap_actions) (finish a io (ground arith) h.0, exec_next-All as_ _ h.1)
    | inr miss ↦ rw (miss, reap_actions) (h.0, reap_actions-All pid status finish as_ io h.1)
  ]

module _ (lmap : Lmap) (s : Schedule) (P : Action → Type 0)
    (keep : (a : Action) → P a → P (record a { move_deferred = false })) where
  pub flush_actions-All :
      (as_ : List Action) (io : Io) → All P as_ → All P (flush_actions lmap s as_ io).0
  unfolding flush_actions
  flush_actions-All [] io h = tt
  flush_actions-All (a ∷ as_) io h = (keep a h.0, flush_actions-All as_ _ h.1)
