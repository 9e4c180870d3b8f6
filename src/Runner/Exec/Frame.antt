-- ===== src/Runner/Exec/Frame.antt =====
-- What holds of every action of a schedule, and of the trace, is kept by the loops that execute actions.
use simet_lmapd.Base.{List, [], ◌∷◌, All}
use simet_lmapd.Base.Int.{ℤ}
use simet_lmapd.Model.{Action, Schedule, Lmap}
use simet_lmapd.Runner.{Io}
use simet_lmapd.Runner.Exec.{action_exec, exec_all, exec_first}

module _ (lmap : Lmap) (now : ℤ) (s : Schedule) (P : Action → Type 0)
    (keep : (a : Action) (io : Io) → P a → P (action_exec lmap now s a io).0) where
  pub exec_all-All :
      (as_ : List Action) (io : Io) → All P as_ → All P (exec_all lmap now s as_ io).0
  unfolding exec_all
  exec_all-All [] io h = tt
  exec_all-All (a ∷ as_) io h = (keep a io h.0, exec_all-All as_ _ h.1)

  pub exec_first-All :
      (as_ : List Action) (io : Io) → All P as_ → All P (exec_first lmap now s as_ io).0
  unfolding exec_first
  exec_first-All [] io h = tt
  exec_first-All (a ∷ as_) io h = (keep a io h.0, h.1)

module _ (lmap : Lmap) (now : ℤ) (s : Schedule) (Q : Io → Type 0)
    (keep : (a : Action) (io : Io) → Q io → Q (action_exec lmap now s a io).2) where
  pub exec_all-Io : (as_ : List Action) (io : Io) → Q io → Q (exec_all lmap now s as_ io).2
  unfolding exec_all
  exec_all-Io [] io h = h
  exec_all-Io (a ∷ as_) io h = exec_all-Io as_ _ (keep a io h)

  pub exec_first-Io : (as_ : List Action) (io : Io) → Q io → Q (exec_first lmap now s as_ io).2
  unfolding exec_first
  exec_first-Io [] io h = h
  exec_first-Io (a ∷ as_) io h = keep a io h
