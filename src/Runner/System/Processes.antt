-- ===== src/Runner/System/Processes.antt =====
-- The processes of running schedules over every history of the daemon.
use simet_lmapd.Base.{ℕ, ◌≡◌, Bool, List, [], ◌∷◌, All, Bool-cases, inl, inr}
use simet_lmapd.Base.Int.{ℤ}
use simet_lmapd.Text.{Str}
use simet_lmapd.Model.{Event, Lmap}
use simet_lmapd.Runner.{Io}
use simet_lmapd.Runner.Cleanup.{Status, lmapd_cleanup, has_ended}
use simet_lmapd.Runner.Callbacks.{fire_cb}
use simet_lmapd.Runner.System.{Input, fires, children, step, run}
mod Executing
mod Settling
mod Suppressing
pub use Executing.{IsLive, HasProcess}
use Executing.{execute_cb-IsLive}
use Settling.{reap_schedules-IsLive}
use Suppressing.{suppress_cb-IsLive}

lmapd_cleanup-IsLive :
    (now : ℤ) (ended : List (ℕ × Status)) (l : Lmap) (io : Io)
    → All IsLive l.schedules
    → All IsLive (lmapd_cleanup now ended l io).0.schedules
unfolding lmapd_cleanup
lmapd_cleanup-IsLive now [] l io h = h
lmapd_cleanup-IsLive now ((pid, status) ∷ rest) l io h = elim (Bool-cases (has_ended status)) [
  | inl over ↦
      rw (over, lmapd_cleanup)
        (lmapd_cleanup-IsLive now rest _ _
          (reap_schedules-IsLive l now pid status l.schedules io h))
  | inr on ↦ rw (on, lmapd_cleanup) (lmapd_cleanup-IsLive now rest l io h)
]

module _ (fnmatch : Str → Str → Bool) where
  step-IsLive :
      (l : Lmap) (io : Io) (i : Input)
      → All IsLive l.schedules
      → All IsLive (step fnmatch (l, io) i).0.schedules
  unfolding step fire_cb
  step-IsLive l io (fires now event ename) h =
      execute_cb-IsLive _ now event ename _ _
        (suppress_cb-IsLive fnmatch ename l.supps l.schedules io h)
  step-IsLive l io (children now ended) h = lmapd_cleanup-IsLive now ended l io h

  -- No schedule is left running without a process: if each running action has a process and each running
  -- schedule an action with one, then so it is after any sequence of events and ended children. (The end
  -- of that process is then what takes the schedule on.)
  pub run-IsLive :
      (l : Lmap) (io : Io) (is : List Input)
      → All IsLive l.schedules
      → All IsLive (run fnmatch (l, io) is).0.schedules
  unfolding run
  run-IsLive l io [] h = h
  run-IsLive l io (i ∷ is) h =
      let (l', io') = step fnmatch (l, io) i in run-IsLive l' io' is (step-IsLive l io i h)
