-- ===== src/Runner/System.antt =====
-- The daemon between two iterations of its event loop: an event fires, or children have ended.
use simet_lmapd.Base.{ℕ, Bool, true, false, List, [], ◌∷◌}
use simet_lmapd.Base.Int.{ℤ}
use simet_lmapd.Text.{Str}
use simet_lmapd.Model.{Event, Lmap}
use simet_lmapd.Runner.{Io}
use simet_lmapd.Runner.Cleanup.{Status, lmapd_cleanup}
use simet_lmapd.Runner.Callbacks.{fire_cb}
pub mod Suppressions
pub mod Permissions
pub mod Processes
pub mod Loaded
pub mod Disabled
pub mod Once

-- What the event loop calls back for, with the time that it reads: an event under its name, or the
-- children that waitpid() reports.
pub data Input : Type 0 where
  fires : ℤ → Event → Str → Input
  children : ℤ → List (ℕ × Status) → Input

unfoldable pub step : (Str → Str → Bool) → Lmap × Io → Input → Lmap × Io
step fnmatch (lmap, io) (fires now event ename) =
    let (lmap', up, io') = fire_cb fnmatch now event ename lmap io in (lmap', io')
step fnmatch (lmap, io) (children now ended) = lmapd_cleanup now ended lmap io

unfoldable pub run : (Str → Str → Bool) → Lmap × Io → List Input → Lmap × Io
run fnmatch s [] = s
run fnmatch s (i ∷ is) = run fnmatch (step fnmatch s i) is
