-- ===== src/Runner/Control.antt =====
-- lmapd_stop and lmapd_restart of src/runner.c, and the callbacks of src/signals.c that change the daemon.
use simet_lmapd.Base.{ℕ, Bool, true, false, ◌||◌, List, [], ◌∷◌, Option, none, some}
use simet_lmapd.Base.Int.{ℤ}
use simet_lmapd.Model.{Schedule, Lmap}
use simet_lmapd.Runner.{Io}
use simet_lmapd.Runner.Exec.{schedule_kill}
use simet_lmapd.Runner.Cleanup.{Status, lmapd_cleanup}
pub mod Stopping

-- The flags LMAPD_FLAG_* of struct lmapd.
pub record Flags : Type 0 where
  pub restart : Bool
  pub skip_startup : Bool
  pub startup_done : Bool

-- The parts of struct lmapd that the callbacks change; `looping` while the event loop is not told to break.
pub record Daemon : Type 0 where
  pub lmap : Option Lmap
  pub flags : Flags
  pub looping : Bool

unfoldable pub kill_schedules : List Schedule → Io → Io
kill_schedules [] io = io
kill_schedules (s ∷ ss) io = kill_schedules ss (schedule_kill s io)

unfoldable pub lmapd_killall : Daemon → Io → Io
lmapd_killall d io = elim d.lmap [ none ↦ io | some lmap ↦ kill_schedules lmap.schedules io ]

unfoldable pub lmapd_stop : Daemon → Io → Daemon × Io
lmapd_stop d io =
    (record d { flags = record d.flags { restart = false }; looping = false }, lmapd_killall d io)

unfoldable pub lmapd_restart : Daemon → Io → Daemon × Io
lmapd_restart d io = (
  record d {
    flags = record d.flags {
      restart = true;
      skip_startup = d.flags.startup_done || d.flags.skip_startup;
    };
    looping = false;
  },
  lmapd_killall d io,
)

-- The signals whose callbacks change the daemon, SIGCHLD with the children that waitpid() reports.
pub data Signal : Type 0 where
  sigint sigterm sighup : Signal
  sigchld : ℤ → List (ℕ × Status) → Signal

unfoldable pub on_signal : Signal → Daemon → Io → Daemon × Io
on_signal sigint d io = lmapd_stop d io
on_signal sigterm d io = lmapd_stop d io
on_signal sighup d io = lmapd_restart d io
on_signal (sigchld now ended) d io = elim d.lmap [
  | none ↦ (d, io)
  | some lmap ↦
      let (lmap', io1) = lmapd_cleanup now ended lmap io in (record d { lmap = some lmap' }, io1)
]
