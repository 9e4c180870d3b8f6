-- ===== src/Runner/System/Loaded.antt =====
-- The daemon from a configuration that was just loaded.
use simet_lmapd.Base.{Bool, not, ◌&&◌, ◌==◌, all}
use simet_lmapd.Model.{Action, Schedule, Supp, is_running, is_suppressed}
use simet_lmapd.Data.Validity.{given}
use simet_lmapd.Runner.Suppression.{supp_active}
use simet_lmapd.Runner.System.Suppressions.{Counting}

-- Nothing runs and nothing is suppressed.
abbrev pub action_idle : Action → Bool
action_idle a =
    not (is_running a.state)
    && not (is_suppressed a.state)
    && a.pid == 0
    && a.cnt_active_suppressions == 0

abbrev pub schedule_idle : Schedule → Bool
schedule_idle s =
    not (is_running s.state)
    && not (is_suppressed s.state)
    && s.cnt_active_suppressions == 0
    && all action_idle s.actions

abbrev pub supp_idle : Supp → Bool
supp_idle p = given p.name && not (supp_active p.state)
