-- ===== src/Runner/Suppression.antt =====
-- suppression_start, suppression_end and suppress_cb of src/runner.c.
use simet_lmapd.Base.{
  ℕ, ◌-◌, Bool, true, false, not, ◌&&◌, ◌||◌, List, [], ◌∷◌, Option, none, some, ◌==◌,
  if◌then◌else◌,
}
use simet_lmapd.Text.{Str, str_eq}
use simet_lmapd.Model.{
  Tag, Action, Schedule, Supp, SuppState, RunState, enabled, disabled, running, suppressed,
  is_enabled, is_disabled, is_running, is_suppressed, incr32,
}
use simet_lmapd.Data.Validity.{given}
use simet_lmapd.Runner.{Io, big_tag_match}
use simet_lmapd.Runner.Exec.{action_kill}
pub mod Counting
pub mod Refinement
pub mod StopRunning

abbrev pub is_null {ℓ} : {A : Type ℓ} → List A → Bool
is_null [] = true
is_null (x ∷ xs) = false

-- `event_ref && !strcmp(event_ref, event->name)`
abbrev pub names : Option Str → Str → Bool
names none event = false
names (some n) event = str_eq n event

abbrev pub supp_active : SuppState → Bool
supp_active SuppState.active = true
supp_active SuppState.enabled = false
supp_active SuppState.disabled = false

abbrev pub supp_enabled : SuppState → Bool
supp_enabled SuppState.enabled = true
supp_enabled SuppState.active = false
supp_enabled SuppState.disabled = false

abbrev pub supp_disabled : SuppState → Bool
supp_disabled SuppState.disabled = true
supp_disabled SuppState.active = false
supp_disabled SuppState.enabled = false

module _ (fnmatch : Str → Str → Bool) where
  -- The first half of the loop body of `suppression_start`, on the schedule itself.
  unfoldable pub start_schedule : Supp → Schedule → Schedule
  start_schedule supp s =
      if big_tag_match fnmatch supp.match s.suppression_tags
      then record s {
        state = if is_enabled s.state then suppressed else s.state;
        stop_running = supp.stop_running_set || s.stop_running;
        cnt_active_suppressions = incr32 s.cnt_active_suppressions;
      }
      else s

  -- A running action is killed if its schedule is to stop, and again, with its state changed, if it
  -- matches a suppression that stops what runs in a schedule that is not to stop.
  unfoldable pub stops : Supp → Bool → Action → Bool
  stops supp stop_running a =
      big_tag_match fnmatch supp.match a.suppression_tags
      && is_running a.state
      && not stop_running
      && supp.stop_running_set

  unfoldable pub start_action_io : Supp → Bool → Action → Io → Io
  start_action_io supp stop_running a io =
      if is_disabled a.state
      then io
      else let io1 = if stop_running then action_kill a io else io in
        if stops supp stop_running a then action_kill a io1 else io1

  unfoldable pub start_action : Supp → Bool → Action → Action
  start_action supp stop_running a =
      if is_disabled a.state
      then a
      else if big_tag_match fnmatch supp.match a.suppression_tags
      then record a {
        state = if is_enabled a.state || stops supp stop_running a then suppressed else a.state;
        cnt_active_suppressions = incr32 a.cnt_active_suppressions;
      }
      else a

  unfoldable pub start_actions : Supp → Bool → List Action → Io → List Action × Io
  start_actions supp stop_running [] io = ([], io)
  start_actions supp stop_running (a ∷ as_) io =
      let (as', io1) =
        start_actions supp stop_running as_ (start_action_io supp stop_running a io) in
      (start_action supp stop_running a ∷ as', io1)

  -- The loop body of `suppression_start`.
  unfoldable pub start_one : Supp → Schedule → Io → Schedule × Io
  start_one supp s io =
      if is_disabled s.state
      then (s, io)
      else let t = start_schedule supp s in
        let (as_, io1) = start_actions supp t.stop_running t.actions io in
        (record t { actions = as_ }, io1)

  unfoldable pub start_schedules : Supp → List Schedule → Io → List Schedule × Io
  start_schedules supp [] io = ([], io)
  start_schedules supp (s ∷ ss) io =
      let (s', io1) = start_one supp s io in
      let (ss', io2) = start_schedules supp ss io1 in (s' ∷ ss', io2)

  unfoldable pub suppression_start : Supp → List Schedule → Io → Supp × List Schedule × Io
  suppression_start supp ss io =
      if is_null supp.match || not (given supp.name)
      then (supp, ss, io)
      else let (ss', io1) = start_schedules supp ss io in
        (record supp { state = SuppState.active }, ss', io1)

  -- x-- unless it is 0
  unfoldable pub end_schedule : Supp → Schedule → Schedule
  end_schedule supp s =
      if big_tag_match fnmatch supp.match s.suppression_tags
      then (let cnt = s.cnt_active_suppressions - 1 in
          record s {
            cnt_active_suppressions = cnt;
            state = if cnt == 0 && is_suppressed s.state then enabled else s.state;
          })
      else s

  unfoldable pub end_action : Supp → Action → Action
  end_action supp a =
      if is_disabled a.state
      then a
      else if big_tag_match fnmatch supp.match a.suppression_tags
      then (let cnt = a.cnt_active_suppressions - 1 in
          record a {
            cnt_active_suppressions = cnt;
            state = if cnt == 0 && is_suppressed a.state then enabled else a.state;
          })
      else a

  unfoldable pub end_actions : Supp → List Action → List Action
  end_actions supp [] = []
  end_actions supp (a ∷ as_) = end_action supp a ∷ end_actions supp as_

  -- The loop body of `suppression_end`.
  unfoldable pub end_one : Supp → Schedule → Schedule
  end_one supp s =
      if is_disabled s.state
      then s
      else let t = end_schedule supp s in record t { actions = end_actions supp t.actions }

  unfoldable pub end_schedules : Supp → List Schedule → List Schedule
  end_schedules supp [] = []
  end_schedules supp (s ∷ ss) = end_one supp s ∷ end_schedules supp ss

  unfoldable pub suppression_end : Supp → List Schedule → Supp × List Schedule
  suppression_end supp ss =
      if is_null supp.match || not (given supp.name)
      then (supp, ss)
      else (record supp { state = SuppState.enabled }, end_schedules supp ss)

  -- The `start` half of the loop body of `suppress_cb`.
  unfoldable pub on_start : Str → Supp → List Schedule → Io → Supp × List Schedule × Io
  on_start event supp ss io =
      if names supp.start event && supp_enabled supp.state
      then suppression_start supp ss io
      else (supp, ss, io)

  unfoldable pub on_end : Str → Supp → List Schedule → Supp × List Schedule
  on_end event supp ss =
      if names supp.end event && supp_active supp.state then suppression_end supp ss else (supp, ss)

  unfoldable pub suppress_one : Str → Supp → List Schedule → Io → Supp × List Schedule × Io
  suppress_one event supp ss io =
      if supp_disabled supp.state
      then (supp, ss, io)
      else if not (given supp.name)
      then (record supp { state = SuppState.disabled }, ss, io)
      else let (supp1, ss1, io1) = on_start event supp ss io in
        let (supp2, ss2) = on_end event supp1 ss1 in (supp2, ss2, io1)

  -- The callback for the suppressions; `event` is the name of the event.
  unfoldable pub suppress_cb : Str → List Supp → List Schedule → Io → List Supp × List Schedule × Io
  suppress_cb event [] ss io = ([], ss, io)
  suppress_cb event (supp ∷ supps) ss io =
      let (supp', ss1, io1) = suppress_one event supp ss io in
      let (supps', ss2, io2) = suppress_cb event supps ss1 io1 in (supp' ∷ supps', ss2, io2)
