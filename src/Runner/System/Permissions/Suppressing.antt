-- ===== src/Runner/System/Permissions/Suppressing.antt =====
-- Suppressions start no process.
use simet_lmapd.Base.{
  inl, inr, Bool, true, false, not, ◌&&◌, ◌||◌, List, [], ◌∷◌, if◌then◌else◌, Bool-cases,
}
use simet_lmapd.Text.{Str}
use simet_lmapd.Model.{Action, Schedule, Supp, Lmap, is_disabled}
use simet_lmapd.Data.Validity.{given}
use simet_lmapd.Runner.{Io}
use simet_lmapd.Runner.Exec.{action_kill}
use simet_lmapd.Runner.Suppression.{
  start_action_io, start_actions, start_one, start_schedules, suppression_start, stops, on_start,
  suppress_one, suppress_cb, names, is_null, supp_enabled, supp_disabled,
}
use simet_lmapd.Runner.System.Permissions.Operations.{AllPermitted, action_kill-AllPermitted}

module _ (fnmatch : Str → Str → Bool) (l : Lmap) where
  killed :
      (b : Bool) (a : Action) (io : Io)
      → AllPermitted l io
      → AllPermitted l (if b then action_kill a io else io)
  killed true a io h = action_kill-AllPermitted l a io h
  killed false a io h = h

  start_action_io-AllPermitted :
      (supp : Supp) (stop : Bool) (a : Action) (io : Io)
      → AllPermitted l io
      → AllPermitted l (start_action_io fnmatch supp stop a io)
  unfolding start_action_io
  start_action_io-AllPermitted supp stop a io h = elim (Bool-cases (is_disabled a.state)) [
    | inl off ↦ rw (off, start_action_io) h
    | inr on ↦
        rw (on, start_action_io) (killed (stops fnmatch supp stop a) a _ (killed stop a io h))
  ]

  start_actions-AllPermitted :
      (supp : Supp) (stop : Bool) (as_ : List Action) (io : Io)
      → AllPermitted l io
      → AllPermitted l (start_actions fnmatch supp stop as_ io).1
  unfolding start_actions
  start_actions-AllPermitted supp stop [] io h = h
  start_actions-AllPermitted supp stop (a ∷ as_) io h =
      start_actions-AllPermitted supp stop as_ _ (start_action_io-AllPermitted supp stop a io h)

  start_one-AllPermitted :
      (supp : Supp) (s : Schedule) (io : Io)
      → AllPermitted l io
      → AllPermitted l (start_one fnmatch supp s io).1
  unfolding start_one
  start_one-AllPermitted supp s io h = elim (Bool-cases (is_disabled s.state)) [
    | inl off ↦ rw (off, start_one) h
    | inr on ↦ rw (on, start_one) (start_actions-AllPermitted supp _ _ io h)
  ]

  start_schedules-AllPermitted :
      (supp : Supp) (ss : List Schedule) (io : Io)
      → AllPermitted l io
      → AllPermitted l (start_schedules fnmatch supp ss io).1
  unfolding start_schedules
  start_schedules-AllPermitted supp [] io h = h
  start_schedules-AllPermitted supp (s ∷ ss) io h =
      start_schedules-AllPermitted supp ss _ (start_one-AllPermitted supp s io h)

  suppression_start-AllPermitted :
      (supp : Supp) (ss : List Schedule) (io : Io)
      → AllPermitted l io
      → AllPermitted l (suppression_start fnmatch supp ss io).2
  unfolding suppression_start
  suppression_start-AllPermitted supp ss io h =
      elim (Bool-cases (is_null supp.match || not (given supp.name))) [
        | inl skip ↦ rw (skip, suppression_start) h
        | inr go ↦ rw (go, suppression_start) (start_schedules-AllPermitted supp ss io h)
      ]

  on_start-AllPermitted :
      (event : Str) (supp : Supp) (ss : List Schedule) (io : Io)
      → AllPermitted l io
      → AllPermitted l (on_start fnmatch event supp ss io).2
  unfolding on_start
  on_start-AllPermitted event supp ss io h =
      elim (Bool-cases (names supp.start event && supp_enabled supp.state)) [
        | inl go ↦ rw (go, on_start) (suppression_start-AllPermitted supp ss io h)
        | inr skip ↦ rw (skip, on_start) h
      ]

  suppress_one-AllPermitted :
      (event : Str) (supp : Supp) (ss : List Schedule) (io : Io)
      → AllPermitted l io
      → AllPermitted l (suppress_one fnmatch event supp ss io).2
  unfolding suppress_one
  suppress_one-AllPermitted event supp ss io h = elim (Bool-cases (supp_disabled supp.state)) [
    | inl off ↦ rw (off, suppress_one) h
    | inr on ↦
        rw (on, suppress_one)
          (elim (Bool-cases (not (given supp.name))) [
            | inl bad ↦ rw bad h
            | inr ok ↦ rw ok (on_start-AllPermitted event supp ss io h)
          ])
  ]

  pub suppress_cb-AllPermitted :
      (event : Str) (supps : List Supp) (ss : List Schedule) (io : Io)
      → AllPermitted l io
      → AllPermitted l (suppress_cb fnmatch event supps ss io).2
  unfolding suppress_cb
  suppress_cb-AllPermitted event [] ss io h = h
  suppress_cb-AllPermitted event (supp ∷ supps) ss io h =
      suppress_cb-AllPermitted event supps _ _ (suppress_one-AllPermitted event supp ss io h)
