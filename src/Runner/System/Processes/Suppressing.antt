-- ===== src/Runner/System/Processes/Suppressing.antt =====
-- Suppressions start and forget no process.
use simet_lmapd.Base.{
  ◌≡◌, refl, inl, inr, Bool, not, ◌&&◌, ◌||◌, List, [], ◌∷◌, arith, All, Bool-cases,
}
use simet_lmapd.Text.{Str}
use simet_lmapd.Model.{Action, Schedule, Supp, is_disabled, is_running}
use simet_lmapd.Data.Validity.{given}
use simet_lmapd.Runner.{Io}
use simet_lmapd.Runner.Suppression.{
  start_schedule, start_action, start_actions, start_one, start_schedules, suppression_start,
  end_schedule, end_action, end_actions, end_one, end_schedules, suppression_end, on_start, on_end,
  suppress_one, suppress_cb, is_null, names, supp_enabled, supp_active, supp_disabled,
}
use simet_lmapd.Runner.System.Processes.Executing.{HasProcess, any_process, IsLive}

module _ (fnmatch : Str → Str → Bool) where
  start_actions-HasProcess :
      (supp : Supp) (stop : Bool) (as_ : List Action) (io : Io)
      → All HasProcess as_
      → All HasProcess (start_actions fnmatch supp stop as_ io).0
        × (any_process (start_actions fnmatch supp stop as_ io).0 ≡ any_process as_)
  unfolding start_actions start_action any_process
  start_actions-HasProcess supp stop [] io h = (tt, refl)
  start_actions-HasProcess supp stop (a ∷ as_) io h =
      let (k, e) = start_actions-HasProcess supp stop as_ _ h.1 in
      ((ground (arith, h.0), k), ground (arith, e))

  end_actions-HasProcess :
      (supp : Supp) (as_ : List Action)
      → All HasProcess as_
      → All HasProcess (end_actions fnmatch supp as_)
        × (any_process (end_actions fnmatch supp as_) ≡ any_process as_)
  unfolding end_actions end_action any_process
  end_actions-HasProcess supp [] h = (tt, refl)
  end_actions-HasProcess supp (a ∷ as_) h =
      let (k, e) = end_actions-HasProcess supp as_ h.1 in
      ((ground (arith, h.0), k), ground (arith, e))

  start_one-IsLive :
      (supp : Supp) (s : Schedule) (io : Io) → IsLive s → IsLive (start_one fnmatch supp s io).0
  unfolding start_one start_schedule
  start_one-IsLive supp s io h = elim (Bool-cases (is_disabled s.state)) [
    | inl off ↦ rw (off, start_one) h
    | inr on ↦
        rw (on, start_one) (started (start_schedule fnmatch supp s) keeps_actions keeps_state)
  ]
    where
      keeps_actions : (start_schedule fnmatch supp s).actions ≡ s.actions
      keeps_actions = ground arith

      keeps_state : is_running (start_schedule fnmatch supp s).state ≡ is_running s.state
      keeps_state = ground arith

      started :
          (t : Schedule)
          → t.actions ≡ s.actions
          → is_running t.state ≡ is_running s.state
          → IsLive
              (record t { actions = (start_actions fnmatch supp t.stop_running t.actions io).0 })
      started t e f =
          let (k, same) =
            start_actions-HasProcess supp t.stop_running t.actions io (rw e h.actions) in
          record { actions = k; process = rw (f, same, e) h.process }

  start_schedules-IsLive :
      (supp : Supp) (ss : List Schedule) (io : Io)
      → All IsLive ss
      → All IsLive (start_schedules fnmatch supp ss io).0
  unfolding start_schedules
  start_schedules-IsLive supp [] io h = tt
  start_schedules-IsLive supp (s ∷ ss) io h =
      (start_one-IsLive supp s io h.0, start_schedules-IsLive supp ss _ h.1)

  end_one-IsLive : (supp : Supp) (s : Schedule) → IsLive s → IsLive (end_one fnmatch supp s)
  unfolding end_one end_schedule
  end_one-IsLive supp s h = elim (Bool-cases (is_disabled s.state)) [
    | inl off ↦ rw (off, end_one) h
    | inr on ↦ rw (on, end_one) (ended (end_schedule fnmatch supp s) keeps_actions keeps_state)
  ]
    where
      keeps_actions : (end_schedule fnmatch supp s).actions ≡ s.actions
      keeps_actions = ground arith

      keeps_state : is_running (end_schedule fnmatch supp s).state ≡ is_running s.state
      keeps_state = ground arith

      ended :
          (t : Schedule)
          → t.actions ≡ s.actions
          → is_running t.state ≡ is_running s.state
          → IsLive (record t { actions = end_actions fnmatch supp t.actions })
      ended t e f =
          let (k, same) = end_actions-HasProcess supp t.actions (rw e h.actions) in
          record { actions = k; process = rw (f, same, e) h.process }

  end_schedules-IsLive :
      (supp : Supp) (ss : List Schedule)
      → All IsLive ss
      → All IsLive (end_schedules fnmatch supp ss)
  unfolding end_schedules
  end_schedules-IsLive supp [] h = tt
  end_schedules-IsLive supp (s ∷ ss) h =
      (end_one-IsLive supp s h.0, end_schedules-IsLive supp ss h.1)

  on_start-IsLive :
      (event : Str) (supp : Supp) (ss : List Schedule) (io : Io)
      → All IsLive ss
      → All IsLive (on_start fnmatch event supp ss io).1
  unfolding on_start suppression_start
  on_start-IsLive event supp ss io h =
      elim (Bool-cases (names supp.start event && supp_enabled supp.state)) [
        | inr skip ↦ rw (skip, on_start) h
        | inl go ↦
            rw (go, on_start)
              (elim (Bool-cases (is_null supp.match || not (given supp.name))) [
                | inl nothing ↦ rw (nothing, suppression_start) h
                | inr some_ ↦ rw (some_, suppression_start) (start_schedules-IsLive supp ss io h)
              ])
      ]

  on_end-IsLive :
      (event : Str) (supp : Supp) (ss : List Schedule)
      → All IsLive ss
      → All IsLive (on_end fnmatch event supp ss).1
  unfolding on_end suppression_end
  on_end-IsLive event supp ss h =
      elim (Bool-cases (names supp.end event && supp_active supp.state)) [
        | inr skip ↦ rw (skip, on_end) h
        | inl go ↦
            rw (go, on_end)
              (elim (Bool-cases (is_null supp.match || not (given supp.name))) [
                | inl nothing ↦ rw (nothing, suppression_end) h
                | inr some_ ↦ rw (some_, suppression_end) (end_schedules-IsLive supp ss h)
              ])
      ]

  suppress_one-IsLive :
      (event : Str) (supp : Supp) (ss : List Schedule) (io : Io)
      → All IsLive ss
      → All IsLive (suppress_one fnmatch event supp ss io).1
  unfolding suppress_one
  suppress_one-IsLive event supp ss io h = elim (Bool-cases (supp_disabled supp.state)) [
    | inl off ↦ rw (off, suppress_one) h
    | inr on ↦
        rw (on, suppress_one)
          (elim (Bool-cases (not (given supp.name))) [
            | inl bad ↦ rw bad h
            | inr ok ↦ rw ok (on_end-IsLive event _ _ (on_start-IsLive event supp ss io h))
          ])
  ]

  pub suppress_cb-IsLive :
      (event : Str) (supps : List Supp) (ss : List Schedule) (io : Io)
      → All IsLive ss
      → All IsLive (suppress_cb fnmatch event supps ss io).1
  unfolding suppress_cb
  suppress_cb-IsLive event [] ss io h = h
  suppress_cb-IsLive event (supp ∷ supps) ss io h =
      suppress_cb-IsLive event supps _ _ (suppress_one-IsLive event supp ss io h)
