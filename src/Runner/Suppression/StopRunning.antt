-- ===== src/Runner/Suppression/StopRunning.antt =====
-- The flag that stops what runs: who sets it, and that nobody clears it.
use simet_lmapd.Base.{◌+◌, ◌<◌, ◌^◌, ◌≡◌, refl, ◌∙◌, ◌≢◌, Bool, true, false, List, [], ◌∷◌, arith}
use simet_lmapd.Base.Int.{ℤ}
use simet_lmapd.Text.{Str, codes, str_eq}
use simet_lmapd.Model.{
  Action, Schedule, Supp, Lmap, is_enabled, is_disabled, is_suppressed, is_running, done,
}
use simet_lmapd.Data.Scalar.{set_boolean}
use simet_lmapd.Data.Supp.{lmap_supp_set_stop_running}
use simet_lmapd.Runner.{Io, big_tag_match}
use simet_lmapd.Runner.Suppression.{
  start_schedule, start_one, end_schedule, end_one, stops, start_action, end_action,
}
use simet_lmapd.Runner.Cleanup.{exec_next}

module _ (fnmatch : Str → Str → Bool) where
  -- Setting stop-running to "false" succeeds and stores false; and yet such a suppression, when it starts,
  -- marks every schedule that it matches as one to stop.
  pub false_stops :
      (supp : Supp) (s : Schedule)
      → big_tag_match fnmatch supp.match s.suppression_tags ≡ true
      → let (supp', rc) = lmap_supp_set_stop_running supp (codes "false") in
        (rc ≡ done)
        × (supp'.stop_running ≡ false)
        × ((start_schedule fnmatch supp' s).stop_running ≡ true)
  unfolding lmap_supp_set_stop_running set_boolean start_schedule str_eq
  false_stops supp s h = rw h (refl, refl, refl)

  stopped-exec_next :
      (lmap : Lmap) (now : ℤ) (s : Schedule) (as_ : List Action) (io : Io)
      → s.stop_running ≡ true
      → exec_next lmap now s as_ io ≡ (as_, io)
  unfolding exec_next
  stopped-exec_next lmap now s [] io h = refl
  stopped-exec_next lmap now s (a ∷ as_) io h = ground arith

  started-stop_running :
      (supp : Supp) (s : Schedule) (io : Io)
      → is_disabled s.state ≡ false
      → big_tag_match fnmatch supp.match s.suppression_tags ≡ true
      → supp.stop_running_set ≡ true
      → (start_one fnmatch supp s io).0.stop_running ≡ true
  unfolding start_one start_schedule
  started-stop_running supp s io on hit stop = ground arith

  ended-stop_running :
      (supp : Supp) (s : Schedule) → (end_one fnmatch supp s).stop_running ≡ s.stop_running
  unfolding end_one end_schedule
  ended-stop_running supp s = ground arith

  -- Once a suppression that stops what runs has started and ended on a schedule that it matches and that is
  -- not disabled, the schedule that results does not go on to a next action when one completes.
  pub stop_running_sticks :
      (supp : Supp) (s : Schedule) (io : Io)
      → is_disabled s.state ≡ false
      → big_tag_match fnmatch supp.match s.suppression_tags ≡ true
      → supp.stop_running_set ≡ true
      → let t = end_one fnmatch supp (start_one fnmatch supp s io).0 in
        (lmap : Lmap) (now : ℤ) (as_ : List Action) (io1 : Io)
        → exec_next lmap now t as_ io1 ≡ (as_, io1)
  stop_running_sticks supp s io on hit stop lmap now as_ io1 =
      stopped-exec_next lmap now _ as_ io1
        (ended-stop_running supp _ ∙ started-stop_running supp s io on hit stop)

  -- The end of a suppression undoes its start on an action that is not running: for a counter below
  -- 2^32 - 1 that is 0 exactly where no suppression holds the action, both together change nothing.
  pub end_action-start_action :
      (supp : Supp) (stop : Bool) (a : Action)
      → a.cnt_active_suppressions + 1 < 2 ^ 32
      → is_running a.state ≡ false
      → (is_suppressed a.state ≡ true → a.cnt_active_suppressions ≢ 0)
      → (is_enabled a.state ≡ true → a.cnt_active_suppressions ≡ 0)
      → end_action fnmatch supp (start_action fnmatch supp stop a) ≡ a
  unfolding end_action start_action stops
  end_action-start_action supp stop a small idle held free = ground arith
