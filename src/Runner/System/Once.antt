-- ===== src/Runner/System/Once.antt =====
-- Schedules that a one-off, immediate or startup event starts (execute_cb of src/runner.c), over every
-- history of the daemon behind it.
use simet_lmapd.Base.{ℕ, ◌≡◌, refl, ◌∙◌, ◌⊎◌, inl, inr, Bool, true, not, List, [], ◌∷◌, Bool-cases}
use simet_lmapd.Base.Int.{ℤ}
use simet_lmapd.Text.{Str}
use simet_lmapd.Model.{
  Schedule, Event, Lmap, ExecMode, sequential, parallel, pipelined, enabled, disabled, incr32,
}
use simet_lmapd.Data.Validity.{given}
use simet_lmapd.Runner.{Io}
use simet_lmapd.Runner.Exec.{schedule_exec, exec_mode}
use simet_lmapd.Runner.Suppression.{names}
use simet_lmapd.Runner.Callbacks.{happens_once, start_now, execute_start, execute_one, execute_cb}
use simet_lmapd.Runner.System.{Input, run}
use simet_lmapd.Runner.System.Disabled.{Each, IsStill, AreStill-trans, run-AreStill}

-- An enabled schedule that the event starts is disabled, and counted as invoked once or not at all.
abbrev pub IsSpent : Str → Schedule → Schedule → Type 0
IsSpent ename s t =
    s.state ≡ enabled
    → given s.name ≡ true
    → names s.start ename ≡ true
    → (t.state ≡ disabled)
      × ((t.cnt_invocations ≡ s.cnt_invocations) ⊎ (t.cnt_invocations ≡ incr32 s.cnt_invocations))

abbrev CountsOnce : ℕ → ℕ → Type 0
CountsOnce n m = (m ≡ n) ⊎ (m ≡ incr32 n)

mode-counts :
    (lmap : Lmap) (now : ℤ) (s : Schedule) (mode : ExecMode) (io : Io)
    → CountsOnce s.cnt_invocations (exec_mode lmap now s mode io).0.cnt_invocations
unfolding exec_mode
mode-counts lmap now s sequential io = inr refl
mode-counts lmap now s parallel io = inr refl
mode-counts lmap now s pipelined io = inl refl

exec-counts :
    (lmap : Lmap) (now : ℤ) (s : Schedule) (io : Io)
    → CountsOnce s.cnt_invocations (schedule_exec lmap now s io).0.cnt_invocations
unfolding schedule_exec
exec-counts lmap now s io = elim (Bool-cases (not (given s.name))) [
  | inl unnamed ↦ rw (unnamed, schedule_exec) (inl refl)
  | inr named ↦ rw (named, schedule_exec) (mode-counts lmap now s s.mode _)
]

execute_one-IsSpent :
    (lmap : Lmap) (now : ℤ) (event : Event) (ename : Str) (s : Schedule) (io : Io)
    → happens_once event.type ≡ true
    → IsSpent ename s (execute_one lmap now event ename s io).0
unfolding execute_one execute_start start_now
execute_one-IsSpent lmap now event ename s io once on ok hit =
    rw (on, ok, hit, once, execute_start, start_now) (refl, exec-counts lmap now _ _)

execute-AreSpent :
    (lmap : Lmap) (now : ℤ) (event : Event) (ename : Str) (ss : List Schedule) (io : Io)
    → happens_once event.type ≡ true
    → Each (IsSpent ename) ss (execute_cb lmap now event ename ss io).0
unfolding execute_cb
execute-AreSpent lmap now event ename [] io once = tt
execute-AreSpent lmap now event ename (s ∷ ss) io once = (
  execute_one-IsSpent lmap now event ename s io once,
  execute-AreSpent lmap now event ename ss _ once,
)

IsSpent-still :
    (ename : Str) (s t u : Schedule) → IsSpent ename s t → IsStill t u → IsSpent ename s u
IsSpent-still ename s t u p q on ok hit =
    let (off, counts) = p on ok hit in
    let (off1, same) = q off in
    (off1, elim counts [ inl e ↦ inl (same ∙ e) | inr e ↦ inr (same ∙ e) ])

-- When a one-off, immediate or startup event has called back for the schedules, every schedule with a name that
-- was enabled and starts at the event is disabled, and stays so over every sequence of events and ended
-- children that follows; it is counted as invoked at most once.
pub once_only :
    (fnmatch : Str → Str → Bool) (lmap : Lmap) (now : ℤ) (event : Event) (ename : Str) (io : Io)
    (is : List Input)
    → happens_once event.type ≡ true
    → let (ss, up, io1) = execute_cb lmap now event ename lmap.schedules io in
      Each
        (IsSpent ename)
        lmap.schedules
        (run fnmatch (record lmap { schedules = ss }, io1) is).0.schedules
once_only fnmatch lmap now event ename io is once =
    let (ss, up, io1) = execute_cb lmap now event ename lmap.schedules io in
    AreStill-trans (IsSpent ename) (IsSpent-still ename) lmap.schedules ss _
      (execute-AreSpent lmap now event ename lmap.schedules io once)
      (run-AreStill fnmatch (record lmap { schedules = ss }) io1 is)
