-- ===== src/Runner/System/Suppressions.antt =====
-- The counters of active suppressions over every history of the daemon.
use simet_lmapd.Base.{
  ℕ, ◌<◌, ◌^◌, ◌≡◌, refl, ◌≢◌, ◌∙◌, Bool, true, false, List, [], ◌∷◌, arith, All, length, ap,
  Bool-cases, inl, inr,
}
use simet_lmapd.Base.Int.{ℤ}
use simet_lmapd.Text.{Str}
use simet_lmapd.Model.{Tag, Schedule, Supp, Event, Lmap}
use simet_lmapd.Runner.{Io}
use simet_lmapd.Runner.Cleanup.{Status, lmapd_cleanup, has_ended}
use simet_lmapd.Runner.Suppression.{suppress_cb}
use simet_lmapd.Runner.Suppression.Counting.{active_count, ScheduleCounts}
use simet_lmapd.Runner.Suppression.Refinement.{
  IsNamed, suppress_cb-Counts, suppress_cb-IsNamed, length-suppress_cb,
}
use simet_lmapd.Runner.Callbacks.{fire_cb}
use simet_lmapd.Runner.System.{Input, fires, children, step, run}
mod Executing
mod Reaping
use Executing.{execute_cb-Counts}
use Reaping.{IsPid, lmapd_cleanup-Counts}

-- Children are reported under positive process ids.
abbrev pub IsInput : Input → Type 0
IsInput (fires now event ename) = Unit
IsInput (children now ended) = All IsPid ended

module _ (fnmatch : Str → Str → Bool) where
  -- The suppressions have names and are fewer than 2^32, and every schedule and action that is not
  -- disabled counts those that are active and match it.
  pub record Counting (lmap : Lmap) : Type 0 where
    pub named : All (IsNamed fnmatch) lmap.supps
    pub few : length lmap.supps < 2 ^ 32
    pub counts : All (ScheduleCounts fnmatch (active_count fnmatch lmap.supps)) lmap.schedules

  fire_cb-Counting :
      (now : ℤ) (event : Event) (ename : Str) (lmap : Lmap) (io : Io)
      → Counting lmap
      → Counting (fire_cb fnmatch now event ename lmap io).0
  unfolding fire_cb
  fire_cb-Counting now event ename lmap io c = record {
    named = suppress_cb-IsNamed fnmatch ename lmap.supps lmap.schedules io c.named;
    few = rw (length-suppress_cb fnmatch ename lmap.supps lmap.schedules io) c.few;
    counts =
        execute_cb-Counts fnmatch _ _ now event ename _ _
          (suppress_cb-Counts fnmatch ename lmap.supps lmap.schedules io c.named c.few c.counts);
  }

  lmapd_cleanup-supps :
      (now : ℤ) (ended : List (ℕ × Status)) (lmap : Lmap) (io : Io)
      → (lmapd_cleanup now ended lmap io).0.supps ≡ lmap.supps
  unfolding lmapd_cleanup
  lmapd_cleanup-supps now [] lmap io = refl
  lmapd_cleanup-supps now ((pid, status) ∷ rest) lmap io = elim (Bool-cases (has_ended status)) [
    | inl over ↦ rw (over, lmapd_cleanup) (lmapd_cleanup-supps now rest _ _)
    | inr on ↦ rw (on, lmapd_cleanup) (lmapd_cleanup-supps now rest lmap io)
  ]

  -- Every step of the daemon keeps each counter equal to the number of active suppressions that match,
  -- an enabled schedule free of them, and a suppressed schedule held by one.
  pub step-Counting :
      (lmap : Lmap) (io : Io) (i : Input)
      → IsInput i
      → Counting lmap
      → Counting (step fnmatch (lmap, io) i).0
  unfolding step
  step-Counting lmap io (fires now event ename) h c = fire_cb-Counting now event ename lmap io c
  step-Counting lmap io (children now ended) h c =
      let same = lmapd_cleanup-supps now ended lmap io in
      record {
        named = rw same c.named;
        few = rw same c.few;
        counts = rw same (lmapd_cleanup-Counts fnmatch _ now ended lmap io h c.counts);
      }

  -- From a configuration in which the suppressions have names and are fewer than 2^32, the counters of all
  -- schedules and actions that are not disabled are right, an enabled schedule is matched by no active
  -- suppression, a suppressed one by at least one, and a disabled action of a schedule that is not disabled
  -- has no process, all of this holds again after any sequence of events and ended children (reported
  -- under positive process ids).
  pub run-Counting :
      (lmap : Lmap) (io : Io) (is : List Input)
      → All IsInput is
      → Counting lmap
      → Counting (run fnmatch (lmap, io) is).0
  unfolding run
  run-Counting lmap io [] h c = c
  run-Counting lmap io (i ∷ is) h c =
      let (lmap', io') = step fnmatch (lmap, io) i in
      run-Counting lmap' io' is h.1 (step-Counting lmap io i h.0 c)
