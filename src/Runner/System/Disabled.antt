-- ===== src/Runner/System/Disabled.antt =====
-- Disabled schedules over every history of the daemon (src/runner.c).
use simet_lmapd.Base.{
  ℕ, ◌≡◌, refl, ◌∙◌, inl, inr, Bool, true, false, not, ◌&&◌, List, [], ◌∷◌, arith, Bool-cases,
  if◌then◌else◌,
}
use simet_lmapd.Base.Int.{ℤ}
use simet_lmapd.Text.{Str}
use simet_lmapd.Model.{Action, Schedule, Supp, Event, Lmap, disabled}
use simet_lmapd.Data.Validity.{given}
use simet_lmapd.Runner.{Io}
use simet_lmapd.Runner.Suppression.{
  names, start_one, start_schedules, suppression_start, end_one, end_schedules, suppression_end,
  on_start, on_end, suppress_one, suppress_cb, supp_disabled, supp_enabled, supp_active,
}
use simet_lmapd.Runner.Cleanup.{
  Status, settled, settle_schedule, reap_schedules, lmapd_cleanup, has_pid, has_ended,
}
use simet_lmapd.Runner.Callbacks.{execute_start, execute_one, execute_cb, fire_cb}
use simet_lmapd.Runner.System.{Input, fires, children, step, run}

-- Two lists with related elements, in their order.
abbrev pub Each : (Schedule → Schedule → Type 0) → List Schedule → List Schedule → Type 0
Each R [] [] = Unit
Each R (s ∷ ss) (t ∷ ts) = R s t × Each R ss ts
Each R _ _ = false ≡ true

-- A disabled schedule stays disabled, and is not counted as invoked.
abbrev pub IsStill : Schedule → Schedule → Type 0
IsStill s t = s.state ≡ disabled → (t.state ≡ disabled) × (t.cnt_invocations ≡ s.cnt_invocations)

AreStill-refl : (ss : List Schedule) → Each IsStill ss ss
AreStill-refl [] = tt
AreStill-refl (s ∷ ss) = (λ off. (off, refl), AreStill-refl ss)

pub AreStill-trans :
    (R : Schedule → Schedule → Type 0)
    → ((s t u : Schedule) → R s t → IsStill t u → R s u)
    → (ss ts us : List Schedule) → Each R ss ts
    → Each IsStill ts us
    → Each R ss us
AreStill-trans R step [] [] [] p q = tt
AreStill-trans R step (s ∷ ss) (t ∷ ts) (u ∷ us) (p, ps) (q, qs) =
    (step s t u p q, AreStill-trans R step ss ts us ps qs)
AreStill-trans R step [] [] (u ∷ us) p q = q
AreStill-trans R step [] (t ∷ ts) us p q = absurd cc
AreStill-trans R step (s ∷ ss) [] us p q = absurd cc
AreStill-trans R step (s ∷ ss) (t ∷ ts) [] p q = q

IsStill-trans : (s t u : Schedule) → IsStill s t → IsStill t u → IsStill s u
IsStill-trans s t u p q = λ off. ((q (p off).0).0, (q (p off).0).1 ∙ (p off).1)

still : (ss ts us : List Schedule) → Each IsStill ss ts → Each IsStill ts us → Each IsStill ss us
still ss ts us p q = AreStill-trans IsStill IsStill-trans ss ts us p q

if-AreStill :
    (b : Bool) (ss : List Schedule) (x y : Supp × List Schedule × Io)
    → Each IsStill ss x.1
    → Each IsStill ss y.1
    → Each IsStill ss (if b then x else y).1
if-AreStill true ss x y p q = p
if-AreStill false ss x y p q = q

if_pair-AreStill :
    (b : Bool) (ss : List Schedule) (x y : Supp × List Schedule)
    → Each IsStill ss x.1
    → Each IsStill ss y.1
    → Each IsStill ss (if b then x else y).1
if_pair-AreStill true ss x y p q = p
if_pair-AreStill false ss x y p q = q

module _ (fnmatch : Str → Str → Bool) where
  start_one-IsStill :
      (supp : Supp) (s : Schedule) (io : Io) → IsStill s (start_one fnmatch supp s io).0
  unfolding start_one
  start_one-IsStill supp s io = λ off. ground arith

  end_one-IsStill : (supp : Supp) (s : Schedule) → IsStill s (end_one fnmatch supp s)
  unfolding end_one
  end_one-IsStill supp s = λ off. ground arith

  start-AreStill :
      (supp : Supp) (ss : List Schedule) (io : Io)
      → Each IsStill ss (start_schedules fnmatch supp ss io).0
  unfolding start_schedules
  start-AreStill supp [] io = tt
  start-AreStill supp (s ∷ ss) io = (start_one-IsStill supp s io, start-AreStill supp ss _)

  end-AreStill :
      (supp : Supp) (ss : List Schedule) → Each IsStill ss (end_schedules fnmatch supp ss)
  unfolding end_schedules
  end-AreStill supp [] = tt
  end-AreStill supp (s ∷ ss) = (end_one-IsStill supp s, end-AreStill supp ss)

  suppression_start-AreStill :
      (supp : Supp) (ss : List Schedule) (io : Io)
      → Each IsStill ss (suppression_start fnmatch supp ss io).1
  unfolding suppression_start
  suppression_start-AreStill supp ss io =
      if-AreStill _ ss (supp, ss, io) _ (AreStill-refl ss) (start-AreStill supp ss io)

  suppression_end-AreStill :
      (supp : Supp) (ss : List Schedule) → Each IsStill ss (suppression_end fnmatch supp ss).1
  unfolding suppression_end
  suppression_end-AreStill supp ss =
      if_pair-AreStill _ ss (supp, ss) _ (AreStill-refl ss) (end-AreStill supp ss)

  on_start-AreStill :
      (event : Str) (supp : Supp) (ss : List Schedule) (io : Io)
      → Each IsStill ss (on_start fnmatch event supp ss io).1
  unfolding on_start
  on_start-AreStill event supp ss io =
      if-AreStill (names supp.start event && supp_enabled supp.state) ss _ (supp, ss, io)
        (suppression_start-AreStill supp ss io) (AreStill-refl ss)

  on_end-AreStill :
      (event : Str) (supp : Supp) (ss : List Schedule)
      → Each IsStill ss (on_end fnmatch event supp ss).1
  unfolding on_end
  on_end-AreStill event supp ss =
      if_pair-AreStill (names supp.end event && supp_active supp.state) ss _ (supp, ss)
        (suppression_end-AreStill supp ss) (AreStill-refl ss)

  suppress_one-AreStill :
      (event : Str) (supp : Supp) (ss : List Schedule) (io : Io)
      → Each IsStill ss (suppress_one fnmatch event supp ss io).1
  unfolding suppress_one
  suppress_one-AreStill event supp ss io =
      if-AreStill (supp_disabled supp.state) ss (supp, ss, io) _ (AreStill-refl ss)
        (if-AreStill (not (given supp.name)) ss _ _ (AreStill-refl ss)
          (still ss _ _ (on_start-AreStill event supp ss io) (on_end-AreStill event _ _)))

  suppress-AreStill :
      (event : Str) (supps : List Supp) (ss : List Schedule) (io : Io)
      → Each IsStill ss (suppress_cb fnmatch event supps ss io).1
  unfolding suppress_cb
  suppress-AreStill event [] ss io = AreStill-refl ss
  suppress-AreStill event (supp ∷ supps) ss io =
      still ss _ _ (suppress_one-AreStill event supp ss io) (suppress-AreStill event supps _ _)

execute_one-IsStill :
    (lmap : Lmap) (now : ℤ) (event : Event) (ename : Str) (s : Schedule) (io : Io)
    → IsStill s (execute_one lmap now event ename s io).0
unfolding execute_one execute_start
execute_one-IsStill lmap now event ename s io = λ off. ground arith

execute-AreStill :
    (lmap : Lmap) (now : ℤ) (event : Event) (ename : Str) (ss : List Schedule) (io : Io)
    → Each IsStill ss (execute_cb lmap now event ename ss io).0
unfolding execute_cb
execute-AreStill lmap now event ename [] io = tt
execute-AreStill lmap now event ename (s ∷ ss) io =
    (execute_one-IsStill lmap now event ename s io, execute-AreStill lmap now event ename ss _)

settle-IsStill :
    (lmap : Lmap) (s : Schedule) (as_ : List Action) (io : Io)
    → IsStill s (settle_schedule lmap s as_ io).0
unfolding settle_schedule settled
settle-IsStill lmap s as_ io = λ off. ground arith

reap-AreStill :
    (lmap : Lmap) (now : ℤ) (pid : ℕ) (status : Status) (ss : List Schedule) (io : Io)
    → Each IsStill ss (reap_schedules lmap now pid status ss io).0
unfolding reap_schedules
reap-AreStill lmap now pid status [] io = tt
reap-AreStill lmap now pid status (s ∷ ss) io = elim (Bool-cases (has_pid pid s.actions)) [
  | inl hit ↦ rw (hit, reap_schedules) (settle-IsStill lmap s _ _, AreStill-refl ss)
  | inr miss ↦
      rw (miss, reap_schedules) ((λ off. (off, refl)), reap-AreStill lmap now pid status ss io)
]

cleanup-AreStill :
    (now : ℤ) (ended : List (ℕ × Status)) (lmap : Lmap) (io : Io)
    → Each IsStill lmap.schedules (lmapd_cleanup now ended lmap io).0.schedules
unfolding lmapd_cleanup
cleanup-AreStill now [] lmap io = AreStill-refl lmap.schedules
cleanup-AreStill now ((pid, status) ∷ rest) lmap io = elim (Bool-cases (has_ended status)) [
  | inl over ↦
      rw (over, lmapd_cleanup)
        (still lmap.schedules _ _ (reap-AreStill lmap now pid status lmap.schedules io)
          (cleanup-AreStill now rest _ _))
  | inr on ↦ rw (on, lmapd_cleanup) (cleanup-AreStill now rest lmap io)
]

module _ (fnmatch : Str → Str → Bool) where
  step-AreStill :
      (lmap : Lmap) (io : Io) (i : Input)
      → Each IsStill lmap.schedules (step fnmatch (lmap, io) i).0.schedules
  unfolding step fire_cb
  step-AreStill lmap io (fires now event ename) =
      still lmap.schedules _ _ (suppress-AreStill fnmatch ename lmap.supps lmap.schedules io)
        (execute-AreStill _ now event ename _ _)
  step-AreStill lmap io (children now ended) = cleanup-AreStill now ended lmap io

  pub run-AreStill :
      (lmap : Lmap) (io : Io) (is : List Input)
      → Each IsStill lmap.schedules (run fnmatch (lmap, io) is).0.schedules
  unfolding run
  run-AreStill lmap io [] = AreStill-refl lmap.schedules
  run-AreStill lmap io (i ∷ is) =
      let (lmap1, io1) = step fnmatch (lmap, io) i in
      still lmap.schedules lmap1.schedules _ (step-AreStill lmap io i) (run-AreStill lmap1 io1 is)
