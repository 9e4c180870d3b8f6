-- ===== src/Runner/Suppression/Refinement.antt =====
-- The counters refine the set of active suppressions, across every call of `suppress_cb`.
use mathlib.Core.Path.{subst, fun_ext}
use simet_lmapd.Base.{
  ℕ, suc, ap, ◌+◌, ◌<◌, ◌^◌, ◌≡◌, refl, inl, inr, Bool, true, not, ◌&&◌, ◌||◌, List, [], ◌∷◌, arith,
  All, length, Bool-cases,
}
use simet_lmapd.Text.{Str}
use simet_lmapd.Model.{Tag, Schedule, Supp}
use simet_lmapd.Data.Validity.{given}
use simet_lmapd.Runner.{Io}
use simet_lmapd.Runner.Suppression.{
  supp_active, supp_enabled, supp_disabled, names, is_null, suppression_start, suppression_end,
  on_start, on_end, suppress_one, suppress_cb,
}
use simet_lmapd.Runner.Suppression.Counting.{
  holds, active_count, active_count-le, ScheduleCounts, plus, Small, start_schedules-Counts,
  end_schedules-Counts,
}

module _ (fnmatch : Str → Str → Bool) where
  abbrev Counts : (List Tag → ℕ) → List Schedule → Type 0
  Counts m = All (ScheduleCounts fnmatch m)

  same-Counts :
      (m n : List Tag → ℕ) (ss : List Schedule)
      → ((tags : List Tag) → m tags ≡ n tags)
      → Counts m ss
      → Counts n ss
  same-Counts m n ss h c = subst (λ (f : List Tag → ℕ). Counts f ss) (fun_ext h) c

  -- The count with the suppression added if it is active.
  abbrev with_supp : (List Tag → ℕ) → Supp → List Tag → ℕ
  with_supp m p tags = m tags + holds fnmatch p tags

  on_start-Counts :
      (m : List Tag → ℕ) (event : Str) (p : Supp) (ss : List Schedule) (io : Io)
      → Small (plus fnmatch m p)
      → Counts (with_supp m p) ss
      → let (p', ss', io') = on_start fnmatch event p ss io in Counts (with_supp m p') ss'
  unfolding on_start suppression_start
  on_start-Counts m event p ss io b c =
      elim (Bool-cases (names p.start event && supp_enabled p.state)) [
        | inr skip ↦ rw (skip, on_start) c
        | inl go ↦
            rw (go, on_start)
              (elim (Bool-cases (is_null p.match || not (given p.name))) [
                | inl early ↦ rw (early, suppression_start) c
                | inr now ↦
                    rw (now, suppression_start)
                      (same-Counts (plus fnmatch m p) _ _ (λ tags. ground arith)
                        (start_schedules-Counts fnmatch m p ss io b
                          (same-Counts (with_supp m p) m ss (λ tags. ground arith) c)))
              ])
      ]

  on_end-Counts :
      (m : List Tag → ℕ) (event : Str) (p : Supp) (ss : List Schedule)
      → Counts (with_supp m p) ss
      → let (p', ss') = on_end fnmatch event p ss in Counts (with_supp m p') ss'
  unfolding on_end suppression_end
  on_end-Counts m event p ss c = elim (Bool-cases (names p.end event && supp_active p.state)) [
    | inr skip ↦ rw (skip, on_end) c
    | inl go ↦
        rw (go, on_end)
          (elim (Bool-cases (is_null p.match || not (given p.name))) [
            | inl early ↦ rw (early, suppression_end) c
            | inr now ↦
                rw (now, suppression_end)
                  (same-Counts m _ _ (λ tags. ground arith)
                    (end_schedules-Counts fnmatch m p ss
                      (same-Counts (with_supp m p) (plus fnmatch m p) ss (λ tags. ground arith) c)))
          ])
  ]

  suppress_one-Counts :
      (m : List Tag → ℕ) (event : Str) (p : Supp) (ss : List Schedule) (io : Io)
      → given p.name ≡ true
      → Small (plus fnmatch m p)
      → Counts (with_supp m p) ss
      → let (p', ss', io') = suppress_one fnmatch event p ss io in Counts (with_supp m p') ss'
  unfolding suppress_one
  suppress_one-Counts m event p ss io n b c = elim (Bool-cases (supp_disabled p.state)) [
    | inl off ↦ rw (off, suppress_one) c
    | inr on ↦
        rw (on, n, suppress_one) (on_end-Counts m event _ _ (on_start-Counts m event p ss io b c))
  ]

  abbrev pub IsNamed : Supp → Type 0
  IsNamed p = given p.name ≡ true

  suppress_one-IsNamed :
      (event : Str) (p : Supp) (ss : List Schedule) (io : Io)
      → IsNamed p
      → IsNamed (suppress_one fnmatch event p ss io).0
  unfolding suppress_one on_start on_end suppression_start suppression_end
  suppress_one-IsNamed event p ss io h = ground arith

  pub suppress_cb-IsNamed :
      (event : Str) (ps : List Supp) (ss : List Schedule) (io : Io)
      → All IsNamed ps
      → All IsNamed (suppress_cb fnmatch event ps ss io).0
  unfolding suppress_cb
  suppress_cb-IsNamed event [] ss io h = tt
  suppress_cb-IsNamed event (p ∷ ps) ss io h =
      (suppress_one-IsNamed event p ss io h.0, suppress_cb-IsNamed event ps _ _ h.1)

  pub length-suppress_cb :
      (event : Str) (ps : List Supp) (ss : List Schedule) (io : Io)
      → length (suppress_cb fnmatch event ps ss io).0 ≡ length ps
  unfolding suppress_cb
  length-suppress_cb event [] ss io = refl
  length-suppress_cb event (p ∷ ps) ss io = ap suc (length-suppress_cb event ps _ _)

  -- The count of the suppressions in a list, on top of `k`.
  abbrev on_top : (List Tag → ℕ) → List Supp → List Tag → ℕ
  on_top k ps tags = k tags + active_count fnmatch ps tags

  loop-Counts :
      (k : List Tag → ℕ) (event : Str) (ps : List Supp) (ss : List Schedule) (io : Io)
      → All IsNamed ps
      → ((tags : List Tag) → k tags + length ps < 2 ^ 32)
      → Counts (on_top k ps) ss
      → let (ps', ss', io') = suppress_cb fnmatch event ps ss io in Counts (on_top k ps') ss'
  unfolding suppress_cb
  loop-Counts k event [] ss io n b c = c
  loop-Counts k event (p ∷ ps) ss io n b c =
      let (p1, ss1, io1) = suppress_one fnmatch event p ss io in
      let step : Counts (with_supp (on_top k ps) p1) ss1 =
        suppress_one-Counts (on_top k ps) event p ss io n.0
          (λ tags. ground (arith, b tags, active_count-le fnmatch ps tags))
          (same-Counts (on_top k (p ∷ ps)) (with_supp (on_top k ps) p) ss (λ tags. omega arith)
            c) in
      let (ps', ss', io') = suppress_cb fnmatch event ps ss1 io1 in
      same-Counts (on_top (with_supp k p1) ps') (on_top k (p1 ∷ ps')) ss' (λ tags. omega arith)
        (loop-Counts (with_supp k p1) event ps ss1 io1 n.1 (λ tags. ground (arith, b tags))
          (same-Counts (with_supp (on_top k ps) p1) (on_top (with_supp k p1) ps) ss1
            (λ tags. omega arith) step))

  -- Every schedule and every action that is not disabled counts, of the suppressions, the active ones
  -- that match it, across an event.
  pub suppress_cb-Counts :
      (event : Str) (ps : List Supp) (ss : List Schedule) (io : Io)
      → All IsNamed ps
      → length ps < 2 ^ 32
      → All (ScheduleCounts fnmatch (active_count fnmatch ps)) ss
      → let (ps', ss', io') = suppress_cb fnmatch event ps ss io in
        All (ScheduleCounts fnmatch (active_count fnmatch ps')) ss'
  suppress_cb-Counts event ps ss io n b c =
      let (ps', ss', io') = suppress_cb fnmatch event ps ss io in
      same-Counts (on_top (λ _. 0) ps') (active_count fnmatch ps') ss' (λ tags. omega arith)
        (loop-Counts (λ _. 0) event ps ss io n (λ tags. omega arith)
          (same-Counts (active_count fnmatch ps) (on_top (λ _. 0) ps) ss (λ tags. omega arith) c))
