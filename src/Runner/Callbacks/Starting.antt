-- ===== src/Runner/Callbacks/Starting.antt =====
-- When an event starts a schedule.
use simet_lmapd.Base.{
  ℕ, ◌+◌, ◌*◌, ◌/◌, ◌≤◌, ◌<◌, ◌≡◌, refl, sym, ap, ◌∙◌, ◌≢◌, ◌⊎◌, inl, inr, true, false, not, arith,
  Bool-cases,
}
use simet_lmapd.Base.Int.{ℤ, pos}
use simet_lmapd.Text.{Str}
use simet_lmapd.Model.{
  Schedule, Event, Lmap, enabled, disabled, is_disabled, is_running, is_suppressed, incr32,
}
use simet_lmapd.Data.Validity.{given}
use simet_lmapd.Runner.{Io}
use simet_lmapd.Runner.Suppression.{names}
use simet_lmapd.Runner.Callbacks.{truncate_to, cycle_number_of, start_now, execute_start}

start_now-silent :
    (lmap : Lmap) (now : ℤ) (event : Event) (s : Schedule) (io : Io)
    → is_disabled s.state ≡ false
    → (s.state ≡ enabled)
      ⊎ ((s' : Schedule) × (start_now lmap now event s io ≡ (s', false, io))
          × (s' ≡ record s {
            cnt_suppressions = s'.cnt_suppressions;
            cnt_overlaps = s'.cnt_overlaps;
          }))
unfolding start_now
start_now-silent lmap now event s io on = elim (Bool-cases (is_suppressed s.state)) [
  | inl held ↦
      inr
        (record s { cnt_suppressions = incr32 s.cnt_suppressions }, rw (held, start_now) refl, refl)
  | inr free ↦ elim (Bool-cases (is_running s.state)) [
    | inl busy ↦
        inr
          (record s { cnt_overlaps = incr32 s.cnt_overlaps }, rw (free, busy, start_now) refl, refl)
    | inr idle ↦ inl (ground arith)
  ]
]

-- An event makes a call for the start of a schedule only if the schedule is enabled and the event is
-- its start; otherwise nothing outside the schedule changes, the startup is not marked as done, and of
-- the schedule at most its state (to disabled, if it has no name) and two counters.
pub execute_start-silent :
    (lmap : Lmap) (now : ℤ) (event : Event) (ename : Str) (s : Schedule) (io : Io)
    → ((s.state ≡ enabled) × (names s.start ename ≡ true))
      ⊎ ((s' : Schedule) × (execute_start lmap now event ename s io ≡ (s', false, io))
          × (s' ≡ record s {
            state = s'.state;
            cnt_suppressions = s'.cnt_suppressions;
            cnt_overlaps = s'.cnt_overlaps;
          }))
unfolding execute_start
execute_start-silent lmap now event ename s io = elim (Bool-cases (is_disabled s.state)) [
  | inl off ↦ inr (s, rw (off, execute_start) refl, refl)
  | inr on ↦ elim (Bool-cases (not (given s.name))) [
    | inl bad ↦ inr (record s { state = disabled }, rw (on, bad, execute_start) refl, refl)
    | inr ok ↦ elim (Bool-cases (names s.start ename)) [
      | inr other ↦ inr (s, rw (on, ok, other, execute_start) refl, refl)
      | inl hit ↦ elim (start_now-silent lmap now event s io on) [
        | inl e ↦ inl (e, hit)
        | inr (s', e, k) ↦ inr (
          s',
          rw (on, ok, hit, e, execute_start) refl,
          k
              ∙ ap
                  (λ x. record s {
                    state = x;
                    cnt_suppressions = s'.cnt_suppressions;
                    cnt_overlaps = s'.cnt_overlaps;
                  })
                  (sym (ap (λ x. x.state) k)),
        )
      ]
    ]
  ]
]

-- The cycle number at a time that is not negative is the last multiple of the cycle interval up to it.
pub cycle_number_of_lem :
    (event : Event) (t : ℕ)
    → event.cycle_interval_set ≡ true
    → event.cycle_interval ≢ 0
    → (q : ℕ) × (cycle_number_of event (pos t) ≡ pos (q * event.cycle_interval))
      × (q * event.cycle_interval ≤ t)
      × (t < (q + 1) * event.cycle_interval)
unfolding cycle_number_of truncate_to
cycle_number_of_lem event t h n = (t / event.cycle_interval, ground arith, grind arith, grind arith)
