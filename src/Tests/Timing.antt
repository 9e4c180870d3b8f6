-- ===== src/Tests/Timing.antt =====
-- The timers and the control of src/runner.c at concrete inputs.
use simet_lmapd.Base.{
  ℕ, ◌+◌, ◌-◌, ◌*◌, ◌≤◌, ◌<◌, ◌≡◌, ◌⊎◌, refl, true, false, List, [], ◌∷◌, ◌++◌, none, some, arith,
  All,
}
use simet_lmapd.Base.Int.{pos, ◌+ℤ◌, ltb_ℤ}
use simet_lmapd.Model.{Event}
use simet_lmapd.Data.Event.{rand_max}
use simet_lmapd.Runner.Random.{rand_interval, limit_of, buckets_of, rand_interval_lem}
use simet_lmapd.Runner.Timers.{periodic_delay}
use simet_lmapd.Runner.Timers.Arming.{periodic_delay_lem}
use simet_lmapd.Runner.Control.{Daemon, on_signal, sigterm, sighup}
use simet_lmapd.Runner.Control.Stopping.{AllSignalled, signals_reach_children}
use simet_lmapd.Tests.Fixtures.{running_schedule, running_lmap, tick_event, once_event, two_forks}

periodic_delay_lem_example :
    (k : ℕ) × (d : ℕ) × (periodic_delay (pos 4600) tick_event ≡ pos d)
    × (pos 4600 +ℤ pos d ≡ pos 1000 +ℤ pos (k * 3600))
    × (((ltb_ℤ (pos 1000) (pos 4600) ≡ false) × (k ≡ 0))
        ⊎ ((ltb_ℤ (pos 1000) (pos 4600) ≡ true) × (0 < d) × (d ≤ 3600)))
periodic_delay_lem_example = periodic_delay_lem (pos 4600) tick_event refl (ground arith)

-- A one-off event of the past without a random spread.
abbrev past_event : Event
past_event = record once_event { random_spread_set = false }

rand_interval_lem_example :
    (rand_max < limit_of 0 60 + (1 + 60 - 0))
    × ((All (λ r. limit_of 0 60 ≤ r) (4711 ∷ []) × (rand_interval 0 60 (4711 ∷ []) ≡ none))
        ⊎ ((before : List ℕ) × (r : ℕ) × (rest : List ℕ) × (k : ℕ) × (4711 ∷ []
              ≡ before ++ r ∷ rest)
            × All (λ x. limit_of 0 60 ≤ x) before
            × (r < limit_of 0 60)
            × (rand_interval 0 60 (4711 ∷ []) ≡ some (0 + k))
            × (0 + k ≤ 60)
            × (k * buckets_of 0 60 ≤ r)
            × (r < (k + 1) * buckets_of 0 60)))
rand_interval_lem_example = rand_interval_lem 0 60 (4711 ∷ []) (omega arith) (omega arith)

abbrev daemon : Daemon
daemon = record {
  lmap = some running_lmap;
  flags = record { restart = false; skip_startup = false; startup_done = true };
  looping = true;
}

signals_reach_children_example :
    let (d1, io1) = on_signal sigterm daemon two_forks in
    let (d2, io2) = on_signal sighup daemon two_forks in
    (All (AllSignalled io1) (running_schedule ∷ [])
      × (d1.looping ≡ false)
      × (d1.flags.restart ≡ false))
    × All (AllSignalled io2) (running_schedule ∷ [])
    × (d2.looping ≡ false)
    × (d2.flags.restart ≡ true)
signals_reach_children_example = signals_reach_children daemon running_lmap two_forks refl
