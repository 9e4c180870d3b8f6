-- ===== src/Data/Event/Intervals.antt =====
-- The interval and the random spread of an event.
use simet_lmapd.Base.{ℕ, ◌<◌, ◌≡◌, true, ◌∷◌, arith, leb, if◌then◌else◌}
use simet_lmapd.Text.{Str}
use simet_lmapd.Text.Number.{IsDigits, decimal}
use simet_lmapd.Model.{Event, done, failed}
use simet_lmapd.Data.Scalar.{uint32_max}
use simet_lmapd.Data.Scalar.Numbers.{set_uint32_digits}
use simet_lmapd.Data.Event.{lmap_event_set_interval, lmap_event_set_random_spread, rand_max}

-- Setting the interval to a decimal number, by the number's size: the numbers from 1 to 2^32 - 1
-- are accepted, a larger one changes nothing, and zero is stored although it is refused.
pub set_interval_digits :
    (e : Event) (c : ℕ) (s : Str)
    → IsDigits (c ∷ s)
    → lmap_event_set_interval e (c ∷ s) ≡ (
        if leb (decimal (c ∷ s)) 0
        then (record e { interval = 0 }, failed)
        else if leb (decimal (c ∷ s)) uint32_max
        then (record e { interval = decimal (c ∷ s); interval_set = true }, done)
        else (e, failed))
unfolding lmap_event_set_interval
set_interval_digits e c s h = ground (arith, set_uint32_digits e.interval c s h)

-- The spread of every event that the setter accepts is below RAND_MAX.
pub random_spread_bound :
    (e : Event) (value : Str)
    → (lmap_event_set_random_spread e value).1 ≡ done
    → ((lmap_event_set_random_spread e value).0.random_spread < rand_max)
      × ((lmap_event_set_random_spread e value).0.random_spread_set ≡ true)
unfolding lmap_event_set_random_spread
random_spread_bound e value h = ground arith
