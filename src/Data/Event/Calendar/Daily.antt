-- ===== src/Data/Event/Calendar/Daily.antt =====
-- A calendar event that fires every day at one time, from its configuration to its matches.
use mathlib.Core.Path.{subst}
use mathlib.Core.Option.{some-injective}
use simet_lmapd.Base.{
  ℕ, ◌-◌, ◌^◌, ◌≤◌, ◌≡◌, refl, sym, ◌∙◌, ◌&&◌, ◌∷◌, Option, some, arith, ◌==◌, if◌then◌else◌,
  bit_or,
}
use simet_lmapd.Base.Int.{ℤ, pos, negsuc}
use simet_lmapd.Base.Bits.{zero-bit, bit-ones}
use simet_lmapd.Text.{Str, codes, str_eq}
use simet_lmapd.Text.Number.{IsDigits, decimal}
use simet_lmapd.Model.{Event, calendar}
use simet_lmapd.Data.Event.{lmap_event_new, lmap_event_set_type, find_entry}
use simet_lmapd.Data.Event.Calendar.{
  is_calendar, LocalTime, star, lmap_event_add_month, lmap_event_add_day_of_month,
  lmap_event_add_day_of_week, lmap_event_add_hour, lmap_event_add_minute, lmap_event_add_second,
  lmap_event_calendar_match,
}
use simet_lmapd.Data.Event.Calendar.Matching.{
  has, InRange, match_result, from_monday, from_monday-lt, calendar_match_iff,
}
use simet_lmapd.Data.Event.Calendar.Filling.{add_number_fits, has-bit_or_pow}

-- Every month, day of month and day of week.
every_day : Event
unfolding lmap_event_new lmap_event_set_type lmap_event_add_month lmap_event_add_day_of_month
    lmap_event_add_day_of_week
every_day =
    let e0 = (lmap_event_set_type lmap_event_new (codes "calendar")).0 in
    let e1 = (lmap_event_add_month e0 star).0 in
    let e2 = (lmap_event_add_day_of_month e1 star).0 in (lmap_event_add_day_of_week e2 star).0

pub daily_at : Str → Str → Str → Event
daily_at h m s =
    let e1 = (lmap_event_add_hour every_day h).0 in
    let e2 = (lmap_event_add_minute e1 m).0 in (lmap_event_add_second e2 s).0

every_day-sets :
    (every_day.type ≡ calendar)
    × (every_day.months ≡ 2 ^ 16 - 1)
    × (every_day.days_of_month ≡ 2 ^ 32 - 1)
    × (every_day.days_of_week ≡ 2 ^ 8 - 1)
    × (every_day.hours ≡ 0)
    × (every_day.minutes ≡ 0)
    × (every_day.seconds ≡ 0)
unfolding every_day find_entry str_eq
every_day-sets = (refl, refl, refl, refl, refl, refl, refl)

abbrev Fits : ℕ → ℕ → Str → Type 0
Fits c hi s = IsDigits (c ∷ s) × (decimal (c ∷ s) ≤ hi)

-- The event that `daily_at` builds.
daily_event : ℕ → ℕ → ℕ → Event
daily_event h m s = record every_day {
  hours = bit_or 0 (2 ^ h);
  minutes = bit_or 0 (2 ^ m);
  seconds = bit_or 0 (2 ^ s);
}

add_hour-Fits :
    (e : Event) (c : ℕ) (s : Str)
    → Fits c 23 s
    → (lmap_event_add_hour e (c ∷ s)).0 ≡ record e { hours = bit_or e.hours (2 ^ decimal (c ∷ s)) }
unfolding lmap_event_add_hour
add_hour-Fits e c s f =
    rw (add_number_fits (2 ^ 32 - 1) 0 23 e.hours c s f.0 (omega arith) (ground (arith, f.1))) refl

add_minute-Fits :
    (e : Event) (c : ℕ) (s : Str)
    → Fits c 59 s
    → (lmap_event_add_minute e (c ∷ s)).0
      ≡ record e { minutes = bit_or e.minutes (2 ^ decimal (c ∷ s)) }
unfolding lmap_event_add_minute
add_minute-Fits e c s f =
    rw (add_number_fits (2 ^ 64 - 1) 0 59 e.minutes c s f.0 (omega arith) (ground (arith, f.1)))
      refl

add_second-Fits :
    (e : Event) (c : ℕ) (s : Str)
    → Fits c 59 s
    → (lmap_event_add_second e (c ∷ s)).0
      ≡ record e { seconds = bit_or e.seconds (2 ^ decimal (c ∷ s)) }
unfolding lmap_event_add_second
add_second-Fits e c s f =
    rw (add_number_fits (2 ^ 64 - 1) 0 59 e.seconds c s f.0 (omega arith) (ground (arith, f.1)))
      refl

daily_at-event :
    (h0 m0 s0 : ℕ) (h m s : Str)
    → Fits h0 23 h
    → Fits m0 59 m
    → Fits s0 59 s
    → daily_at (h0 ∷ h) (m0 ∷ m) (s0 ∷ s)
      ≡ daily_event (decimal (h0 ∷ h)) (decimal (m0 ∷ m)) (decimal (s0 ∷ s))
unfolding daily_at daily_event
daily_at-event h0 m0 s0 h m s fh fm fs =
    let sets = every_day-sets in
    rw (add_hour-Fits every_day h0 h fh, daily_at)
      (rw (add_minute-Fits _ m0 m fm)
        (rw (add_second-Fits _ s0 s fs) (rw (sets.4, sets.5, sets.6) refl)))

has-single : (v k : ℕ) → has (bit_or 0 (2 ^ v)) k ≡ (v == k)
has-single v k = has-bit_or_pow 0 v k ∙ rw (zero-bit k) refl

daily_sets :
    (h m s : ℕ) (tm : LocalTime)
    → InRange tm
    → (if is_calendar (daily_event h m s).type
        then match_result (daily_event h m s) (some tm)
        else negsuc 0)
      ≡ (if h == tm.hour && m == tm.min && s == tm.sec then pos 1 else pos 0)
unfolding daily_event
daily_sets h m s tm r =
    let sets = every_day-sets in
    rw (sets.0, sets.1, sets.2, sets.3)
      (rw
        (
          bit-ones 16 tm.mon (omega arith),
          bit-ones 32 tm.mday r.mday_lt,
          bit-ones 8 (from_monday tm.wday) (from_monday-lt tm.wday),
          has-single h tm.hour,
          has-single m tm.min,
          has-single s tm.sec,
        )
        refl)

in_range :
    (localtime : ℤ → Option LocalTime) (now : ℤ) (tm : LocalTime)
    → localtime now ≡ some tm
    → InRange tm
    → (t : LocalTime) → localtime now ≡ some t
    → InRange t
in_range localtime now tm e r t f = subst InRange (some-injective tm t (sym e ∙ f)) r

-- An event of every day with an hour, a minute and a second in range matches a local time in range exactly
-- if it has that hour, minute and second.
pub daily_match :
    (localtime : ℤ → Option LocalTime) (now : ℤ) (tm : LocalTime) (h0 m0 s0 : ℕ) (h m s : Str)
    → localtime now ≡ some tm
    → InRange tm
    → IsDigits (h0 ∷ h) × (decimal (h0 ∷ h) ≤ 23)
    → IsDigits (m0 ∷ m) × (decimal (m0 ∷ m) ≤ 59)
    → IsDigits (s0 ∷ s) × (decimal (s0 ∷ s) ≤ 59)
    → lmap_event_calendar_match localtime (daily_at (h0 ∷ h) (m0 ∷ m) (s0 ∷ s)) now ≡ (
        if decimal (h0 ∷ h) == tm.hour && decimal (m0 ∷ m) == tm.min && decimal (s0 ∷ s) == tm.sec
        then pos 1
        else pos 0)
daily_match localtime now tm h0 m0 s0 h m s here range fh fm fs =
    rw (daily_at-event h0 m0 s0 h m s fh fm fs) (
      calendar_match_iff localtime _ now (in_range localtime now tm here range)
      ∙ rw here (daily_sets _ _ _ tm range))
