-- ===== src/Data/Event/Calendar/Matching.antt =====
-- A calendar event matches a time exactly if each of its six sets holds the time's component.
use simet_lmapd.Base.{
  ℕ, zero, suc, ◌-◌, ◌*◌, ◌^◌, ◌%◌, ◌+◌, ◌≤◌, ◌<◌, ◌≡◌, refl, inl, inr, Bool, true, not, ◌&&◌,
  Option, none, some, bit_and, arith, ◌==◌, if◌then◌else◌, Bool-cases, Option-cases,
}
use native.Mathlib.Nat.{one-le-pow}
use simet_lmapd.Base.Int.{ℤ, pos, negsuc}
use simet_lmapd.Base.Bits.{bit, bit-le-one, bit_and-pow, bit-ones}
use simet_lmapd.Model.{Event}
use simet_lmapd.Data.Event.Calendar.{
  is_calendar, LocalTime, misses, week_day, match_fields, lmap_event_calendar_match,
}

-- A set of numbers below the width of the word.
abbrev pub has : ℕ → ℕ → Bool
has field k = bit field k == 1

one_bit : (b p : ℕ) → b ≤ 1 → 1 ≤ p → (b * p == 0) ≡ not (b == 1)
one_bit zero p h q = ground arith
one_bit (suc zero) p h q = ground arith
one_bit (suc (suc b)) p h q = absurd (omega arith)

has_ones : (w k field : ℕ) → k < w → (field == 2 ^ w - 1) ≡ true → has field k ≡ true
has_ones w k field h full =
    let same : field ≡ 2 ^ w - 1 = ground arith in rw same (rw (bit-ones w k h) refl)

single_bit : (k field : ℕ) → (bit_and (2 ^ k) field == 0) ≡ not (has field k)
single_bit k field =
    rw (bit_and-pow k field)
      (one_bit (bit field k) (2 ^ k) (bit-le-one field k) (one-le-pow k 2 (omega arith)))

misses-has : (w k field : ℕ) → k < w → misses (2 ^ w - 1) k field ≡ not (has field k)
unfolding misses
misses-has w k field h = elim (Bool-cases (field == 2 ^ w - 1)) [
  | inl full ↦ rw full (rw (has_ones w k field h full) refl)
  | inr part ↦ rw part (single_bit k field)
]

-- The components that struct tm holds.
pub record InRange (tm : LocalTime) : Type 0 where
  pub mon_lt : tm.mon < 12
  pub mday_lt : tm.mday < 32
  pub wday_lt : tm.wday < 7
  pub hour_lt : tm.hour < 24
  pub min_lt : tm.min < 60
  pub sec_lt : tm.sec < 61

-- struct tm counts the days of the week from Sunday, the set from Monday.
abbrev pub from_monday : ℕ → ℕ
from_monday wday = (wday + 6) % 7

-- The time's component is in each of the six sets.
abbrev pub in_sets : Event → LocalTime → Bool
in_sets e tm =
    has e.months tm.mon
    && has e.days_of_month tm.mday
    && has e.days_of_week (from_monday tm.wday)
    && has e.hours tm.hour
    && has e.minutes tm.min
    && has e.seconds tm.sec

week_day-from_monday : (d : ℕ) → d < 7 → week_day d ≡ from_monday d
unfolding week_day
week_day-from_monday d h = ground arith

pub from_monday-lt : (d : ℕ) → from_monday d < 8
from_monday-lt d = omega arith

match_fields-in_sets :
    (e : Event) (tm : LocalTime)
    → InRange tm
    → match_fields e tm ≡ (if in_sets e tm then pos 1 else pos 0)
unfolding match_fields
match_fields-in_sets e tm r =
    simp
      (
        misses-has 16 tm.mon e.months (omega arith),
        misses-has 32 tm.mday e.days_of_month (omega arith),
        week_day-from_monday tm.wday r.wday_lt,
        misses-has 8 (from_monday tm.wday) e.days_of_week (from_monday-lt tm.wday),
        misses-has 32 tm.hour e.hours (omega arith),
        misses-has 64 tm.min e.minutes (omega arith),
        misses-has 64 tm.sec e.seconds (omega arith),
      )
      (ground arith)

abbrev pub match_result : Event → Option LocalTime → ℤ
match_result e none = negsuc 0
match_result e (some tm) = if in_sets e tm then pos 1 else pos 0

-- Where localtime yields fields in range: a calendar event matches a local time exactly if its six sets hold the time's month, day of month,
-- day of week (from Monday), hour, minute and second; any other event, and a time with no local
-- form, is an error.
pub calendar_match_iff :
    (localtime : ℤ → Option LocalTime) (e : Event) (now : ℤ)
    → ((tm : LocalTime) → localtime now ≡ some tm → InRange tm)
    → lmap_event_calendar_match localtime e now
      ≡ (if is_calendar e.type then match_result e (localtime now) else negsuc 0)
unfolding lmap_event_calendar_match
calendar_match_iff localtime e now range = elim (Option-cases (localtime now)) [
  | inl bad ↦ rw bad (ground arith)
  | inr (tm, good) ↦ rw good (ground (arith, match_fields-in_sets e tm (range tm good)))
]
