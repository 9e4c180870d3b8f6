-- ===== src/Data/Event/Calendar.antt =====
-- The calendar fields of struct event in src/data.c, which are bit sets, and the match of a time.
use simet_lmapd.Base.{
  ℕ, ◌+◌, ◌-◌, ◌^◌, Bool, true, false, not, ◌&&◌, ◌||◌, List, [], ◌∷◌, Option, none, some, bit_and,
  bit_or, ltb, ◌==◌, if◌then◌else◌,
}
use simet_lmapd.Base.Int.{ℤ, pos, negsuc, ltb_ℤ, pos_part}
use simet_lmapd.Text.{Str, codes, str_eq}
use simet_lmapd.Model.{Event, EventType, calendar, Rc, done, failed, is_done}
use simet_lmapd.Data.Scalar.{set_int32, uint32_max, uint64_max}
use simet_lmapd.Data.Event.{find_entry}
pub mod Matching
pub mod Filling
pub mod Daily

abbrev pub uint8_max : ℕ
uint8_max = 2 ^ 8 - 1

abbrev pub uint16_max : ℕ
uint16_max = 2 ^ 16 - 1

abbrev pub star : Str
star = codes "*"

abbrev pub months_table : List (Str × ℕ)
months_table =
    (star, uint16_max)
    ∷ (codes "january", 2 ^ 0)
    ∷ (codes "february", 2 ^ 1)
    ∷ (codes "march", 2 ^ 2)
    ∷ (codes "april", 2 ^ 3)
    ∷ (codes "may", 2 ^ 4)
    ∷ (codes "june", 2 ^ 5)
    ∷ (codes "july", 2 ^ 6)
    ∷ (codes "august", 2 ^ 7)
    ∷ (codes "september", 2 ^ 8)
    ∷ (codes "october", 2 ^ 9)
    ∷ (codes "november", 2 ^ 10)
    ∷ (codes "december", 2 ^ 11)
    ∷ []

abbrev pub days_table : List (Str × ℕ)
days_table =
    (star, uint8_max)
    ∷ (codes "monday", 2 ^ 0)
    ∷ (codes "tuesday", 2 ^ 1)
    ∷ (codes "wednesday", 2 ^ 2)
    ∷ (codes "thursday", 2 ^ 3)
    ∷ (codes "friday", 2 ^ 4)
    ∷ (codes "saturday", 2 ^ 5)
    ∷ (codes "sunday", 2 ^ 6)
    ∷ []

-- The operands of `|=` fit the field's width, so the assignment loses no bit.
unfoldable pub lmap_event_add_month : Event → Str → Event × Rc
unfolding find_entry
lmap_event_add_month event value = elim (find_entry months_table value) [
  | none ↦ (event, failed)
  | some m ↦ (record event { months = bit_or event.months m }, done)
]

unfoldable pub lmap_event_add_day_of_week : Event → Str → Event × Rc
unfolding find_entry
lmap_event_add_day_of_week event value = elim (find_entry days_table value) [
  | none ↦ (event, failed)
  | some d ↦ (record event { days_of_week = bit_or event.days_of_week d }, done)
]

-- `set_int32(&val, value) == -1 || val < lo || val > hi`: the number, or none.
unfoldable pub int_in_range : ℕ → ℕ → Str → Option ℕ
unfolding set_int32
int_in_range lo hi value =
    let (val, rc) = set_int32 (pos 0) value in
    if not (is_done rc) || ltb_ℤ val (pos lo) || ltb_ℤ (pos hi) val
    then none
    else some (pos_part val)

-- The common body of the numeric fields: the new set, or none.
unfoldable pub add_number : ℕ → ℕ → ℕ → ℕ → Str → Option ℕ
unfolding int_in_range
add_number all_ones lo hi set value =
    if str_eq value star
    then some all_ones
    else elim (int_in_range lo hi value) [ none ↦ none | some v ↦ some (bit_or set (2 ^ v)) ]

abbrev pub store_set : Event → (ℕ → Event) → Option ℕ → Event × Rc
store_set event f none = (event, failed)
store_set event f (some v) = (f v, done)

unfoldable pub lmap_event_add_day_of_month : Event → Str → Event × Rc
unfolding add_number
lmap_event_add_day_of_month e value =
    store_set e (λ v. record e { days_of_month = v })
      (add_number uint32_max 1 31 e.days_of_month value)

unfoldable pub lmap_event_add_hour : Event → Str → Event × Rc
unfolding add_number
lmap_event_add_hour e value =
    store_set e (λ v. record e { hours = v }) (add_number uint32_max 0 23 e.hours value)

unfoldable pub lmap_event_add_minute : Event → Str → Event × Rc
unfolding add_number
lmap_event_add_minute e value =
    store_set e (λ v. record e { minutes = v }) (add_number uint64_max 0 59 e.minutes value)

unfoldable pub lmap_event_add_second : Event → Str → Event × Rc
unfolding add_number
lmap_event_add_second e value =
    store_set e (λ v. record e { seconds = v }) (add_number uint64_max 0 59 e.seconds value)

-- The fields of struct tm that are read.
pub record LocalTime : Type 0 where
  pub sec : ℕ
  pub min : ℕ
  pub hour : ℕ
  pub mday : ℕ
  pub mon : ℕ
  pub wday : ℕ

-- `field != MAX && !((1 << k) & field)`
unfoldable pub misses : ℕ → ℕ → ℕ → Bool
misses all_ones k field = not (field == all_ones) && bit_and (2 ^ k) field == 0

-- Weeks start on Sunday in struct tm and on Monday here.
unfoldable pub week_day : ℕ → ℕ
week_day wday = if wday == 0 then 6 else wday - 1

unfoldable pub match_fields : Event → LocalTime → ℤ
unfolding misses week_day
match_fields e tm =
    if misses uint16_max tm.mon e.months
    then pos 0
    else if misses uint32_max tm.mday e.days_of_month
    then pos 0
    else if misses uint8_max (week_day tm.wday) e.days_of_week
    then pos 0
    else if misses uint32_max tm.hour e.hours
    then pos 0
    else if misses uint64_max tm.min e.minutes
    then pos 0
    else if misses uint64_max tm.sec e.seconds
    then pos 0
    else pos 1

abbrev pub is_calendar : EventType → Bool
is_calendar calendar = true
is_calendar _ = false

-- `localtime` is the C library's, with the time zone of the host.
unfoldable pub lmap_event_calendar_match : (ℤ → Option LocalTime) → Event → ℤ → ℤ
unfolding match_fields
lmap_event_calendar_match localtime e now =
    if not (is_calendar e.type)
    then negsuc 0
    else elim (localtime now) [ none ↦ negsuc 0 | some tm ↦ match_fields e tm ]
