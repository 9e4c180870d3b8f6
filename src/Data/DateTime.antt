-- ===== src/Data/DateTime.antt =====
-- set_dateandtime of src/data.c, over strptime("%Y-%m-%dT%T") and timegm() of the GNU C library.
use simet_lmapd.Base.{
  ℕ, zero, suc, ◌+◌, ◌-◌, ◌*◌, ◌/◌, ◌%◌, Bool, true, false, not, ◌&&◌, ◌||◌, List, [], ◌∷◌, Option,
  none, some, leb, ltb, ◌==◌, if◌then◌else◌,
}
use simet_lmapd.Base.Int.{ℤ, pos, negsuc, sub_ℕ, ◌-ℤ◌, ◌*ℤ◌}
use simet_lmapd.Text.{Str, isdigit, skip_space}
use simet_lmapd.Model.{Rc, done, failed}
use simet_lmapd.Data.Scalar.{set_timezoneoffset}
pub mod Offsets

-- The fields of struct tm that the format fills in; `year` counts from year 0, `mon` from 1.
pub record DateFields : Type 0 where
  pub year : ℕ
  pub mon : ℕ
  pub mday : ℕ
  pub hour : ℕ
  pub min : ℕ
  pub sec : ℕ

-- Up to n more digits, while ten times the value is within `to`.
unfoldable pub more_digits : ℕ → ℕ → ℕ → Str → ℕ × Str
more_digits zero to v s = (v, s)
more_digits (suc n) to v [] = (v, [])
more_digits (suc n) to v (c ∷ s) = elim (leb (v * 10) to && isdigit c) [
  | true ↦ more_digits n to (v * 10 + (c - 48)) s
  | false ↦ (v, c ∷ s)
]

unfoldable pub first_digit : ℕ → ℕ → ℕ → Str → Option (ℕ × Str)
unfolding more_digits
first_digit lo to n [] = none
first_digit lo to n (c ∷ s) =
    let (v, rest) = more_digits n to (c - 48) s in
    if isdigit c && leb lo v && leb v to then some (v, rest) else none

-- A number of at most n + 1 digits from `lo` to `to`, after white space.
unfoldable pub get_number : ℕ → ℕ → ℕ → Str → Option (ℕ × Str)
unfolding skip_space first_digit
get_number lo to n s = first_digit lo to n (skip_space s)

unfoldable pub expect : ℕ → Str → Option Str
expect k [] = none
expect k (c ∷ s) = if c == k then some s else none

infixl 5 ◌>>=◌
abbrev ◌>>=◌ {ℓ κ} : {A : Type ℓ} {B : Type κ} → Option A → (A → Option B) → Option B
none >>= f = none
some a >>= f = f a

-- strptime(s, "%Y-%m-%dT%T", &tm): the fields and the rest of the string.
unfoldable pub strptime : Str → Option (DateFields × Str)
unfolding get_number expect
strptime s = do
  (y, s1) ← get_number 0 9999 3 s
  s2 ← expect b'-' s1
  (mo, s3) ← get_number 1 12 1 s2
  s4 ← expect b'-' s3
  (d, s5) ← get_number 1 31 1 s4
  s6 ← expect b'T' s5
  (h, s7) ← get_number 0 23 1 s6
  s8 ← expect b':' s7
  (mi, s9) ← get_number 0 59 1 s8
  s10 ← expect b':' s9
  (se, s11) ← get_number 0 61 1 s10
  some (record { year = y; mon = mo; mday = d; hour = h; min = mi; sec = se }, s11)

unfoldable pub is_leap : ℕ → Bool
is_leap y = y % 4 == 0 && not (y % 100 == 0) || y % 400 == 0

-- Days from the start of year 0 to the start of year y.
unfoldable pub days_before_year : ℕ → ℕ
days_before_year y = 365 * y + (y + 3) / 4 + (y + 399) / 400 - (y + 99) / 100

-- Days before month m of a common year.
unfoldable pub days_before_month : ℕ → ℕ
days_before_month m =
    if m == 2
    then 31
    else if m == 3
    then 59
    else if m == 4
    then 90
    else if m == 5
    then 120
    else if m == 6
    then 151
    else if m == 7
    then 181
    else if m == 8
    then 212
    else if m == 9
    then 243
    else if m == 10
    then 273
    else if m == 11
    then 304
    else if m == 12
    then 334
    else 0

unfoldable pub day_number : DateFields → ℕ
unfolding is_leap days_before_year days_before_month
day_number t =
    days_before_year t.year
    + days_before_month t.mon
    + (t.mday - 1)
    + (if ltb 2 t.mon && is_leap t.year then 1 else 0)

-- timegm(): seconds since 1970-01-01, which is day 719528.
unfoldable pub timegm : DateFields → ℤ
unfolding day_number
timegm t = sub_ℕ (day_number t * 86400 + t.hour * 3600 + t.min * 60 + t.sec) (719528 * 86400)

abbrev pub is_minus_one : ℤ → Bool
is_minus_one (pos n) = false
is_minus_one (negsuc n) = n == 0

-- The end of `set_dateandtime`, for the fields that strptime filled in and an offset in minutes.
unfoldable pub store_time : ℤ → DateFields → ℤ × Rc → ℤ × Rc
unfolding timegm
store_time tp t (offset, failed) = (tp, failed)
store_time tp t (offset, done) =
    if is_minus_one (timegm t) then (tp, failed) else (timegm t -ℤ offset *ℤ pos 60, done)

unfoldable pub set_dateandtime : ℤ → Str → ℤ × Rc
unfolding strptime set_timezoneoffset store_time
set_dateandtime tp s = elim (strptime s) [
  | none ↦ (tp, failed)
  | some (t, rest) ↦ store_time tp t (set_timezoneoffset (pos 0) rest)
]
