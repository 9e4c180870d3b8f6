-- ===== src/Data/DateTime/Offsets.antt =====
-- A time with an offset denotes the instant that its local time reads, less the offset.
use simet_lmapd.Base.{ℕ, ◌+◌, ◌*◌, ◌/◌, ◌%◌, ◌≤◌, ◌≡◌, refl, Bool, ◌∷◌, some, arith, if◌then◌else◌}
use simet_lmapd.Base.Int.{ℤ, pos, ◌-ℤ◌, ◌*ℤ◌}
use simet_lmapd.Text.{Str, negated}
use simet_lmapd.Model.{done, failed}
use simet_lmapd.Data.Scalar.Timezone.{format_offset, timezone_round_trip}
use simet_lmapd.Data.DateTime.{
  DateFields, get_number, expect, strptime, timegm, is_minus_one, set_dateandtime,
}

-- Two digits.
abbrev pub two : ℕ → Str → Str
two n s = (n / 10 + 48) ∷ (n % 10 + 48) ∷ s

-- YYYY-MM-DDTHH:MM:SS in front of a rest.
abbrev pub format_date : DateFields → Str → Str
format_date t rest = two (t.year / 100) (
    two (t.year % 100) (
      b'-'
      ∷ two t.mon
          (b'-' ∷ two t.mday (b'T' ∷ two t.hour (b':' ∷ two t.min (b':' ∷ two t.sec rest))))))

-- The ranges that the format accepts.
pub record IsDate (t : DateFields) : Type 0 where
  pub year_le : t.year ≤ 9999
  pub mon_ge : 1 ≤ t.mon
  pub mon_le : t.mon ≤ 12
  pub mday_ge : 1 ≤ t.mday
  pub mday_le : t.mday ≤ 31
  pub hour_le : t.hour ≤ 23
  pub min_le : t.min ≤ 59
  pub sec_le : t.sec ≤ 61

get_number-two :
    (lo to v : ℕ) (s : Str)
    → lo ≤ v
    → v ≤ to
    → to ≤ 99
    → 10 ≤ to
    → get_number lo to 1 (two v s) ≡ some (v, s)
unfolding get_number
get_number-two lo to v s p q r h = ground arith

get_number-year :
    (y : ℕ) (s : Str)
    → y ≤ 9999
    → get_number 0 9999 3 (two (y / 100) (two (y % 100) s)) ≡ some (y, s)
unfolding get_number
get_number-year y s h = ground arith

strptime-format_date :
    (t : DateFields) (rest : Str) → IsDate t → strptime (format_date t rest) ≡ some (t, rest)
unfolding expect strptime
strptime-format_date t rest d =
    rw
      (
        get_number-year t.year _ d.year_le,
        get_number-two 1 12 t.mon _ d.mon_ge d.mon_le (omega arith) (omega arith),
        get_number-two 1 31 t.mday _ d.mday_ge d.mday_le (omega arith) (omega arith),
        get_number-two 0 23 t.hour _ (omega arith) d.hour_le (omega arith) (omega arith),
        get_number-two 0 59 t.min _ (omega arith) d.min_le (omega arith) (omega arith),
        get_number-two 0 61 t.sec _ (omega arith) d.sec_le (omega arith) (omega arith),
        strptime,
      )
      refl

-- A date and time in the ranges of the format, printed with its offset [+-]HH:MM, is read as its seconds since the epoch, less the
-- offset, and refused only if its local reading is the second before the epoch.
pub date_round_trip :
    (tp : ℤ) (t : DateFields) (neg : Bool) (h m : ℕ)
    → IsDate t
    → h ≤ 23
    → m ≤ 59
    → set_dateandtime tp (format_date t (format_offset neg h m)) ≡ (
        if is_minus_one (timegm t)
        then (tp, failed)
        else (timegm t -ℤ (if neg then negated (h * 60 + m) else pos (h * 60 + m)) *ℤ pos 60, done))
unfolding set_dateandtime timegm
date_round_trip tp t neg h m d p q =
    rw
      (
        strptime-format_date t (format_offset neg h m) d,
        timezone_round_trip (pos 0) neg h m p q,
        set_dateandtime,
      )
      (ground arith)
