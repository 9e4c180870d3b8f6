-- ===== src/Data/Scalar/Timezone.antt =====
-- Time zone offsets: reading back what the format [+-]HH:MM prints, and the range of the result.
use simet_lmapd.Base.{
  ℕ, ◌+◌, ◌*◌, ◌/◌, ◌%◌, ◌≤◌, ◌≡◌, Bool, true, false, [], ◌∷◌, arith, if◌then◌else◌,
}
use simet_lmapd.Base.Int.{ℤ, pos, pos_part, neg_part}
use simet_lmapd.Text.{Str, negated}
use simet_lmapd.Model.{done}
use simet_lmapd.Data.Scalar.{timezone_six, set_timezoneoffset}

-- HH:MM with its sign.
abbrev pub format_offset : Bool → ℕ → ℕ → Str
format_offset neg h m =
    (if neg then b'-' else b'+')
    ∷ (h / 10 + 48)
    ∷ (h % 10 + 48)
    ∷ b':'
    ∷ (m / 10 + 48)
    ∷ (m % 10 + 48)
    ∷ []

-- An offset of hours up to 23 and minutes up to 59 that is printed as [+-]HH:MM is read as its signed
-- number of minutes.
pub timezone_round_trip :
    (ip : ℤ) (neg : Bool) (h m : ℕ)
    → h ≤ 23
    → m ≤ 59
    → set_timezoneoffset ip (format_offset neg h m)
      ≡ ((if neg then negated (h * 60 + m) else pos (h * 60 + m)), done)
unfolding set_timezoneoffset
timezone_round_trip ip true h m p q = ground arith
timezone_round_trip ip false h m p q = ground arith

six_bounds :
    (ip : ℤ) (s0 s1 s2 s3 s4 s5 : ℕ) {o : ℤ}
    → timezone_six ip s0 s1 s2 s3 s4 s5 ≡ (o, done)
    → (pos_part o ≤ 1439) × (neg_part o ≤ 1439)
unfolding timezone_six
six_bounds ip s0 s1 s2 s3 s4 s5 e = ground arith

-- Whatever the string, an offset that is accepted is less than a day.
pub timezone_bounds :
    (ip : ℤ) (s : Str) {o : ℤ}
    → set_timezoneoffset ip s ≡ (o, done)
    → (pos_part o ≤ 1439) × (neg_part o ≤ 1439)
unfolding set_timezoneoffset
timezone_bounds ip (s0 ∷ s1 ∷ s2 ∷ s3 ∷ s4 ∷ s5 ∷ []) e = six_bounds ip s0 s1 s2 s3 s4 s5 e
timezone_bounds ip (s0 ∷ []) e = ground arith
timezone_bounds ip s e = cc
