-- ===== src/Data/Scalar.antt =====
-- The scalar setters of src/data.c. Each takes the old value of its target and returns the new one
-- with the return code; memory is never exhausted.
use simet_lmapd.Base.{
  ℕ, ◌+◌, ◌-◌, ◌*◌, ◌^◌, Bool, true, false, not, ◌&&◌, ◌||◌, [], ◌∷◌, Option, none, some, ltb, ◌==◌,
  if◌then◌else◌,
}
use simet_lmapd.Base.Int.{ℤ, pos, negsuc, ltb_ℤ}
use simet_lmapd.Text.{Str, codes, str_eq, isdigit, strtoumax, strtoimax, negated}
use simet_lmapd.Model.{Rc, done, failed}
pub mod Numbers
pub mod Printed
pub mod Timezone

abbrev pub is_empty : Str → Bool
is_empty [] = true
is_empty (c ∷ s) = false

unfoldable pub set_string : Option Str → Option Str → Option Str × Rc
set_string dp s = (s, done)

-- The warning about unsafe characters changes nothing.
unfoldable pub set_lmap_identifier : Option Str → Option Str → Option Str × Rc
unfolding set_string
set_lmap_identifier dp none = set_string dp none
set_lmap_identifier dp (some s) = if is_empty s then (dp, failed) else set_string dp (some s)

unfoldable pub set_boolean : Bool → Str → Bool × Rc
set_boolean dst value =
    if str_eq (codes "true") value
    then (true, done)
    else if str_eq (codes "false") value
    then (false, done)
    else (dst, failed)

unfoldable pub set_tag : Option Str → Option Str → Option Str × Rc
unfolding set_string
set_tag dp none = set_string dp none
set_tag dp (some s) = if is_empty s then (dp, failed) else set_string dp (some s)

abbrev pub int32_max : ℕ
int32_max = 2 ^ 31 - 1

abbrev pub uint32_max : ℕ
uint32_max = 2 ^ 32 - 1

abbrev pub uint64_max : ℕ
uint64_max = 2 ^ 64 - 1

unfoldable pub set_int32 : ℤ → Str → ℤ × Rc
set_int32 ip s =
    let (i, rest) = strtoimax s in
    if not (is_empty rest) || ltb_ℤ (pos int32_max) i || ltb_ℤ i (negsuc int32_max)
    then (ip, failed)
    else (i, done)

unfoldable pub set_uint32 : ℕ → Str → ℕ × Rc
set_uint32 up s =
    let (u, rest) = strtoumax s in
    if not (is_empty rest) || ltb uint32_max u then (up, failed) else (u, done)

unfoldable pub set_uint64 : ℕ → Str → ℕ × Rc
set_uint64 up s =
    let (u, rest) = strtoumax s in
    if not (is_empty rest) || ltb uint64_max u then (up, failed) else (u, done)

-- The body of `set_timezoneoffset` on six characters. Two digits are never negative, so of its
-- range test the upper bounds are left.
unfoldable pub timezone_six : ℤ → ℕ → ℕ → ℕ → ℕ → ℕ → ℕ → ℤ × Rc
timezone_six ip s0 s1 s2 s3 s4 s5 =
    if not (s0 == b'-') && not (s0 == b'+')
      || not (isdigit s1)
      || not (isdigit s2)
      || not (s3 == b':')
      || not (isdigit s4)
      || not (isdigit s5)
    then (ip, failed)
    else let hours = (s1 - 48) * 10 + (s2 - 48) in
      let minutes = (s4 - 48) * 10 + (s5 - 48) in
      if ltb 23 hours || ltb 59 minutes
      then (ip, failed)
      else if s0 == b'-'
      then (negated (hours * 60 + minutes), done)
      else (pos (hours * 60 + minutes), done)

-- The offset in minutes: `Z`, or [+-]HH:MM.
unfoldable pub set_timezoneoffset : ℤ → Str → ℤ × Rc
unfolding timezone_six
set_timezoneoffset ip (s0 ∷ s1 ∷ s2 ∷ s3 ∷ s4 ∷ s5 ∷ []) = timezone_six ip s0 s1 s2 s3 s4 s5
set_timezoneoffset ip (s0 ∷ []) = if s0 == b'Z' then (pos 0, done) else (ip, failed)
set_timezoneoffset ip s = (ip, failed)
