-- ===== src/Data/Scalar/Numbers.antt =====
-- What set_uint32, set_uint64 and set_int32 accept, and what they store.
use simet_lmapd.Base.{ℕ, ◌-◌, ◌≤◌, ◌<◌, ◌^◌, ◌≡◌, ◌⊎◌, ◌∷◌, arith, leb, if◌then◌else◌}
use simet_lmapd.Base.Int.{ℤ, pos, negsuc, ◌≤ℤ◌}
use simet_lmapd.Text.{Str, strtoumax, strtoimax, negated}
use simet_lmapd.Text.Number.{decimal, IsDigits, scan_number-IsDigits, scan_number-minus}
use simet_lmapd.Model.{done, failed}
use simet_lmapd.Data.Scalar.{set_int32, set_uint32, set_uint64, int32_max, uint32_max, uint64_max}

pub set_uint32_digits :
    (up c : ℕ) (s : Str)
    → IsDigits (c ∷ s)
    → set_uint32 up (c ∷ s)
      ≡ (if leb (decimal (c ∷ s)) uint32_max then (decimal (c ∷ s), done) else (up, failed))
unfolding set_uint32 strtoumax
set_uint32_digits up c s h = ground (arith, scan_number-IsDigits c s h)

uint32_bounds :
    (s : Str) (up : ℕ)
    → (set_uint32 up s ≡ (up, failed))
      ⊎ (((set_uint32 up s).1 ≡ done) × ((set_uint32 up s).0 ≤ uint32_max))
unfolding set_uint32
uint32_bounds s up = ground arith

uint64_bounds :
    (s : Str) (up : ℕ)
    → (set_uint64 up s ≡ (up, failed))
      ⊎ (((set_uint64 up s).1 ≡ done) × ((set_uint64 up s).0 ≤ uint64_max))
unfolding set_uint64
uint64_bounds s up = ground arith

int32_bounds :
    (s : Str) (ip : ℤ)
    → (set_int32 ip s ≡ (ip, failed))
      ⊎ (((set_int32 ip s).1 ≡ done)
          × (negsuc int32_max ≤ℤ (set_int32 ip s).0)
          × ((set_int32 ip s).0 ≤ℤ pos int32_max))
unfolding set_int32
int32_bounds s ip = ground arith

-- Whatever the string, a number out of range never reaches the target.
pub number_bounds :
    (s : Str) (up : ℕ) (ip : ℤ)
    → ((set_uint32 up s ≡ (up, failed))
        ⊎ (((set_uint32 up s).1 ≡ done) × ((set_uint32 up s).0 ≤ uint32_max)))
      × ((set_uint64 up s ≡ (up, failed))
          ⊎ (((set_uint64 up s).1 ≡ done) × ((set_uint64 up s).0 ≤ uint64_max)))
      × ((set_int32 ip s ≡ (ip, failed))
          ⊎ (((set_int32 ip s).1 ≡ done)
              × (negsuc int32_max ≤ℤ (set_int32 ip s).0)
              × ((set_int32 ip s).0 ≤ℤ pos int32_max)))
number_bounds s up ip = (uint32_bounds s up, uint64_bounds s up, int32_bounds s ip)

-- A minus sign in front of decimal digits with a value from 1 to 2^64 - 1 is accepted, and 2^64 less the
-- value is stored.
pub set_uint64_minus :
    (up c : ℕ) (s : Str)
    → IsDigits (c ∷ s)
    → 0 < decimal (c ∷ s)
    → decimal (c ∷ s) ≤ uint64_max
    → set_uint64 up (b'-' ∷ c ∷ s) ≡ (2 ^ 64 - decimal (c ∷ s), done)
unfolding set_uint64 strtoumax
set_uint64_minus up c s h p q = ground (arith, scan_number-minus c s h)

pub set_int32_minus :
    (ip : ℤ) (c : ℕ) (s : Str)
    → IsDigits (c ∷ s)
    → set_int32 ip (b'-' ∷ c ∷ s)
      ≡ (if leb (decimal (c ∷ s)) (2 ^ 31) then (negated (decimal (c ∷ s)), done) else (ip, failed))
unfolding set_int32 strtoimax
set_int32_minus ip c s h = ground (arith, scan_number-minus c s h)

pub set_int32_digits :
    (ip : ℤ) (c : ℕ) (s : Str)
    → IsDigits (c ∷ s)
    → set_int32 ip (c ∷ s)
      ≡ (if leb (decimal (c ∷ s)) int32_max then (pos (decimal (c ∷ s)), done) else (ip, failed))
unfolding set_int32 strtoimax
set_int32_digits ip c s h = ground (arith, scan_number-IsDigits c s h)
