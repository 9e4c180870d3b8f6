-- ===== src/Data/Scalar/Printed.antt =====
-- set_uint32 and set_int32 on numbers that printf() wrote.
use simet_lmapd.Base.{ℕ, suc, ◌≤◌, ◌^◌, ◌≡◌, ◌≢◌, refl, [], ◌∷◌, arith}
use simet_lmapd.Base.Int.{ℤ, pos, negsuc, ◌≤ℤ◌}
use simet_lmapd.Text.{Str}
use simet_lmapd.Text.Number.{decimal, IsDigits}
use simet_lmapd.Text.Printing.{
  print_number, print_int, decimal-print_number, print_number-IsDigits, print_number-ne,
}
use simet_lmapd.Model.{done}
use simet_lmapd.Data.Scalar.{set_int32, set_uint32, int32_max, uint32_max}
use simet_lmapd.Data.Scalar.Numbers.{set_uint32_digits, set_int32_digits, set_int32_minus}

uint32 :
    (up n : ℕ) (t : Str)
    → t ≢ []
    → IsDigits t
    → decimal t ≡ n
    → n ≤ uint32_max
    → set_uint32 up t ≡ (n, done)
uint32 up n [] ne d e h = absurd (ne refl)
uint32 up n (c ∷ s) ne d e h = ground (arith, set_uint32_digits up c s d)

pub set_uint32-print_number :
    (up n : ℕ) → n ≤ uint32_max → set_uint32 up (print_number n) ≡ (n, done)
set_uint32-print_number up n h =
    uint32 up n (print_number n) (print_number-ne n) (print_number-IsDigits n)
      (decimal-print_number n) h

int32 :
    (ip : ℤ) (n : ℕ) (t : Str)
    → t ≢ []
    → IsDigits t
    → decimal t ≡ n
    → n ≤ int32_max
    → set_int32 ip t ≡ (pos n, done)
int32 ip n [] ne d e h = absurd (ne refl)
int32 ip n (c ∷ s) ne d e h = ground (arith, set_int32_digits ip c s d)

int32_negative :
    (ip : ℤ) (n : ℕ) (t : Str)
    → t ≢ []
    → IsDigits t
    → decimal t ≡ suc n
    → suc n ≤ 2 ^ 31
    → set_int32 ip (b'-' ∷ t) ≡ (negsuc n, done)
int32_negative ip n [] ne d e h = absurd (ne refl)
int32_negative ip n (c ∷ s) ne d e h = ground (arith, set_int32_minus ip c s d)

-- Every value of an int32_t is read as it was printed.
pub set_int32-print_int :
    (ip z : ℤ) → negsuc int32_max ≤ℤ z → z ≤ℤ pos int32_max → set_int32 ip (print_int z) ≡ (z, done)
unfolding print_int
set_int32-print_int ip (pos n) low high =
    int32 ip n (print_number n) (print_number-ne n) (print_number-IsDigits n)
      (decimal-print_number n) (omega arith)
set_int32-print_int ip (negsuc n) low high =
    int32_negative ip n (print_number (suc n)) (print_number-ne (suc n))
      (print_number-IsDigits (suc n)) (decimal-print_number (suc n)) (omega arith)
