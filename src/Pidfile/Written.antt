-- ===== src/Pidfile/Written.antt =====
-- The process id that is written is the one that is read.
use simet_lmapd.Base.{
  ℕ, ◌+◌, ◌-◌, ◌*◌, ◌^◌, ◌≤◌, ◌<◌, ◌≡◌, ◌≢◌, refl, ap, Bool, true, not, ◌&&◌, [], ◌∷◌, ◌++◌, Option,
  some, arith, if◌then◌else◌, length,
}
use native.Mathlib.Nat.{pow-suc}
use simet_lmapd.Base.Int.{ℤ, pos, ltb_ℤ}
use simet_lmapd.Text.{Str, skip_space, scan_sign, scan_digits, starts_digit}
use simet_lmapd.Text.Number.{decimal, IsDigits}
use simet_lmapd.Text.Printing.{
  print_number, print_int, decimal-print_number, print_number-IsDigits, print_number-ne,
}
use simet_lmapd.Data.Scalar.{int32_max}
use simet_lmapd.Pidfile.{scan_int, lmapd_pid_read, lmapd_pid_check, lmapd_pid_write}

scan_line :
    (acc : ℕ) (s : Str)
    → IsDigits s
    → scan_digits acc (s ++ b'\n' ∷ []) ≡ (acc * 10 ^ length s + decimal s, b'\n' ∷ [])
unfolding scan_digits decimal
scan_line acc [] h = ground arith
scan_line acc (c ∷ s) h = ground (
  arith,
  scan_line (acc * 10 + (c - 48)) s h.1,
  pow-suc 10 (length s),
  ap (λ (t : ℕ). acc * t) (pow-suc 10 (length s)),
)

scan_int-line :
    (n : ℕ) (s : Str)
    → s ≢ []
    → IsDigits s
    → decimal s ≡ n
    → n ≤ int32_max
    → scan_int (s ++ b'\n' ∷ []) ≡ some (pos n)
unfolding scan_int skip_space scan_sign starts_digit
scan_int-line n [] ne d e h = absurd (ne refl)
scan_int-line n (c ∷ s) ne d e h = ground (arith, scan_line 0 (c ∷ s) d)

-- Where the file can be opened: the process id of a running process that was written is read again, and it is the
-- daemon's own for that process and for no other.
pub pid_round_trip :
    (alive : ℤ → Bool) (n : ℕ) (self : ℤ) (file : Option Str)
    → 0 < n
    → n ≤ int32_max
    → alive (pos n) ≡ true
    → (lmapd_pid_read alive (lmapd_pid_write true (pos n) file).0 ≡ pos n)
      × (lmapd_pid_check alive self (lmapd_pid_write true (pos n) file).0
          ≡ (if not (ltb_ℤ (pos n) self) && not (ltb_ℤ self (pos n)) then pos n else pos 0))
unfolding lmapd_pid_read lmapd_pid_check lmapd_pid_write print_int
pid_round_trip alive n self file low high live =
    (read, rw (lmapd_pid_check, read) (ground (arith, live)))
  where
    scanned : scan_int (print_number n ++ b'\n' ∷ []) ≡ some (pos n)
    scanned =
        scan_int-line n (print_number n) (print_number-ne n) (print_number-IsDigits n)
          (decimal-print_number n) high

    read : lmapd_pid_read alive (some (print_number n ++ b'\n' ∷ [])) ≡ pos n
    read = rw (lmapd_pid_read, scanned) (ground (arith, live))
