-- ===== src/Text/Number.antt =====
-- Reading a decimal number against its positional value.
use simet_lmapd.Base.{ℕ, ◌+◌, ◌-◌, ◌*◌, ◌^◌, ◌≡◌, ap, true, false, [], ◌∷◌, arith, length, All}
use native.Mathlib.Nat.{pow-suc}
use simet_lmapd.Text.{Str, isdigit, scan_digits, scan_number}

-- The positional value of a string of digits.
unfoldable pub decimal : Str → ℕ
decimal [] = 0
decimal (c ∷ s) = (c - 48) * 10 ^ length s + decimal s

abbrev pub IsDigits : Str → Type 0
IsDigits = All (λ c. isdigit c ≡ true)

-- The accumulating loop computes the positional value.
pub scan_digits-IsDigits :
    (acc : ℕ) (s : Str) → IsDigits s → scan_digits acc s ≡ (acc * 10 ^ length s + decimal s, [])
unfolding scan_digits decimal
scan_digits-IsDigits acc [] h = ground arith
scan_digits-IsDigits acc (c ∷ s) h = ground (
  arith,
  scan_digits-IsDigits (acc * 10 + (c - 48)) s h.1,
  pow-suc 10 (length s),
  ap (λ (t : ℕ). acc * t) (pow-suc 10 (length s)),
)

pub scan_number-IsDigits :
    (c : ℕ) (s : Str) → IsDigits (c ∷ s) → scan_number (c ∷ s) ≡ (false, decimal (c ∷ s), [])
unfolding scan_number
scan_number-IsDigits c s h = ground (arith, scan_digits-IsDigits 0 (c ∷ s) h)

-- The same behind a minus sign.
pub scan_number-minus :
    (c : ℕ) (s : Str) → IsDigits (c ∷ s) → scan_number (b'-' ∷ c ∷ s) ≡ (true, decimal (c ∷ s), [])
unfolding scan_number
scan_number-minus c s h = ground (arith, scan_digits-IsDigits 0 (c ∷ s) h)
