-- ===== src/Text/Printing.antt =====
-- printf("%llu") and printf("%d"): the decimal digits of a number, and that they are read back.
use simet_lmapd.Base.{
  ℕ, zero, suc, ◌+◌, ◌-◌, ◌*◌, ◌/◌, ◌%◌, ◌^◌, ◌<◌, ◌≡◌, ◌≢◌, ◌∙◌, ap, true, false, [], ◌∷◌, arith,
  ◌==◌, length, Bool-cases, inl, inr,
}
use simet_lmapd.Base.Int.{ℤ, pos, negsuc}
use native.Mathlib.Nat.{pow-suc}
use simet_lmapd.Text.{Str}
use simet_lmapd.Text.Number.{decimal, IsDigits}

-- The digits of n in front of others; the fuel is above n.
unfoldable pub digits : ℕ → ℕ → Str → Str
digits zero n acc = acc
digits (suc fuel) n acc = elim (n / 10 == 0) [
  | true ↦ (n % 10 + 48) ∷ acc
  | false ↦ digits fuel (n / 10) ((n % 10 + 48) ∷ acc)
]

unfoldable pub print_number : ℕ → Str
unfolding digits
print_number n = digits (suc n) n []

unfoldable pub print_int : ℤ → Str
unfolding print_number
print_int (pos n) = print_number n
print_int (negsuc n) = b'-' ∷ print_number (suc n)

digits-IsDigits : (fuel n : ℕ) (acc : Str) → IsDigits acc → IsDigits (digits fuel n acc)
unfolding digits
digits-IsDigits zero n acc h = h
digits-IsDigits (suc fuel) n acc h = elim (Bool-cases (n / 10 == 0)) [
  | inl last ↦ rw (last, digits) (ground arith, h)
  | inr more ↦ rw (more, digits) (digits-IsDigits fuel (n / 10) _ (ground arith, h))
]

single : (n p q : ℕ) → n / 10 == 0 ≡ true → (n % 10 + 48 - 48) * p + q ≡ n * p + q
single n p q h = grind (arith, small n)
  where
    small : (n : ℕ) → n / 10 ≡ 0 → n % 10 ≡ n
    small n h = omega arith

split : (n : ℕ) → n / 10 * 10 + n % 10 ≡ n
split n = omega arith

shift : (m : ℕ) → m + 48 - 48 ≡ m
shift m = omega arith

place : (n p q : ℕ) → n / 10 * (p * 10) + ((n % 10 + 48 - 48) * p + q) ≡ n * p + q
place n p q = rw (shift (n % 10)) (omega (arith, ap (λ (t : ℕ). t * p) (split n)))

decimal-digits :
    (fuel n : ℕ) (acc : Str)
    → n < fuel
    → decimal (digits fuel n acc) ≡ n * 10 ^ length acc + decimal acc
unfolding digits decimal
decimal-digits zero n acc h = ground arith
decimal-digits (suc fuel) n acc h = elim (Bool-cases (n / 10 == 0)) [
  | inl last ↦ rw (last, digits) (single n (10 ^ length acc) (decimal acc) last)
  | inr more ↦
      rw (more, digits)
        (decimal-digits fuel (n / 10) ((n % 10 + 48) ∷ acc) (ground (arith, more))
          ∙ rw (pow-suc 10 (length acc)) (place n (10 ^ length acc) (decimal acc)))
]

-- The digits that are printed have the value of the number.
pub decimal-print_number : (n : ℕ) → decimal (print_number n) ≡ n
unfolding print_number decimal
decimal-print_number n = decimal-digits (suc n) n [] (omega arith) ∙ omega arith

pub print_number-IsDigits : (n : ℕ) → IsDigits (print_number n)
unfolding print_number
print_number-IsDigits n = digits-IsDigits (suc n) n [] tt

digits-ne : (fuel n : ℕ) (acc : Str) → acc ≢ [] → digits fuel n acc ≢ []
unfolding digits
digits-ne zero n acc h = h
digits-ne (suc fuel) n acc h = elim (Bool-cases (n / 10 == 0)) [
  | inl last ↦ rw (last, digits) (λ e. absurd cc)
  | inr more ↦ rw (more, digits) (digits-ne fuel (n / 10) ((n % 10 + 48) ∷ acc) (λ e. absurd cc))
]

pub print_number-ne : (n : ℕ) → print_number n ≢ []
unfolding print_number digits
print_number-ne n = elim (Bool-cases (n / 10 == 0)) [
  | inl last ↦ rw (last, print_number, digits) (λ e. absurd cc)
  | inr more ↦
      rw (more, print_number, digits) (digits-ne n (n / 10) ((n % 10 + 48) ∷ []) (λ e. absurd cc))
]
