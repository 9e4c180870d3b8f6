-- ===== src/Data/Event/Calendar/Filling.antt =====
-- What the setters add to the six sets of a calendar event.
use simet_lmapd.Base.{
  ℕ, ◌-◌, ◌^◌, ◌≤◌, ◌<◌, ◌≡◌, refl, ◌⊎◌, inl, inr, true, false, ◌&&◌, ◌||◌, ◌∷◌, none, some, arith,
  leb, ◌==◌, if◌then◌else◌, Bool-cases, bit_or,
}
use simet_lmapd.Base.Int.{pos}
use simet_lmapd.Base.Bits.{bit, bit-le-one, bit-bit_or, bit-pow_self, bit-pow_ne, bit-ones}
use simet_lmapd.Text.{Str, str_eq, isdigit}
use simet_lmapd.Text.Number.{IsDigits, decimal}
use simet_lmapd.Data.Scalar.{int32_max}
use simet_lmapd.Data.Scalar.Numbers.{set_int32_digits}
use simet_lmapd.Data.Event.Calendar.{int_in_range, add_number, star}
use simet_lmapd.Data.Event.Calendar.Matching.{has}

pow_bit : (v k : ℕ) → (v == k) ≡ true → bit (2 ^ v) k ≡ 1
pow_bit v k h = let e : v ≡ k = ground arith in rw e (bit-pow_self k)

pow_bit_other : (v k : ℕ) → (v == k) ≡ false → bit (2 ^ v) k ≡ 0
pow_bit_other v k h = bit-pow_ne v k (ground arith)

-- `set | (1 << v)` holds v and what `set` holds.
pub has-bit_or_pow : (set v k : ℕ) → has (bit_or set (2 ^ v)) k ≡ (has set k || v == k)
has-bit_or_pow set v k = elim (Bool-cases (v == k)) [
  | inl same ↦ ground (arith, bit-bit_or set (2 ^ v) k, pow_bit v k same, bit-le-one set k)
  | inr other ↦ ground (arith, bit-bit_or set (2 ^ v) k, pow_bit_other v k other, bit-le-one set k)
]

int_in_range_digits :
    (lo hi c : ℕ) (s : Str)
    → IsDigits (c ∷ s)
    → hi ≤ int32_max
    → int_in_range lo hi (c ∷ s) ≡ (
        if leb lo (decimal (c ∷ s)) && leb (decimal (c ∷ s)) hi
        then some (decimal (c ∷ s))
        else none)
unfolding int_in_range
int_in_range_digits lo hi c s h q = ground (arith, set_int32_digits (pos 0) c s h)

digit_not_star : (c : ℕ) (s : Str) → isdigit c ≡ true → str_eq (c ∷ s) star ≡ false
unfolding str_eq
digit_not_star c s h = ground arith

pub add_number_fits :
    (all_ones lo hi set c : ℕ) (s : Str)
    → IsDigits (c ∷ s)
    → hi ≤ int32_max
    → (leb lo (decimal (c ∷ s)) && leb (decimal (c ∷ s)) hi) ≡ true
    → add_number all_ones lo hi set (c ∷ s) ≡ some (bit_or set (2 ^ decimal (c ∷ s)))
unfolding add_number
add_number_fits all_ones lo hi set c s h q inside =
    rw (digit_not_star c s h.0, int_in_range_digits lo hi c s h q) (rw inside refl)

-- A decimal number in range joins the set and changes no other member; any other is refused.
pub add_number_digits :
    (all_ones lo hi set c : ℕ) (s : Str)
    → IsDigits (c ∷ s)
    → hi ≤ int32_max
    → (((leb lo (decimal (c ∷ s)) && leb (decimal (c ∷ s)) hi) ≡ false)
        × (add_number all_ones lo hi set (c ∷ s) ≡ none))
      ⊎ ((new : ℕ) × (lo ≤ decimal (c ∷ s))
          × (decimal (c ∷ s) ≤ hi)
          × (add_number all_ones lo hi set (c ∷ s) ≡ some new)
          × ((k : ℕ) → has new k ≡ (has set k || decimal (c ∷ s) == k)))
unfolding add_number
add_number_digits all_ones lo hi set c s h q =
    elim (Bool-cases (leb lo (decimal (c ∷ s)) && leb (decimal (c ∷ s)) hi)) [
      | inl inside ↦ inr (
        bit_or set (2 ^ decimal (c ∷ s)),
        ground arith,
        ground arith,
        add_number_fits all_ones lo hi set c s h q inside,
        has-bit_or_pow set (decimal (c ∷ s)),
      )
      | inr outside ↦ inl (
        outside,
        rw (digit_not_star c s h.0, int_in_range_digits lo hi c s h q) (rw outside refl),
      )
    ]

-- The bits of a field after `*`.
has_ones : (w set k : ℕ) → k < w → has (bit_or set (2 ^ w - 1)) k ≡ true
has_ones w set k h = ground (arith, bit-bit_or set (2 ^ w - 1) k, bit-ones w k h, bit-le-one set k)
