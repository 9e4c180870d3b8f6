-- ===== src/Base/Bits.antt =====
-- Bits of a word: the laws of `|` and `&` with a single bit, at every position.
use Prim.Native.Nat.{
  ℕ, zero, suc, ◌+◌, ◌-◌, ◌*◌, ◌/◌, ◌%◌, ◌^◌, ◌≤◌, ◌<◌, min, max, bit_and, bit_or, digits,
  bit_and-bitwise, bit_or-bitwise,
}
use mathlib.Core.Path.{◌≡◌, refl, ◌∙◌, ap}
use mathlib.Core.Logic.{◌≢◌}
use native.Mathlib.Nat.{pow-suc, one-le-pow}
use native.Mathlib.Omega.{arith}

-- Bit k of a word.
unfoldable pub bit : ℕ → ℕ → ℕ
bit a zero = a % 2
bit a (suc k) = bit (a / 2) k

pub bit-le-one : (a k : ℕ) → bit a k ≤ 1
unfolding bit
bit-le-one a zero = omega arith
bit-le-one a (suc k) = bit-le-one (a / 2) k

pub zero-bit : (k : ℕ) → bit 0 k ≡ 0
unfolding bit
zero-bit zero = refl
zero-bit (suc k) = zero-bit k

-- One digit in front of a word.
bit-cons : (d m k : ℕ) → m ≤ 1 → bit (d * 2 + m) (suc k) ≡ bit d k
unfolding bit
bit-cons d m k h = ap (λ (t : ℕ). bit t k) (omega arith)

or_digits-bit : (k n a b : ℕ) → a ≤ n → bit (digits (λ y. y) max n a b) k ≡ max (bit a k) (bit b k)
unfolding bit
or_digits-bit k zero zero b h = rw zero-bit (omega arith)
or_digits-bit k zero (suc a) b h = absurd (omega arith)
or_digits-bit k (suc n) zero b h = rw zero-bit (omega arith)
or_digits-bit zero (suc n) (suc a) b h = omega arith
or_digits-bit (suc k) (suc n) (suc a) b h =
    bit-cons (digits (λ y. y) max n (suc a / 2) (b / 2)) (max (suc a % 2) (b % 2)) k (omega arith)
    ∙ or_digits-bit k n (suc a / 2) (b / 2) (omega arith)

-- `|` joins bit by bit.
pub bit-bit_or : (a b k : ℕ) → bit (bit_or a b) k ≡ max (bit a k) (bit b k)
bit-bit_or a b k = simp bit_or-bitwise (or_digits-bit k a a b (omega arith))

-- `1 << j` has bit j and no other.
pub bit-pow_self : (k : ℕ) → bit (2 ^ k) k ≡ 1
unfolding bit
bit-pow_self zero = refl
bit-pow_self (suc k) = ap (λ (t : ℕ). bit t k) (omega (arith, pow-suc 2 k)) ∙ bit-pow_self k

and_digits-one : (n b : ℕ) → digits (λ y. 0) min (suc n) 1 b ≡ bit b 0 * 2 ^ 0
unfolding bit
and_digits-one zero b = omega arith
and_digits-one (suc n) b = omega arith

and_digits-pow : (k n a b : ℕ) → a ≡ 2 ^ k → a ≤ n → digits (λ y. 0) min n a b ≡ bit b k * 2 ^ k
unfolding bit
and_digits-pow k zero zero b e h = absurd (omega (arith, one-le-pow k 2))
and_digits-pow k zero (suc a) b e h = absurd (omega arith)
and_digits-pow k (suc n) zero b e h = absurd (omega (arith, one-le-pow k 2))
and_digits-pow zero (suc n) (suc zero) b e h = and_digits-one n b
and_digits-pow zero (suc n) (suc (suc a)) b e h = absurd (omega arith)
and_digits-pow (suc k) (suc n) (suc a) b e h = omega (
  arith,
  pow-suc 2 k,
  ap (λ (t : ℕ). bit (b / 2) k * t) (pow-suc 2 k),
  and_digits-pow k n (suc a / 2) (b / 2) (omega (arith, pow-suc 2 k)) (omega arith),
)

-- The test `(1 << k) & b` keeps bit k alone.
pub bit_and-pow : (k b : ℕ) → bit_and (2 ^ k) b ≡ bit b k * 2 ^ k
bit_and-pow k b = simp bit_and-bitwise (and_digits-pow k (2 ^ k) (2 ^ k) b refl (omega arith))

pub bit-pow_ne : (j k : ℕ) → j ≢ k → bit (2 ^ j) k ≡ 0
unfolding bit
bit-pow_ne zero zero h = absurd (h refl)
bit-pow_ne zero (suc k) h = zero-bit k
bit-pow_ne (suc j) zero h = omega (arith, pow-suc 2 j)
bit-pow_ne (suc j) (suc k) h =
    ap (λ (t : ℕ). bit t k) (omega (arith, pow-suc 2 j)) ∙ bit-pow_ne j k (λ e. h (ap suc e))

-- The word of w ones has every bit below w.
pub bit-ones : (w k : ℕ) → k < w → bit (2 ^ w - 1) k ≡ 1
unfolding bit
bit-ones zero k h = absurd (omega arith)
bit-ones (suc w) zero h = omega (arith, pow-suc 2 w, one-le-pow w 2)
bit-ones (suc w) (suc k) h =
    ap (λ (t : ℕ). bit t k) (omega (arith, pow-suc 2 w, one-le-pow w 2))
    ∙ bit-ones w k (omega arith)
