-- ===== src/Text.antt =====
-- C strings as lists of bytes without the final NUL, and what the program uses of <string.h>,
-- <ctype.h> (in the C locale) and <inttypes.h>.
use Prim.Native.Char.{code}
use Prim.Native.String.{String}
use simet_lmapd.Base.{
  ℕ, ◌+◌, ◌-◌, ◌*◌, ◌%◌, ◌^◌, ◌≤◌, ◌≡◌, refl, ◌↔◌, Bool, true, false, ◌&&◌, ◌||◌, List, [], ◌∷◌,
  ◌++◌, arith, leb, ltb, ◌==◌, if◌then◌else◌, All, length,
}
use simet_lmapd.Base.Int.{ℤ, pos, negsuc}
pub mod Number
pub mod Printing

abbrev pub Str : Type 0
Str = List ℕ

-- The bytes of an ASCII literal.
abbrev pub codes : String → Str
codes String.[] = []
codes (String.◌∷◌ c s) = code c ∷ codes s

-- strcmp(a, b) == 0
unfoldable pub str_eq : Str → Str → Bool
str_eq [] [] = true
str_eq [] (b ∷ bs) = false
str_eq (a ∷ as_) [] = false
str_eq (a ∷ as_) (b ∷ bs) = a == b && str_eq as_ bs

pub str_eq_refl : (a : Str) → str_eq a a ≡ true
unfolding str_eq
str_eq_refl [] = refl
str_eq_refl (a ∷ as_) = ground (arith, str_eq_refl as_)

pub eq_of_str_eq : (a b : Str) → str_eq a b ≡ true → a ≡ b
unfolding str_eq
eq_of_str_eq [] [] h = refl
eq_of_str_eq [] (b ∷ bs) h = cc
eq_of_str_eq (a ∷ as_) [] h = cc
eq_of_str_eq (a ∷ as_) (b ∷ bs) h = ground (arith, eq_of_str_eq as_ bs)

pub str_eq_iff : (a b : Str) → (str_eq a b ≡ true) ↔ (a ≡ b)
str_eq_iff a b = (eq_of_str_eq a b, λ e. rw e (str_eq_refl b))

abbrev pub isspace : ℕ → Bool
isspace c = c == 32 || leb 9 c && leb c 13

abbrev pub isdigit : ℕ → Bool
isdigit c = leb 48 c && leb c 57

abbrev pub isxdigit : ℕ → Bool
isxdigit c = isdigit c || leb 65 c && leb c 70 || leb 97 c && leb c 102

abbrev pub uintmax : ℕ
uintmax = 2 ^ 64 - 1

-- The white space that strtoimax and strtoumax skip.
unfoldable pub skip_space : Str → Str
skip_space [] = []
skip_space (c ∷ s) = elim (isspace c) [ true ↦ skip_space s | false ↦ c ∷ s ]

-- The digits that are read, with the value that they add to `acc`, and what follows them.
unfoldable pub scan_digits : ℕ → Str → ℕ × Str
scan_digits acc [] = (acc, [])
scan_digits acc (c ∷ s) = elim (isdigit c) [
  | true ↦ scan_digits (acc * 10 + (c - 48)) s
  | false ↦ (acc, c ∷ s)
]

-- A leading sign: whether it is a minus, and the rest.
unfoldable pub scan_sign : Str → Bool × Str
scan_sign [] = (false, [])
scan_sign (c ∷ s) =
    if c == b'-' then (true, s) else if c == b'+' then (false, s) else (false, c ∷ s)

unfoldable pub starts_digit : Str → Bool
starts_digit [] = false
starts_digit (c ∷ s) = isdigit c

-- Sign, magnitude and rest of the number at the head of `s`; with no digit, nothing is read and
-- the end pointer is `s` itself.
unfoldable pub scan_number : Str → Bool × ℕ × Str
unfolding skip_space scan_digits scan_sign starts_digit
scan_number s =
    let (neg, t) = scan_sign (skip_space s) in
    let (v, rest) = scan_digits 0 t in if starts_digit t then (neg, v, rest) else (false, 0, s)

-- strtoumax(s, &end, 10): a minus negates modulo 2^64, and a magnitude out of range is UINTMAX_MAX.
unfoldable pub strtoumax : Str → ℕ × Str
unfolding scan_number
strtoumax s =
    let (neg, v, rest) = scan_number s in
    (if ltb uintmax v then uintmax else if neg then (uintmax + 1 - v) % 2 ^ 64 else v, rest)

-- -v, for a magnitude v.
abbrev pub negated : ℕ → ℤ
negated v = if v == 0 then pos 0 else negsuc (v - 1)

-- strtoimax(s, &end, 10): saturates at INTMAX_MIN and INTMAX_MAX.
unfoldable pub strtoimax : Str → ℤ × Str
unfolding scan_number
strtoimax s =
    let (neg, v, rest) = scan_number s in
    (
      if neg
          then (if ltb (2 ^ 63) v then negsuc (2 ^ 63 - 1) else negated v)
          else (if ltb (2 ^ 63 - 1) v then pos (2 ^ 63 - 1) else pos v),
      rest,
    )
