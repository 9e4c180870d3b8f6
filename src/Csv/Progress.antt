-- ===== src/Csv/Progress.antt =====
-- How far a read goes: what is left of the file gets shorter, or its end is met.
use simet_lmapd.Base.{
  ℕ, zero, suc, ◌≤◌, ◌<◌, ◌≡◌, inl, inr, true, false, [], ◌∷◌, ◌++◌, Option, none, some, arith,
  length, Option-cases,
}
use simet_lmapd.Text.{Str}
use simet_lmapd.Csv.{
  File, Mode, bare, quoted, closing, next_loop, csv_next, next_key, csv_next_key_value,
}

-- The reads that are left at most.
abbrev pub measure : File → ℕ
measure file = elim file.eof [ true ↦ 0 | false ↦ suc (length file.rest) ]

abbrev IsWithin : ℕ → Option Str × File → Type 0
IsWithin n r = (length r.1.rest ≤ n) × (measure r.1 ≤ suc n)

next_loop-IsWithin :
    (d : ℕ) (m : Mode) (buf text : Str) → IsWithin (length text) (next_loop d m buf text)
unfolding next_loop
next_loop-IsWithin d m buf [] = (omega arith, omega arith)
next_loop-IsWithin d closing buf (c ∷ cs) =
    ground (arith, next_loop-IsWithin d quoted (buf ++ c ∷ []) cs)
next_loop-IsWithin d bare buf (c ∷ cs) = ground (
  arith,
  next_loop-IsWithin d quoted buf cs,
  next_loop-IsWithin d bare buf cs,
  next_loop-IsWithin d bare (buf ++ c ∷ []) cs,
)
next_loop-IsWithin d quoted buf (c ∷ cs) = ground (
  arith,
  next_loop-IsWithin d quoted buf cs,
  next_loop-IsWithin d closing buf cs,
  next_loop-IsWithin d quoted (buf ++ c ∷ []) cs,
)

pub csv_next-rest : (d : ℕ) (text : Str) → length (csv_next d text).1.rest ≤ length text
unfolding csv_next
csv_next-rest d text = (next_loop-IsWithin d bare [] text).0

pub csv_next-measure : (d : ℕ) (text : Str) → measure (csv_next d text).1 ≤ length text
unfolding csv_next next_loop
csv_next-measure d [] = omega arith
csv_next-measure d (c ∷ cs) = ground (
  arith,
  next_loop-IsWithin d quoted [] cs,
  next_loop-IsWithin d bare [] cs,
  next_loop-IsWithin d bare (c ∷ []) cs,
)

next_key-rest :
    (fuel d : ℕ) (file file1 : File) (k : Option Str)
    → next_key fuel d file ≡ some (k, file1)
    → length file1.rest ≤ length file.rest
unfolding next_key
next_key-rest zero d file file1 k e = absurd cc
next_key-rest (suc fuel) d file file1 k e =
    ground (arith, csv_next-rest d file.rest, next_key-rest fuel d (csv_next d file.rest).1 file1 k)

next_key-none :
    (fuel d : ℕ) (file file1 : File) → next_key fuel d file ≡ some (none, file1) → file1.eof ≡ true
unfolding next_key
next_key-none zero d file file1 e = absurd cc
next_key-none (suc fuel) d file file1 e =
    ground (arith, next_key-none fuel d (csv_next d file.rest).1 file1)

-- A key and its value take at least one read.
pub csv_next_key_value-measure :
    (d : ℕ) (file file2 : File) (k v : Option Str)
    → file.eof ≡ false
    → csv_next_key_value d file ≡ some (k, v, file2)
    → measure file2 < measure file
unfolding csv_next_key_value
csv_next_key_value-measure d file file2 k v on e =
    elim (Option-cases (next_key (suc (length file.rest)) d file)) [
      | inl f ↦ absurd (ground arith)
      | inr ((none, file1), f) ↦
          ground (arith, next_key-none (suc (length file.rest)) d file file1 f)
      | inr ((some s, file1), f) ↦ ground (
        arith,
        next_key-rest (suc (length file.rest)) d file file1 (some s) f,
        csv_next-measure d file1.rest,
      )
    ]
