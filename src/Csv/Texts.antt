-- ===== src/Csv/Texts.antt =====
-- Reads of src/csv.c from files without NUL characters.
use simet_lmapd.Base.{
  ℕ, zero, suc, ◌≡◌, ◌≢◌, inl, inr, refl, sym, ap, ◌∙◌, Bool, ◌&&◌, ◌||◌, ◌==◌, if◌then◌else◌, All,
  All-append, true, false, [], ◌∷◌, ◌++◌, Option, none, some, arith, length, Option-cases,
  Bool-cases,
}
use mathlib.Core.Option.{some-injective}
use mathlib.Core.Path.{subst}
use simet_lmapd.Text.{Str, isspace}
use simet_lmapd.Csv.{
  File, taken, Mode, bare, quoted, closing, next_loop, csv_next, next_key, csv_next_key_value, stop,
  is_null, quote, newline, as_c_string,
}
use simet_lmapd.Csv.RoundTrip.{c_string-plain}

-- A text without NUL.
abbrev pub IsText : Str → Type 0
IsText = All (λ c. c ≢ 0)

IsText-snoc : (buf : Str) (c : ℕ) → IsText buf → c ≢ 0 → IsText (buf ++ c ∷ [])
IsText-snoc buf c h n = All-append (λ x. x ≢ 0) buf (c ∷ []) h (n, tt)

-- A field and what is left behind it, both without NUL.
abbrev AreTexts : Option Str × File → Type 0
AreTexts r = ((s : Str) → r.0 ≡ some s → IsText s) × IsText r.1.rest

taken-IsText : (buf : Str) → IsText buf → (s : Str) → taken buf ≡ some s → IsText s
taken-IsText [] h s e = absurd cc
taken-IsText (b ∷ bs) h s e = subst IsText (some-injective _ _ e) h

stop-AreTexts : (buf rest : Str) → IsText buf → IsText rest → AreTexts (stop buf rest)
stop-AreTexts buf rest h k = (taken-IsText buf h, k)

either-AreTexts :
    (b : Bool) (x y : Option Str × File)
    → AreTexts x
    → AreTexts y
    → AreTexts (elim b as (λ z. Option Str × File) [ true ↦ x | false ↦ y ])
either-AreTexts true x y p q = p
either-AreTexts false x y p q = q

either-IsText : (b : Bool) (x y : Str) → IsText x → IsText y → IsText (if b then x else y)
either-IsText true x y p q = p
either-IsText false x y p q = q

next_loop-AreTexts :
    (d : ℕ) (m : Mode) (buf text : Str)
    → IsText buf
    → IsText text
    → AreTexts (next_loop d m buf text)
unfolding next_loop
next_loop-AreTexts d m buf [] h k = (taken-IsText buf h, tt)
next_loop-AreTexts d closing buf (c ∷ cs) h (n, k) =
    either-AreTexts (c == d || c == newline) _ _ (stop-AreTexts buf cs h k)
      (next_loop-AreTexts d quoted (buf ++ c ∷ []) cs (IsText-snoc buf c h n) k)
next_loop-AreTexts d bare buf (c ∷ cs) h (n, k) =
    either-AreTexts (c == d) _ _ (stop-AreTexts buf cs h k) (
      either-AreTexts (c == newline) _ _
        (stop-AreTexts buf _ h (either-IsText (is_null buf) cs (c ∷ cs) k (n, k)))
        (either-AreTexts (is_null buf && isspace c) _ _ (next_loop-AreTexts d bare buf cs h k) (
          either-AreTexts (is_null buf && c == quote) _ _ (next_loop-AreTexts d quoted buf cs h k)
            (next_loop-AreTexts d bare (buf ++ c ∷ []) cs (IsText-snoc buf c h n) k))))
next_loop-AreTexts d quoted buf (c ∷ cs) h (n, k) =
    either-AreTexts (c == newline) _ _
      (stop-AreTexts buf _ h (either-IsText (is_null buf) cs (c ∷ cs) k (n, k)))
      (either-AreTexts (c == quote) _ _
        (either-AreTexts (is_null buf) _ _ (next_loop-AreTexts d quoted buf cs h k)
          (next_loop-AreTexts d closing buf cs h k))
        (next_loop-AreTexts d quoted (buf ++ c ∷ []) cs (IsText-snoc buf c h n) k))

taken-ne : (buf s : Str) → taken buf ≡ some s → s ≢ []
taken-ne [] s e = absurd cc
taken-ne (b ∷ bs) s e = λ f. ground arith

next_loop-ne : (d : ℕ) (m : Mode) (buf text s : Str) → (next_loop d m buf text).0 ≡ some s → s ≢ []
unfolding next_loop
next_loop-ne d m buf [] s e = taken-ne buf s e
next_loop-ne d closing buf (c ∷ cs) s e =
    ground (arith, taken-ne buf s, next_loop-ne d quoted (buf ++ c ∷ []) cs s)
next_loop-ne d bare buf (c ∷ cs) s e = ground (
  arith,
  taken-ne buf s,
  next_loop-ne d quoted buf cs s,
  next_loop-ne d bare buf cs s,
  next_loop-ne d bare (buf ++ c ∷ []) cs s,
)
next_loop-ne d quoted buf (c ∷ cs) s e = ground (
  arith,
  taken-ne buf s,
  next_loop-ne d quoted buf cs s,
  next_loop-ne d closing buf cs s,
  next_loop-ne d quoted (buf ++ c ∷ []) cs s,
)

-- A field that is read from a text without NUL has a character.
pub csv_next-ne : (d : ℕ) (text s : Str) → IsText text → (csv_next d text).0 ≡ some s → s ≢ []
unfolding csv_next
csv_next-ne d text s h e = elim (Option-cases (next_loop d bare [] text).0) [
  | inl missing ↦ absurd (absent s (ap as_c_string (sym missing) ∙ e))
  | inr (b, found) ↦
      subst (λ x. x ≢ [])
        (sym (c_string-plain b ((next_loop-AreTexts d bare [] text tt h).0 b found))
          ∙ some-injective _ _ (ap as_c_string (sym found) ∙ e))
        (next_loop-ne d bare [] text b found)
]
  where
    absent : (x : Str) → none ≢ some x
    absent x f = cc

-- What is left behind a field of a text without NUL is one.
csv_next-IsText : (d : ℕ) (text : Str) → IsText text → IsText (csv_next d text).1.rest
unfolding csv_next
csv_next-IsText d text h = (next_loop-AreTexts d bare [] text tt h).1

next_key-IsText :
    (fuel d : ℕ) (file file1 : File) (k : Option Str)
    → IsText file.rest
    → next_key fuel d file ≡ some (k, file1)
    → IsText file1.rest
unfolding next_key
next_key-IsText zero d file file1 k h e = absurd cc
next_key-IsText (suc fuel) d file file1 k h e = elim (Option-cases (csv_next d file.rest).0) [
  | inr (s, f) ↦
      subst (λ (x : File). IsText x.rest)
        (ap (λ (r : Option Str × File). r.1) (some-injective _ _ (found s f ∙ e)))
        (csv_next-IsText d file.rest h)
  | inl f ↦ elim (Bool-cases (csv_next d file.rest).1.eof) [
    | inl over ↦
        subst (λ (x : File). IsText x.rest)
          (ap (λ (r : Option Str × File). r.1) (some-injective _ _ (ended f over ∙ e)))
          (csv_next-IsText d file.rest h)
    | inr on ↦
        next_key-IsText fuel d (csv_next d file.rest).1 file1 k (csv_next-IsText d file.rest h)
          (goes_on f on ∙ e)
  ]
]
  where
    found :
        (s : Str)
        → (csv_next d file.rest).0 ≡ some s
        → some (some s, (csv_next d file.rest).1) ≡ next_key (suc fuel) d file
    found s f = rw (f, next_key) refl

    ended :
        (csv_next d file.rest).0 ≡ none
        → (csv_next d file.rest).1.eof ≡ true
        → some (none, (csv_next d file.rest).1) ≡ next_key (suc fuel) d file
    ended f over = rw (f, over, next_key) refl

    goes_on :
        (csv_next d file.rest).0 ≡ none
        → (csv_next d file.rest).1.eof ≡ false
        → next_key fuel d (csv_next d file.rest).1 ≡ next_key (suc fuel) d file
    goes_on f on = rw (f, on, next_key) refl

-- What is left behind a key and its value in a text without NUL is one.
pub csv_next_key_value-IsText :
    (d : ℕ) (file file2 : File) (k v : Option Str)
    → IsText file.rest
    → csv_next_key_value d file ≡ some (k, v, file2)
    → IsText file2.rest
unfolding csv_next_key_value
csv_next_key_value-IsText d file file2 k v h e = elim (Bool-cases file.eof) [
  | inl over ↦ behind (none, none, file) (ground arith) h
  | inr on ↦ elim (Option-cases (next_key (suc (length file.rest)) d file)) [
    | inl f ↦ absurd (ground arith)
    | inr ((none, file1), f) ↦
        behind (none, none, file1) (rw (on, f, csv_next_key_value) refl)
          (next_key-IsText (suc (length file.rest)) d file file1 none h f)
    | inr ((some s, file1), f) ↦
        behind (some s, (csv_next d file1.rest).0, (csv_next d file1.rest).1)
          (rw (on, f, csv_next_key_value) refl)
          (csv_next-IsText d file1.rest
            (next_key-IsText (suc (length file.rest)) d file file1 (some s) h f))
  ]
]
  where
    behind :
        (r : Option Str × Option Str × File)
        → some r ≡ csv_next_key_value d file
        → IsText r.2.rest
        → IsText file2.rest
    behind r f g =
        subst (λ (x : File). IsText x.rest)
          (ap (λ (x : Option Str × Option Str × File). x.2) (some-injective _ _ (f ∙ e))) g

-- A value that is read from a text without NUL has a character.
pub csv_next_key_value-ne :
    (d : ℕ) (file file2 : File) (k : Option Str) (v : Str)
    → IsText file.rest
    → csv_next_key_value d file ≡ some (k, some v, file2)
    → v ≢ []
unfolding csv_next_key_value
csv_next_key_value-ne d file file2 k v h e = elim (Bool-cases file.eof) [
  | inl over ↦ absurd (ground arith)
  | inr on ↦ elim (Option-cases (next_key (suc (length file.rest)) d file)) [
    | inl f ↦ absurd (ground arith)
    | inr ((none, file1), f) ↦ absurd (ground arith)
    | inr ((some s, file1), f) ↦ ground (
      arith,
      csv_next-ne d file1.rest v
          (next_key-IsText (suc (length file.rest)) d file file1 (some s) h f),
    )
  ]
]
