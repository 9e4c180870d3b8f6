-- ===== src/Csv/RoundTrip.antt =====
-- A field that is written is read again.
use simet_lmapd.Base.{
  ℕ, ◌≡◌, refl, sym, ap, ◌∙◌, ◌≢◌, ◌⊎◌, inl, inr, Bool, true, false, not, ◌&&◌, [], ◌∷◌, ◌++◌,
  append_assoc, append-nil, Option, some, arith, ◌==◌, if◌then◌else◌, Bool-cases, All,
}
use simet_lmapd.Text.{Str, isspace}
use simet_lmapd.Csv.{
  quote, newline, need_quote, double_quotes, append, is_null, stop, bare, quoted, closing, File,
  next_loop, csv_next, c_string, as_c_string,
}

and_true : (b : Bool) → b ≡ (b && true)
and_true true = refl
and_true false = refl

and_false : (b : Bool) → false ≡ (b && false)
and_false true = refl
and_false false = refl

append-snoc : (buf f : Str) (c : ℕ) → (buf ++ c ∷ []) ++ f ≡ buf ++ c ∷ f
append-snoc buf f c = append_assoc buf (c ∷ []) f

is_null-snoc : (buf : Str) (c : ℕ) → is_null (buf ++ c ∷ []) ≡ false
is_null-snoc [] c = refl
is_null-snoc (b ∷ bs) c = refl

-- A delimiter is neither NUL, nor a quote, nor white space.
abbrev pub IsDelimiter : ℕ → Type 0
IsDelimiter d = (d ≢ 0) × (d ≢ quote) × (isspace d ≡ false)

bare-loop :
    (d : ℕ) (buf f rest : Str)
    → IsDelimiter d
    → need_quote d f ≡ false
    → next_loop d bare buf (f ++ rest) ≡ next_loop d bare (buf ++ f) rest
unfolding need_quote next_loop
bare-loop d buf [] rest h n = ap (λ b. next_loop d bare b rest) (sym (append-nil buf))
bare-loop d buf (c ∷ cs) rest h n =
    rw (plain.0, plain.1, plain.2, plain.3, next_loop)
      (bare-loop d (buf ++ c ∷ []) cs rest h plain.4
        ∙ ap (λ b. next_loop d bare b rest) (append-snoc buf cs c))
  where
    plain :
        (c == d ≡ false)
        × (c == newline ≡ false)
        × (is_null buf && isspace c ≡ false)
        × (is_null buf && c == quote ≡ false)
        × (need_quote d cs ≡ false)
    plain = (ground (arith, h.0), ground arith, ground arith, ground arith, ground arith)

module _ (d c : ℕ) (buf text : Str) where
  step-plain :
      c == quote ≡ false
      → c == newline ≡ false
      → next_loop d quoted buf (c ∷ text) ≡ next_loop d quoted (buf ++ c ∷ []) text
  unfolding next_loop
  step-plain p q = ground arith

  step-quote :
      c == quote ≡ true
      → is_null buf ≡ false
      → next_loop d quoted buf (c ∷ text) ≡ next_loop d closing buf text
  unfolding next_loop
  step-quote p q = ground arith

  step-closing :
      c ≢ d
      → c ≢ newline
      → next_loop d closing buf (c ∷ text) ≡ next_loop d quoted (buf ++ c ∷ []) text
  unfolding next_loop
  step-closing p q = ground arith

double-plain :
    (c : ℕ) (cs : Str) → c == quote ≡ false → double_quotes (c ∷ cs) ≡ c ∷ double_quotes cs
unfolding double_quotes
double-plain c cs h = rw h refl

double-quote :
    (c : ℕ) (cs : Str) → c == quote ≡ true → double_quotes (c ∷ cs) ≡ c ∷ c ∷ double_quotes cs
unfolding double_quotes
double-quote c cs h = ground arith

quoted-loop :
    (d : ℕ) (buf f rest : Str)
    → IsDelimiter d
    → is_null buf ≡ false
    → All (λ c. c ≢ newline) f
    → next_loop d quoted buf (double_quotes f ++ rest) ≡ next_loop d quoted (buf ++ f) rest
unfolding double_quotes next_loop
quoted-loop d buf [] rest h n k = ap (λ b. next_loop d quoted b rest) (sym (append-nil buf))
quoted-loop d buf (c ∷ cs) rest h n k = later (Bool-cases (c == quote)) (
    quoted-loop d (buf ++ c ∷ []) cs rest h (is_null-snoc buf c) k.1
    ∙ ap (λ b. next_loop d quoted b rest) (append-snoc buf cs c))
  where
    not_newline : c == newline ≡ false
    not_newline = ground (arith, k.0)

    not_delimiter : c == quote ≡ true → c ≢ d
    not_delimiter e = ground (arith, h.1)

    later :
        (c == quote ≡ true) ⊎ (c == quote ≡ false)
        → next_loop d quoted (buf ++ c ∷ []) (double_quotes cs ++ rest)
          ≡ next_loop d quoted (buf ++ c ∷ cs) rest
        → next_loop d quoted buf (double_quotes (c ∷ cs) ++ rest)
          ≡ next_loop d quoted (buf ++ c ∷ cs) rest
    later (inr e) next =
        rw (double-plain c cs e)
          (step-plain d c buf (double_quotes cs ++ rest) e not_newline ∙ next)
    later (inl e) next = rw (double-quote c cs e) (
        step-quote d c buf (c ∷ double_quotes cs ++ rest) e n
        ∙ step-closing d c buf (double_quotes cs ++ rest) (not_delimiter e) k.0
        ∙ next)

bare-stop :
    (d b e : ℕ) (bs rest : Str)
    → IsDelimiter d
    → (e ≡ d) ⊎ (e ≡ newline)
    → next_loop d bare (b ∷ bs) (e ∷ rest) ≡ stop (b ∷ bs) (if e == newline then e ∷ rest else rest)
unfolding next_loop
bare-stop d b e bs rest h end = ground (arith, h.2)

quoted-stop :
    (d b e : ℕ) (bs rest : Str)
    → IsDelimiter d
    → (e ≡ d) ⊎ (e ≡ newline)
    → next_loop d quoted (b ∷ bs) (quote ∷ e ∷ rest) ≡ stop (b ∷ bs) rest
unfolding next_loop
quoted-stop d b e bs rest h end = ground arith

open-quote :
    (d : ℕ) (text : Str)
    → IsDelimiter d
    → next_loop d bare [] (quote ∷ text) ≡ next_loop d quoted [] text
unfolding next_loop
open-quote d text h = rw (other, next_loop) refl
  where
    other : quote == d ≡ false
    other = ground (arith, h.1)

first-loop :
    (d c : ℕ) (cs rest : Str)
    → c ≢ quote
    → c ≢ newline
    → next_loop d quoted [] (double_quotes (c ∷ cs) ++ rest)
      ≡ next_loop d quoted (c ∷ []) (double_quotes cs ++ rest)
unfolding next_loop double_quotes
first-loop d c cs rest p q =
    rw (double-plain c cs plain) (step-plain d c [] (double_quotes cs ++ rest) plain line)
  where
    plain : c == quote ≡ false
    plain = ground arith

    line : c == newline ≡ false
    line = ground arith

-- A text without NULs is the C string that it is read as.
pub c_string-plain : (s : Str) → All (λ c. c ≢ 0) s → c_string s ≡ s
unfolding c_string
c_string-plain [] h = refl
c_string-plain (c ∷ cs) (p, h) = ground (arith, c_string-plain cs h)

-- With a delimiter that is neither NUL, nor a quote, nor white space: a field with at least one character,
-- none of them a newline or NUL and the first not a quote, is read as it was written, before a delimiter or the end of the record; the reader takes what ends the field, except
-- for a newline behind a field that needed no quotes.
pub csv_next-append :
    (d c e : ℕ) (cs rest : Str)
    → IsDelimiter d
    → c ≢ quote
    → All (λ x. x ≢ newline) (c ∷ cs)
    → All (λ x. x ≢ 0) (c ∷ cs)
    → (e ≡ d) ⊎ (e ≡ newline)
    → csv_next d (append d (some (c ∷ cs)) ++ e ∷ rest) ≡ (
      some (c ∷ cs),
      record {
        rest = if e == newline && not (need_quote d (c ∷ cs)) then e ∷ rest else rest;
        eof = false;
      },
    )
unfolding csv_next append
csv_next-append d c e cs rest h first lines text end = elim (Bool-cases (need_quote d (c ∷ cs))) [
  | inr plain ↦ rw (plain, csv_next, append) (as_text (bare_read plain))
  | inl special ↦ rw (special, csv_next, append) (as_text quoted_read)
]
  where
    as_text :
        {r : Option Str × File} {file : File}
        → r ≡ (some (c ∷ cs), file)
        → ◌≡◌ {A = Option Str × File} (as_c_string r.0, r.1) (some (c ∷ cs), file)
    as_text {r} {file} e =
        ap (λ (x : Option Str × File). (as_c_string x.0, x.1)) e
        ∙ ap (λ s. (some s, file)) (c_string-plain (c ∷ cs) text)

    bare_read :
        need_quote d (c ∷ cs) ≡ false
        → next_loop d bare [] ((c ∷ cs) ++ e ∷ rest)
          ≡ stop (c ∷ cs) (if e == newline && true then e ∷ rest else rest)
    bare_read plain =
        bare-loop d [] (c ∷ cs) (e ∷ rest) h plain
        ∙ bare-stop d c e cs rest h end
        ∙ ap (λ b. stop (c ∷ cs) (if b then e ∷ rest else rest)) (and_true (e == newline))

    quoted_read :
        next_loop d bare [] (quote ∷ (double_quotes (c ∷ cs) ++ quote ∷ []) ++ e ∷ rest)
        ≡ stop (c ∷ cs) (if e == newline && false then e ∷ rest else rest)
    quoted_read =
        open-quote d _ h
        ∙ ap (λ t. next_loop d quoted [] t)
            (append_assoc (double_quotes (c ∷ cs)) (quote ∷ []) (e ∷ rest))
        ∙ first-loop d c cs (quote ∷ e ∷ rest) first lines.0
        ∙ quoted-loop d (c ∷ []) cs (quote ∷ e ∷ rest) h refl lines.1
        ∙ quoted-stop d c e cs rest h end
        ∙ ap (λ b. stop (c ∷ cs) (if b then e ∷ rest else rest)) (and_false (e == newline))
