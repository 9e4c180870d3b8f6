-- ===== src/Csv/KeyValue.antt =====
-- Keys and values that are written are read again, and the search for a key ends.
use simet_lmapd.Base.{
  ℕ, zero, suc, ◌<◌, ◌≡◌, refl, ap, ◌∙◌, ◌≢◌, ◌⊎◌, inl, inr, Bool, true, false, not, ◌&&◌, [], ◌∷◌,
  ◌++◌, append_assoc, Option, none, some, arith, ◌==◌, length, if◌then◌else◌, Bool-cases,
  Option-cases, All,
}
use simet_lmapd.Text.{Str}
use simet_lmapd.Csv.{
  quote, newline, File, need_quote, append, is_null, taken, Mode, bare, quoted, closing, next_loop,
  csv_next, as_c_string, csv_append, csv_start, csv_end, csv_append_key_value, next_key,
  csv_next_key_value,
}
use simet_lmapd.Csv.RoundTrip.{IsDelimiter, csv_next-append}

-- At least one character, no newline, no NUL, and no quote at the start.
abbrev pub IsField : Str → Type 0
IsField [] = false ≡ true
IsField (c ∷ cs) = (c ≢ quote) × All (λ x. x ≢ newline) (c ∷ cs) × All (λ x. x ≢ 0) (c ∷ cs)

taken-null : (buf : Str) → taken buf ≡ none → is_null buf ≡ true
taken-null [] h = refl
taken-null (b ∷ bs) h = cc

-- Where the loop finds no field before the end of the file, it has consumed a character.
abbrev Consumes : Str → Option Str × File → Type 0
Consumes text r = r.0 ≡ none → r.1.eof ≡ false → length r.1.rest < length text

next_loop-Consumes : (d : ℕ) (m : Mode) (buf text : Str) → Consumes text (next_loop d m buf text)
unfolding next_loop
next_loop-Consumes d m buf [] = λ p q. cc
next_loop-Consumes d closing buf (c ∷ cs) =
    ground (arith, next_loop-Consumes d quoted (buf ++ c ∷ []) cs)
next_loop-Consumes d bare buf (c ∷ cs) = ground (
  arith,
  taken-null buf,
  next_loop-Consumes d quoted buf cs,
  next_loop-Consumes d bare buf cs,
  next_loop-Consumes d bare (buf ++ c ∷ []) cs,
)
next_loop-Consumes d quoted buf (c ∷ cs) = ground (
  arith,
  taken-null buf,
  next_loop-Consumes d quoted buf cs,
  next_loop-Consumes d closing buf cs,
  next_loop-Consumes d quoted (buf ++ c ∷ []) cs,
)

as_c_string-none : (o : Option Str) → as_c_string o ≡ none → o ≡ none
as_c_string-none none e = refl
as_c_string-none (some s) e = cc

csv_next-Consumes : (d : ℕ) (text : Str) → Consumes text (csv_next d text)
unfolding csv_next
csv_next-Consumes d text =
    λ p q. next_loop-Consumes d bare [] text (as_c_string-none (next_loop d bare [] text).0 p) q

next_key-ends :
    (fuel d : ℕ) (file : File)
    → length file.rest < fuel
    → (r : Option Str × File) × (next_key fuel d file ≡ some r)
unfolding next_key
next_key-ends zero d file h = ground arith
next_key-ends (suc fuel) d file h = elim (Option-cases (csv_next d file.rest).0) [
  | inr (s, e) ↦ ((some s, (csv_next d file.rest).1), rw (e, next_key) refl)
  | inl e ↦ elim (Bool-cases (csv_next d file.rest).1.eof) [
    | inl over ↦ ((none, (csv_next d file.rest).1), rw (e, over, next_key) refl)
    | inr on ↦
        let (r, f) =
          next_key-ends fuel d (csv_next d file.rest).1
            (omega (arith, csv_next-Consumes d file.rest e on)) in
        (r, rw (e, on, next_key) f)
  ]
]

found-ends :
    (d : ℕ) (text : Str)
    → (r : Option Str × File) × (next_key
          (suc (length text))
          d
          (record { rest = text; eof = false })
        ≡ some r)
    → (r : Option Str × Option Str × File) × (csv_next_key_value d
          (record { rest = text; eof = false })
        ≡ some r)
unfolding csv_next_key_value
found-ends d text ((none, file1), e) = ((none, none, file1), rw (csv_next_key_value, e) refl)
found-ends d text ((some k, file1), e) = (
  (some k, (csv_next d file1.rest).0, (csv_next d file1.rest).1),
  rw (csv_next_key_value, e) refl,
)

at_end :
    (d : ℕ) (text : Str) (eof : Bool)
    → (r : Option Str × Option Str × File) × (csv_next_key_value d
          (record { rest = text; eof = eof })
        ≡ some r)
unfolding csv_next_key_value
at_end d text true = (_, refl)
at_end d text false =
    found-ends d text
      (next_key-ends (suc (length text)) d (record { rest = text; eof = false }) (omega arith))

-- The search for a key and its value ends in every file, whatever its text.
pub csv_next_key_value-ends :
    (d : ℕ) (file : File)
    → (r : Option Str × Option Str × File) × (csv_next_key_value d file ≡ some r)
csv_next_key_value-ends d file = at_end d file.rest file.eof

-- The file that is left behind a value.
abbrev pub left : ℕ → Str → Str → File
left d v rest = record { rest = if need_quote d v then rest else newline ∷ rest; eof = false }

field-read :
    (d e : ℕ) (f rest : Str)
    → IsDelimiter d
    → IsField f
    → (e ≡ d) ⊎ (e ≡ newline)
    → csv_next d (append d (some f) ++ e ∷ rest) ≡ (
      some f,
      record {
        rest = if e == newline && not (need_quote d f) then e ∷ rest else rest;
        eof = false;
      },
    )
field-read d e [] rest h p end = cc
field-read d e (c ∷ cs) rest h p end = csv_next-append d c e cs rest h p.0 p.1 p.2 end

key-read :
    (d : ℕ) (k rest : Str)
    → IsDelimiter d
    → IsField k
    → csv_next d (append d (some k) ++ d ∷ rest) ≡ (some k, record { rest = rest; eof = false })
key-read d k rest h p = field-read d d k rest h p (inl refl) ∙ chosen _ goes_on
  where
    goes_on : (d == newline && not (need_quote d k)) ≡ false
    goes_on = ground (arith, h.2)

    chosen :
        (b : Bool)
        → b ≡ false
        → ◌≡◌ {A = Option Str × File}
            (some k, record { rest = if b then d ∷ rest else rest; eof = false })
            (some k, record { rest = rest; eof = false })
    chosen true e = cc
    chosen false e = refl

value-read :
    (d : ℕ) (v rest : Str)
    → IsDelimiter d
    → IsField v
    → csv_next d (append d (some v) ++ newline ∷ rest) ≡ (some v, left d v rest)
value-read d v rest h p = field-read d newline v rest h p (inr refl) ∙ chosen (need_quote d v)
  where
    chosen :
        (b : Bool)
        → ◌≡◌ {A = Option Str × File}
            (some v, record { rest = if not b then newline ∷ rest else rest; eof = false })
            (some v, record { rest = if b then rest else newline ∷ rest; eof = false })
    chosen true = refl
    chosen false = refl

pair-read :
    (d : ℕ) (text k v : Str) (file1 file2 : File)
    → csv_next d text ≡ (some k, file1)
    → csv_next d file1.rest ≡ (some v, file2)
    → csv_next_key_value d (record { rest = text; eof = false }) ≡ some (some k, some v, file2)
unfolding csv_next_key_value next_key
pair-read d text k v file1 file2 e f =
    rw (ap (λ r. r.0) e, csv_next_key_value, next_key)
      (rw (ap (λ r. csv_next d r.1.rest) e ∙ f) refl)

end-append : (rest : Str) → append 0 none ++ rest ≡ newline ∷ rest
unfolding append
end-append rest = refl

written :
    (d : ℕ) (k v rest : Str)
    → csv_append_key_value d (some k) (some v) ++ rest
      ≡ append d (some k) ++ d ∷ (append d (some v) ++ newline ∷ rest)
unfolding csv_append_key_value csv_start csv_append csv_end
written d k v rest =
    append_assoc (append d (some k) ++ (d ∷ append d (some v))) (append 0 none) rest
    ∙ ap (λ t. (append d (some k) ++ (d ∷ append d (some v))) ++ t) (end-append rest)
    ∙ append_assoc (append d (some k)) (d ∷ append d (some v)) (newline ∷ rest)

-- With a delimiter that is neither NUL, nor a quote, nor white space: a key and a value that are written,
-- both with at least one character, no newline, no NUL and no quote at the start, are read back as they were, and
-- what follows them is left, behind a newline if the value needed no quotes.
pub key_value_round_trip :
    (d : ℕ) (k v rest : Str)
    → IsDelimiter d
    → IsField k
    → IsField v
    → csv_next_key_value d
        (record { rest = csv_append_key_value d (some k) (some v) ++ rest; eof = false })
      ≡ some (some k, some v, left d v rest)
key_value_round_trip d k v rest h p q =
    pair-read d _ k v (record { rest = append d (some v) ++ newline ∷ rest; eof = false })
      (left d v rest) (ap (csv_next d) (written d k v rest) ∙ key-read d k _ h p)
      (value-read d v rest h q)
