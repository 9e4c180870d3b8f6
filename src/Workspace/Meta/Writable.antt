-- ===== src/Workspace/Meta/Writable.antt =====
-- Which calls can be read again, as a test, and that the end of a run can.
use simet_lmapd.Base.{
  ℕ, suc, ◌≡◌, ◌≢◌, refl, Bool, true, false, not, ◌&&◌, List, [], ◌∷◌, Option, none, some, arith,
  all, All, ◌==◌,
}
use simet_lmapd.Base.Int.{ℤ, pos, negsuc}
use simet_lmapd.Text.{Str}
use simet_lmapd.Text.Number.{IsDigits}
use simet_lmapd.Text.Printing.{print_number, print_int, print_number-ne, print_number-IsDigits}
use simet_lmapd.Csv.{quote, newline}
use simet_lmapd.Csv.KeyValue.{IsField}
use simet_lmapd.Model.{Action}
use simet_lmapd.Workspace.Meta.{Call, end_pairs}
use simet_lmapd.Workspace.Meta.Pairs.{IsValue, IsWritable}

abbrev pub is_line : Str → Bool
is_line = all (λ c. not (c == newline) && not (c == 0))

-- At least one character, none of them a newline or NUL and the first not a quote.
abbrev pub is_field : Str → Bool
is_field [] = false
is_field (c ∷ cs) = not (c == quote) && is_line (c ∷ cs)

abbrev pub is_value : Option Str → Bool
is_value none = true
is_value (some v) = is_field v

-- Every key is such a field, and every value that is there.
abbrev pub is_writable : List Call → Bool
is_writable = all (λ (c : Call). is_field c.0 && is_value c.1)

no_nul : (s : Str) → is_line s ≡ true → All (λ c. c ≢ 0) s
no_nul [] h = tt
no_nul (c ∷ s) h = (ground arith, no_nul s (ground arith))

line : (s : Str) → is_line s ≡ true → All (λ c. c ≢ newline) s
line [] h = tt
line (c ∷ s) h = (ground arith, line s (ground arith))

field : (s : Str) → is_field s ≡ true → IsField s
field [] h = absurd (ground arith)
field (c ∷ s) h = (ground arith, line (c ∷ s) (ground arith), no_nul (c ∷ s) (ground arith))

value : (v : Option Str) → is_value v ≡ true → IsValue v
value none h = tt
value (some v) h = field v h

pub writable : (pairs : List Call) → is_writable pairs ≡ true → IsWritable pairs
writable [] h = tt
writable ((k, v) ∷ pairs) h =
    ((field k (ground arith), value v (ground arith)), writable pairs (ground arith))

digits-is_line : (t : Str) → IsDigits t → is_line t ≡ true
digits-is_line [] d = refl
digits-is_line (c ∷ t) (h, d) = ground (arith, digits-is_line t d)

digits-is_field : (t : Str) → t ≢ [] → IsDigits t → is_field t ≡ true
digits-is_field [] ne d = absurd (ne refl)
digits-is_field (c ∷ s) ne d = ground (arith, digits-is_line (c ∷ s) d, d.0)

number-is_field : (n : ℕ) → is_field (print_number n) ≡ true
number-is_field n = digits-is_field (print_number n) (print_number-ne n) (print_number-IsDigits n)

int-is_field : (i : ℤ) → is_field (print_int i) ≡ true
unfolding print_int
int-is_field (pos n) = number-is_field n
int-is_field (negsuc n) = digits-is_line (print_number (suc n)) (print_number-IsDigits (suc n))

pub end-is_writable : (action : Action) → is_writable (end_pairs action) ≡ true
unfolding end_pairs
end-is_writable action = rw (number-is_field, int-is_field) refl
