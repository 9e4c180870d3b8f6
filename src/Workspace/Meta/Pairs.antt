-- ===== src/Workspace/Meta/Pairs.antt =====
-- Reading what was written: every call of csv_append_key_value with a value is one turn of the loop.
use simet_lmapd.Base.{
  ◌≡◌, refl, ◌∙◌, sym, inl, inr, Bool, true, false, List, [], ◌∷◌, ◌++◌, append_assoc, Option, none,
  some, arith, Option-cases, if◌then◌else◌, All,
}
use simet_lmapd.Text.{Str}
use simet_lmapd.Csv.{
  newline, File, need_quote, csv_append_key_value, csv_next_key_value, next_key, csv_next,
  next_loop,
}
use simet_lmapd.Csv.RoundTrip.{IsDelimiter}
use simet_lmapd.Csv.KeyValue.{IsField, left, key_value_round_trip}
use simet_lmapd.Workspace.Meta.{
  delimiter, Call, Reading, write_pairs, apply_pair, apply_read, read_pairs,
}
use simet_lmapd.Workspace.Meta.Reading.{read_pairs-step, read_pairs-end}

abbrev pub IsValue : Option Str → Type 0
IsValue none = Unit
IsValue (some v) = IsField v

abbrev pub IsWritable : List Call → Type 0
IsWritable = All (λ (c : Call). IsField c.0 × IsValue c.1)

-- What the calls do to a result when they are read again.
unfoldable pub replay : List Call → Reading → Option Reading
replay [] s = some s
replay ((key, none) ∷ pairs) s = replay pairs s
replay ((key, some value) ∷ pairs) s = elim (apply_pair key value s) [
  | none ↦ none
  | some s1 ↦ replay pairs s1
]

pub replay-cons :
    (key value : Str) (pairs : List Call) (s s1 : Reading)
    → apply_pair key value s ≡ some s1
    → replay ((key, some value) ∷ pairs) s ≡ replay pairs s1
unfolding replay
replay-cons key value pairs s s1 e = rw (replay, e) refl

-- The text behind a value, which starts with a newline unless the value was quoted.
abbrev behind : Bool → Str → Str
behind quoted text = if quoted then text else newline ∷ text

abbrev file_of : Str → File
file_of text = record { rest = text; eof = false }

delimiter-IsDelimiter : IsDelimiter delimiter
delimiter-IsDelimiter = (omega arith, omega arith, refl)

skip_newline :
    (q : Bool) (text : Str)
    → csv_next_key_value delimiter (file_of (behind q text))
      ≡ csv_next_key_value delimiter (file_of text)
unfolding csv_next_key_value next_key csv_next next_loop
skip_newline true text = refl
skip_newline false text = refl

over :
    (q : Bool)
    → csv_next_key_value delimiter (file_of (behind q []))
      ≡ some (none, none, record { rest = []; eof = true })
unfolding csv_next_key_value next_key csv_next next_loop
over true = refl
over false = refl

read_behind :
    (q : Bool) (pairs : List Call) (s s1 : Reading)
    → IsWritable pairs
    → replay pairs s ≡ some s1
    → read_pairs (file_of (behind q (write_pairs pairs))) s ≡ some s1
unfolding replay write_pairs csv_append_key_value apply_read
read_behind q [] s s1 w e =
    read_pairs-step _ (record { rest = []; eof = true }) none none s s refl (over q) refl
    ∙ read_pairs-end (record { rest = []; eof = true }) s refl
    ∙ e
read_behind q ((key, none) ∷ pairs) s s1 w e = read_behind q pairs s s1 w.1 e
read_behind q ((key, some value) ∷ pairs) s s1 w e = elim (Option-cases (apply_pair key value s)) [
  | inl fault ↦ absurd (ground arith)
  | inr (s2, f) ↦
      read_pairs-step _ (left delimiter value (write_pairs pairs)) (some key) (some value) s s2 refl
        (skip_newline q _
          ∙ key_value_round_trip delimiter key value (write_pairs pairs) delimiter-IsDelimiter w.0.0
              w.0.1)
        f
      ∙ read_behind (need_quote delimiter value) pairs s2 s1 w.1
          (sym (replay-cons key value pairs s s2 f) ∙ e)
]

-- A file of these calls reads as they do.
pub read_pairs-write_pairs :
    (pairs : List Call) (s s1 : Reading)
    → IsWritable pairs
    → replay pairs s ≡ some s1
    → read_pairs (file_of (write_pairs pairs)) s ≡ some s1
read_pairs-write_pairs pairs s s1 w e = read_behind true pairs s s1 w e

pub write_pairs-append :
    (xs ys : List Call) → write_pairs (xs ++ ys) ≡ write_pairs xs ++ write_pairs ys
unfolding write_pairs
write_pairs-append [] ys = refl
write_pairs-append (x ∷ xs) ys = simp (write_pairs-append xs ys, append_assoc)

pub replay-append :
    (xs ys : List Call) (s s1 : Reading)
    → replay xs s ≡ some s1
    → replay (xs ++ ys) s ≡ replay ys s1
unfolding replay
replay-append [] ys s s1 e = ground arith
replay-append ((key, none) ∷ xs) ys s s1 e = replay-append xs ys s s1 e
replay-append ((key, some value) ∷ xs) ys s s1 e = elim (Option-cases (apply_pair key value s)) [
  | inl fault ↦ absurd (ground arith)
  | inr (s2, f) ↦
      replay-cons key value (xs ++ ys) s s2 f
      ∙ replay-append xs ys s2 s1 (sym (replay-cons key value xs s s2 f) ∙ e)
]
