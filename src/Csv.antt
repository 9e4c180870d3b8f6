-- ===== src/Csv.antt =====
-- src/csv.c: comma-separated values, as the daemon keeps its meta information and reads results.
use simet_lmapd.Base.{
  ℕ, zero, suc, Bool, true, false, not, ◌&&◌, ◌||◌, List, [], ◌∷◌, ◌++◌, Option, none, some, ◌==◌,
  length, if◌then◌else◌,
}
use simet_lmapd.Text.{Str, isspace}
pub mod RoundTrip
pub mod KeyValue
pub mod Progress
pub mod Texts

abbrev pub quote : ℕ
quote = 34

abbrev pub newline : ℕ
newline = 10

-- What is still to be read of a FILE, and whether a read met its end.
pub record File : Type 0 where
  pub rest : Str
  pub eof : Bool

-- The first loop of `append`.
unfoldable pub need_quote : ℕ → Str → Bool
need_quote delimiter [] = false
need_quote delimiter (c ∷ cs) =
    not (delimiter == 0) && c == delimiter || c == quote || isspace c || need_quote delimiter cs

-- The loop that doubles the quotes.
unfoldable pub double_quotes : Str → Str
double_quotes [] = []
double_quotes (c ∷ cs) =
    let rest = double_quotes cs in if c == quote then c ∷ quote ∷ rest else c ∷ rest

-- What is written for a field; a missing field ends the record.
unfoldable pub append : ℕ → Option Str → Str
append delimiter none = newline ∷ []
append delimiter (some field) =
    if need_quote delimiter field then quote ∷ double_quotes field ++ quote ∷ [] else field

unfoldable pub csv_append : ℕ → Option Str → Str
csv_append delimiter field = delimiter ∷ append delimiter field

unfoldable pub csv_start : ℕ → Option Str → Str
csv_start delimiter field = append delimiter field

unfoldable pub csv_end : Str
csv_end = append 0 none

unfoldable pub csv_append_key_value : ℕ → Option Str → Option Str → Str
csv_append_key_value delimiter key value = elim key [
  | none ↦ []
  | some k ↦ elim value [
    | none ↦ []
    | some v ↦ csv_start delimiter (some k) ++ csv_append delimiter (some v) ++ csv_end
  ]
]

abbrev pub is_null : Str → Bool
is_null [] = true
is_null (c ∷ cs) = false

-- `buf` is allocated with the first character that it takes.
abbrev pub taken : Str → Option Str
taken [] = none
taken (c ∷ cs) = some (c ∷ cs)

-- Inside `csv_next`: no quote is open; one is; or a quote was read inside quotes and the character behind
-- it decides.
pub data Mode : Type 0 where
  bare quoted closing : Mode

abbrev pub stop : Str → Str → Option Str × File
stop buf rest = (taken buf, record { rest = rest; eof = false })

-- The loop of `csv_next`, with the characters in `buf`: it returns all that it put there, NULs included.
unfoldable pub next_loop : ℕ → Mode → Str → Str → Option Str × File
next_loop delimiter mode buf [] = (taken buf, record { rest = []; eof = true })
next_loop delimiter closing buf (c ∷ cs) = elim (c == delimiter || c == newline) [
  | true ↦ stop buf cs
  | false ↦ next_loop delimiter quoted (buf ++ c ∷ []) cs
]
next_loop delimiter bare buf (c ∷ cs) = elim (c == delimiter) [
  | true ↦ stop buf cs
  | false ↦ elim (c == newline) [
    | true ↦ stop buf (if is_null buf then cs else c ∷ cs)
    | false ↦ elim (is_null buf && isspace c) [
      | true ↦ next_loop delimiter bare buf cs
      | false ↦ elim (is_null buf && c == quote) [
        | true ↦ next_loop delimiter quoted buf cs
        | false ↦ next_loop delimiter bare (buf ++ c ∷ []) cs
      ]
    ]
  ]
]
next_loop delimiter quoted buf (c ∷ cs) = elim (c == newline) [
  | true ↦ stop buf (if is_null buf then cs else c ∷ cs)
  | false ↦ elim (c == quote) [
    | true ↦ elim (is_null buf) [
      | true ↦ next_loop delimiter quoted buf cs
      | false ↦ next_loop delimiter closing buf cs
    ]
    | false ↦ next_loop delimiter quoted (buf ++ c ∷ []) cs
  ]
]

-- What C sees of the characters of a buffer: those before the first NUL.
unfoldable pub c_string : Str → Str
c_string [] = []
c_string (c ∷ cs) = let rest = c_string cs in if c == 0 then [] else c ∷ rest

abbrev pub as_c_string : Option Str → Option Str
as_c_string none = none
as_c_string (some s) = some (c_string s)

unfoldable pub csv_next : ℕ → Str → Option Str × File
unfolding c_string
csv_next delimiter text =
    let (field, file) = next_loop delimiter bare [] text in (as_c_string field, file)

-- The loop of `csv_next_key_value`, which skips what reads as no field; `none` when the fuel is used up.
unfoldable pub next_key : ℕ → ℕ → File → Option (Option Str × File)
next_key zero delimiter file = none
next_key (suc fuel) delimiter file =
    let (field, file1) = csv_next delimiter file.rest in
    elim field [
      | some s ↦ some (some s, file1)
      | none ↦ elim file1.eof [ true ↦ some (none, file1) | false ↦ next_key fuel delimiter file1 ]
    ]

-- One more than the characters that are left is enough: a field that is missing is behind one of them.
unfoldable pub csv_next_key_value : ℕ → File → Option (Option Str × Option Str × File)
csv_next_key_value delimiter file = elim file.eof [
  | true ↦ some (none, none, file)
  | false ↦ elim (next_key (suc (length file.rest)) delimiter file) [
    | none ↦ none
    | some (none, file1) ↦ some (none, none, file1)
    | some (some k, file1) ↦
        let (v, file2) = csv_next delimiter file1.rest in some (some k, v, file2)
  ]
]
