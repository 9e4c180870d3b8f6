-- ===== src/Workspace/Names.antt =====
-- Names in the file system: mksafe and the paths of data and meta files in src/workspace.c.
use simet_lmapd.Base.{
  ℕ, suc, ◌+◌, ◌-◌, ◌*◌, ◌/◌, ◌%◌, ◌^◌, ◌≤◌, ◌≡◌, refl, Bool, true, false, not, ◌&&◌, ◌||◌, List,
  [], ◌∷◌, ◌++◌, Option, none, some, arith, ltb, leb, ◌==◌, if◌then◌else◌,
}
use simet_lmapd.Base.Int.{ℤ, pos, negsuc}
use simet_lmapd.Text.{Str, codes, isdigit}
use simet_lmapd.Text.Printing.{print_number}
use simet_lmapd.Model.{Action, Schedule}
pub mod Safe
pub mod Injective

abbrev pub name_max : ℕ
name_max = 255

abbrev pub path_max : ℕ
path_max = 4096

abbrev pub isalnum : ℕ → Bool
isalnum c = isdigit c || leb 65 c && leb c 90 || leb 97 c && leb c 122

-- strchr("-.,_", c), for a character that is not NUL.
abbrev pub is_punct : ℕ → Bool
is_punct c = c == b'-' || c == b'.' || c == b',' || c == b'_'

-- "0123456789ABCDEF"[d]
abbrev pub hex : ℕ → ℕ
hex d = if ltb d 10 then 48 + d else 55 + d

abbrev pub keeps : Bool → ℕ → Bool
keeps first c = isalnum c || not first && is_punct c

-- The loop of `mksafe` with j characters in the buffer; `first` says that i is 0.
unfoldable pub safe_loop : ℕ → ℕ → Bool → Str → Str
safe_loop buflen j first [] = []
safe_loop buflen j first (c ∷ cs) = elim (ltb j (buflen - 1)) [
  | false ↦ []
  | true ↦ elim (keeps first c) [
    | true ↦ c ∷ safe_loop buflen (j + 1) false cs
    | false ↦ elim (ltb j (name_max - 4)) [
      | true ↦ b'%' ∷ hex (c / 16 % 16) ∷ hex (c % 16) ∷ safe_loop buflen (j + 3) false cs
      | false ↦ []
    ]
  ]
]

-- With a buffer of its own, of NAME_MAX bytes, where the caller gives none.
unfoldable pub mksafe : Option ℕ → Option Str → Str
mksafe buf none = []
mksafe none (some name) = safe_loop name_max 0 true name
mksafe (some buflen) (some name) = safe_loop (if buflen == 0 then name_max else buflen) 0 true name

-- What snprintf leaves in a buffer of n bytes.
unfoldable pub take : ℕ → Str → Str
take ℕ.zero s = []
take (suc n) [] = []
take (suc n) (c ∷ s) = c ∷ take n s

abbrev pub snprintf : ℕ → Str → Str
snprintf size s = take (size - 1) s

-- (unsigned long long) t
abbrev pub unsigned64 : ℤ → ℕ
unsigned64 (pos n) = n % 2 ^ 64
unsigned64 (negsuc n) = 2 ^ 64 - 1 - n % 2 ^ 64

-- %s of a string that may be NULL prints nothing.
abbrev pub text : Option Str → Str
text none = []
text (some s) = s

-- The name of a file for a run of an action, in its workspace: "%llu-%s-%s" and a suffix.
unfoldable pub run_file : ℤ → Option Str → Option Str → Str → Str
unfolding mksafe
run_file last_invocation schedule action suffix =
    print_number (unsigned64 last_invocation)
    ++ b'-' ∷ mksafe none schedule
    ++ b'-' ∷ mksafe (some name_max) action
    ++ suffix

-- The path of the file of a run that has the suffix.
unfoldable pub run_path : Schedule → Action → Str → Str
unfolding take run_file
run_path schedule action suffix = snprintf path_max (
    text action.workspace
    ++ b'/' ∷ run_file action.last_invocation schedule.name action.name suffix)

-- The file that open() was called for, if that succeeds; `opens` says so of a path.
unfoldable pub lmapd_workspace_action_open_data : (Str → Bool) → Schedule → Action → Option Str
unfolding run_path
lmapd_workspace_action_open_data opens schedule action =
    let filepath = run_path schedule action (codes ".data") in
    if opens filepath then some filepath else none

unfoldable pub lmapd_workspace_action_open_meta : (Str → Bool) → Schedule → Action → Option Str
unfolding run_path
lmapd_workspace_action_open_meta opens schedule action =
    let filepath = run_path schedule action (codes ".meta") in
    if opens filepath then some filepath else none
