-- ===== src/Runner/Exec/Argv.antt =====
-- The argument vector stays inside its array of 256 pointers.
use simet_lmapd.Base.{
  ◌+◌, ◌≤◌, ◌≡◌, List, [], ◌∷◌, Option, none, some, arith, leb, Bool-cases, Option-cases, inl, inr,
  length, length-append,
}
use simet_lmapd.Text.{Str}
use simet_lmapd.Model.{LmapOption}
use simet_lmapd.Runner.Exec.{argv_limit, push, push_options, build_argv}

length-push : (argv : List Str) (s : Option Str) → length (push argv s) ≤ length argv + 1
length-push argv none = omega arith
length-push argv (some s) = omega (arith, length-append argv (s ∷ []))

push_options-le :
    (os : List LmapOption) (argv : List Str) {r : List Str}
    → length argv ≤ argv_limit + 2
    → push_options os argv ≡ some r
    → length r ≤ argv_limit + 2
unfolding push_options
push_options-le [] argv h e = ground arith
push_options-le (o ∷ os) argv {r = r} h e = elim (Bool-cases (leb (argv_limit + 1) (length argv))) [
  | inl full ↦ cc (rw (full, push_options) at e)
  | inr room ↦
      push_options-le os (push (push argv o.name) o.value)
        (ground (arith, length-push argv o.name, length-push (push argv o.name) o.value))
        (rw (room, push_options) at e)
]

-- However many options the task and the action have, the vector that is built has at most 254
-- arguments, so its NULL has an index of at most 254 in an array of 256.
pub build_argv-le :
    (program : Str) (task_options action_options : List LmapOption) (argv : List Str)
    → build_argv program task_options action_options ≡ some argv
    → length argv ≤ 254
unfolding build_argv
build_argv-le program ts os argv e = elim (Option-cases (push_options ts (program ∷ []))) [
  | inl bad ↦ cc (rw (bad, build_argv) at e)
  | inr (l, good) ↦
      push_options-le os l (push_options-le ts (program ∷ []) (omega arith) good)
        (rw (good, build_argv) at e)
]
