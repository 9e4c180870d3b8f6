-- ===== src/Workspace/Queue.antt =====
-- The queue of a schedule: lmapd_workspace_schedule_move in src/workspace.c takes complete pairs of a data and a
-- meta file from the incoming directory. What readdir() returns is an argument.
use simet_lmapd.Base.{
  ℕ, ◌+◌, Bool, true, false, List, [], ◌∷◌, ◌++◌, Option, none, some, if◌then◌else◌, ◌==◌,
}
use simet_lmapd.Text.{Str, codes, str_eq}
use simet_lmapd.Model.{Rc, done, failed}
use simet_lmapd.Workspace.Tree.{Entries, is_regular, fstatat, unlinkat, linkat}
pub mod Suffix
pub mod Steps
pub mod Moving
pub mod Complete
pub mod Drained

-- A name up to the last dot, the dot included, and what follows it: strrchr(name, '.').
unfoldable pub split_last : ℕ → Str → Option (Str × Str)
split_last c [] = none
split_last c (x ∷ xs) = elim (split_last c xs) [
  | some (before, after) ↦ some (x ∷ before, after)
  | none ↦ if x == c then some (x ∷ [], xs) else none
]

-- The name of the data file of a name that ends in ".meta".
unfoldable pub data_name : Str → Option Str
unfolding split_last
data_name name = elim (split_last b'.' name) [
  | none ↦ none
  | some (before, after) ↦
      if str_eq after (codes "meta") then some (before ++ codes "data") else none
]

abbrev pub starts_with : ℕ → Str → Bool
starts_with c [] = false
starts_with c (x ∷ xs) = x == c

-- The directory `_incoming` and the directory of the schedule, and the calls of the system so far.
pub record Queue : Type 0 where
  pub incoming : Entries
  pub active : Entries
  pub tick : ℕ

module _ (fails : ℕ → Bool) where
  -- Both links, the second one undone if the first one fails, and both removals; `false` ends the scan.
  unfoldable pub move_pair : Str → Str → Queue → Queue × Bool
  move_pair name sdata q = elim (linkat fails q.tick q.incoming q.active sdata) [
    | none ↦ (record q { tick = q.tick + 1 }, true)
    | some active1 ↦ elim (linkat fails (q.tick + 1) q.incoming active1 name) [
      | none ↦ (
        record q { active = unlinkat fails (q.tick + 2) active1 sdata; tick = q.tick + 3 },
        false,
      )
      | some active2 ↦ (
        record q {
          incoming =
              unlinkat fails (q.tick + 3) (unlinkat fails (q.tick + 2) q.incoming name) sdata;
          active = active2;
          tick = q.tick + 4;
        },
        true,
      )
    ]
  ]

  -- A meta file that is there with its data file.
  unfoldable pub move_meta : Str → Str → Queue → Queue × Bool
  unfolding move_pair
  move_meta name sdata q =
      if is_regular (fstatat fails q.tick q.incoming name)
      then (if is_regular (fstatat fails (q.tick + 1) q.incoming sdata)
          then move_pair name sdata (record q { tick = q.tick + 2 })
          else (record q { tick = q.tick + 2 }, true))
      else (record q { tick = q.tick + 1 }, true)

  -- The body of the loop.
  unfoldable pub move_entry : Str → Queue → Queue × Bool
  unfolding data_name move_meta
  move_entry name q =
      if starts_with b'.' name
      then (q, true)
      else elim (data_name name) [ none ↦ (q, true) | some sdata ↦ move_meta name sdata q ]

  unfoldable pub move_entries : List Str → Queue → Queue
  unfolding move_entry
  move_entries [] q = q
  move_entries (name ∷ names) q =
      let (q1, goes_on) = move_entry name q in
      elim goes_on [ true ↦ move_entries names q1 | false ↦ q1 ]

  -- A schedule without a workspace has nothing to move; otherwise its directory and the incoming one are opened.
  unfoldable pub lmapd_workspace_schedule_move : Option Str → List Str → Queue → Queue × Rc
  unfolding move_entries
  lmapd_workspace_schedule_move none listing q = (q, done)
  lmapd_workspace_schedule_move (some workspace) listing q =
      if fails q.tick
      then (record q { tick = q.tick + 1 }, failed)
      else if fails (q.tick + 1)
      then (record q { tick = q.tick + 2 }, failed)
      else (move_entries listing (record q { tick = q.tick + 2 }), done)
