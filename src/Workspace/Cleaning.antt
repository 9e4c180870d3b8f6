-- ===== src/Workspace/Cleaning.antt =====
-- Cleaning and measuring directories: lmapd_workspace_clean, lmapd_workspace_schedule_clean,
-- lmapd_workspace_action_clean and lmapd_workspace_update in src/workspace.c. What readdir() returns is an
-- argument; a directory that cannot be opened is `none`.
use simet_lmapd.Base.{
  ℕ, ◌+◌, Bool, true, false, ◌&&◌, ◌||◌, List, [], ◌∷◌, Option, none, some, if◌then◌else◌,
}
use simet_lmapd.Text.{Str, codes, str_eq}
use simet_lmapd.Model.{Action, Schedule, Lmap, Rc, done, failed}
use simet_lmapd.Workspace.Tree.{
  Node, Entries, entry, nil, is_directory, lookup, erase, fstatat, can_unlink, unlinkat,
  remove_node, du,
}
use simet_lmapd.Workspace.Queue.{starts_with}
pub mod Kept

-- The directory, the calls of the system so far, and what will be returned.
pub record Scan : Type 0 where
  pub entries : Entries
  pub tick : ℕ
  pub rc : Rc

abbrev pub is_dots : Str → Bool
is_dots name = str_eq name (codes ".") || str_eq name (codes "..")

unfoldable pub put : Str → Option Node → Entries → Entries
put name none es = erase name es
put name (some node) es = entry name node (erase name es)

module _ (fails : ℕ → Bool) where
  -- The body of the loop: files go, directories and what starts with `_` stay.
  unfoldable pub clean_file : Str → Scan → Scan
  clean_file name s =
      if starts_with b'_' name then s else elim (fstatat fails s.tick s.entries name) [
        | none ↦ record s { tick = s.tick + 1 }
        | some node ↦ if is_directory (some node) then record s { tick = s.tick + 1 } else record {
          entries = unlinkat fails (s.tick + 1) s.entries name;
          tick = s.tick + 2;
          rc = if can_unlink fails (s.tick + 1) s.entries name then s.rc else failed;
        }
      ]

  unfoldable pub clean_files : List Str → Scan → Scan
  unfolding clean_file
  clean_files [] s = s
  clean_files (name ∷ names) s = clean_files names (clean_file name s)

  -- `remove_all` of a name in a directory: nftw() fails where there is nothing, and else returns 0.
  unfoldable pub remove_all : Str → Scan → Scan
  unfolding put
  remove_all name s = elim (fstatat fails s.tick s.entries name) [
    | none ↦ record s { tick = s.tick + 1; rc = failed }
    | some node ↦
        let (left, t) = remove_node fails (s.tick + 1) node in
        record s { entries = put name left s.entries; tick = t }
  ]

  -- Everything but `.` and `..` and, in the directory of an action, what starts with `_`.
  unfoldable pub clean_trees : Bool → List Str → Scan → Scan
  unfolding remove_all
  clean_trees private [] s = s
  clean_trees private (name ∷ names) s =
      clean_trees private names
        (if is_dots name || private && starts_with b'_' name then s else remove_all name s)

  abbrev opened : Entries → Scan
  opened es = record { entries = es; tick = 0; rc = done }

  unfoldable pub lmapd_workspace_schedule_clean :
      Option Schedule → List Str → Option Entries → Option Entries × Rc
  unfolding clean_files
  lmapd_workspace_schedule_clean none listing dir = (dir, done)
  lmapd_workspace_schedule_clean (some schedule) listing dir = elim schedule.workspace [
    | none ↦ (dir, done)
    | some path ↦ elim dir [
      | none ↦ (none, failed)
      | some es ↦ let s = clean_files listing (opened es) in (some s.entries, s.rc)
    ]
  ]

  unfoldable pub lmapd_workspace_action_clean :
      Option Action → List Str → Option Entries → Option Entries × Rc
  unfolding clean_trees
  lmapd_workspace_action_clean none listing dir = (dir, done)
  lmapd_workspace_action_clean (some action) listing dir = elim action.workspace [
    | none ↦ (dir, done)
    | some path ↦ elim dir [
      | none ↦ (none, failed)
      | some es ↦ let s = clean_trees true listing (opened es) in (some s.entries, s.rc)
    ]
  ]

  -- Of the queue directory.
  unfoldable pub lmapd_workspace_clean :
      Option Str → List Str → Option Entries → Option Entries × Rc
  unfolding clean_trees
  lmapd_workspace_clean none listing dir = (dir, done)
  lmapd_workspace_clean (some queue_path) listing none = (none, failed)
  lmapd_workspace_clean (some queue_path) listing (some es) =
      let s = clean_trees false listing (opened es) in (some s.entries, s.rc)

-- What nftw() finds at a path is an argument.
module _ (at : Option Str → Option Node) where
  unfoldable pub update_actions : List Action → List Action × Rc
  update_actions [] = ([], done)
  update_actions (act ∷ actions) =
      let (rest, rc) = update_actions actions in
      elim (du (at act.workspace)) [
        | none ↦ (act ∷ rest, failed)
        | some storage ↦ (record act { storage = storage } ∷ rest, rc)
      ]

  abbrev worse : Rc → Rc → Rc
  worse done rc = rc
  worse failed rc = failed

  unfoldable pub update_schedules : List Schedule → List Schedule × Rc
  unfolding update_actions
  update_schedules [] = ([], done)
  update_schedules (sched ∷ schedules) =
      let (actions, rc1) = update_actions sched.actions in
      let (rest, rc2) = update_schedules schedules in
      elim (du (at sched.workspace)) [
        | none ↦ (record sched { actions = actions } ∷ rest, failed)
        | some storage ↦
            (record sched { actions = actions; storage = storage } ∷ rest, worse rc1 rc2)
      ]

  unfoldable pub lmapd_workspace_update : Option Lmap → Option Lmap × Rc
  unfolding update_schedules
  lmapd_workspace_update none = (none, done)
  lmapd_workspace_update (some lmap) =
      let (schedules, rc) = update_schedules lmap.schedules in
      (some (record lmap { schedules = schedules }), rc)
