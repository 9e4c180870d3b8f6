-- ===== src/Workspace/Init.antt =====
-- lmapd_workspace_init in src/workspace.c: the directories of schedules and actions.
use simet_lmapd.Base.{ℕ, Bool, true, false, List, [], ◌∷◌, ◌++◌, Option, none, some, if◌then◌else◌}
use simet_lmapd.Text.{Str, codes}
use simet_lmapd.Model.{Action, Schedule, Lmap, Rc, done, failed}
use simet_lmapd.Data.Schedule.{lmap_schedule_set_workspace}
use simet_lmapd.Data.Action.{lmap_action_set_workspace}
use simet_lmapd.Workspace.Names.{path_max, snprintf, text, mksafe}
pub mod Distinct

-- What mkdir() does: the directory is made, it is there, or there is another error.
pub data Made : Type 0 where
  made exists refused : Made

abbrev pub is_refused : Made → Bool
is_refused refused = true
is_refused _ = false

-- "%s/%s"
unfoldable pub path : Str → Str → Str
path directory name = snprintf path_max (directory ++ b'/' ∷ name)

module _ (mkdir : Str → Made) where
  -- An action whose directory is refused keeps its old workspace.
  unfoldable pub init_action : Option Str → Action → Action × Rc
  unfolding mksafe path
  init_action workspace act = elim act.name [
    | none ↦ (act, done)
    | some name ↦
        let filepath = path (text workspace) (mksafe none (some name)) in
        if is_refused (mkdir filepath)
        then (act, failed)
        else ((lmap_action_set_workspace act (some filepath)).0, done)
  ]

  abbrev pub both : Rc → Rc → Rc
  both done rc = rc
  both failed rc = failed

  unfoldable pub init_actions : Option Str → List Action → List Action × Rc
  unfolding init_action
  init_actions workspace [] = ([], done)
  init_actions workspace (act ∷ actions) =
      let (act1, rc1) = init_action workspace act in
      let (rest, rc2) = init_actions workspace actions in (act1 ∷ rest, both rc1 rc2)

  -- A schedule gets its workspace even if the directory is refused.
  unfoldable pub init_schedule : Str → Schedule → Schedule × Rc
  unfolding init_actions
  init_schedule queue_path sched = elim sched.name [
    | none ↦ (sched, done)
    | some name ↦
        let filepath = path queue_path (mksafe none (some name)) in
        let sched1 = (lmap_schedule_set_workspace sched (some filepath)).0 in
        let (actions, rc) = init_actions sched1.workspace sched1.actions in
        let incoming = path (text sched1.workspace) (codes "_incoming") in
        (
          record sched1 { actions = actions },
          if is_refused (mkdir filepath)
              then failed
              else if is_refused (mkdir incoming)
              then failed
              else rc,
        )
  ]

  unfoldable pub init_schedules : Str → List Schedule → List Schedule × Rc
  unfolding init_schedule
  init_schedules queue_path [] = ([], done)
  init_schedules queue_path (sched ∷ schedules) =
      let (sched1, rc1) = init_schedule queue_path sched in
      let (rest, rc2) = init_schedules queue_path schedules in (sched1 ∷ rest, both rc1 rc2)

  unfoldable pub lmapd_workspace_init : Option Lmap → Option Str → Option Lmap × Rc
  unfolding init_schedules
  lmapd_workspace_init none queue_path = (none, done)
  lmapd_workspace_init (some lmap) none = (some lmap, done)
  lmapd_workspace_init (some lmap) (some queue_path) =
      let (schedules, rc) = init_schedules queue_path lmap.schedules in
      (some (record lmap { schedules = schedules }), rc)
