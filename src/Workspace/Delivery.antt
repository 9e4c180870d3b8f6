-- ===== src/Workspace/Delivery.antt =====
-- The results of an action: lmapd_workspace_action_move in src/workspace.c links them into the queue of a
-- destination. `own` says that the destination is the action's own schedule.
use simet_lmapd.Base.{
  ℕ, ◌+◌, Bool, true, false, not, ◌&&◌, ◌||◌, List, [], ◌∷◌, Option, none, some, if◌then◌else◌,
}
use simet_lmapd.Text.{Str}
use simet_lmapd.Model.{Action, Schedule}
use simet_lmapd.Data.Validity.{given}
use simet_lmapd.Workspace.Tree.{Entries, is_regular, fstatat, linkat}
use simet_lmapd.Workspace.Queue.{starts_with}
pub mod Linked
pub mod Arrival

-- 0, -1 or 1.
pub data Moving : Type 0 where
  done failed deferred : Moving

-- The workspaces of the action and of the destination, and of the latter its incoming directory.
pub record Places : Type 0 where
  pub workspace : Entries
  pub incoming : Entries
  pub active : Entries
  pub tick : ℕ
  pub rc : Moving

abbrev pub target : Bool → Places → Entries
target true p = p.active
target false p = p.incoming

abbrev pub put_target : Bool → Entries → Places → Places
put_target true es p = record p { active = es }
put_target false es p = record p { incoming = es }

-- A null pointer, or one without the names and workspaces that are used: nothing to do.
abbrev pub complete : Option Schedule → Option Action → Option Schedule → Bool
complete (some schedule) (some action) (some destination) =
    given schedule.name
    && given action.workspace
    && given action.name
    && given destination.workspace
complete _ _ _ = false

module _ (fails : ℕ → Bool) (own : Bool) where
  -- The body of the loop.
  unfoldable pub deliver : Str → Places → Places
  deliver name p =
      if not (is_regular (fstatat fails p.tick p.workspace name))
        || starts_with b'_' name
        || starts_with b'.' name
      then record p { tick = p.tick + 1 }
      else elim (linkat fails (p.tick + 1) p.workspace (target own p) name) [
        | none ↦ record p { tick = p.tick + 2; rc = failed }
        | some es ↦ put_target own es (record p { tick = p.tick + 2 })
      ]

  unfoldable pub deliver_all : List Str → Places → Places
  unfolding deliver
  deliver_all [] p = p
  deliver_all (name ∷ names) p = deliver_all names (deliver name p)

  unfoldable pub lmapd_workspace_action_move :
      Option Schedule → Option Action → Option Schedule → Bool → List Str → Places → Places × Moving
  unfolding deliver_all
  lmapd_workspace_action_move schedule action destination defer listing p =
      if not (complete schedule action destination)
      then (p, done)
      else if defer && not own
      then (p, deferred)
      else if fails p.tick
      then (record p { tick = p.tick + 1 }, failed)
      else let p1 = deliver_all listing (record p { tick = p.tick + 1; rc = done }) in (p1, p1.rc)
