-- ===== src/Workspace/Init/Distinct.antt =====
-- Schedules with different names get different directories, and none of them is a private one.
use simet_lmapd.Base.{
  ℕ, zero, suc, ◌+◌, ◌-◌, ◌≤◌, ◌≡◌, refl, sym, ap, ◌∙◌, [], ◌∷◌, ◌++◌, Option, none, some, arith,
  length, length-append,
}
use simet_lmapd.Text.{Str}
use simet_lmapd.Model.{Schedule}
use simet_lmapd.Data.Schedule.{lmap_schedule_set_workspace}
use simet_lmapd.Workspace.Names.{path_max, name_max, take, mksafe}
use simet_lmapd.Workspace.Names.Safe.{mksafe-safe}
use simet_lmapd.Workspace.Names.Injective.{IsBytes, mksafe-injective}
use simet_lmapd.Workspace.Init.{Made, path, init_schedule}

take-short : (n : ℕ) (s : Str) → length s ≤ n → take n s ≡ s
unfolding take
take-short zero [] h = refl
take-short zero (c ∷ s) h = absurd (omega arith)
take-short (suc n) [] h = refl
take-short (suc n) (c ∷ s) h = ap (λ (t : Str). c ∷ t) (take-short n s (omega arith))

-- The directory and the name fit a path.
path-short :
    (directory name : Str)
    → length directory + length name ≤ path_max - 2
    → path directory name ≡ directory ++ b'/' ∷ name
unfolding path
path-short directory name h =
    take-short (path_max - 1) (directory ++ b'/' ∷ name)
      (omega (arith, length-append directory (b'/' ∷ name)))

append-cancel : (a b c : Str) → a ++ b ≡ a ++ c → b ≡ c
append-cancel [] b c e = e
append-cancel (x ∷ a) b c e = append-cancel a b c (tail_eq x (a ++ b) (a ++ c) e)
  where
    tail_eq : (x : ℕ) (s t : Str) → x ∷ s ≡ x ∷ t → s ≡ t
    tail_eq x s t f = cc

workspace_of :
    (mkdir : Str → Made) (queue_path name : Str) (sched : Schedule)
    → sched.name ≡ some name
    → length queue_path ≤ path_max - 2 - name_max
    → (init_schedule mkdir queue_path sched).0.workspace
      ≡ some (queue_path ++ b'/' ∷ mksafe none (some name))
unfolding init_schedule lmap_schedule_set_workspace
workspace_of mkdir queue_path name sched e h =
    rw (e, init_schedule)
      (ap some (
        path-short queue_path (mksafe none (some name))
          (omega (arith, (mksafe-safe (some name)).2))))

-- Under a queue path that leaves room for a name, two schedules that get the same directory have the same name,
-- if their names are bytes and have at most 84 of them; whatever mkdir() does.
pub init_schedule-injective :
    (mkdir : Str → Made) (queue_path a b : Str) (s t : Schedule)
    → s.name ≡ some a
    → t.name ≡ some b
    → length queue_path ≤ path_max - 2 - name_max
    → length a ≤ 84
    → length b ≤ 84
    → IsBytes a
    → IsBytes b
    → (init_schedule mkdir queue_path s).0.workspace
      ≡ (init_schedule mkdir queue_path t).0.workspace
    → a ≡ b
init_schedule-injective mkdir queue_path a b s t es et h la lb ba bb e =
    mksafe-injective a b la lb ba bb (
      tails (
        append-cancel queue_path _ _ (
          somes (
            sym (workspace_of mkdir queue_path a s es h)
            ∙ e
            ∙ workspace_of mkdir queue_path b t et h))))
  where
    somes : {u v : Str} → ◌≡◌ {A = Option Str} (some u) (some v) → u ≡ v
    somes f = cc

    tails : {u v : Str} → b'/' ∷ u ≡ b'/' ∷ v → u ≡ v
    tails f = cc
