-- ===== src/Runner.antt =====
-- src/runner.c: what the event loop does to schedules, actions and suppressions, and the calls that it
-- makes of the operating system and of src/workspace.c.
use simet_lmapd.Base.{ℕ, Bool, true, false, ◌||◌, List, [], ◌∷◌, Option, none, some, if◌then◌else◌}
use simet_lmapd.Text.{Str, str_eq}
use simet_lmapd.Model.{Tag, Action, Schedule}
pub mod Random
pub mod Exec
pub mod Suppression
pub mod Cleanup
pub mod Callbacks
pub mod Timers
pub mod Control
pub mod System

-- A call that leaves the data model.
pub data Effect : Type 0 where
  spawn : Option Str → Option Str → Str → List Str → Effect
  kill_group kill_process : ℕ → Effect
  action_clean : Option Str → Effect
  action_meta_end : Option Str → Option Str → Effect
  action_move : Option Str → Option Str → Option Str → Bool → Effect
  schedule_move schedule_clean : Option Str → Effect

-- The answers that the calls still to come will get, and the calls made so far, the latest first.
-- A fork() answers the child's pid, or 0 where it fails; a kill() whether it succeeds; a move whether
-- it must be deferred. No answer left is a failure.
pub record Io : Type 0 where
  pub forks : List ℕ
  pub kills : List Bool
  pub moves : List Bool
  pub trace : List Effect

abbrev pub emit : Effect → Io → Io
emit e io = record io { trace = e ∷ io.trace }

abbrev pub head_or {ℓ} : {A : Type ℓ} → List A → A → A
head_or [] d = d
head_or (x ∷ xs) d = x

abbrev pub tail {ℓ} : {A : Type ℓ} → List A → List A
tail [] = []
tail (x ∷ xs) = xs

-- fnmatch(pattern, string, 0) == 0 is an argument of the model.
module _ (fnmatch : Str → Str → Bool) where
  unfoldable pub matches_any : Str → List Tag → Bool
  matches_any m [] = false
  matches_any m (t ∷ ts) = elim t.tag [
    | none ↦ matches_any m ts
    | some s ↦ fnmatch m s || matches_any m ts
  ]

  -- The nested loops over two lists of tags; a tag has a value.
  unfoldable pub big_tag_match : List Tag → List Tag → Bool
  unfolding matches_any
  big_tag_match [] tags = false
  big_tag_match (m ∷ ms) tags = elim m.tag [
    | none ↦ big_tag_match ms tags
    | some s ↦ matches_any s tags || big_tag_match ms tags
  ]
