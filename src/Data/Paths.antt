-- ===== src/Data/Paths.antt =====
-- The paths of struct lmapd with their functions in src/data.c. What stat() says of a path is an argument.
use simet_lmapd.Base.{
  Bool, true, false, not, ◌||◌, List, [], ◌∷◌, ◌++◌, Option, none, some, if◌then◌else◌,
}
use simet_lmapd.Text.{Str}
use simet_lmapd.Model.{Rc, done, failed}
use simet_lmapd.Data.Scalar.{set_string}

-- struct lmapd without its data model, its event base and its flags.
pub record Paths : Type 0 where
  pub config_paths : List Str
  pub capability_path : Option Str
  pub queue_path : Option Str
  pub run_path : Option Str

-- S_ISREG, S_ISDIR, or something else; `none` of such a kind where stat() fails.
pub data FileKind : Type 0 where
  regular directory special : FileKind

abbrev pub is_regular_path : Option FileKind → Bool
is_regular_path (some regular) = true
is_regular_path _ = false

abbrev pub is_directory_path : Option FileKind → Bool
is_directory_path (some directory) = true
is_directory_path _ = false

unfoldable pub lmapd_new : Paths
lmapd_new = record { config_paths = []; capability_path = none; queue_path = none; run_path = none }

unfoldable pub lmapd_flush_config_paths : Paths → Paths
lmapd_flush_config_paths lmapd = record lmapd { config_paths = [] }

module _ (stat : Str → Option FileKind) where
  unfoldable pub lmapd_add_config_path : Paths → Option Str → Paths × Rc
  lmapd_add_config_path lmapd none = (lmapd, failed)
  lmapd_add_config_path lmapd (some value) =
      if is_regular_path (stat value) || is_directory_path (stat value)
      then (record lmapd { config_paths = lmapd.config_paths ++ value ∷ [] }, done)
      else (lmapd, failed)

  unfoldable pub lmapd_set_capability_path : Paths → Str → Paths × Rc
  lmapd_set_capability_path lmapd value =
      if is_regular_path (stat value) || is_directory_path (stat value)
      then (let (v, rc) = set_string lmapd.capability_path (some value) in
          (record lmapd { capability_path = v }, rc))
      else (lmapd, failed)

  unfoldable pub lmapd_set_queue_path : Paths → Str → Paths × Rc
  lmapd_set_queue_path lmapd value =
      if not (is_directory_path (stat value))
      then (lmapd, failed)
      else let (v, rc) = set_string lmapd.queue_path (some value) in
        (record lmapd { queue_path = v }, rc)

  unfoldable pub lmapd_set_run_path : Paths → Str → Paths × Rc
  lmapd_set_run_path lmapd value =
      if not (is_directory_path (stat value))
      then (lmapd, failed)
      else let (v, rc) = set_string lmapd.run_path (some value) in
        (record lmapd { run_path = v }, rc)
