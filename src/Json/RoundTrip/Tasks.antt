-- ===== src/Json/RoundTrip/Tasks.antt =====
-- A task in src/json-io.c: `render_tasks` and `parse_task` for the configuration.
use simet_lmapd.Base.{ℕ, ◌≡◌, ◌≢◌, refl, true, false, List, [], ◌∷◌, Option, none, some, arith, All}
use simet_lmapd.Text.{Str, str_eq, codes}
use simet_lmapd.Model.{LmapOption, Registry, Task, Tag}
use simet_lmapd.Data.Containers.Names.{IsUnique}
use simet_lmapd.Data.Containers.Tags.{IsTagSet}
use simet_lmapd.Data.Task.{lmap_task_new, lmap_task_set_name, lmap_task_set_program}
use simet_lmapd.Json.{array, Values, JsonC, What}
use simet_lmapd.Json.Lookup.{
  Entry, each_tree, each_string, lookup_jsonmap, entry_string, entry_strarray, entry_objarray,
}
use simet_lmapd.Json.Tasks.{task_table, xx_lt_option, xx_lt_function, xx_lt_tag}
use simet_lmapd.Json.RoundTrip.{TakesLeaf}
use simet_lmapd.Json.RoundTrip.Lists.{AllFilled}
use simet_lmapd.Json.RoundTrip.TaskParts.{option_id, registry_uri, HasId, HasUri}

-- What a task must be for its text to name it again.
abbrev pub IsStorable : Task → Type 0
IsStorable t =
    (c : ℕ) × (cs : Str) × (t.name ≡ some (c ∷ cs))
    × All HasUri t.registries
    × IsUnique registry_uri t.registries
    × All HasId t.options
    × IsUnique option_id t.options
    × AllFilled t.tags
    × IsTagSet t.tags

-- The flags that `xx_lctrl_tasks` passes on.
abbrev pub config_only : What → What
config_only what = record what { config_false = false }

abbrev pub task_of : Option Str → List Registry → Option Str → List LmapOption → List Tag → Task
task_of n rs p os ts = record {
  name = n;
  registries = rs;
  version = none;
  program = p;
  options = os;
  tags = ts;
}

module _ (lib : JsonC) (what : What) (reads : what.config_true ≡ true) where
  abbrev table : List (Entry Task)
  table = task_table lib

  pub leaf_name :
      (n : Option Str)
      → n ≢ some []
      → TakesLeaf lib
          (config_only what)
          table
          lmap_task_new
          (codes "name")
          n
          (task_of n [] none [] [])
  unfolding lookup_jsonmap entry_string str_eq lmap_task_set_name lmap_task_new
  leaf_name none h = refl
  leaf_name (some []) h = absurd (h refl)
  leaf_name (some (c ∷ cs)) h = ground (arith, reads, lib.text_of_string (c ∷ cs))

  pub leaf_program :
      (n p : Option Str) (rs : List Registry)
      → TakesLeaf lib
          (config_only what)
          table
          (task_of n rs none [] [])
          (codes "program")
          p
          (task_of n rs p [] [])
  unfolding lookup_jsonmap entry_string str_eq lmap_task_set_program
  leaf_program n none rs = refl
  leaf_program n (some s) rs = ground (arith, reads, lib.text_of_string s)

  -- A version is no configuration: the filter passes over it.
  pub leaf_version :
      (n v : Option Str) (rs : List Registry)
      → TakesLeaf lib
          (config_only what)
          table
          (task_of n rs none [] [])
          (codes "version")
          v
          (task_of n rs none [] [])
  unfolding lookup_jsonmap entry_string str_eq
  leaf_version n none rs = refl
  leaf_version n (some s) rs = ground (arith, reads)

  pub function_lookup :
      (n : Option Str) (vs : Values)
      → lookup_jsonmap lib
          (task_of n [] none [] [])
          (config_only what)
          (codes "function")
          (array vs)
          table
        ≡ each_tree lib (xx_lt_function lib) (config_only what) (task_of n [] none [] []) vs
  unfolding lookup_jsonmap entry_string entry_strarray entry_objarray str_eq
  function_lookup n vs = ground (arith, reads)

  pub option_lookup :
      (n p : Option Str) (rs : List Registry) (vs : Values)
      → lookup_jsonmap lib
          (task_of n rs p [] [])
          (config_only what)
          (codes "option")
          (array vs)
          table
        ≡ each_tree lib (xx_lt_option lib) (config_only what) (task_of n rs p [] []) vs
  unfolding lookup_jsonmap entry_string entry_strarray entry_objarray str_eq
  option_lookup n p rs vs = ground (arith, reads)

  pub tag_lookup :
      (n p : Option Str) (rs : List Registry) (os : List LmapOption) (vs : Values)
      → lookup_jsonmap lib (task_of n rs p os []) (config_only what) (codes "tag") (array vs) table
        ≡ each_string lib xx_lt_tag (task_of n rs p os []) vs
  unfolding lookup_jsonmap entry_string entry_strarray str_eq
  tag_lookup n p rs os vs = ground (arith, reads)
