-- ===== src/Json/Tasks.antt =====
-- src/json-io.c: parsing of options, functions, tasks and capabilities. The outer `none` is a fault,
-- `some none` the NULL that a parser returns.
use simet_lmapd.Base.{true, false, List, [], ◌∷◌, Option, none, some}
use simet_lmapd.Text.{Str, codes, str_eq}
use simet_lmapd.Model.{Rc, done, failed, LmapOption, Registry, Task, Capability, Lmap}
use simet_lmapd.Data.Containers.{lmap_add_task, lmap_capability_add_task, lmap_task_add_registry}
use simet_lmapd.Data.Task.{
  lmap_option_new, lmap_option_set_id, lmap_option_set_name, lmap_option_set_value,
  lmap_registry_new, lmap_registry_set_uri, lmap_registry_add_role, lmap_task_new,
  lmap_task_set_name, lmap_task_set_program, lmap_task_set_version, lmap_task_add_tag,
  lmap_task_add_option,
}
use simet_lmapd.Data.Agent.{
  lmap_capability_new, lmap_capability_set_version, lmap_capability_add_tag,
}
use simet_lmapd.Json.{Json, object, array, Values, end, value, nil, field, JsonC, What}
use simet_lmapd.Json.Lookup.{
  Entry, yang_config_true, yang_config_false, yang_config_any, yang_key, entry_string,
  entry_strarray, entry_objarray, entry_object, foreach_field, kept,
}

abbrev pub xx_los_id : LmapOption → Str → Option (LmapOption × Rc)
xx_los_id o s = some (lmap_option_set_id o (some s))

abbrev pub xx_los_name : LmapOption → Str → Option (LmapOption × Rc)
xx_los_name o s = some (lmap_option_set_name o (some s))

abbrev pub xx_los_value : LmapOption → Str → Option (LmapOption × Rc)
xx_los_value o s = some (lmap_option_set_value o (some s))

abbrev pub option_table : List (Entry LmapOption)
option_table =
    entry_string (codes "id") yang_config_true xx_los_id
    ∷ entry_string (codes "name") yang_config_true xx_los_name
    ∷ entry_string (codes "value") yang_config_true xx_los_value
    ∷ []

abbrev pub xx_lreg_uri : Registry → Str → Option (Registry × Rc)
xx_lreg_uri r s = some (lmap_registry_set_uri r (some s))

abbrev pub xx_lreg_role : Registry → Str → Option (Registry × Rc)
xx_lreg_role r s = lmap_registry_add_role r s

abbrev pub registry_table : List (Entry Registry)
registry_table =
    entry_string (codes "uri") yang_config_true xx_lreg_uri
    ∷ entry_strarray (codes "role") yang_config_true xx_lreg_role
    ∷ []

abbrev pub xx_lt_name : Task → Str → Option (Task × Rc)
xx_lt_name t s = some (lmap_task_set_name t (some s))

abbrev pub xx_lt_program : Task → Str → Option (Task × Rc)
xx_lt_program t s = some (lmap_task_set_program t (some s))

abbrev pub xx_lt_version : Task → Str → Option (Task × Rc)
xx_lt_version t s = some (lmap_task_set_version t (some s))

abbrev pub xx_lt_tag : Task → Str → Option (Task × Rc)
xx_lt_tag t s = lmap_task_add_tag t s

-- The member of an object that json_object_object_get_ex() finds when it is the only one.
unfoldable pub only_field : Str → Json → Option Json
only_field key (object (field k v nil)) = elim (str_eq k key) [ true ↦ some v | false ↦ none ]
only_field key v = none

abbrev pub xx_lctrlt_add_task : Lmap → Task → Option (Lmap × Rc)
xx_lctrlt_add_task lmap t = lmap_add_task lmap t

abbrev pub xx_lcapt_add_task : Capability → Task → Option (Capability × Rc)
xx_lcapt_add_task c t = lmap_capability_add_task c t

abbrev pub xx_lcap_version : Capability → Str → Option (Capability × Rc)
xx_lcap_version c s = some (lmap_capability_set_version c (some s))

abbrev pub xx_lcap_tag : Capability → Str → Option (Capability × Rc)
xx_lcap_tag c s = lmap_capability_add_tag c s

abbrev pub given_or {ℓ} : {A : Type ℓ} → A → Option A → A
given_or new none = new
given_or new (some a) = a

module _ (lib : JsonC) where
  unfoldable pub parse_option : Json → What → Option (Option LmapOption)
  unfolding foreach_field
  parse_option (object fs) what =
      kept (foreach_field lib failed lmap_option_new what fs option_table)
  parse_option v what = some none

  unfoldable pub parse_registry : Json → What → Option (Option Registry)
  unfolding foreach_field
  parse_registry (object fs) what =
      kept (foreach_field lib failed lmap_registry_new what fs registry_table)
  parse_registry v what = some none

  unfoldable pub xx_lt_option : Task → Json → What → Option (Task × Rc)
  unfolding parse_option
  xx_lt_option t v what = elim (parse_option v what) [
    | none ↦ none
    | some none ↦ some (t, failed)
    | some (some o) ↦ lmap_task_add_option t o
  ]

  unfoldable pub xx_lt_function : Task → Json → What → Option (Task × Rc)
  unfolding parse_registry
  xx_lt_function t v what = elim (parse_registry v what) [
    | none ↦ none
    | some none ↦ some (t, failed)
    | some (some r) ↦ lmap_task_add_registry t r
  ]

  abbrev pub task_table : List (Entry Task)
  task_table =
      entry_string (codes "name") yang_key xx_lt_name
      ∷ entry_string (codes "program") yang_config_any xx_lt_program
      ∷ entry_string (codes "version") yang_config_false xx_lt_version
      ∷ entry_strarray (codes "tag") yang_config_true xx_lt_tag
      ∷ entry_objarray (codes "option") yang_config_true xx_lt_option
      ∷ entry_objarray (codes "function") yang_config_any xx_lt_function
      ∷ []

  unfoldable pub parse_task : Json → What → Option (Option Task)
  unfolding foreach_field
  parse_task (object fs) what = kept (foreach_field lib failed lmap_task_new what fs task_table)
  parse_task v what = some none

  module _ {S : Type 0} (task_add : S → Task → Option (S × Rc)) where
    -- The loop over the array. The code of `task_add` is not looked at.
    unfoldable pub parse_task_array : S → What → Values → Option (S × Rc)
    unfolding parse_task
    parse_task_array s what end = some (s, done)
    parse_task_array s what (value v vs) = elim (parse_task v what) [
      | none ↦ none
      | some none ↦ some (s, failed)
      | some (some t) ↦ elim (task_add s t) [
        | none ↦ none
        | some (s1, rc) ↦ parse_task_array s1 what vs
      ]
    ]

    unfoldable pub parse_tasks : S → Json → What → Option (S × Rc)
    unfolding only_field parse_task_array
    parse_tasks s v what = elim (only_field (codes "task") v) [
      | some (array vs) ↦ parse_task_array s what vs
      | _ ↦ some (s, failed)
    ]

  unfoldable pub xx_lctrl_tasks : Lmap → Json → What → Option (Lmap × Rc)
  unfolding parse_tasks
  xx_lctrl_tasks lmap v what =
      parse_tasks xx_lctrlt_add_task lmap v (record what { config_false = false })

  unfoldable pub xx_lcap_tasks : Capability → Json → What → Option (Capability × Rc)
  unfolding parse_tasks
  xx_lcap_tasks c v what = parse_tasks xx_lcapt_add_task c v (record what { config_true = false })

  abbrev pub capability_table : List (Entry Capability)
  capability_table =
      entry_string (codes "version") yang_config_false xx_lcap_version
      ∷ entry_strarray (codes "tag") yang_config_false xx_lcap_tag
      ∷ entry_object (codes "tasks") yang_config_false xx_lcap_tasks
      ∷ []

  unfoldable pub xx_lctrl_capabilities : Lmap → Json → What → Option (Lmap × Rc)
  unfolding foreach_field
  xx_lctrl_capabilities lmap (object fs) what =
      elim (foreach_field lib failed (given_or lmap_capability_new lmap.capabilities) what fs
        capability_table) [
          | none ↦ none
          | some (c, rc) ↦ some (record lmap { capabilities = some c }, rc)
        ]
  xx_lctrl_capabilities lmap v what = some (lmap, failed)
