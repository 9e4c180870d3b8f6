-- ===== src/Data/Task.antt =====
-- The setters of struct registry, struct option and struct task in src/data.c.
use simet_lmapd.Base.{[], Option, none}
use simet_lmapd.Text.{Str}
use simet_lmapd.Model.{Registry, LmapOption, Task, Rc}
use simet_lmapd.Data.Scalar.{set_string, set_lmap_identifier}
use simet_lmapd.Data.Containers.{add_tag, put_back, add_option}

unfoldable pub lmap_registry_new : Registry
lmap_registry_new = record { uri = none; roles = [] }

unfoldable pub lmap_registry_set_uri : Registry → Option Str → Registry × Rc
unfolding set_string
lmap_registry_set_uri registry value =
    let (v, rc) = set_string registry.uri value in (record registry { uri = v }, rc)

unfoldable pub lmap_registry_add_role : Registry → Str → Option (Registry × Rc)
unfolding add_tag
lmap_registry_add_role registry value =
    put_back (λ l. record registry { roles = l }) (add_tag registry.roles value)

unfoldable pub lmap_option_new : LmapOption
lmap_option_new = record { id = none; name = none; value = none }

unfoldable pub lmap_option_set_id : LmapOption → Option Str → LmapOption × Rc
unfolding set_lmap_identifier
lmap_option_set_id o value =
    let (v, rc) = set_lmap_identifier o.id value in (record o { id = v }, rc)

unfoldable pub lmap_option_set_name : LmapOption → Option Str → LmapOption × Rc
unfolding set_string
lmap_option_set_name o value = let (v, rc) = set_string o.name value in (record o { name = v }, rc)

unfoldable pub lmap_option_set_value : LmapOption → Option Str → LmapOption × Rc
unfolding set_string
lmap_option_set_value o value =
    let (v, rc) = set_string o.value value in (record o { value = v }, rc)

unfoldable pub lmap_task_new : Task
lmap_task_new = record {
  name = none;
  registries = [];
  version = none;
  program = none;
  options = [];
  tags = [];
}

unfoldable pub lmap_task_set_name : Task → Option Str → Task × Rc
unfolding set_lmap_identifier
lmap_task_set_name task value =
    let (v, rc) = set_lmap_identifier task.name value in (record task { name = v }, rc)

unfoldable pub lmap_task_set_version : Task → Option Str → Task × Rc
unfolding set_string
lmap_task_set_version task value =
    let (v, rc) = set_string task.version value in (record task { version = v }, rc)

unfoldable pub lmap_task_set_program : Task → Option Str → Task × Rc
unfolding set_string
lmap_task_set_program task value =
    let (v, rc) = set_string task.program value in (record task { program = v }, rc)

unfoldable pub lmap_task_add_option : Task → LmapOption → Option (Task × Rc)
unfolding add_option
lmap_task_add_option task o =
    put_back (λ l. record task { options = l }) (add_option task.options o)

unfoldable pub lmap_task_add_tag : Task → Str → Option (Task × Rc)
unfolding add_tag
lmap_task_add_tag task value = put_back (λ l. record task { tags = l }) (add_tag task.tags value)
