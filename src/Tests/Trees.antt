-- ===== src/Tests/Trees.antt =====
-- JSON trees of src/json-io.c at concrete inputs.
use simet_lmapd.Base.{◌≡◌, refl, Bool, true, false, [], ◌∷◌, none, some, if◌then◌else◌, arith}
use simet_lmapd.Text.{Str, codes, str_eq}
use simet_lmapd.Model.{Supp, SuppState, Task, Lmap, Tag, done}
use simet_lmapd.Json.{
  Json, object, string, boolean, Fields, field, nil, end, value, array, JsonC, What, absent,
  add_last,
}
use simet_lmapd.Json.Lookup.{entry_object, entry_string, lookup_jsonmap}
use simet_lmapd.Data.Supp.{lmap_supp_set_name, lmap_supp_new}
use simet_lmapd.Json.Settings.{xx_lctrl_suppressions}
use simet_lmapd.Json.Tasks.{xx_lctrl_tasks}
use simet_lmapd.Json.Render.{render_suppressions, render_tasks}
use simet_lmapd.Data.Containers.{find_name, lmap_add_supp}
use simet_lmapd.Json.RoundTrip.Options.{nonempty, clash}
use simet_lmapd.Json.RoundTrip.Suppressions.{rendered}
use simet_lmapd.Json.RoundTrip.SuppressionList.{suppressions_round_trip}
use simet_lmapd.Json.Document.{parse_config_doc}
use simet_lmapd.Json.Filter.Capabilities.{parse_config_doc-capabilities}
use simet_lmapd.Json.RoundTrip.TaskList.{versionless, tasks_round_trip}

abbrev get_string : Json → Str
get_string (string s) = s
get_string (boolean true) = codes "true"
get_string (boolean false) = codes "false"
get_string v = []

get_boolean : (b : Bool) → get_string (boolean b) ≡ (if b then codes "true" else codes "false")
get_boolean true = refl
get_boolean false = refl

abbrev object_add : Str → Json → Fields → Fields
object_add key v nil = field key v nil
object_add key v (field k w fs) =
    let rest = object_add key v fs in if str_eq k key then field k v fs else field k w rest

object_add-absent :
    (key : Str) (v : Json) (fs : Fields)
    → absent key fs ≡ true
    → object_add key v fs ≡ add_last key v fs
unfolding absent add_last
object_add-absent key v nil a = refl
object_add-absent key v (field k w fs) a = ground (arith, object_add-absent key v fs)

abbrev json_c : JsonC
json_c = record {
  get_string = get_string;
  object_add = object_add;
  text_of_string = λ s. refl;
  text_of_boolean = get_boolean;
  add_absent = object_add-absent;
}

abbrev both : What
both = record { config_true = true; config_false = true }

abbrev empty_lmap : Lmap
empty_lmap = record {
  agent = none;
  capabilities = none;
  schedules = [];
  supps = [];
  events = [];
  tasks = [];
}

abbrev tag : Str → Tag
tag s = record { tag = some s }

abbrev night : Supp
night = record {
  name = some (codes "night");
  start = some (codes "dusk");
  end = none;
  match = tag (codes "red") ∷ tag (codes "blue") ∷ [];
  stop_running = false;
  stop_running_set = true;
  state = SuppState.active;
}

abbrev noon : Supp
noon = record {
  name = some (codes "noon");
  start = none;
  end = some (codes "tea");
  match = [];
  stop_running = false;
  stop_running_set = false;
  state = SuppState.disabled;
}

abbrev ping : Task
ping = record {
  name = some (codes "ping");
  registries = record { uri = some (codes "urn:p"); roles = tag (codes "client") ∷ [] } ∷ [];
  version = some (codes "1.0");
  program = some (codes "/bin/ping");
  options = record { id = some (codes "n"); name = some (codes "-n"); value = none } ∷ [];
  tags = tag (codes "red") ∷ [];
}

suppressions_round_trip_example :
    (v : Json) × (render_suppressions json_c (night ∷ noon ∷ []) (object nil) both
      ≡ some (object (field (codes "suppressions") v nil)))
    × (xx_lctrl_suppressions json_c empty_lmap v both
        ≡ some (record empty_lmap { supps = night ∷ noon ∷ [] }, done))
unfolding rendered find_name str_eq
suppressions_round_trip_example =
    suppressions_round_trip json_c both refl empty_lmap night (noon ∷ [])
      (
        (
          _,
          _,
          refl,
          (λ h. nonempty h),
          (λ h. clash h),
          (_, _, refl, (_, _, refl, tt)),
          (_, refl, refl, (_, refl, refl, tt)),
        ),
        ((_, _, refl, (λ h. clash h), (λ h. nonempty h), tt, tt), tt),
      )
      (_, refl, refl, (_, refl, refl, tt))

tasks_round_trip_example :
    (v : Json) × (render_tasks json_c (ping ∷ []) (object nil) both
      ≡ some (object (field (codes "tasks") v nil)))
    × (xx_lctrl_tasks json_c empty_lmap v both
        ≡ some (record empty_lmap { tasks = versionless ping ∷ [] }, done))
unfolding find_name str_eq versionless
tasks_round_trip_example =
    tasks_round_trip json_c both refl empty_lmap ping []
      (
        (
          _,
          _,
          refl,
          ((_, refl, (_, _, refl, tt), (_, refl, refl, tt)), tt),
          (_, refl, refl, tt),
          ((_, _, refl), tt),
          (_, refl, refl, tt),
          (_, _, refl, tt),
          (_, refl, refl, tt),
        ),
        tt,
      )
      (_, refl, refl, tt)

-- A document that has a suppression, and tries to set a version of the capabilities.
abbrev intruding : Json
intruding = object (
    field (codes "lmap")
      (object (
        field (codes "capabilities") (object (field (codes "version") (string (codes "9")) nil)) (
          field (codes "suppressions")
            (object (
              field (codes "suppression")
                (array (value (object (field (codes "name") (string (codes "noon")) nil)) end))
                nil))
            nil)))
      nil)

abbrev versioned : Lmap
versioned = record empty_lmap {
  capabilities = some (record { tasks = []; version = some (codes "1.0"); tags = [] });
}

abbrev suppressed : Lmap
suppressed = record versioned { supps = record noon { end = none; state = SuppState.enabled } ∷ [] }

parse_config_doc-capabilities_example : suppressed.capabilities ≡ versioned.capabilities
unfolding parse_config_doc xx_lctrl_suppressions str_eq entry_object entry_string lookup_jsonmap
    lmap_supp_set_name lmap_add_supp lmap_supp_new
parse_config_doc-capabilities_example =
    parse_config_doc-capabilities json_c versioned suppressed intruding done refl
