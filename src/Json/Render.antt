-- ===== src/Json/Render.antt =====
-- src/json-io.c: rendering of options, functions, tasks, suppressions and capabilities. What is
-- added to an object after it was linked into its parent is added before, which gives the same tree.
use simet_lmapd.Base.{
  Bool, true, false, not, ◌&&◌, ◌||◌, List, [], ◌∷◌, Option, none, some, if◌then◌else◌,
}
use simet_lmapd.Text.{Str, codes}
use simet_lmapd.Model.{Tag, LmapOption, Registry, Task, Supp, SuppState, Capability}
use simet_lmapd.Json.{
  Json, null, boolean, object, array, string, Values, end, value, nil, JsonC, What,
}

unfoldable pub push_value : Values → Json → Values
push_value end v = value v end
push_value (value w vs) v = value w (push_value vs v)

unfoldable pub array_add : Json → Json → Json
unfolding push_value
array_add (array vs) v = array (push_value vs v)
array_add jobj v = jobj

unfoldable pub json_object_objarray_add : JsonC → Json → Str → Json → Json
unfolding push_value
json_object_objarray_add lib (object fs) key v = object (lib.object_add key v fs)
json_object_objarray_add lib (array vs) key v = array (push_value vs v)
json_object_objarray_add lib jobj key v = jobj

abbrev pub state_name : SuppState → Str
state_name SuppState.enabled = codes "enabled"
state_name SuppState.disabled = codes "disabled"
state_name SuppState.active = codes "active"

-- A tag without a value is a fault: json_object_new_string() of a null pointer.
unfoldable pub tag_values : List Tag → Option Values
tag_values [] = some end
tag_values (t ∷ ts) = elim t.tag [
  | none ↦ none
  | some s ↦ elim (tag_values ts) [ none ↦ none | some vs ↦ some (value (string s) vs) ]
]

abbrev pub is_missing : Option Str → Bool
is_missing none = true
is_missing (some s) = false

abbrev pub is_nil_list {ℓ} : {A : Type ℓ} → List A → Bool
is_nil_list [] = true
is_nil_list (x ∷ xs) = false

module _ (lib : JsonC) where
  -- json_object_object_add() at an object.
  unfoldable pub object_put : Json → Str → Json → Json
  object_put (object fs) key v = object (lib.object_add key v fs)
  object_put jobj key v = jobj

  unfoldable pub render_empty_leaf : Json → Str → Json
  unfolding object_put
  render_empty_leaf jobj name = object_put jobj name (array (value null end))

  unfoldable pub render_leaf : Json → Str → Option Str → Json
  unfolding json_object_objarray_add
  render_leaf jobj name none = jobj
  render_leaf jobj name (some content) = json_object_objarray_add lib jobj name (string content)

  unfoldable pub render_leaf_boolean : Json → Str → Bool → Json
  unfolding json_object_objarray_add
  render_leaf_boolean jobj name content = json_object_objarray_add lib jobj name (boolean content)

  unfoldable pub render_tags : List Tag → Str → Json → Option Json
  unfolding tag_values object_put
  render_tags [] name jobj = some jobj
  render_tags (t ∷ ts) name jobj = elim (tag_values (t ∷ ts)) [
    | none ↦ none
    | some vs ↦ some (object_put jobj name (array vs))
  ]

  -- The object that is added for an option.
  unfoldable pub option_object : LmapOption → Json
  unfolding render_leaf
  option_object o =
      let robj = render_leaf (object nil) (codes "id") o.id in
      let robj = render_leaf robj (codes "name") o.name in render_leaf robj (codes "value") o.value

  unfoldable pub option_values : List LmapOption → Values
  unfolding option_object
  option_values [] = end
  option_values (o ∷ os) = value (option_object o) (option_values os)

  unfoldable pub render_options : List LmapOption → Json → Json
  unfolding option_values object_put
  render_options [] jobj = jobj
  render_options (o ∷ os) jobj = object_put jobj (codes "option") (array (option_values (o ∷ os)))

  unfoldable pub registry_object : Registry → Option Json
  unfolding render_leaf render_tags
  registry_object r =
      render_tags r.roles (codes "role") (render_leaf (object nil) (codes "uri") r.uri)

  unfoldable pub registry_values : List Registry → Option Values
  unfolding registry_object
  registry_values [] = some end
  registry_values (r ∷ rs) = elim (registry_object r) [
    | none ↦ none
    | some v ↦ elim (registry_values rs) [ none ↦ none | some vs ↦ some (value v vs) ]
  ]

  unfoldable pub render_registries : List Registry → Json → Option Json
  unfolding registry_values object_put
  render_registries [] jobj = some jobj
  render_registries (r ∷ rs) jobj = elim (registry_values (r ∷ rs)) [
    | none ↦ none
    | some vs ↦ some (object_put jobj (codes "function") (array vs))
  ]

  -- The two blocks of `render_suppressions`.
  unfoldable pub supp_config : Supp → Json → Option Json
  unfolding render_leaf render_tags render_leaf_boolean
  supp_config supp js =
      let js = render_leaf js (codes "start") supp.start in
      let js = render_leaf js (codes "end") supp.end in
      elim (render_tags supp.match (codes "match") js) [
        | none ↦ none
        | some js ↦ elim supp.stop_running_set [
          | true ↦ some (render_leaf_boolean js (codes "stop-running") supp.stop_running)
          | false ↦ some js
        ]
      ]

  unfoldable pub supp_state : Supp → Json → Json
  unfolding render_leaf
  supp_state supp js = render_leaf js (codes "state") (some (state_name supp.state))

  unfoldable pub supp_object : What → Supp → Option Json
  unfolding render_leaf supp_config supp_state
  supp_object what supp =
      let js = render_leaf (object nil) (codes "name") supp.name in
      elim (if what.config_true then supp_config supp js else some js) [
        | none ↦ none
        | some js ↦ some (if what.config_false then supp_state supp js else js)
      ]

  unfoldable pub supp_values : What → List Supp → Option Values
  unfolding supp_object
  supp_values what [] = some end
  supp_values what (s ∷ ss) = elim s.name [
    | none ↦ supp_values what ss
    | some n ↦ elim (supp_object what s) [
      | none ↦ none
      | some v ↦ elim (supp_values what ss) [ none ↦ none | some vs ↦ some (value v vs) ]
    ]
  ]

  unfoldable pub render_suppressions : List Supp → Json → What → Option Json
  unfolding supp_values object_put
  render_suppressions [] jobj what = some jobj
  render_suppressions (s ∷ ss) jobj what = elim (supp_values what (s ∷ ss)) [
    | none ↦ none
    | some vs ↦ some (
        object_put jobj (codes "suppressions")
          (object_put (object nil) (codes "suppression") (array vs)))
  ]

  unfoldable pub task_object : What → Task → Option Json
  unfolding render_leaf render_registries render_options render_tags
  task_object what task =
      elim (render_registries task.registries (render_leaf (object nil) (codes "name") task.name)) [
        | none ↦ none
        | some jt ↦
            let jt =
              if what.config_false then render_leaf jt (codes "version") task.version else jt in
            let jt = render_leaf jt (codes "program") task.program in
            if what.config_true
            then render_tags task.tags (codes "tag") (render_options task.options jt)
            else some jt
      ]

  unfoldable pub task_values : What → List Task → Option Values
  unfolding task_object
  task_values what [] = some end
  task_values what (t ∷ ts) = elim t.name [
    | none ↦ task_values what ts
    | some n ↦ elim (task_object what t) [
      | none ↦ none
      | some v ↦ elim (task_values what ts) [ none ↦ none | some vs ↦ some (value v vs) ]
    ]
  ]

  unfoldable pub render_tasks : List Task → Json → What → Option Json
  unfolding task_values object_put
  render_tasks [] jobj what = some jobj
  render_tasks (t ∷ ts) jobj what = elim (task_values what (t ∷ ts)) [
    | none ↦ none
    | some vs ↦
        some (object_put jobj (codes "tasks") (object_put (object nil) (codes "task") (array vs)))
  ]

  unfoldable pub render_capabilities : Option Capability → Json → What → Option Json
  unfolding render_leaf render_tags render_tasks object_put
  render_capabilities none jobj what = some jobj
  render_capabilities (some c) jobj what =
      if not what.config_false || is_missing c.version && is_nil_list c.tags && is_nil_list c.tasks
      then some jobj
      else elim (render_tags c.tags (codes "tag")
          (render_leaf (object nil) (codes "version") c.version)) [
            | none ↦ none
            | some jo ↦ elim (render_tasks c.tasks jo what) [
              | none ↦ none
              | some jo ↦ some (object_put jobj (codes "capabilities") jo)
            ]
          ]
