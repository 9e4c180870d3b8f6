-- ===== src/Json/RoundTrip/TaskParts.antt =====
-- The options and the functions of a task in src/json-io.c.
use simet_lmapd.Base.{
  ℕ, ◌≡◌, refl, ap, ◌∙◌, true, List, [], ◌∷◌, ◌++◌, Option, none, some, arith, append_assoc,
  append-nil, All,
}
use simet_lmapd.Text.{Str, str_eq, codes}
use simet_lmapd.Model.{done, LmapOption, Registry, Task, Tag}
use simet_lmapd.Data.Containers.{add_option, lmap_task_add_registry}
use simet_lmapd.Data.Containers.Names.{IsUnique}
use simet_lmapd.Data.Containers.Tags.{IsTagSet}
use simet_lmapd.Data.Task.{
  lmap_task_add_option, lmap_registry_new, lmap_registry_set_uri, lmap_registry_add_role,
}
use simet_lmapd.Json.{Json, object, array, nil, Values, end, value, absent, JsonC, What}
use simet_lmapd.Json.Lookup.{
  each_tree, each_string, lookup_jsonmap, entry_string, entry_strarray, foreach_field, kept,
}
use simet_lmapd.Json.Tasks.{
  parse_registry, xx_lt_option, xx_lt_function, registry_table, xx_lreg_role,
}
use simet_lmapd.Json.Render.{option_values, registry_object, registry_values}
use simet_lmapd.Json.RoundTrip.{TakesLeaf, first-Reads}
use simet_lmapd.Json.RoundTrip.Options.{parse_option-object, clash}
use simet_lmapd.Json.RoundTrip.Lists.{AllFilled, add_unique-next}
use simet_lmapd.Json.RoundTrip.Steps.{Grows-leaf, Grows-tags}

abbrev pub option_id : LmapOption → Option Str
option_id o = o.id

abbrev pub registry_uri : Registry → Option Str
registry_uri r = r.uri

abbrev pub HasId : LmapOption → Type 0
HasId o = (c : ℕ) × (cs : Str) × (o.id ≡ some (c ∷ cs))

abbrev pub HasUri : Registry → Type 0
HasUri r = (s : Str) × (r.uri ≡ some s) × AllFilled r.roles × IsTagSet r.roles

abbrev pub with_options : Task → List LmapOption → Task
with_options t os = record t { options = os }

abbrev pub with_registries : Task → List Registry → Task
with_registries t rs = record t { registries = rs }

abbrev registry_of : Option Str → List Tag → Registry
registry_of uri roles = record { uri = uri; roles = roles }

module _ (lib : JsonC) (what : What) (reads : what.config_true ≡ true) where
  pub options-read :
      (t : Task) (acc os : List LmapOption)
      → All HasId os
      → IsUnique option_id (acc ++ os)
      → each_tree lib (xx_lt_option lib) what (with_options t acc) (option_values lib os)
        ≡ some (with_options t (acc ++ os), done)
  unfolding each_tree option_values xx_lt_option lmap_task_add_option add_option
  options-read t acc [] all u = rw (append-nil acc) refl
  options-read t acc (o ∷ os) ((c, cs, e), all) u = ground (
    arith,
    parse_option-object lib what reads o c cs e,
    add_unique-next option_id acc os o (c ∷ cs) e u,
    options-read t (acc ++ o ∷ []) os all (rw (append_assoc acc (o ∷ []) os) u)
        ∙ ap (λ l. some (with_options t l, done)) (append_assoc acc (o ∷ []) os),
  )

  leaf_uri :
      (uri : Option Str)
      → TakesLeaf lib what registry_table lmap_registry_new (codes "uri") uri (registry_of uri [])
  unfolding lookup_jsonmap entry_string str_eq lmap_registry_set_uri lmap_registry_new
  leaf_uri none = refl
  leaf_uri (some s) = ground (arith, reads, lib.text_of_string s)

  role_lookup :
      (uri : Option Str) (vs : Values)
      → lookup_jsonmap lib (registry_of uri []) what (codes "role") (array vs) registry_table
        ≡ each_string lib xx_lreg_role (registry_of uri []) vs
  unfolding lookup_jsonmap entry_string entry_strarray str_eq
  role_lookup uri vs = ground (arith, reads)

  parse_registry-object :
      (r : Registry)
      → HasUri r
      → (v : Json) × (registry_object lib r ≡ some v) × (parse_registry lib v what ≡ some (some r))
  unfolding parse_registry registry_object lmap_registry_new lmap_registry_add_role absent
      foreach_field str_eq
  parse_registry-object r (s, e, filled, set) =
      let (f1, e1, r1, g1) =
        Grows-leaf lib what registry_table _ _ _ nil (codes "uri") r.uri refl refl
          (leaf_uri r.uri) in
      let (f2, e2, r2, g2) =
        Grows-tags lib what registry_table xx_lreg_role (λ ts. registry_of r.uri ts) (λ ts c. refl)
          _ f1 (codes "role") r.roles (g1 (codes "role") refl refl) r1 filled set
          (role_lookup r.uri) in
      (
        object f2,
        ground (arith, e1, e2),
        ap kept (
            first-Reads lib what registry_table lmap_registry_new r f2
              (λ h. clash (ap (λ (x : Registry). x.uri) h ∙ e)) r2),
      )

  pub registries-read :
      (t : Task) (acc rs : List Registry)
      → All HasUri rs
      → IsUnique registry_uri (acc ++ rs)
      → (vs : Values) × (registry_values lib rs ≡ some vs)
        × (each_tree lib (xx_lt_function lib) what (with_registries t acc) vs
            ≡ some (with_registries t (acc ++ rs), done))
  unfolding each_tree registry_values xx_lt_function lmap_task_add_registry
  registries-read t acc [] all u = (end, refl, rw (append-nil acc) refl)
  registries-read t acc (r ∷ rs) (h, all) u =
      let (v, ev, p) = parse_registry-object r h in
      let (vs, evs, q) =
        registries-read t (acc ++ r ∷ []) rs all (rw (append_assoc acc (r ∷ []) rs) u) in
      (
        value v vs,
        ground (arith, ev, evs),
        ground (
          arith,
          p,
          add_unique-next registry_uri acc rs r _ h.1 u,
          q ∙ ap (λ l. some (with_registries t l, done)) (append_assoc acc (r ∷ []) rs),
        ),
      )
