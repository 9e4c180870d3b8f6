-- ===== src/Json/RoundTrip/TaskObject.antt =====
-- The object of a task in src/json-io.c, rendered and read.
use simet_lmapd.Base.{
  ◌≡◌, refl, sym, ap, ◌∙◌, Bool, true, false, List, [], ◌∷◌, Option, none, some, arith,
  if◌then◌else◌, All,
}
use simet_lmapd.Text.{Str, str_eq, codes}
use simet_lmapd.Model.{LmapOption, Registry, Task}
use simet_lmapd.Data.Containers.Names.{IsUnique}
use simet_lmapd.Data.Task.{lmap_task_new, lmap_task_add_tag}
use simet_lmapd.Json.{Json, object, array, Fields, nil, absent, JsonC, What}
use simet_lmapd.Json.Lookup.{foreach_field, kept}
use simet_lmapd.Json.Tasks.{task_table, parse_task, xx_lt_tag}
use simet_lmapd.Json.Render.{
  render_options, render_registries, render_leaf, render_tags, task_object, object_put,
}
use simet_lmapd.Json.RoundTrip.{Reads, first-Reads}
use simet_lmapd.Json.RoundTrip.Options.{clash, nonempty}
use simet_lmapd.Json.RoundTrip.Steps.{Grows, Grows-leaf, Grows-tags, Grows-add, Grows-same}
use simet_lmapd.Json.RoundTrip.TaskParts.{
  option_id, registry_uri, HasId, HasUri, options-read, registries-read,
}
use simet_lmapd.Json.RoundTrip.Tasks.{
  leaf_name, leaf_program, leaf_version, function_lookup, option_lookup, tag_lookup, task_of,
  IsStorable, config_only,
}

module _ (lib : JsonC) (what : What) (reads : what.config_true ≡ true) where
  Grows-function :
      (n : Option Str) (rs : List Registry) (fs : Fields)
      → All HasUri rs
      → IsUnique registry_uri rs
      → absent (codes "function") fs ≡ true
      → Reads lib (config_only what) (task_table lib) lmap_task_new fs (task_of n [] none [] [])
      → Grows lib
          (config_only what)
          (task_table lib)
          lmap_task_new
          fs
          (codes "function")
          (render_registries lib rs (object fs))
          (task_of n rs none [] [])
  unfolding render_registries object_put
  Grows-function n [] fs all u a r =
      Grows-same lib (config_only what) (task_table lib) _ _ _ fs _ r refl
  Grows-function n (x ∷ rs) fs all u a r =
      let (vs, e, q) =
        registries-read lib (config_only what) reads (task_of n [] none [] []) [] (x ∷ rs) all u in
      let (fs2, e2, r2, g) =
        Grows-add lib (config_only what) (task_table lib) _ _ _ fs (codes "function") (array vs) a r
          (function_lookup lib what reads n vs ∙ q) in
      (fs2, ground (arith, e, e2), r2, g)

  Grows-option :
      (n p : Option Str) (rs : List Registry) (os : List LmapOption) (fs : Fields)
      → All HasId os
      → IsUnique option_id os
      → absent (codes "option") fs ≡ true
      → Reads lib (config_only what) (task_table lib) lmap_task_new fs (task_of n rs p [] [])
      → Grows lib
          (config_only what)
          (task_table lib)
          lmap_task_new
          fs
          (codes "option")
          (some (render_options lib os (object fs)))
          (task_of n rs p os [])
  unfolding render_options object_put
  Grows-option n p rs [] fs all u a r =
      Grows-same lib (config_only what) (task_table lib) _ _ _ fs _ r refl
  Grows-option n p rs (o ∷ os) fs all u a r =
      Grows-add lib (config_only what) (task_table lib) _ _ _ fs (codes "option") _ a r (
        option_lookup lib what reads n p rs _
        ∙ options-read lib (config_only what) reads (task_of n rs p [] []) [] (o ∷ os) all u)

  Grows-version :
      (n v : Option Str) (rs : List Registry) (fs : Fields) (both : Bool)
      → absent (codes "version") fs ≡ true
      → Reads lib (config_only what) (task_table lib) lmap_task_new fs (task_of n rs none [] [])
      → Grows lib
          (config_only what)
          (task_table lib)
          lmap_task_new
          fs
          (codes "version")
          (some (if both then render_leaf lib (object fs) (codes "version") v else object fs))
          (task_of n rs none [] [])
  Grows-version n v rs fs false a r =
      Grows-same lib (config_only what) (task_table lib) _ _ _ fs _ r refl
  Grows-version n v rs fs true a r =
      Grows-leaf lib (config_only what) (task_table lib) _ _ _ fs (codes "version") v a r
        (leaf_version lib what reads n v rs)

  -- The rendering, put together from its steps.
  task_object-steps :
      (t : Task) (f1 f2 f3 f4 f5 f6 : Fields)
      → some (render_leaf lib (object nil) (codes "name") t.name) ≡ some (object f1)
      → render_registries lib t.registries (object f1) ≡ some (object f2)
      → some (
          if what.config_false
          then render_leaf lib (object f2) (codes "version") t.version
          else object f2)
        ≡ some (object f3)
      → some (render_leaf lib (object f3) (codes "program") t.program) ≡ some (object f4)
      → some (render_options lib t.options (object f4)) ≡ some (object f5)
      → render_tags lib t.tags (codes "tag") (object f5) ≡ some (object f6)
      → task_object lib what t ≡ some (object f6)
  unfolding task_object
  task_object-steps t f1 f2 f3 f4 f5 f6 e1 e2 e3 e4 e5 e6 = ground (arith, reads)

  task_object-read :
      (t : Task)
      → IsStorable t
      → (fs : Fields) × (task_object lib what t ≡ some (object fs))
        × Reads lib
            (config_only what)
            (task_table lib)
            lmap_task_new
            fs
            (record t { version = none })
  unfolding absent str_eq foreach_field lmap_task_add_tag
  task_object-read t (c, cs, en, hr, ur, ho, uo, filled, set) =
      let (f1, e1, r1, g1) =
        Grows-leaf lib (config_only what) (task_table lib) _ _ _ nil (codes "name") t.name refl refl
          (leaf_name lib what reads t.name (λ h. nonempty (sym en ∙ h))) in
      let (f2, e2, r2, g2) =
        Grows-function t.name t.registries f1 hr ur (g1 (codes "function") refl refl) r1 in
      let a2 : (k : Str)
          → str_eq (codes "name") k ≡ false
          → str_eq (codes "function") k ≡ false
          → absent k f2 ≡ true =
        λ k d1 d2. g2 k d2 (g1 k d1 refl) in
      let (f3, e3, r3, g3) =
        Grows-version t.name t.version t.registries f2 what.config_false
          (a2 (codes "version") refl refl) r2 in
      let (f4, e4, r4, g4) =
        Grows-leaf lib (config_only what) (task_table lib) _ _ _ f3 (codes "program") t.program
          (g3 (codes "program") refl (a2 (codes "program") refl refl)) r3
          (leaf_program lib what reads t.name t.program t.registries) in
      let a4 : (k : Str)
          → str_eq (codes "name") k ≡ false
          → str_eq (codes "function") k ≡ false
          → str_eq (codes "version") k ≡ false
          → str_eq (codes "program") k ≡ false
          → absent k f4 ≡ true =
        λ k d1 d2 d3 d4. g4 k d4 (g3 k d3 (a2 k d1 d2)) in
      let (f5, e5, r5, g5) =
        Grows-option t.name t.program t.registries t.options f4 ho uo
          (a4 (codes "option") refl refl refl refl) r4 in
      let (f6, e6, r6, g6) =
        Grows-tags lib (config_only what) (task_table lib) xx_lt_tag
          (λ ts. task_of t.name t.registries t.program t.options ts) (λ ts x. refl) _ f5
          (codes "tag") t.tags (g5 (codes "tag") refl (a4 (codes "tag") refl refl refl refl)) r5
          filled set (tag_lookup lib what reads t.name t.program t.registries t.options) in
      (f6, task_object-steps t f1 f2 f3 f4 f5 f6 e1 e2 e3 e4 e5 e6, r6)

  -- A task with a name is read back from the object that it is rendered to, without its version.
  pub parse_task-object :
      (t : Task)
      → IsStorable t
      → (v : Json) × (task_object lib what t ≡ some v)
        × (parse_task lib v (config_only what) ≡ some (some (record t { version = none })))
  unfolding parse_task lmap_task_new
  parse_task-object t storable =
      let (fs, e, r) = task_object-read t storable in
      (
        object fs,
        e,
        ap kept (
            first-Reads lib (config_only what) (task_table lib) lmap_task_new
              (record t { version = none }) fs
              (λ h. clash (ap (λ (x : Task). x.name) h ∙ storable.2)) r),
      )
