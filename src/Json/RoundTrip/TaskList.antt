-- ===== src/Json/RoundTrip/TaskList.antt =====
-- `render_tasks` and `xx_lctrl_tasks` of src/json-io.c.
use simet_lmapd.Base.{
  ◌≡◌, refl, ap, ◌∙◌, true, List, [], ◌∷◌, ◌++◌, none, some, arith, map, append_assoc, append-nil,
  All,
}
use simet_lmapd.Text.{str_eq, codes}
use simet_lmapd.Model.{done, Task, Lmap}
use simet_lmapd.Data.Containers.{lmap_add_task, task_name}
use simet_lmapd.Data.Containers.Names.{IsUnique}
use simet_lmapd.Json.{Json, object, array, field, nil, Values, end, value, JsonC, What}
use simet_lmapd.Json.Tasks.{
  only_field, parse_task_array, parse_tasks, xx_lctrl_tasks, xx_lctrlt_add_task,
}
use simet_lmapd.Json.Render.{task_values, render_tasks}
use simet_lmapd.Json.RoundTrip.Lists.{add_unique-next}
use simet_lmapd.Json.RoundTrip.SuppressionList.{single}
use simet_lmapd.Json.RoundTrip.Tasks.{IsStorable, config_only}
use simet_lmapd.Json.RoundTrip.TaskObject.{parse_task-object}

-- What is left of a task of the configuration.
unfoldable pub versionless : Task → Task
versionless t = record t { version = none }

module _ (lib : JsonC) (what : What) (reads : what.config_true ≡ true) where
  abbrev with_tasks : Lmap → List Task → Lmap
  with_tasks lmap ts = record lmap { tasks = ts }

  values_read :
      (lmap : Lmap) (acc ts : List Task)
      → All IsStorable ts
      → IsUnique task_name (acc ++ map versionless ts)
      → (vs : Values) × (task_values lib what ts ≡ some vs)
        × (parse_task_array lib xx_lctrlt_add_task (with_tasks lmap acc) (config_only what) vs
            ≡ some (with_tasks lmap (acc ++ map versionless ts), done))
  unfolding task_values parse_task_array lmap_add_task versionless
  values_read lmap acc [] all u = (end, refl, rw (append-nil acc) refl)
  values_read lmap acc (t ∷ ts) (storable, all) u =
      let (v, e, p) = parse_task-object lib what reads t storable in
      let (vs, ev, r) =
        values_read lmap (acc ++ versionless t ∷ []) ts all
          (rw (append_assoc acc (versionless t ∷ []) (map versionless ts)) u) in
      (
        value v vs,
        ground (arith, storable.2, e, ev),
        ground (
          arith,
          p,
          add_unique-next task_name acc (map versionless ts) (versionless t) _ storable.2 u,
          r
              ∙ ap (λ l. some (with_tasks lmap l, done))
                  (append_assoc acc (versionless t ∷ []) (map versionless ts)),
        ),
      )

  -- Tasks with names, distinct and not those of the data model, whose functions have distinct URIs,
  -- whose options have distinct identifiers, and whose tags and roles are distinct, where no name, identifier,
  -- tag or role is empty, are rendered, if at least the configuration is asked for, and the
  -- member that is rendered for them is read: the data model gets all of them in their order behind
  -- those it has, complete but for the version, which is no configuration.
  pub tasks_round_trip :
      (lmap : Lmap) (t : Task) (ts : List Task)
      → All IsStorable (t ∷ ts)
      → IsUnique task_name (lmap.tasks ++ map versionless (t ∷ ts))
      → (v : Json) × (render_tasks lib (t ∷ ts) (object nil) what
          ≡ some (object (field (codes "tasks") v nil)))
        × (xx_lctrl_tasks lib lmap v what
            ≡ some (record lmap { tasks = lmap.tasks ++ map versionless (t ∷ ts) }, done))
  unfolding render_tasks xx_lctrl_tasks parse_tasks only_field str_eq
  tasks_round_trip lmap t ts all u =
      let (vs, e, r) = values_read lmap lmap.tasks (t ∷ ts) all u in
      (
        object (field (codes "task") (array vs) nil),
        ground (
          arith,
          e,
          single lib (codes "task") (array vs),
          single lib (codes "tasks") (object (field (codes "task") (array vs) nil)),
        ),
        r,
      )
