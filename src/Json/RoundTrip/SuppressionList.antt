-- ===== src/Json/RoundTrip/SuppressionList.antt =====
-- `render_suppressions` and `xx_lctrl_suppressions` of src/json-io.c.
use simet_lmapd.Base.{
  ◌≡◌, refl, ap, ◌∙◌, true, List, [], ◌∷◌, ◌++◌, some, arith, map, append_assoc, append-nil, All,
}
use simet_lmapd.Text.{Str, str_eq, codes}
use simet_lmapd.Model.{done, Supp, Lmap}
use simet_lmapd.Data.Containers.{lmap_add_supp, supp_name}
use simet_lmapd.Data.Containers.Names.{IsUnique}
use simet_lmapd.Json.{
  Json, object, array, field, nil, Values, end, value, absent, add_last, JsonC, What,
}
use simet_lmapd.Json.Tasks.{only_field}
use simet_lmapd.Json.Settings.{parse_supp_array, xx_lctrl_suppressions}
use simet_lmapd.Json.Render.{supp_values, render_suppressions, object_put}
use simet_lmapd.Json.RoundTrip.Lists.{add_unique-next}
use simet_lmapd.Json.RoundTrip.Suppressions.{rendered, IsStorable}
use simet_lmapd.Json.RoundTrip.SuppressionObject.{parse_suppression-object}

pub single :
    (lib : JsonC) (key : Str) (v : Json)
    → object_put lib (object nil) key v ≡ object (field key v nil)
unfolding object_put absent add_last
single lib key v = ap (λ x. object x) (lib.add_absent key v nil refl)

module _ (lib : JsonC) (what : What) (reads : what.config_true ≡ true) where
  abbrev with_supps : Lmap → List Supp → Lmap
  with_supps lmap ss = record lmap { supps = ss }

  values_read :
      (lmap : Lmap) (acc ss : List Supp)
      → All IsStorable ss
      → IsUnique supp_name (acc ++ map (rendered what) ss)
      → (vs : Values) × (supp_values lib what ss ≡ some vs)
        × (parse_supp_array lib (with_supps lmap acc) what vs
            ≡ some (with_supps lmap (acc ++ map (rendered what) ss), done))
  unfolding supp_values parse_supp_array lmap_add_supp rendered
  values_read lmap acc [] all u = (end, refl, rw (append-nil acc) refl)
  values_read lmap acc (s ∷ ss) (storable, all) u =
      let (v, e, p) = parse_suppression-object lib what reads s storable in
      let (vs, ev, r) =
        values_read lmap (acc ++ rendered what s ∷ []) ss all
          (rw (append_assoc acc (rendered what s ∷ []) (map (rendered what) ss)) u) in
      (
        value v vs,
        ground (arith, storable.2, e, ev),
        ground (
          arith,
          p,
          add_unique-next supp_name acc (map (rendered what) ss) (rendered what s) _ storable.2 u,
          r
              ∙ ap (λ l. some (with_supps lmap l, done))
                  (append_assoc acc (rendered what s ∷ []) (map (rendered what) ss)),
        ),
      )

  -- Suppressions with names, distinct and not those of the data model, and with distinct tags, where no name,
  -- start, end or tag is empty, are rendered, if at least the configuration is asked for, and the
  -- member that is rendered for them is read under the same flags: the data model gets all of them in
  -- their order behind those it has, each without a stop-running that was not set, and in the fresh
  -- state if states are not asked for.
  pub suppressions_round_trip :
      (lmap : Lmap) (s : Supp) (ss : List Supp)
      → All IsStorable (s ∷ ss)
      → IsUnique supp_name (lmap.supps ++ map (rendered what) (s ∷ ss))
      → (v : Json) × (render_suppressions lib (s ∷ ss) (object nil) what
          ≡ some (object (field (codes "suppressions") v nil)))
        × (xx_lctrl_suppressions lib lmap v what
            ≡ some (record lmap { supps = lmap.supps ++ map (rendered what) (s ∷ ss) }, done))
  unfolding render_suppressions xx_lctrl_suppressions only_field str_eq
  suppressions_round_trip lmap s ss all u =
      let (vs, e, r) = values_read lmap lmap.supps (s ∷ ss) all u in
      (
        object (field (codes "suppression") (array vs) nil),
        ground (
          arith,
          e,
          single lib (codes "suppression") (array vs),
          single lib (codes "suppressions") (object (field (codes "suppression") (array vs) nil)),
        ),
        r,
      )
