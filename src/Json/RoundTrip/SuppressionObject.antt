-- ===== src/Json/RoundTrip/SuppressionObject.antt =====
-- The object of a suppression in src/json-io.c, rendered and read.
use simet_lmapd.Base.{
  ◌≡◌, refl, sym, ap, ◌∙◌, Bool, true, false, ◌&&◌, List, Option, some, arith, if◌then◌else◌,
}
use simet_lmapd.Text.{Str, str_eq, codes}
use simet_lmapd.Model.{Supp, SuppState, Tag}
use simet_lmapd.Data.Supp.{lmap_supp_new, lmap_supp_add_match}
use simet_lmapd.Json.{Json, object, string, boolean, Fields, nil, absent, JsonC, What}
use simet_lmapd.Json.Lookup.{kept, foreach_field}
use simet_lmapd.Json.Settings.{parse_suppression, supp_table, xx_lcsp_match}
use simet_lmapd.Json.Render.{
  render_leaf, render_leaf_boolean, render_tags, supp_config, supp_state, supp_object, state_name,
  json_object_objarray_add,
}
use simet_lmapd.Json.RoundTrip.{Reads, first-Reads}
use simet_lmapd.Json.RoundTrip.Steps.{Grows, Grows-leaf, Grows-tags, Grows-add, Grows-same}
use simet_lmapd.Json.RoundTrip.Options.{nonempty, clash}
use simet_lmapd.Json.RoundTrip.Suppressions.{
  leaf_name, leaf_start, leaf_end, match_lookup, stop_lookup, state_lookup, supp_of, rendered,
  IsStorable,
}

module _ (lib : JsonC) (what : What) (reads : what.config_true ≡ true) where
  Grows-stop :
      (n s e : Option Str) (ts : List Tag) (b set : Bool) (fs : Fields)
      → absent (codes "stop-running") fs ≡ true
      → Reads lib what supp_table lmap_supp_new fs (supp_of n s e ts false false SuppState.enabled)
      → Grows lib what supp_table lmap_supp_new fs
          (codes "stop-running")
          (elim set [
            | true ↦ some (render_leaf_boolean lib (object fs) (codes "stop-running") b)
            | false ↦ some (object fs)
          ])
          (supp_of n s e ts (set && b) set SuppState.enabled)
  unfolding render_leaf_boolean json_object_objarray_add
  Grows-stop n s e ts b false fs a r = Grows-same lib what supp_table _ _ _ fs _ r refl
  Grows-stop n s e ts b true fs a r =
      Grows-add lib what supp_table _ _ _ fs (codes "stop-running") (boolean b) a r
        (stop_lookup lib what reads n s e ts b)

  Grows-state :
      (n s e : Option Str) (ts : List Tag) (b set : Bool) (state : SuppState) (fs : Fields)
      (both : Bool)
      → what.config_false ≡ both
      → absent (codes "state") fs ≡ true
      → Reads lib what supp_table lmap_supp_new fs (supp_of n s e ts b set SuppState.enabled)
      → Grows lib what supp_table lmap_supp_new fs
          (codes "state")
          (some (
            if both
            then render_leaf lib (object fs) (codes "state") (some (state_name state))
            else object fs))
          (supp_of n s e ts b set (if both then state else SuppState.enabled))
  unfolding render_leaf json_object_objarray_add
  Grows-state n s e ts b set state fs false f a r = Grows-same lib what supp_table _ _ _ fs _ r refl
  Grows-state n s e ts b set state fs true f a r =
      Grows-add lib what supp_table _ _ _ fs (codes "state") (string (state_name state)) a r
        (state_lookup lib what reads n s e ts b set state f)

  -- The rendering, put together from its steps.
  supp_object-steps :
      (s : Supp) (f1 f2 f3 f4 f5 f6 : Fields)
      → some (render_leaf lib (object nil) (codes "name") s.name) ≡ some (object f1)
      → some (render_leaf lib (object f1) (codes "start") s.start) ≡ some (object f2)
      → some (render_leaf lib (object f2) (codes "end") s.end) ≡ some (object f3)
      → render_tags lib s.match (codes "match") (object f3) ≡ some (object f4)
      → elim s.stop_running_set as (λ x. Option Json) [
        | true ↦ some (render_leaf_boolean lib (object f4) (codes "stop-running") s.stop_running)
        | false ↦ some (object f4)
      ]
        ≡ some (object f5)
      → some (
          if what.config_false
          then render_leaf lib (object f5) (codes "state") (some (state_name s.state))
          else object f5)
        ≡ some (object f6)
      → supp_object lib what s ≡ some (object f6)
  unfolding supp_object supp_config supp_state
  supp_object-steps s f1 f2 f3 f4 f5 f6 e1 e2 e3 e4 e5 e6 = ground (arith, reads)

  supp_object-read :
      (s : Supp)
      → IsStorable s
      → (fs : Fields) × (supp_object lib what s ≡ some (object fs))
        × Reads lib what supp_table lmap_supp_new fs (rendered what s)
  unfolding rendered absent str_eq lmap_supp_add_match foreach_field
  supp_object-read s (c, cs, en, hs, he, filled, set) =
      let (f1, e1, r1, g1) =
        Grows-leaf lib what supp_table _ _ _ nil (codes "name") s.name refl refl
          (leaf_name lib what reads s.name (λ h. nonempty (sym en ∙ h))) in
      let (f2, e2, r2, g2) =
        Grows-leaf lib what supp_table _ _ _ f1 (codes "start") s.start
          (g1 (codes "start") refl refl) r1 (leaf_start lib what reads s.name s.start hs) in
      let (f3, e3, r3, g3) =
        Grows-leaf lib what supp_table _ _ _ f2 (codes "end") s.end
          (g2 (codes "end") refl (g1 (codes "end") refl refl)) r2
          (leaf_end lib what reads s.name s.start s.end he) in
      let a3 : (k : Str)
          → str_eq (codes "name") k ≡ false
          → str_eq (codes "start") k ≡ false
          → str_eq (codes "end") k ≡ false
          → absent k f3 ≡ true =
        λ k d1 d2 d3. g3 k d3 (g2 k d2 (g1 k d1 refl)) in
      let (f4, e4, r4, g4) =
        Grows-tags lib what supp_table xx_lcsp_match
          (λ ts. supp_of s.name s.start s.end ts false false SuppState.enabled) (λ ts c. refl) _ f3
          (codes "match") s.match (a3 (codes "match") refl refl refl) r3 filled set
          (match_lookup lib what reads s.name s.start s.end) in
      let (f5, e5, r5, g5) =
        Grows-stop s.name s.start s.end s.match s.stop_running s.stop_running_set f4
          (g4 (codes "stop-running") refl (a3 (codes "stop-running") refl refl refl)) r4 in
      let (f6, e6, r6, g6) =
        Grows-state s.name s.start s.end s.match _ s.stop_running_set s.state f5 what.config_false
          refl
          (g5 (codes "state") refl (g4 (codes "state") refl (a3 (codes "state") refl refl refl)))
          r5 in
      (f6, supp_object-steps s f1 f2 f3 f4 f5 f6 e1 e2 e3 e4 e5 e6, r6)

  -- A suppression with a name is read back from the object that it is rendered to.
  pub parse_suppression-object :
      (s : Supp)
      → IsStorable s
      → (v : Json) × (supp_object lib what s ≡ some v)
        × (parse_suppression lib v what ≡ some (some (rendered what s)))
  unfolding parse_suppression rendered lmap_supp_new
  parse_suppression-object s storable =
      let (fs, e, r) = supp_object-read s storable in
      (
        object fs,
        e,
        ap kept (
            first-Reads lib what supp_table lmap_supp_new (rendered what s) fs
              (λ h. clash (ap (λ (x : Supp). x.name) h ∙ storable.2)) r),
      )
