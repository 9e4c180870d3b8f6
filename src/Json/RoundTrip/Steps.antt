-- ===== src/Json/RoundTrip/Steps.antt =====
-- One field more in an object of src/json-io.c: what the renderer adds is what the parser reads next.
use simet_lmapd.Base.{
  ◌≡◌, refl, sym, ap, ◌∙◌, true, false, List, [], ◌∷◌, Option, none, some, arith,
}
use simet_lmapd.Text.{Str, str_eq}
use simet_lmapd.Model.{Rc, done, Tag}
use simet_lmapd.Data.Containers.{add_tag, put_back}
use simet_lmapd.Data.Containers.Tags.{IsTagSet}
use simet_lmapd.Json.{Json, object, array, string, Values, Fields, absent, add_last, JsonC, What}
use simet_lmapd.Json.Lookup.{Entry, lookup_jsonmap, each_string}
use simet_lmapd.Json.Render.{render_leaf, json_object_objarray_add, object_put, render_tags}
use simet_lmapd.Json.RoundTrip.{absent-add_last, Reads, TakesLeaf, Reads-add_last}
use simet_lmapd.Json.RoundTrip.Lists.{AllFilled, tags-read}

module _ (lib : JsonC) {S : Type 0} (what : What) (table : List (Entry S)) where
  -- The rendering r of an object with the fields fs and perhaps the new field key, which takes s to s2.
  abbrev pub Grows : S → Fields → Str → Option Json → S → Type 0
  Grows s fs key r s2 =
      (fs2 : Fields) × (r ≡ some (object fs2))
      × Reads lib what table s fs2 s2
      × ((k : Str) → str_eq key k ≡ false → absent k fs ≡ true → absent k fs2 ≡ true)

  pub Grows-same :
      (s s1 s2 : S) (fs : Fields) (key : Str)
      → Reads lib what table s fs s1
      → s1 ≡ s2
      → Grows s fs key (some (object fs)) s2
  Grows-same s s1 s2 fs key r e = (fs, refl, rw (sym e) r, λ k d a. a)

  pub Grows-add :
      (s s1 s2 : S) (fs : Fields) (key : Str) (v : Json)
      → absent key fs ≡ true
      → Reads lib what table s fs s1
      → lookup_jsonmap lib s1 what key v table ≡ some (s2, done)
      → Grows s fs key (some (object (lib.object_add key v fs))) s2
  Grows-add s s1 s2 fs key v a r l = (
    add_last key v fs,
    ap (λ x. some (object x)) (lib.add_absent key v fs a),
    Reads-add_last lib what table s s1 s2 fs key v r l,
    λ k d b. ground (arith, absent-add_last k key v fs),
  )

  pub Grows-leaf :
      (s s1 s2 : S) (fs : Fields) (key : Str) (leaf : Option Str)
      → absent key fs ≡ true
      → Reads lib what table s fs s1
      → TakesLeaf lib what table s1 key leaf s2
      → Grows s fs key (some (render_leaf lib (object fs) key leaf)) s2
  unfolding render_leaf json_object_objarray_add
  Grows-leaf s s1 s2 fs key none a r l = Grows-same s s1 s2 fs key r l
  Grows-leaf s s1 s2 fs key (some c) a r l = Grows-add s s1 s2 fs key (string c) a r l

  pub Grows-tags :
      (h : S → Str → Option (S × Rc)) (put : List Tag → S)
      (adds : (ts : List Tag) (c : Str) → h (put ts) c ≡ put_back put (add_tag ts c)) (s : S)
      (fs : Fields) (key : Str) (ts : List Tag)
      → absent key fs ≡ true
      → Reads lib what table s fs (put [])
      → AllFilled ts
      → IsTagSet ts
      → ((vs : Values)
          → lookup_jsonmap lib (put []) what key (array vs) table ≡ each_string lib h (put []) vs)
      → Grows s fs key (render_tags lib ts key (object fs)) (put ts)
  unfolding render_tags object_put
  Grows-tags h put adds s fs key [] a r f u l = Grows-same s _ _ fs key r refl
  Grows-tags h put adds s fs key (t ∷ ts) a r f u l =
      let (vs, ev, read) = tags-read lib h put adds [] (t ∷ ts) f u in
      let (fs2, e, r2, g) =
        Grows-add s (put []) (put (t ∷ ts)) fs key (array vs) a r (l vs ∙ read) in
      (fs2, ground (arith, ev, e), r2, g)
