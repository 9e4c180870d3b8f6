-- ===== src/Json/RoundTrip.antt =====
-- src/json-io.c: what the parsers read from the objects that the renderers build.
use simet_lmapd.Base.{
  ◌≡◌, ◌≢◌, refl, sym, ap, inl, inr, Option-cases, Bool, true, false, not, ◌&&◌, List, [], ◌∷◌,
  Option, none, some, arith,
}
use simet_lmapd.Text.{Str, str_eq}
use simet_lmapd.Model.{Rc, done, failed}
use simet_lmapd.Json.{Json, object, string, Fields, nil, field, absent, add_last, JsonC, What}
use simet_lmapd.Json.Lookup.{Entry, lookup_jsonmap, foreach_field}
use simet_lmapd.Json.Render.{json_object_objarray_add, render_leaf}
pub mod Options
pub mod Lists
pub mod Steps
pub mod TaskParts
pub mod TaskList
pub mod Tasks
pub mod TaskObject
pub mod Suppressions
pub mod SuppressionObject
pub mod SuppressionList

-- The fields of an object after a leaf that may be missing.
unfoldable pub add_leaf : Str → Option Str → Fields → Fields
unfolding add_last
add_leaf key none fs = fs
add_leaf key (some s) fs = add_last key (string s) fs

absent-add_last :
    (key k : Str) (v : Json) (fs : Fields)
    → absent key (add_last k v fs) ≡ not (str_eq k key) && absent key fs
unfolding absent add_last
absent-add_last key k v nil = refl
absent-add_last key k v (field l w fs) = ground (arith, absent-add_last key k v fs)

pub absent-add_leaf :
    (key k : Str) (s : Option Str) (fs : Fields)
    → str_eq k key ≡ false
    → absent key fs ≡ true
    → absent key (add_leaf k s fs) ≡ true
unfolding add_leaf
absent-add_leaf key k none fs d a = a
absent-add_leaf key k (some s) fs d a = ground (arith, absent-add_last key k (string s) fs)

pub render_leaf-absent :
    (lib : JsonC) (key : Str) (s : Option Str) (fs : Fields)
    → absent key fs ≡ true
    → render_leaf lib (object fs) key s ≡ object (add_leaf key s fs)
unfolding render_leaf json_object_objarray_add add_leaf
render_leaf-absent lib key none fs a = refl
render_leaf-absent lib key (some s) fs a = ap (λ x. object x) (lib.add_absent key (string s) fs a)

module _ (lib : JsonC) {S : Type 0} (what : What) (table : List (Entry S)) where
  -- The fields take the context s to s1.
  abbrev pub Reads : S → Fields → S → Type 0
  Reads s fs s1 = foreach_field lib done s what fs table ≡ some (s1, done)

  pub Reads-add_last :
      (s s1 s2 : S) (fs : Fields) (key : Str) (v : Json)
      → Reads s fs s1
      → lookup_jsonmap lib s1 what key v table ≡ some (s2, done)
      → Reads s (add_last key v fs) s2
  unfolding foreach_field add_last
  Reads-add_last s s1 s2 nil key v r l = ground arith
  Reads-add_last s s1 s2 (field k w fs) key v r l =
      elim (Option-cases (lookup_jsonmap lib s what k w table)) [
        | inl faults ↦ ground arith
        | inr ((s3, failed), e) ↦ ground arith
        | inr ((s3, done), e) ↦ ground (arith, Reads-add_last s3 s1 s2 fs key v)
      ]

  -- A leaf that is missing changes nothing, another one is handed to its entry.
  abbrev pub TakesLeaf : S → Str → Option Str → S → Type 0
  TakesLeaf s1 key none s2 = s1 ≡ s2
  TakesLeaf s1 key (some s) s2 = lookup_jsonmap lib s1 what key (string s) table ≡ some (s2, done)

  pub Reads-add_leaf :
      (s s1 s2 : S) (fs : Fields) (key : Str) (leaf : Option Str)
      → Reads s fs s1
      → TakesLeaf s1 key leaf s2
      → Reads s (add_leaf key leaf fs) s2
  unfolding add_leaf
  Reads-add_leaf s s1 s2 fs key none r t = rw (sym t) r
  Reads-add_leaf s s1 s2 fs key (some c) r t = Reads-add_last s s1 s2 fs key (string c) r t

  -- An object that changes its context has a field, so that its code is `done` whatever it was before.
  pub first-Reads :
      (s s1 : S) (fs : Fields)
      → s ≢ s1
      → Reads s fs s1
      → foreach_field lib failed s what fs table ≡ some (s1, done)
  unfolding foreach_field
  first-Reads s s1 nil n r = absurd (n cc)
  first-Reads s s1 (field k v fs) n r = r
