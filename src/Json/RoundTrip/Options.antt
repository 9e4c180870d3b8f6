-- ===== src/Json/RoundTrip/Options.antt =====
-- `render_option` and `parse_option` of src/json-io.c.
use simet_lmapd.Base.{ℕ, ◌≡◌, ◌≢◌, refl, sym, ap, ◌∙◌, true, [], ◌∷◌, Option, none, some, arith}
use simet_lmapd.Text.{Str, str_eq, codes}
use simet_lmapd.Model.{LmapOption}
use simet_lmapd.Data.Task.{
  lmap_option_new, lmap_option_set_id, lmap_option_set_name, lmap_option_set_value,
}
use simet_lmapd.Data.Scalar.{set_string, set_lmap_identifier}
use simet_lmapd.Json.{object, Fields, nil, absent, JsonC, What}
use simet_lmapd.Json.Lookup.{
  lookup_jsonmap, foreach_field, apply_entry, has_type, has_flags, passes, text, entry_string, kept,
}
use simet_lmapd.Json.Tasks.{parse_option, option_table}
use simet_lmapd.Json.Render.{render_leaf, option_object}
use simet_lmapd.Json.RoundTrip.{
  add_leaf, absent-add_leaf, render_leaf-absent, Reads-add_leaf, Reads, TakesLeaf, first-Reads,
}

pub clash : {s : Str} → none ≢ some s
clash h = cc

pub nonempty : {c : ℕ} {cs : Str} → some (c ∷ cs) ≢ some []
nonempty h = cc

abbrev pub option_of : Option Str → Option Str → Option Str → LmapOption
option_of id name value = record { id = id; name = name; value = value }

-- The fields of a rendered option.
unfoldable pub option_fields : LmapOption → Fields
option_fields o =
    add_leaf (codes "value") o.value
      (add_leaf (codes "name") o.name (add_leaf (codes "id") o.id nil))

option_object-fields :
    (lib : JsonC) (o : LmapOption) → option_object lib o ≡ object (option_fields o)
unfolding option_object option_fields absent str_eq
option_object-fields lib o =
    ap (λ x. render_leaf lib (render_leaf lib x (codes "name") o.name) (codes "value") o.value)
      (render_leaf-absent lib (codes "id") o.id nil refl)
    ∙ ap (λ x. render_leaf lib x (codes "value") o.value)
        (render_leaf-absent lib (codes "name") o.name _
          (absent-add_leaf (codes "name") (codes "id") o.id nil refl refl))
    ∙ render_leaf-absent lib (codes "value") o.value _ (
        absent-add_leaf (codes "value") (codes "name") o.name _ refl
          (absent-add_leaf (codes "value") (codes "id") o.id nil refl refl))

module _ (lib : JsonC) (what : What) (reads : what.config_true ≡ true) where
  takes_id :
      (id : Option Str)
      → id ≢ some []
      → TakesLeaf lib what option_table lmap_option_new (codes "id") id (option_of id none none)
  unfolding lookup_jsonmap apply_entry has_type has_flags passes text entry_string str_eq
      lmap_option_set_id set_lmap_identifier set_string lmap_option_new
  takes_id none n = refl
  takes_id (some []) n = absurd (n refl)
  takes_id (some (c ∷ cs)) n = ground (arith, reads, lib.text_of_string (c ∷ cs))

  takes_name :
      (id name : Option Str)
      → TakesLeaf lib what option_table
          (option_of id none none)
          (codes "name")
          name
          (option_of id name none)
  unfolding lookup_jsonmap apply_entry has_type has_flags passes text entry_string str_eq
      lmap_option_set_name set_string
  takes_name id none = refl
  takes_name id (some s) = ground (arith, reads, lib.text_of_string s)

  takes_value :
      (id name value : Option Str)
      → TakesLeaf lib what option_table
          (option_of id name none)
          (codes "value")
          value
          (option_of id name value)
  unfolding lookup_jsonmap apply_entry has_type has_flags passes text entry_string str_eq
      lmap_option_set_value set_string
  takes_value id name none = refl
  takes_value id name (some s) = ground (arith, reads, lib.text_of_string s)

  pub option_fields-read :
      (o : LmapOption)
      → o.id ≢ some []
      → Reads lib what option_table lmap_option_new (option_fields o) o
  unfolding option_fields foreach_field
  option_fields-read o n =
      Reads-add_leaf lib what option_table _ _ _ _ _ o.value
        (Reads-add_leaf lib what option_table _ _ _ _ _ o.name
          (Reads-add_leaf lib what option_table _ _ _ _ _ o.id refl (takes_id o.id n))
          (takes_name o.id o.name))
        (takes_value o.id o.name o.value)

  -- An option with an identifier is read back from the object it is rendered to, if the filter
  -- passes configuration.
  pub parse_option-object :
      (o : LmapOption) (c : ℕ) (cs : Str)
      → o.id ≡ some (c ∷ cs)
      → parse_option lib (option_object lib o) what ≡ some (some o)
  unfolding parse_option lmap_option_new
  parse_option-object o c cs e =
      ap (λ x. parse_option lib x what) (option_object-fields lib o)
      ∙ ap kept (
          first-Reads lib what option_table lmap_option_new o (option_fields o)
            (λ h. clash (ap (λ (x : LmapOption). x.id) h ∙ e))
            (option_fields-read o (λ h. nonempty (sym e ∙ h))))
