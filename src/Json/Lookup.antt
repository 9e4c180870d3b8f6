-- ===== src/Json/Lookup.antt =====
-- src/json-io.c: the table of entries that a field is looked up in, and the walk along the fields of an
-- object.
use simet_lmapd.Base.{Bool, true, false, not, ◌&&◌, ◌||◌, List, [], ◌∷◌, Option, none, some}
use simet_lmapd.Text.{Str, codes, str_eq}
use simet_lmapd.Model.{Rc, done, failed}
use simet_lmapd.Json.{
  Json, null, array, string, Values, end, value, Fields, nil, field, JsonType, boolean_type,
  int_type, object_type, array_type, string_type, type_of, same_type, JsonC, What,
}

-- YANG_*
pub record Yang : Type 0 where
  pub config_true : Bool
  pub config_false : Bool
  pub key : Bool

abbrev pub yang_config_true : Yang
yang_config_true = record { config_true = true; config_false = false; key = false }

abbrev pub yang_config_false : Yang
yang_config_false = record { config_true = false; config_false = true; key = false }

abbrev pub yang_config_any : Yang
yang_config_any = record { config_true = true; config_false = true; key = false }

abbrev pub yang_none : Yang
yang_none = record { config_true = false; config_false = false; key = false }

abbrev pub yang_key : Yang
yang_key = record { config_true = false; config_false = false; key = true }

-- The handler of an entry, JSONHANDLEMAP_STRHDLR or not, over a context of type S. `none` is a fault.
pub data Handler (S : Type 0) : Type 0 where
  text_handler : (S → Str → Option (S × Rc)) → Handler S
  tree_handler : (S → Json → What → Option (S × Rc)) → Handler S

-- struct lmap_jsonmap. The type json_type_null, which matches every type, is `none`; `iterate` is
-- JSONHANDLEMAP_ARRAYITER.
pub record Entry (S : Type 0) : Type 0 where
  pub name : Str
  pub type : Option JsonType
  pub iterate : Bool
  pub yang : Yang
  pub handler : Handler S

-- The JSONMAP_ENTRY_* macros.
module _ {S : Type 0} (name : Str) (yang : Yang) where
  unfoldable pub entry_objany : (S → Json → What → Option (S × Rc)) → Entry S
  entry_objany h = record {
    name = name;
    type = none;
    iterate = false;
    yang = yang;
    handler = tree_handler h;
  }

  unfoldable pub entry_string : (S → Str → Option (S × Rc)) → Entry S
  entry_string h = record {
    name = name;
    type = some string_type;
    iterate = false;
    yang = yang;
    handler = text_handler h;
  }

  unfoldable pub entry_strarray : (S → Str → Option (S × Rc)) → Entry S
  entry_strarray h = record {
    name = name;
    type = some array_type;
    iterate = true;
    yang = yang;
    handler = text_handler h;
  }

  unfoldable pub entry_int2str : (S → Str → Option (S × Rc)) → Entry S
  entry_int2str h = record {
    name = name;
    type = some int_type;
    iterate = false;
    yang = yang;
    handler = text_handler h;
  }

  unfoldable pub entry_bool2str : (S → Str → Option (S × Rc)) → Entry S
  entry_bool2str h = record {
    name = name;
    type = some boolean_type;
    iterate = false;
    yang = yang;
    handler = text_handler h;
  }

  unfoldable pub entry_objarray : (S → Json → What → Option (S × Rc)) → Entry S
  entry_objarray h = record {
    name = name;
    type = some array_type;
    iterate = true;
    yang = yang;
    handler = tree_handler h;
  }

  unfoldable pub entry_object : (S → Json → What → Option (S × Rc)) → Entry S
  entry_object h = record {
    name = name;
    type = some object_type;
    iterate = false;
    yang = yang;
    handler = tree_handler h;
  }

-- Whether json_object_is_type() holds where the entry asks for a type.
unfoldable pub has_type : {S : Type 0} → Entry S → Json → Bool
has_type e v = elim e.type [ none ↦ true | some t ↦ same_type (type_of v) t ]

-- `table->flags` is not zero.
unfoldable pub has_flags : {S : Type 0} → Entry S → Bool
has_flags e =
    elim e.handler [ text_handler h ↦ true | tree_handler h ↦ e.iterate ]
    || e.yang.config_true
    || e.yang.config_false
    || e.yang.key

-- Whether the filter passes the entry.
unfoldable pub passes : {S : Type 0} → What → Entry S → Bool
unfolding has_flags
passes what e =
    not (what.config_true || what.config_false)
    || not (has_flags e)
    || e.yang.key
    || what.config_true && e.yang.config_true
    || what.config_false && e.yang.config_false

-- `(jos)? jos : "null"`
unfoldable pub text : JsonC → Json → Str
text lib null = codes "null"
text lib v = lib.get_string v

module _ (lib : JsonC) {S : Type 0} where
  -- The loops over an array, with a handler for strings and with one for trees.
  unfoldable pub each_string : (S → Str → Option (S × Rc)) → S → Values → Option (S × Rc)
  each_string h s end = some (s, done)
  each_string h s (value (string t) vs) = elim (h s (lib.get_string (string t))) [
    | none ↦ none
    | some (s1, failed) ↦ some (s1, failed)
    | some (s1, done) ↦ each_string h s1 vs
  ]
  each_string h s (value v vs) = some (s, failed)

  unfoldable pub each_tree :
      (S → Json → What → Option (S × Rc)) → What → S → Values → Option (S × Rc)
  each_tree h what s end = some (s, done)
  each_tree h what s (value v vs) = elim (h s v what) [
    | none ↦ none
    | some (s1, failed) ↦ some (s1, failed)
    | some (s1, done) ↦ each_tree h what s1 vs
  ]

  -- The calls of the handler.
  unfoldable pub apply_entry : S → What → Json → Entry S → Option (S × Rc)
  unfolding text each_string each_tree
  apply_entry s what (array vs) e = elim e.handler [
    | text_handler h ↦ elim e.iterate [
      | true ↦ each_string h s vs
      | false ↦ h s (text lib (array vs))
    ]
    | tree_handler h ↦ elim e.iterate [ true ↦ each_tree h what s vs | false ↦ h s (array vs) what ]
  ]
  apply_entry s what v e = elim e.handler [
    | text_handler h ↦ h s (text lib v)
    | tree_handler h ↦ h s v what
  ]

  unfoldable pub lookup_jsonmap : S → What → Str → Json → List (Entry S) → Option (S × Rc)
  unfolding has_type passes apply_entry
  lookup_jsonmap s what key v [] = some (s, done)
  lookup_jsonmap s what key v (e ∷ es) = elim (str_eq key e.name) [
    | false ↦ lookup_jsonmap s what key v es
    | true ↦ elim (has_type e v) [
      | false ↦ some (s, failed)
      | true ↦ elim (passes what e) [ false ↦ some (s, done) | true ↦ apply_entry s what v e ]
    ]
  ]

  -- json_object_object_foreach() with a lookup, until one fails; `res` is the code before it.
  unfoldable pub foreach_field : Rc → S → What → Fields → List (Entry S) → Option (S × Rc)
  unfolding lookup_jsonmap
  foreach_field res s what nil table = some (s, res)
  foreach_field res s what (field k v fs) table = elim (lookup_jsonmap s what k v table) [
    | none ↦ none
    | some (s1, failed) ↦ some (s1, failed)
    | some (s1, done) ↦ foreach_field done s1 what fs table
  ]

-- An object that is dropped when its parser failed.
abbrev pub kept : {S : Type 0} → Option (S × Rc) → Option (Option S)
kept none = none
kept (some (s, done)) = some (some s)
kept (some (s, failed)) = some none
