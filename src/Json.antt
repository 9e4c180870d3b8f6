-- ===== src/Json.antt =====
-- src/json-io.c: JSON trees as json-c hands them over, and what the code uses of that library. A string is
-- the C string that the code sees.
use simet_lmapd.Base.{
  ◌≡◌, Bool, true, false, not, ◌&&◌, ◌||◌, List, [], ◌∷◌, Option, none, some, if◌then◌else◌,
}
use simet_lmapd.Base.Int.{ℤ}
use simet_lmapd.Text.{Str, codes, str_eq}
use simet_lmapd.Model.{Rc, done, failed}
pub mod Lookup
pub mod Tasks
pub mod Settings
pub mod Actions
pub mod Schedules
pub mod Events
pub mod Document
pub mod Filter
pub mod Render
pub mod RoundTrip

mutual
  pub data Json : Type 0 where
    null : Json
    boolean : Bool → Json
    double : Str → Json
    int : ℤ → Json
    object : Fields → Json
    array : Values → Json
    string : Str → Json

  pub data Values : Type 0 where
    end : Values
    value : Json → Values → Values

  pub data Fields : Type 0 where
    nil : Fields
    field : Str → Json → Fields → Fields

-- enum json_type
pub data JsonType : Type 0 where
  null_type boolean_type double_type int_type object_type array_type string_type : JsonType

abbrev pub type_of : Json → JsonType
type_of null = null_type
type_of (boolean b) = boolean_type
type_of (double s) = double_type
type_of (int n) = int_type
type_of (object fs) = object_type
type_of (array vs) = array_type
type_of (string s) = string_type

abbrev pub same_type : JsonType → JsonType → Bool
same_type null_type null_type = true
same_type boolean_type boolean_type = true
same_type double_type double_type = true
same_type int_type int_type = true
same_type object_type object_type = true
same_type array_type array_type = true
same_type string_type string_type = true
same_type _ _ = false

unfoldable pub absent : Str → Fields → Bool
absent key nil = true
absent key (field k v fs) = not (str_eq k key) && absent key fs

unfoldable pub add_last : Str → Json → Fields → Fields
add_last key v nil = field key v nil
add_last key v (field k w fs) = field k w (add_last key v fs)

-- What the code uses of json-c beyond the tree: the text of a value that is not NULL, and adding a
-- field to an object. A new field goes to the end.
pub record JsonC : Type 0 where
  pub get_string : Json → Str
  pub object_add : Str → Json → Fields → Fields
  pub text_of_string : (s : Str) → get_string (string s) ≡ s
  pub text_of_boolean :
      (b : Bool) → get_string (boolean b) ≡ (if b then codes "true" else codes "false")
  pub add_absent :
      (key : Str) (v : Json) (fs : Fields)
      → absent key fs ≡ true
      → object_add key v fs ≡ add_last key v fs

-- RENDER_CONFIG_*, PARSE_CONFIG_*: a word of two flags.
pub record What : Type 0 where
  pub config_true : Bool
  pub config_false : Bool

-- The empty leaf: [null], and what else is accepted for it.
unfoldable pub lmap_json_object_is_empty : Json → Bool
lmap_json_object_is_empty (array end) = true
lmap_json_object_is_empty (array (value null end)) = true
lmap_json_object_is_empty (object nil) = true
lmap_json_object_is_empty _ = false
