-- ===== src/Data/Results.antt =====
-- Results and their tables: struct value, struct row, struct table and struct result of src/lmap.h.in with
-- their functions in src/data.c.
use simet_lmapd.Base.{
  ℕ, zero, suc, ◌+◌, Bool, true, false, ◌&&◌, ◌||◌, List, [], ◌∷◌, ◌++◌, Option, none, some, ◌==◌,
  all, if◌then◌else◌,
}
use simet_lmapd.Base.Int.{ℤ, pos}
use simet_lmapd.Text.{Str}
use simet_lmapd.Model.{Tag, LmapOption, Registry, Rc, done, failed, is_done}
use simet_lmapd.Data.Scalar.{set_string, set_lmap_identifier, set_uint32, set_int32}
use simet_lmapd.Data.DateTime.{set_dateandtime}
use simet_lmapd.Data.Containers.{add_tag, add_option, add_unique, put_back}
use simet_lmapd.Data.Validity.{given, lmap_registry_valid}
pub mod Shape

pub record Value : Type 0 where
  pub value : Option Str

pub record Row : Type 0 where
  pub values : List Value

pub record Table : Type 0 where
  pub registries : List Registry
  pub columns : List Value
  pub rows : List Row

-- `status_set` is LMAP_RESULT_FLAG_STATUS_SET.
pub record Result : Type 0 where
  pub schedule : Option Str
  pub action : Option Str
  pub task : Option Str
  pub options : List LmapOption
  pub tags : List Tag
  pub event : ℤ
  pub start : ℤ
  pub end : ℤ
  pub cycle_number : Option Str
  pub status : ℤ
  pub tables : List Table
  pub status_set : Bool

unfoldable pub lmap_value_new : Value
lmap_value_new = record { value = none }

unfoldable pub lmap_value_valid : Value → Bool
lmap_value_valid val = given val.value

unfoldable pub lmap_value_set_value : Value → Option Str → Value × Rc
unfolding set_string
lmap_value_set_value val value =
    let (v, rc) = set_string val.value value in (record val { value = v }, rc)

unfoldable pub lmap_row_new : Row
lmap_row_new = record { values = [] }

unfoldable pub lmap_row_valid : Row → Bool
unfolding lmap_value_valid
lmap_row_valid row = all lmap_value_valid row.values

unfoldable pub lmap_row_add_value : Row → Value → Row × Rc
lmap_row_add_value row val = (record row { values = row.values ++ val ∷ [] }, done)

unfoldable pub lmap_table_new : Table
lmap_table_new = record { registries = []; columns = []; rows = [] }

unfoldable pub lmap_value_length : List Value → ℕ
lmap_value_length [] = 0
lmap_value_length (v ∷ vs) = suc (lmap_value_length vs)

-- The first of a list is checked, and none of an empty one.
abbrev pub first_valid {ℓ} : {A : Type ℓ} → (A → Bool) → List A → Bool
first_valid valid [] = true
first_valid valid (x ∷ xs) = valid x

-- The loop over the rows, with the number of columns; 0 while it is not known.
unfoldable pub rows_valid : ℕ → List Row → Bool
rows_valid num_columns [] = true
rows_valid num_columns (row ∷ rows) =
    let width = lmap_value_length row.values in
    lmap_row_valid row
    && (if num_columns == 0 then true else width == num_columns)
    && rows_valid (if num_columns == 0 then width else num_columns) rows

unfoldable pub lmap_table_valid : Table → Bool
lmap_table_valid tab =
    first_valid lmap_registry_valid tab.registries
    && first_valid lmap_value_valid tab.columns
    && rows_valid (lmap_value_length tab.columns) tab.rows

unfoldable pub lmap_table_add_registry : Table → Registry → Option (Table × Rc)
lmap_table_add_registry tab registry =
    put_back (λ l. record tab { registries = l })
      (add_unique (λ (x : Registry). x.uri) tab.registries registry)

-- The value is always stored, since memory is never exhausted.
unfoldable pub lmap_table_add_column : Table → Option Str → Table × Rc
lmap_table_add_column tab value =
    let (v, rc) = lmap_value_set_value lmap_value_new value in
    (record tab { columns = if is_done rc then tab.columns ++ v ∷ [] else tab.columns }, rc)

unfoldable pub lmap_table_add_row : Table → Row → Table × Rc
lmap_table_add_row tab row = (record tab { rows = tab.rows ++ row ∷ [] }, done)

unfoldable pub lmap_result_new : Result
lmap_result_new = record {
  schedule = none;
  action = none;
  task = none;
  options = [];
  tags = [];
  event = pos 0;
  start = pos 0;
  end = pos 0;
  cycle_number = none;
  status = pos 0;
  tables = [];
  status_set = false;
}

unfoldable pub lmap_result_valid : Result → Bool
lmap_result_valid res = given res.schedule && given res.action && all lmap_table_valid res.tables

unfoldable pub lmap_result_add_table : Result → Table → Result × Rc
lmap_result_add_table res tab = (record res { tables = res.tables ++ tab ∷ [] }, done)

unfoldable pub lmap_result_set_schedule : Result → Option Str → Result × Rc
lmap_result_set_schedule res value =
    let (v, rc) = set_lmap_identifier res.schedule value in (record res { schedule = v }, rc)

unfoldable pub lmap_result_set_action : Result → Option Str → Result × Rc
lmap_result_set_action res value =
    let (v, rc) = set_lmap_identifier res.action value in (record res { action = v }, rc)

unfoldable pub lmap_result_set_task : Result → Option Str → Result × Rc
lmap_result_set_task res value =
    let (v, rc) = set_lmap_identifier res.task value in (record res { task = v }, rc)

unfoldable pub lmap_result_add_option : Result → LmapOption → Option (Result × Rc)
lmap_result_add_option res option =
    put_back (λ l. record res { options = l }) (add_option res.options option)

unfoldable pub lmap_result_add_tag : Result → Str → Option (Result × Rc)
lmap_result_add_tag res value = put_back (λ l. record res { tags = l }) (add_tag res.tags value)

unfoldable pub lmap_result_set_event : Result → Str → Result × Rc
lmap_result_set_event res value =
    let (v, rc) = set_dateandtime res.event value in (record res { event = v }, rc)

unfoldable pub lmap_result_set_start : Result → Str → Result × Rc
lmap_result_set_start res value =
    let (v, rc) = set_dateandtime res.start value in (record res { start = v }, rc)

unfoldable pub lmap_result_set_end : Result → Str → Result × Rc
lmap_result_set_end res value =
    let (v, rc) = set_dateandtime res.end value in (record res { end = v }, rc)

-- A number of seconds that is read, or the old time.
unfoldable pub set_epoch : ℤ → Str → ℤ × Rc
set_epoch t value = let (u, rc) = set_uint32 0 value in (if is_done rc then pos u else t, rc)

unfoldable pub lmap_result_set_event_epoch : Result → Str → Result × Rc
lmap_result_set_event_epoch res value =
    let (v, rc) = set_epoch res.event value in (record res { event = v }, rc)

unfoldable pub lmap_result_set_start_epoch : Result → Str → Result × Rc
lmap_result_set_start_epoch res value =
    let (v, rc) = set_epoch res.start value in (record res { start = v }, rc)

unfoldable pub lmap_result_set_end_epoch : Result → Str → Result × Rc
lmap_result_set_end_epoch res value =
    let (v, rc) = set_epoch res.end value in (record res { end = v }, rc)

unfoldable pub lmap_result_set_cycle_number : Result → Option Str → Result × Rc
lmap_result_set_cycle_number res value =
    let (v, rc) = set_string res.cycle_number value in (record res { cycle_number = v }, rc)

unfoldable pub lmap_result_set_status : Result → Str → Result × Rc
lmap_result_set_status res value =
    let (i, rc) = set_int32 (pos 0) value in
    (
      record res {
        status = if is_done rc then i else res.status;
        status_set = is_done rc || res.status_set;
      },
      rc,
    )

-- The list `results` of struct lmap.
unfoldable pub lmap_add_result : List Result → Result → List Result × Rc
lmap_add_result results res = (results ++ res ∷ [], done)
