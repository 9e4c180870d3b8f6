-- ===== src/Workspace/Results.antt =====
-- Reading the results of actions: read_table and lmapd_workspace_read_results in src/workspace.c. What
-- readdir() lists, what open() finds under a name, and the parsers of JSON and XML are arguments; streams are
-- made of every descriptor.
use simet_lmapd.Base.{
  ℕ, zero, suc, ◌+◌, Bool, true, false, not, ◌&&◌, ◌||◌, List, [], ◌∷◌, ◌++◌, Option, none, some,
  ltb, length, if◌then◌else◌,
}
use simet_lmapd.Text.{Str, codes}
use simet_lmapd.Csv.{File, csv_next}
use simet_lmapd.Csv.Progress.{measure}
use simet_lmapd.Model.{Rc, done, failed, is_done}
use simet_lmapd.Data.Results.{
  Value, Row, Table, Result, lmap_value_new, lmap_value_set_value, lmap_row_new, lmap_row_add_value,
  lmap_table_new, lmap_result_add_table, lmap_result_valid, lmap_add_result,
}
use simet_lmapd.Workspace.Meta.{delimiter, start_of, read_result}
use simet_lmapd.Workspace.Queue.{data_name}
pub mod Reported

-- A value goes into the row that is open, which is the last one of the table.
unfoldable pub extend_row : List Row → Value → List Row
extend_row [] val = []
extend_row (row ∷ []) val = (lmap_row_add_value row val).0 ∷ []
extend_row (row ∷ row1 ∷ rows) val = row ∷ extend_row (row1 ∷ rows) val

-- A field: a new row is added first, unless one is open.
unfoldable pub add_field : Bool → Str → List Row → List Row
unfolding extend_row
add_field inrow s rows =
    extend_row (if inrow then rows else rows ++ lmap_row_new ∷ [])
      (lmap_value_set_value lmap_value_new (some s)).0

-- The loop of `read_table`; `none` when the fuel is used up.
unfoldable pub table_loop : ℕ → File → Bool → List Row → Option (List Row)
unfolding add_field
table_loop zero file inrow rows = none
table_loop (suc fuel) file inrow rows = elim file.eof [
  | true ↦ some rows
  | false ↦
      let (field, file1) = csv_next delimiter file.rest in
      elim field [
        | some s ↦ table_loop fuel file1 true (add_field inrow s rows)
        | none ↦ elim file1.eof [ true ↦ some rows | false ↦ table_loop fuel file1 false rows ]
      ]
]

-- One more than the reads that are left is enough.
unfoldable pub read_table : Str → Option Table
unfolding table_loop
read_table content =
    elim (table_loop (suc (measure (start_of content))) (start_of content) false []) [
      | none ↦ none
      | some rows ↦ some (record lmap_table_new { rows = rows })
    ]

-- LMAP_FT_CSV, or the format of the parser.
pub data FileType : Type 0 where
  csv parsed : FileType

-- The results, and the two flags.
pub record Report : Type 0 where
  pub results : List Result
  pub had_errors : Bool
  pub valid_report : Bool

-- `parse` is lmap_io_parse_task_results_fd: the result with what it found, a failure, or a fault.
module _ (open_file : Str → Option Str) (parse : Str → Result → Option (Option Result))
    (filetype : FileType) where
  -- The result with what was read, or a failure; the outer `none` is a fault.
  unfoldable pub read_data : Str → Result → Option (Option Result)
  unfolding read_table
  read_data content res = elim filetype [
    | csv ↦ elim (read_table content) [
      | none ↦ none
      | some tab ↦ some (some (lmap_result_add_table res tab).0)
    ]
    | parsed ↦ parse content res
  ]

  -- A result that was read, or the failure to read it.
  abbrev pub keep : Option Result → Report → Report
  keep none r = record r { had_errors = true }
  keep (some res) r =
      if lmap_result_valid res
      then record r { results = (lmap_add_result r.results res).0; valid_report = true }
      else record r { had_errors = true }

  -- A meta file and its data file; a fault of a reader is passed on.
  unfoldable pub read_pair : Str → Str → Report → Option Report
  unfolding read_data
  read_pair name sdata r = elim (open_file name) [
    | none ↦ some (record r { had_errors = true })
    | some meta ↦ elim (open_file sdata) [
      | none ↦ some (record r { had_errors = true })
      | some content ↦ elim (read_result meta) [
        | none ↦ none
        | some res ↦ elim (read_data content res) [ none ↦ none | some o ↦ some (keep o r) ]
      ]
    ]
  ]

  -- The body of the loop.
  unfoldable pub read_name : Str → Report → Option Report
  unfolding read_pair
  read_name name r = elim (ltb (length name) 5) [
    | true ↦ some r
    | false ↦ elim (data_name name) [ none ↦ some r | some sdata ↦ read_pair name sdata r ]
  ]

  unfoldable pub read_names : List Str → Report → Option Report
  unfolding read_name
  read_names [] r = some r
  read_names (name ∷ names) r = elim (read_name name r) [
    | none ↦ none
    | some r1 ↦ read_names names r1
  ]

  -- The listing is `none` if the directory cannot be opened; the list is that of struct lmap.
  unfoldable pub lmapd_workspace_read_results :
      Option (List Str) → List Result → Option (List Result × Rc)
  unfolding read_names
  lmapd_workspace_read_results none results = some (results, failed)
  lmapd_workspace_read_results (some listing) results =
      elim (read_names listing
        (record { results = results; had_errors = false; valid_report = false })) [
          | none ↦ none
          | some r ↦ some (r.results, if r.had_errors && not r.valid_report then failed else done)
        ]
