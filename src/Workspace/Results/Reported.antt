-- ===== src/Workspace/Results/Reported.antt =====
-- Reading results ends without a fault, keeps what was there, and adds valid results only.
use simet_lmapd.Base.{
  ℕ, zero, suc, ◌≤◌, ◌<◌, ◌≡◌, ◌≢◌, refl, sym, ap, ◌∙◌, ◌⊎◌, inl, inr, Bool, true, false, not, ◌&&◌,
  List, [], ◌∷◌, ◌++◌, append_assoc, append-nil, Option, none, some, arith, ltb, length,
  if◌then◌else◌, Bool-cases, Option-cases, All, All-append,
}
use simet_lmapd.Text.{Str}
use simet_lmapd.Csv.{File, csv_next}
use simet_lmapd.Csv.Progress.{measure, csv_next-measure}
use simet_lmapd.Csv.Texts.{IsText}
use simet_lmapd.Model.{Rc, done, failed}
use simet_lmapd.Data.Results.{
  Row, Table, Result, lmap_table_new, lmap_result_valid, lmap_add_result, lmap_result_add_table,
}
use simet_lmapd.Workspace.Meta.{delimiter, start_of}
use simet_lmapd.Workspace.Meta.Reading.{read_result-IsKept}
use simet_lmapd.Workspace.Queue.{data_name}
use simet_lmapd.Workspace.Results.{
  FileType, Report, add_field, table_loop, read_table, read_data, keep, read_pair, read_name,
  read_names, lmapd_workspace_read_results,
}

shorter :
    (file : File) (n fuel : ℕ)
    → file.eof ≡ false
    → n ≤ length file.rest
    → measure file < suc fuel
    → n < fuel
shorter file n fuel on p h = ground arith

table_loop-ends :
    (fuel : ℕ) (file : File) (inrow : Bool) (rows : List Row)
    → measure file < fuel
    → (rows1 : List Row) × (table_loop fuel file inrow rows ≡ some rows1)
unfolding table_loop
table_loop-ends zero file inrow rows h = absurd (omega arith)
table_loop-ends (suc fuel) file inrow rows h = elim (Bool-cases file.eof) [
  | inl over ↦ (rows, rw (over, table_loop) refl)
  | inr on ↦
      let less = csv_next-measure delimiter file.rest in
      elim (Option-cases (csv_next delimiter file.rest).0) [
        | inr (s, e) ↦
            let (rows1, f) =
              table_loop-ends fuel (csv_next delimiter file.rest).1 true (add_field inrow s rows)
                (shorter file _ fuel on less h) in
            (rows1, rw (on, e, table_loop) f)
        | inl e ↦ elim (Bool-cases (csv_next delimiter file.rest).1.eof) [
          | inl end_ ↦ (rows, rw (on, e, end_, table_loop) refl)
          | inr more ↦
              let (rows1, f) =
                table_loop-ends fuel (csv_next delimiter file.rest).1 false rows
                  (shorter file _ fuel on less h) in
              (rows1, rw (on, e, more, table_loop) f)
        ]
      ]
]

-- Every text of a data file is read as a table.
pub read_table-ends : (content : Str) → (tab : Table) × (read_table content ≡ some tab)
unfolding read_table
read_table-ends content =
    let (rows, e) =
      table_loop-ends (suc (measure (start_of content))) (start_of content) false []
        (omega arith) in
    (record lmap_table_new { rows = rows }, rw (e, read_table) refl)

-- What the reading of results adds.
abbrev pub IsValid : Result → Type 0
IsValid res = lmap_result_valid res ≡ true

-- From one state to a later one: valid results are added at the end, some if the flag says so.
abbrev pub IsReport : Report → Report → Type 0
IsReport r r1 =
    (added : List Result) × (r1.results ≡ r.results ++ added)
    × All IsValid added
    × (r1.valid_report ≡ false → (added ≡ []) × (r.valid_report ≡ false))

unmoved : (r : Report) (b : Bool) → IsReport r (record r { had_errors = b })
unmoved r b = ([], sym (append-nil r.results), tt, λ e. (refl, e))

joined : (r r1 r2 : Report) → IsReport r r1 → IsReport r1 r2 → IsReport r r2
joined r r1 r2 (a, e, v, f) (b, g, w, h) = (
  a ++ b,
  g ∙ ap (λ (l : List Result). l ++ b) e ∙ append_assoc r.results a b,
  All-append IsValid a b v w,
  λ p. (empty a b (f (h p).1).0 (h p).0, (f (h p).1).1),
)
  where
    empty : (a b : List Result) → a ≡ [] → b ≡ [] → a ++ b ≡ []
    empty a b p q = rw (p, q) refl

-- The state behind a step that does not fault.
abbrev Goes : Report → Option Report → Type 0
Goes r o = (r1 : Report) × (o ≡ some r1) × IsReport r r1

ended :
    (open_file : Str → Option Str) (parse : Str → Result → Option (Option Result))
    (filetype : FileType) (content : Str) (res : Result)
    → parse content res ≢ none
    → (o : Option Result) × (read_data open_file parse filetype content res ≡ some o)
unfolding read_data
ended open_file parse FileType.csv content res h =
    let (tab, e) = read_table-ends content in
    (some (lmap_result_add_table res tab).0, rw (e, read_data) refl)
ended open_file parse FileType.parsed content res h = elim (Option-cases (parse content res)) [
  | inl fault ↦ absurd (h fault)
  | inr (o, e) ↦ (o, e)
]

module _ (open_file : Str → Option Str) (parse : Str → Result → Option (Option Result))
    (filetype : FileType) where
  keep-IsReport : (o : Option Result) (r : Report) → IsReport r (keep open_file parse filetype o r)
  unfolding lmap_add_result
  keep-IsReport none r = unmoved r true
  keep-IsReport (some res) r = elim (Bool-cases (lmap_result_valid res)) [
    | inl good ↦ rw good (res ∷ [], refl, (good, tt), λ e. absurd cc)
    | inr bad ↦ rw bad (unmoved r true)
  ]

  -- No file that is opened holds a NUL character, and the parser of the results ends without a fault.
  abbrev pub AreReadable : Type 0
  AreReadable =
      ((name content : Str) → open_file name ≡ some content → IsText content)
      × ((content : Str) (res : Result) → parse content res ≢ none)

  read_data-ends :
      (content : Str) (res : Result)
      → AreReadable
      → (o : Option Result) × (read_data open_file parse filetype content res ≡ some o)
  read_data-ends content res h = ended open_file parse filetype content res (h.1 content res)

  read_pair-Goes :
      (name sdata : Str) (r : Report)
      → AreReadable
      → Goes r (read_pair open_file parse filetype name sdata r)
  unfolding read_pair
  read_pair-Goes name sdata r fine = elim (Option-cases (open_file name)) [
    | inl e ↦ (record r { had_errors = true }, rw (e, read_pair) refl, unmoved r true)
    | inr (meta, e) ↦ elim (Option-cases (open_file sdata)) [
      | inl f ↦ (record r { had_errors = true }, rw (e, f, read_pair) refl, unmoved r true)
      | inr (content, f) ↦
          let (res, g, kept) = read_result-IsKept meta (fine.0 name meta e) in
          let (o, d) = read_data-ends content res fine in
          (keep open_file parse filetype o r, rw (e, f, read_pair, g, d) refl, keep-IsReport o r)
    ]
  ]

  read_name-Goes :
      (name : Str) (r : Report) → AreReadable → Goes r (read_name open_file parse filetype name r)
  unfolding read_name
  read_name-Goes name r fine = elim (Bool-cases (ltb (length name) 5)) [
    | inl short ↦ (r, rw (short, read_name) refl, unmoved r r.had_errors)
    | inr long ↦ elim (Option-cases (data_name name)) [
      | inl other ↦ (r, rw (long, other, read_name) refl, unmoved r r.had_errors)
      | inr (sdata, is) ↦
          let (r1, e, f) = read_pair-Goes name sdata r fine in (r1, rw (long, is, read_name) e, f)
    ]
  ]

  read_names-Goes :
      (names : List Str) (r : Report)
      → AreReadable
      → Goes r (read_names open_file parse filetype names r)
  unfolding read_names
  read_names-Goes [] r fine = (r, refl, unmoved r r.had_errors)
  read_names-Goes (name ∷ names) r fine =
      let (r1, e, f) = read_name-Goes name r fine in
      let (r2, g, h) = read_names-Goes names r1 fine in
      (r2, rw (e, read_names) g, joined r r1 r2 f h)

  -- Whatever the directory lists and whatever the files hold, if no file that is opened has a NUL character and the parser
  -- of results in JSON or XML ends without a fault, the results are read without a fault: those that
  -- were there stay, valid ones are added behind them, and if the reading is reported as
  -- failed, none is.
  pub read_results-IsValid :
      (listing : Option (List Str)) (results : List Result)
      → ((name content : Str) → open_file name ≡ some content → IsText content)
      → ((content : Str) (res : Result) → parse content res ≢ none)
      → (added : List Result) × (rc : Rc) × (lmapd_workspace_read_results open_file parse filetype
            listing results
          ≡ some (results ++ added, rc))
        × All IsValid added
        × ((rc ≡ done) ⊎ (added ≡ []))
  unfolding lmapd_workspace_read_results
  read_results-IsValid none results texts parses = (
    [],
    failed,
    ap (λ (l : List Result). some (l, failed)) (sym (append-nil results)),
    tt,
    inr refl,
  )
  read_results-IsValid (some listing) results texts parses =
      let (r, e, (added, f, v, h)) =
        read_names-Goes listing
          (record { results = results; had_errors = false; valid_report = false })
          (texts, parses) in
      (
        added,
        if r.had_errors && not r.valid_report then failed else done,
        rw (e, lmapd_workspace_read_results)
            (ap
              (λ (l : List Result).
                some (l, if r.had_errors && not r.valid_report then failed else done))
              f),
        v,
        outcome r.had_errors r.valid_report added h,
      )
    where
      outcome :
          (a b : Bool) (added : List Result)
          → (b ≡ false → (added ≡ []) × (false ≡ false))
          → ((if a && not b then failed else done) ≡ done) ⊎ (added ≡ [])
      outcome a false added h = inr (h refl).0
      outcome true true added h = inl refl
      outcome false true added h = inl refl
