-- ===== src/Data/Results/Shape.antt =====
-- The shape of a valid table.
use simet_lmapd.Base.{
  ℕ, zero, suc, ◌≡◌, refl, ◌≢◌, ◌⊎◌, inl, inr, true, List, [], ◌∷◌, arith, ◌==◌, All, Bool-cases,
}
use simet_lmapd.Data.Results.{Row, Table, lmap_value_length, rows_valid, lmap_table_valid}

-- A row has the width.
abbrev pub HasWidth : ℕ → Row → Type 0
HasWidth n row = lmap_value_length row.values ≡ n

rows-HasWidth : (n : ℕ) (rows : List Row) → n ≢ 0 → rows_valid n rows ≡ true → All (HasWidth n) rows
unfolding rows_valid
rows-HasWidth n [] h v = tt
rows-HasWidth n (row ∷ rows) h v = elim (Bool-cases (n == 0)) [
  | inl z ↦ absurd (h (ground arith))
  | inr p ↦ (ground (arith, rw p at v), rows-HasWidth n rows h (ground (arith, rw p at v)))
]

-- A row has the width, or it is empty in front of the first row that is not, in a table without columns.
abbrev pub FitsTable : ℕ → ℕ → Row → Type 0
FitsTable columns n row = HasWidth n row ⊎ ((columns ≡ 0) × HasWidth 0 row)

fits : (columns n : ℕ) (rows : List Row) → All (HasWidth n) rows → All (FitsTable columns n) rows
fits columns n [] h = tt
fits columns n (row ∷ rows) h = (inl h.0, fits columns n rows h.1)

first_width : (rows : List Row) → rows_valid 0 rows ≡ true → (n : ℕ) × All (FitsTable 0 n) rows
unfolding rows_valid
first_width [] v = (0, tt)
first_width (row ∷ rows) v = elim (Bool-cases (lmap_value_length row.values == 0)) [
  | inl empty ↦
      let (n, h) = first_width rows (ground (arith, empty)) in
      (n, (inr (refl, ground (arith, empty)), h))
  | inr wide ↦ (
    lmap_value_length row.values,
    (inl refl, fits 0 _ rows (rows-HasWidth _ rows (ground (arith, wide)) (ground (arith, wide)))),
  )
]

-- The rows of a valid table have one width, that of the columns if there are columns; a table without
-- columns may have empty rows besides.
pub lmap_table_valid-FitsTable :
    (tab : Table)
    → lmap_table_valid tab ≡ true
    → (n : ℕ) × All (FitsTable (lmap_value_length tab.columns) n) tab.rows
      × ((lmap_value_length tab.columns ≡ n) ⊎ (lmap_value_length tab.columns ≡ 0))
unfolding lmap_table_valid
lmap_table_valid-FitsTable tab v = split (lmap_value_length tab.columns) (ground arith)
  where
    split :
        (c : ℕ)
        → rows_valid c tab.rows ≡ true
        → (n : ℕ) × All (FitsTable c n) tab.rows × ((c ≡ n) ⊎ (c ≡ 0))
    split zero w = let (n, h) = first_width tab.rows w in (n, h, inr refl)
    split (suc c) w = (
      suc c,
      fits (suc c) (suc c) tab.rows (rows-HasWidth (suc c) tab.rows (omega arith) w),
      inl refl,
    )
