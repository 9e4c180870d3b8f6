-- ===== src/Workspace/Queue/Drained.antt =====
-- Without failures, a move takes every complete pair that the directory lists.
use simet_lmapd.Base.{
  ℕ, ◌+◌, ◌≡◌, ◌≢◌, sym, ap, ◌∙◌, inl, inr, Bool, true, false, List, [], ◌∷◌, ◌++◌, Option, none,
  some, arith, Bool-cases,
}
use simet_lmapd.Text.{Str, str_eq, str_eq_iff, str_eq_refl}
use simet_lmapd.Workspace.Tree.{Node, lookup, is_regular}
use simet_lmapd.Workspace.Queue.{
  Queue, starts_with, data_name, move_entry, move_entries, lmapd_workspace_schedule_move,
}
use simet_lmapd.Workspace.Queue.Suffix.{data_name-none, data_name-injective}
use simet_lmapd.Workspace.Queue.Complete.{IsApart, Outcome, entry-Outcome}

some-eq : (a b : Str) → ◌≡◌ {A = Option Str} (some a) (some b) → a ≡ b
some-eq a b h = cc

module _ (fails : ℕ → Bool) (ok : (t : ℕ) → fails t ≡ false) (m d : Str) (x y : Node)
    (is : data_name m ≡ some d) where
  -- The pair waits in the incoming directory.
  Pending : Queue → Type 0
  Pending q = (lookup m q.incoming ≡ some x) × (lookup d q.incoming ≡ some y)

  -- Both files are active, and neither is in the incoming directory.
  abbrev pub Moved : Queue → Type 0
  Moved q =
      (lookup m q.active ≡ some x)
      × (lookup d q.active ≡ some y)
      × (lookup m q.incoming ≡ none)
      × (lookup d q.incoming ≡ none)

  Outcome-IsApart :
      (name : Str) (q q1 : Queue) → IsApart q → Outcome fails ok name q q1 → IsApart q1
  Outcome-IsApart name q q1 apart (inl (e, f, _)) n there = rw f (apart n (rw e at there))
  Outcome-IsApart name q q1 apart (inr (sdata, i, (r, f, g))) n there =
      ground (arith, f n, g n, apart n)

  Outcome-Moved : (name : Str) (q q1 : Queue) → Moved q → Outcome fails ok name q q1 → Moved q1
  Outcome-Moved name q q1 (p1, p2, p3, p4) (inl (e, f, _)) = rw (e, f) (p1, p2, p3, p4)
  Outcome-Moved name q q1 (p1, p2, p3, p4) (inr (sdata, i, (r, f, g))) = (
    ground (arith, g m, str_eq_iff name m, str_eq_iff sdata m),
    ground (arith, g d, str_eq_iff name d, str_eq_iff sdata d),
    ground (arith, f m),
    ground (arith, f d),
  )

  -- Another pair leaves the waiting one alone.
  Outcome-Pending :
      (name : Str) (q q1 : Queue) → name ≢ m → Pending q → Outcome fails ok name q q1 → Pending q1
  unfolding Pending
  Outcome-Pending name q q1 ne (p1, p2) (inl (e, f, _)) = rw e (p1, p2)
  Outcome-Pending name q q1 ne (p1, p2) (inr (sdata, i, (r, f, g))) = (
    ground (arith, f m, str_eq_iff name m, str_eq_iff sdata m, data_name-none name sdata i, is),
    ground (
      arith,
      f d,
      str_eq_iff name d,
      str_eq_iff sdata d,
      data_name-none m d is,
      data_name-injective name m d,
      i,
    ),
  )

  -- The entry of the pair itself.
  here-Moved :
      (q q1 : Queue)
      → starts_with b'.' m ≡ false
      → is_regular (some x) ≡ true
      → is_regular (some y) ≡ true
      → Pending q
      → Outcome fails ok m q q1
      → Moved q1
  unfolding Pending
  here-Moved q q1 shown rx ry (p1, p2) (inl (e, f, g)) = absurd (ground (arith, g d shown is))
  here-Moved q q1 shown rx ry (p1, p2) (inr (sdata, i, (r, f, g))) = (
    ground (arith, g m, str_eq_refl m),
    ground (arith, g d, str_eq_refl d, str_eq_iff m d, data_name-none m d is, same),
    ground (arith, f m, str_eq_refl m),
    ground (arith, f d, str_eq_refl d, same),
  )
    where
      same : sdata ≡ d
      same = some-eq sdata d (sym i ∙ is)

  next :
      (name : Str) (names : List Str) (q q1 : Queue)
      → move_entry fails name q ≡ (q1, true)
      → move_entries fails (name ∷ names) q ≡ move_entries fails names q1
  unfolding move_entries
  next name names q q1 e =
      rw (ap (λ (r : Queue × Bool). r.1) e, move_entries)
        (ap (λ (r : Queue × Bool). move_entries fails names r.0) e)

  move_entries-Moved :
      (names : List Str) (q : Queue) → IsApart q → Moved q → Moved (move_entries fails names q)
  unfolding move_entries
  move_entries-Moved [] q apart h = h
  move_entries-Moved (name ∷ names) q apart h =
      let (q1, e, o) = entry-Outcome fails ok name q apart in
      rw (next name names q q1 e) (
        move_entries-Moved names q1 (Outcome-IsApart name q q1 apart o)
          (Outcome-Moved name q q1 h o))

  here :
      (after : List Str) (q : Queue)
      → starts_with b'.' m ≡ false
      → is_regular (some x) ≡ true
      → is_regular (some y) ≡ true
      → IsApart q
      → Pending q
      → Moved (move_entries fails (m ∷ after) q)
  here after q shown rx ry apart h =
      let (q1, e, o) = entry-Outcome fails ok m q apart in
      rw (next m after q q1 e) (
        move_entries-Moved after q1 (Outcome-IsApart m q q1 apart o)
          (here-Moved q q1 shown rx ry h o))

  reaches :
      (before after : List Str) (q : Queue)
      → starts_with b'.' m ≡ false
      → is_regular (some x) ≡ true
      → is_regular (some y) ≡ true
      → IsApart q
      → Pending q
      → Moved (move_entries fails (before ++ m ∷ after) q)
  reaches [] after q shown rx ry apart h = here after q shown rx ry apart h
  reaches (name ∷ before) after q shown rx ry apart h = elim (Bool-cases (str_eq name m)) [
    | inl same ↦ rw ((str_eq_iff name m).0 same) (here (before ++ m ∷ after) q shown rx ry apart h)
    | inr other ↦
        let (q1, e, o) = entry-Outcome fails ok name q apart in
        rw (next name (before ++ m ∷ after) q q1 e) (
          reaches before after q1 shown rx ry (Outcome-IsApart name q q1 apart o)
            (Outcome-Pending name q q1 (λ f. ground (arith, str_eq_iff name m)) h o))
  ]

-- Where no call of the system fails, no name is in both directories, and the incoming one lists a meta file that
-- is not hidden and is a regular file, as is its data file: after the move both are active, the same files as
-- before, and none of the two is in the incoming directory.
pub schedule_move-Moved :
    (fails : ℕ → Bool) (workspace : Str) (before after : List Str) (q : Queue) (m d : Str)
    (x y : Node)
    → ((t : ℕ) → fails t ≡ false)
    → data_name m ≡ some d
    → starts_with b'.' m ≡ false
    → is_regular (some x) ≡ true
    → is_regular (some y) ≡ true
    → IsApart q
    → lookup m q.incoming ≡ some x
    → lookup d q.incoming ≡ some y
    → let q1 = (lmapd_workspace_schedule_move fails (some workspace) (before ++ m ∷ after) q).0 in
      (lookup m q1.active ≡ some x)
      × (lookup d q1.active ≡ some y)
      × (lookup m q1.incoming ≡ none)
      × (lookup d q1.incoming ≡ none)
unfolding lmapd_workspace_schedule_move Pending
schedule_move-Moved fails workspace before after q m d x y ok is shown rx ry apart hx hy =
    rw (ok q.tick, ok (q.tick + 1), lmapd_workspace_schedule_move)
      (reaches fails ok m d x y is before after (record q { tick = q.tick + 2 }) shown rx ry apart
        (hx, hy))
