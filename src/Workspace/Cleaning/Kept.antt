-- ===== src/Workspace/Cleaning/Kept.antt =====
-- What cleaning a directory keeps, whatever fails, and what is left when nothing fails.
use simet_lmapd.Base.{
  ℕ, ◌+◌, ◌≡◌, refl, ap, ◌∙◌, inl, inr, Bool, true, false, not, ◌||◌, List, [], ◌∷◌, Option, none,
  some, arith, if◌then◌else◌, Bool-cases, Option-cases,
}
use simet_lmapd.Text.{Str, str_eq, str_eq_iff}
use simet_lmapd.Model.{Schedule, done}
use simet_lmapd.Workspace.Tree.{Node, Entries, is_directory, is_file, lookup, fstatat}
use simet_lmapd.Workspace.Tree.Lookup.{lookup-unlinkat}
use simet_lmapd.Workspace.Queue.{starts_with}
use simet_lmapd.Workspace.Cleaning.{Scan, clean_file, clean_files, lmapd_workspace_schedule_clean}

abbrev pub contains : List Str → Str → Bool
contains [] n = false
contains (x ∷ xs) n = str_eq x n || contains xs n

-- What the cleaning of a schedule leaves alone.
abbrev pub stays : Str → Option Node → Bool
stays n node = starts_with b'_' n || not (is_file node)

module _ (fails : ℕ → Bool) where
  clean_file-stays :
      (name n : Str) (s : Scan)
      → stays n (lookup n s.entries) ≡ true
      → lookup n (clean_file fails name s).entries ≡ lookup n s.entries
  unfolding clean_file
  clean_file-stays name n s h = elim (Bool-cases (starts_with b'_' name)) [
    | inl private ↦ rw (private, clean_file) refl
    | inr public_ ↦ elim (Option-cases (fstatat fails s.tick s.entries name)) [
      | inl missing ↦ rw (public_, missing, clean_file) refl
      | inr (node, found) ↦ elim (Bool-cases (is_directory (some node))) [
        | inl dir ↦ rw (public_, found, clean_file, dir) refl
        | inr file ↦
            rw (public_, found, clean_file, file)
              (ground
                (arith, lookup-unlinkat fails (s.tick + 1) s.entries name n, str_eq_iff name n))
      ]
    ]
  ]

  pub clean_files-stays :
      (names : List Str) (n : Str) (s : Scan)
      → stays n (lookup n s.entries) ≡ true
      → lookup n (clean_files fails names s).entries ≡ lookup n s.entries
  unfolding clean_files
  clean_files-stays [] n s h = refl
  clean_files-stays (name ∷ names) n s h =
      clean_files-stays names n (clean_file fails name s)
        (ap (stays n) (clean_file-stays name n s h) ∙ h)
      ∙ clean_file-stays name n s h

  module _ (ok : (t : ℕ) → fails t ≡ false) where
    clean_file-gone :
        (name n : Str) (s : Scan)
        → stays n (lookup n s.entries) ≡ false
        → lookup n (clean_file fails name s).entries
          ≡ (if str_eq name n then none else lookup n s.entries)
    unfolding clean_file fstatat
    clean_file-gone name n s h = elim (Bool-cases (starts_with b'_' name)) [
      | inl private ↦ rw (private, clean_file) (ground (arith, str_eq_iff name n))
      | inr public_ ↦ elim (Option-cases (lookup name s.entries)) [
        | inl missing ↦
            rw (public_, fstatat, ok s.tick, missing, clean_file)
              (ground (arith, str_eq_iff name n))
        | inr (node, found) ↦ elim (Bool-cases (is_directory (some node))) [
          | inl dir ↦
              rw (public_, fstatat, ok s.tick, found, clean_file, dir)
                (ground (arith, str_eq_iff name n))
          | inr file ↦
              rw (public_, fstatat, ok s.tick, found, clean_file, file)
                (ground (
                  arith,
                  lookup-unlinkat fails (s.tick + 1) s.entries name n,
                  ok (s.tick + 1),
                  str_eq_iff name n,
                ))
        ]
      ]
    ]

    gone :
        (names : List Str) (n : Str) (s : Scan)
        → lookup n s.entries ≡ none
        → lookup n (clean_files fails names s).entries ≡ none
    gone names n s e = clean_files-stays names n s (rw e (or_true (starts_with b'_' n))) ∙ e
      where
        or_true : (b : Bool) → (b || true) ≡ true
        or_true true = refl
        or_true false = refl

    pub clean_files-gone :
        (names : List Str) (n : Str) (s : Scan)
        → stays n (lookup n s.entries) ≡ false
        → lookup n (clean_files fails names s).entries
          ≡ (if contains names n then none else lookup n s.entries)
    unfolding clean_files
    clean_files-gone [] n s h = refl
    clean_files-gone (name ∷ names) n s h = elim (Bool-cases (str_eq name n)) [
      | inl same ↦
          rw same
            (gone names n (clean_file fails name s) (clean_file-gone name n s h ∙ rw same refl))
      | inr other ↦
          let e = clean_file-gone name n s h ∙ rw other refl in
          rw other (
            clean_files-gone names n (clean_file fails name s) (ap (stays n) e ∙ h)
            ∙ ap (λ (o : Option Node). if contains names n then none else o) e)
    ]

cleaned :
    (fails : ℕ → Bool) (schedule : Schedule) (path : Str) (listing : List Str) (es : Entries)
    → schedule.workspace ≡ some path
    → (lmapd_workspace_schedule_clean fails (some schedule) listing (some es)).0
      ≡ some (clean_files fails listing (record { entries = es; tick = 0; rc = done })).entries
unfolding lmapd_workspace_schedule_clean
cleaned fails schedule path listing es e = rw (e, lmapd_workspace_schedule_clean) refl

-- Whatever calls of the system fail: cleaning a schedule leaves directories, and what starts with `_`, as they
-- are.
pub schedule_clean-stays :
    (fails : ℕ → Bool) (schedule : Schedule) (path : Str) (listing : List Str) (es : Entries)
    (n : Str)
    → schedule.workspace ≡ some path
    → stays n (lookup n es) ≡ true
    → (es1 : Entries) × ((lmapd_workspace_schedule_clean fails (some schedule) listing (some es)).0
        ≡ some es1)
      × (lookup n es1 ≡ lookup n es)
schedule_clean-stays fails schedule path listing es n e h =
    (_, cleaned fails schedule path listing es e, clean_files-stays fails listing n _ h)

-- Where no call of the system fails, cleaning a schedule removes every file that the directory lists, except for
-- those that start with `_`, and no other.
pub schedule_clean-gone :
    (fails : ℕ → Bool) (schedule : Schedule) (path : Str) (listing : List Str) (es : Entries)
    (n : Str)
    → ((t : ℕ) → fails t ≡ false)
    → schedule.workspace ≡ some path
    → stays n (lookup n es) ≡ false
    → (es1 : Entries) × ((lmapd_workspace_schedule_clean fails (some schedule) listing (some es)).0
        ≡ some es1)
      × (lookup n es1 ≡ (if contains listing n then none else lookup n es))
schedule_clean-gone fails schedule path listing es n ok e h =
    (_, cleaned fails schedule path listing es e, clean_files-gone fails ok listing n _ h)
