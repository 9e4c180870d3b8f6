-- ===== src/Workspace/Queue/Suffix.antt =====
-- The name of a data file is not the name of a meta file.
use simet_lmapd.Base.{
  ◌≡◌, refl, sym, ap, ◌∙◌, true, [], ◌∷◌, ◌++◌, Option, none, some, arith, Option-cases, Bool-cases,
  inl, inr,
}
use simet_lmapd.Text.{Str, codes, str_eq, eq_of_str_eq}
use simet_lmapd.Workspace.Queue.{split_last, data_name}

split-again :
    (xs before after : Str)
    → split_last b'.' xs ≡ some (before, after)
    → split_last b'.' (before ++ codes "data") ≡ some (before, codes "data")
unfolding split_last
split-again [] before after e = absurd cc
split-again (x ∷ xs) before after e = elim (Option-cases (split_last b'.' xs)) [
  | inl f ↦ ground (arith, f)
  | inr ((b, a), f) ↦ ground (arith, split-again xs b a f)
]

-- No data file is taken for a meta file.
pub data_name-none : (name sdata : Str) → data_name name ≡ some sdata → data_name sdata ≡ none
unfolding data_name str_eq
data_name-none name sdata e = elim (Option-cases (split_last b'.' name)) [
  | inl f ↦ absurd (ground arith)
  | inr ((b, a), f) ↦ elim (Bool-cases (str_eq a (codes "meta"))) [
    | inr other ↦ absurd (ground arith)
    | inl meta ↦ rw (is_data b a f meta, data_name, split-again name b a f) refl
  ]
]
  where
    is_data :
        (b a : Str)
        → split_last b'.' name ≡ some (b, a)
        → str_eq a (codes "meta") ≡ true
        → sdata ≡ b ++ codes "data"
    is_data b a f g = ground (arith, e, f, g)

split-join :
    (xs before after : Str) → split_last b'.' xs ≡ some (before, after) → xs ≡ before ++ after
unfolding split_last
split-join [] before after e = absurd cc
split-join (x ∷ xs) before after e = elim (Option-cases (split_last b'.' xs)) [
  | inl f ↦ ground (arith, f)
  | inr ((b, a), f) ↦ ground (arith, f, split-join xs b a f)
]

same_start :
    (a b : Str)
    → split_last b'.' (a ++ codes "data") ≡ some (a, codes "data")
    → split_last b'.' (b ++ codes "data") ≡ some (b, codes "data")
    → a ++ codes "data" ≡ b ++ codes "data"
    → a ≡ b
same_start a b e f g = pair (sym e ∙ ap (split_last b'.') g ∙ f)
  where
    pair : ◌≡◌ {A = Option (Str × Str)} (some (a, codes "data")) (some (b, codes "data")) → a ≡ b
    pair h = cc

parts :
    (name sdata : Str)
    → data_name name ≡ some sdata
    → (b : Str) × (split_last b'.' (b ++ codes "data") ≡ some (b, codes "data"))
      × (name ≡ b ++ codes "meta")
      × (sdata ≡ b ++ codes "data")
unfolding data_name
parts name sdata e = elim (Option-cases (split_last b'.' name)) [
  | inl f ↦ absurd (ground arith)
  | inr ((b, a), f) ↦ elim (Bool-cases (str_eq a (codes "meta"))) [
    | inr other ↦ absurd (ground arith)
    | inl meta ↦ (
      b,
      split-again name b a f,
      split-join name b a f ∙ ap (λ (t : Str). b ++ t) (eq_of_str_eq a (codes "meta") meta),
      ground (arith, e, f, meta),
    )
  ]
]

-- Two meta files have two data files.
pub data_name-injective :
    (m n sdata : Str) → data_name m ≡ some sdata → data_name n ≡ some sdata → m ≡ n
data_name-injective m n sdata e f =
    let (a, p, em, ea) = parts m sdata e in
    let (b, q, en, eb) = parts n sdata f in
    em ∙ ap (λ (t : Str). t ++ codes "meta") (same_start a b p q (sym ea ∙ eb)) ∙ sym en
