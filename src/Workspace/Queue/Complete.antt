-- ===== src/Workspace/Queue/Complete.antt =====
-- Without failures, a move takes every complete pair that the directory lists.
use simet_lmapd.Base.{
  ℕ, ◌+◌, ◌≡◌, ◌≢◌, refl, sym, ap, ◌∙◌, ◌⊎◌, inl, inr, Bool, true, false, ◌&&◌, Option, none, some,
  arith, if◌then◌else◌, Option-cases, Bool-cases,
}
use simet_lmapd.Text.{Str, str_eq, str_eq_iff}
use simet_lmapd.Workspace.Tree.{
  Node, Entries, regular, special, directory, lookup, is_regular, is_file, fstatat, unlinkat,
  linkat, link_node,
}
use simet_lmapd.Workspace.Tree.Lookup.{lookup-unlinkat, lookup-linkat}
use simet_lmapd.Workspace.Queue.{Queue, starts_with, data_name, move_pair, move_meta, move_entry}
use simet_lmapd.Workspace.Queue.Suffix.{data_name-none}

-- A name is in one of the two directories at most.
abbrev pub IsApart : Queue → Type 0
IsApart q = (n : Str) → lookup n q.incoming ≢ none → lookup n q.active ≡ none

link-regular :
    (name : Str) (s : Option Node) (dest : Entries)
    → is_regular s ≡ true
    → (dest1 : Entries) × (link_node name s none dest ≡ some dest1)
unfolding link_node
link-regular name (some (regular i b)) dest r = (_, refl)
link-regular name none dest r = absurd cc
link-regular name (some special) dest r = absurd cc
link-regular name (some (directory es)) dest r = absurd cc

regular-is_file : (s : Option Node) → is_regular s ≡ true → is_file s ≡ true
regular-is_file (some (regular i b)) r = refl
regular-is_file none r = absurd cc
regular-is_file (some special) r = absurd cc
regular-is_file (some (directory es)) r = absurd cc

regular-ne : (s : Option Node) → is_regular s ≡ true → s ≢ none
regular-ne none r = absurd cc
regular-ne (some n) r = λ e. absurd cc

differ : (a b : Str) → a ≢ b → str_eq a b ≡ false
differ a b h = ground (arith, str_eq_iff a b)

module _ (fails : ℕ → Bool) (ok : (t : ℕ) → fails t ≡ false) where
  linkat-ok :
      (t : ℕ) (source dest : Entries) (name : Str)
      → is_regular (lookup name source) ≡ true
      → lookup name dest ≡ none
      → (dest1 : Entries) × (linkat fails t source dest name ≡ some dest1)
  unfolding linkat
  linkat-ok t source dest name r free =
      let (dest1, e) = link-regular name (lookup name source) dest r in
      (dest1, rw (ok t, free, linkat) e)

  unlinkat-ok :
      (t : ℕ) (es : Entries) (name k : Str)
      → is_regular (lookup name es) ≡ true
      → lookup k (unlinkat fails t es name) ≡ (if str_eq name k then none else lookup k es)
  unlinkat-ok t es name k r =
      ground (arith, lookup-unlinkat fails t es name k, ok t, regular-is_file (lookup name es) r)

  -- A complete pair moves.
  move_pair-moves :
      (name sdata : Str) (q : Queue)
      → name ≢ sdata
      → IsApart q
      → is_regular (lookup name q.incoming) ≡ true
      → is_regular (lookup sdata q.incoming) ≡ true
      → (q1 : Queue) × (move_pair fails name sdata q ≡ (q1, true))
        × ((k : Str)
            → lookup k q1.incoming ≡ (
                if str_eq name k
                then none
                else if str_eq sdata k
                then none
                else lookup k q.incoming))
        × ((k : Str)
            → lookup k q1.active ≡ (
                if str_eq name k
                then lookup k q.incoming
                else if str_eq sdata k
                then lookup k q.incoming
                else lookup k q.active))
  unfolding move_pair
  move_pair-moves name sdata q ne apart r1 r2 =
      let other = differ name sdata ne in
      let free1 = apart sdata (regular-ne (lookup sdata q.incoming) r2) in
      let (active1, e1) = linkat-ok q.tick q.incoming q.active sdata r2 free1 in
      let (node1, found1, _, f1) =
        lookup-linkat fails q.tick q.incoming q.active active1 sdata e1 in
      let free2 =
        f1 name
        ∙ ground
            (arith, apart name (regular-ne (lookup name q.incoming) r1), str_eq_iff sdata name) in
      let (active2, e2) = linkat-ok (q.tick + 1) q.incoming active1 name r1 free2 in
      let (node2, found2, _, f2) =
        lookup-linkat fails (q.tick + 1) q.incoming active1 active2 name e2 in
      let u1 = λ (k : Str). unlinkat-ok (q.tick + 2) q.incoming name k r1 in
      let u2 = λ (k : Str).
        unlinkat-ok (q.tick + 3) (unlinkat fails (q.tick + 2) q.incoming name) sdata k
          (ap is_regular (u1 sdata ∙ rw other) ∙ r2) in
      (
        record q {
          incoming =
              unlinkat fails (q.tick + 3) (unlinkat fails (q.tick + 2) q.incoming name) sdata;
          active = active2;
          tick = q.tick + 4;
        },
        rw (e1, e2, move_pair) refl,
        λ k. ground (arith, u1 k, u2 k),
        λ k. ground (arith, f1 k, f2 k, str_eq_iff name k, str_eq_iff sdata k, found1, found2),
      )

  -- What one entry does: nothing, or the move of a pair.
  abbrev pub Taken : Str → Str → Queue → Queue → Type 0
  Taken name sdata q q1 =
      ((is_regular (lookup name q.incoming) ≡ true) × (is_regular (lookup sdata q.incoming) ≡ true))
      × ((k : Str)
          → lookup k q1.incoming ≡ (
              if str_eq name k then none else if str_eq sdata k then none else lookup k q.incoming))
      × ((k : Str)
          → lookup k q1.active ≡ (
              if str_eq name k
              then lookup k q.incoming
              else if str_eq sdata k
              then lookup k q.incoming
              else lookup k q.active))

  abbrev pub Outcome : Str → Queue → Queue → Type 0
  Outcome name q q1 =
      ((q1.incoming ≡ q.incoming)
        × (q1.active ≡ q.active)
        × ((sdata : Str)
            → starts_with b'.' name ≡ false
            → data_name name ≡ some sdata
            → (is_regular (lookup name q.incoming) && is_regular (lookup sdata q.incoming))
              ≡ false))
      ⊎ ((sdata : Str) × (data_name name ≡ some sdata) × Taken name sdata q q1)

  name-ne : (name sdata : Str) → data_name name ≡ some sdata → name ≢ sdata
  name-ne name sdata is e = ground (arith, data_name-none name sdata is, ap data_name e)

  meta-Outcome :
      (name sdata : Str) (q : Queue)
      → IsApart q
      → data_name name ≡ some sdata
      → (q1 : Queue) × (move_meta fails name sdata q ≡ (q1, true)) × Outcome name q q1
  unfolding move_meta fstatat
  meta-Outcome name sdata q apart is = elim (Bool-cases (is_regular (lookup name q.incoming))) [
    | inr missing ↦ (
      record q { tick = q.tick + 1 },
      rw (move_meta, fstatat, ok q.tick, missing) refl,
      inl (refl, refl, λ d shown e. rw missing refl),
    )
    | inl found ↦ elim (Bool-cases (is_regular (lookup sdata q.incoming))) [
      | inr missing ↦ (
        record q { tick = q.tick + 2 },
        rw (move_meta, fstatat, ok q.tick, found, ok (q.tick + 1), missing) refl,
        inl (refl, refl, λ d shown e. still d (same d sdata (sym e ∙ is)) missing found),
      )
      | inl both ↦
          let (q1, e, f, g) =
            move_pair-moves name sdata (record q { tick = q.tick + 2 }) (name-ne name sdata is)
              apart found both in
          (
            q1,
            rw (move_meta, fstatat, ok q.tick, found, ok (q.tick + 1), both) e,
            inr (sdata, is, ((found, both), f, g)),
          )
    ]
  ]
    where
      same : (a b : Str) → ◌≡◌ {A = Option Str} (some a) (some b) → a ≡ b
      same a b h = cc

      still :
          (d : Str)
          → d ≡ sdata
          → is_regular (lookup sdata q.incoming) ≡ false
          → is_regular (lookup name q.incoming) ≡ true
          → (is_regular (lookup name q.incoming) && is_regular (lookup d q.incoming)) ≡ false
      still d f missing found = rw (found, f, missing) refl

  pub entry-Outcome :
      (name : Str) (q : Queue)
      → IsApart q
      → (q1 : Queue) × (move_entry fails name q ≡ (q1, true)) × Outcome name q q1
  unfolding move_entry
  entry-Outcome name q apart = elim (Bool-cases (starts_with b'.' name)) [
    | inl hidden ↦ (q, rw (hidden, move_entry) refl, inl (refl, refl, λ d shown e. ground arith))
    | inr shown ↦ elim (Option-cases (data_name name)) [
      | inl other ↦ (q, rw (shown, other, move_entry) refl, inl (refl, refl, λ d h e. ground arith))
      | inr (sdata, is) ↦
          let (q1, e, o) = meta-Outcome name sdata q apart is in
          (q1, rw (shown, is, move_entry) e, o)
    ]
  ]
