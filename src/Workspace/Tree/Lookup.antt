-- ===== src/Workspace/Tree/Lookup.antt =====
-- What a lookup finds behind each call, and what a removal without failures leaves.
use simet_lmapd.Base.{
  ℕ, ◌≡◌, refl, sym, ◌∙◌, Bool, true, false, ◌&&◌, Option, none, some, arith, if◌then◌else◌,
  Bool-cases, inl, inr,
}
use simet_lmapd.Text.{Str, str_eq, str_eq_iff}
use simet_lmapd.Workspace.Tree.{
  Node, Entries, nil, entry, regular, special, directory, lookup, erase, can_unlink, unlinkat,
  linkat, link_node, remove_node, remove_entries,
}

pub lookup-erase :
    (k name : Str) (es : Entries)
    → lookup k (erase name es) ≡ (if str_eq name k then none else lookup k es)
unfolding lookup erase
lookup-erase k name nil = ground arith
lookup-erase k name (entry s n es) =
    ground (arith, lookup-erase k name es, str_eq_iff s name, str_eq_iff s k, str_eq_iff name k)

link_node-some :
    (name : Str) (s d : Option Node) (dest dest1 : Entries)
    → link_node name s d dest ≡ some dest1
    → (node : Node) × (s ≡ some node) × (d ≡ none) × (dest1 ≡ entry name node dest)
unfolding link_node
link_node-some name (some (regular i b)) none dest dest1 e = (regular i b, refl, refl, cc)
link_node-some name (some special) none dest dest1 e = (special, refl, refl, cc)
link_node-some name none d dest dest1 e = absurd cc
link_node-some name (some (directory es)) d dest dest1 e = absurd cc
link_node-some name (some (regular i b)) (some n) dest dest1 e = absurd cc
link_node-some name (some special) (some n) dest dest1 e = absurd cc

module _ (fails : ℕ → Bool) where
  pub lookup-unlinkat :
      (t : ℕ) (es : Entries) (name k : Str)
      → lookup k (unlinkat fails t es name)
        ≡ (if can_unlink fails t es name && str_eq name k then none else lookup k es)
  unfolding unlinkat
  lookup-unlinkat t es name k = ground (arith, lookup-erase k name es)

  -- What a link that succeeds has found and leaves.
  pub lookup-linkat :
      (t : ℕ) (source dest dest1 : Entries) (name : Str)
      → linkat fails t source dest name ≡ some dest1
      → (node : Node) × (lookup name source ≡ some node)
        × (lookup name dest ≡ none)
        × ((k : Str) → lookup k dest1 ≡ (if str_eq name k then some node else lookup k dest))
  unfolding linkat lookup
  lookup-linkat t source dest dest1 name e = elim (Bool-cases (fails t)) [
    | inl bad ↦ absurd (ground arith)
    | inr good ↦
        let (node, found, free, f) =
          link_node-some name (lookup name source) (lookup name dest) dest dest1
            (sym (rw (good, linkat) refl) ∙ e) in
        (node, found, free, λ k. rw f (chosen (str_eq name k) node (lookup k dest)))
  ]
    where
      chosen :
          (b : Bool) (node : Node) (old : Option Node)
          → (elim b [ true ↦ some node | false ↦ old ]) ≡ (if b then some node else old)
      chosen true node old = refl
      chosen false node old = refl

  mutual
    unfolding remove_node remove_entries

    pub remove_node-none :
        (t : ℕ) (n : Node) → ((k : ℕ) → fails k ≡ false) → (remove_node fails t n).0 ≡ none
    remove_node-none t (regular i b) ok = rw (remove_node, ok t) refl
    remove_node-none t special ok = rw (remove_node, ok t) refl
    remove_node-none t (directory es) ok = rw (remove_entries-nil t es ok, ok) refl

    remove_entries-nil :
        (t : ℕ) (es : Entries) → ((k : ℕ) → fails k ≡ false) → (remove_entries fails t es).0 ≡ nil
    remove_entries-nil t nil ok = refl
    remove_entries-nil t (entry s n es) ok =
        rw (remove_node-none t n ok) (remove_entries-nil _ es ok)
