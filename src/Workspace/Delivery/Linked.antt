-- ===== src/Workspace/Delivery/Linked.antt =====
-- What a delivery keeps, whatever fails, and what it brings.
use simet_lmapd.Base.{
  ℕ, ◌+◌, ◌≡◌, refl, sym, ap, ◌∙◌, ◌⊎◌, inl, inr, Bool, true, false, not, ◌&&◌, ◌||◌, List, [], ◌∷◌,
  Option, some, arith, Bool-cases, Option-cases,
}
use simet_lmapd.Text.{Str, str_eq_iff}
use simet_lmapd.Model.{Action, Schedule}
use simet_lmapd.Workspace.Tree.{Node, Entries, is_regular, lookup, fstatat, linkat}
use simet_lmapd.Workspace.Tree.Lookup.{lookup-linkat}
use simet_lmapd.Workspace.Queue.{starts_with}
use simet_lmapd.Workspace.Delivery.{
  Moving, done, failed, Places, target, put_target, deliver, deliver_all, complete,
  lmapd_workspace_action_move,
}

-- From one state to a later one: the workspace and the other directory stay, nothing that the target has is lost
-- or replaced, and what is new in it is a file of the workspace.
pub record IsDelivery (own : Bool) (p p1 : Places) : Type 0 where
  pub workspace_same : p1.workspace ≡ p.workspace
  pub other_same : target (not own) p1 ≡ target (not own) p
  pub target_kept :
      (n : Str) (x : Node) → lookup n (target own p) ≡ some x → lookup n (target own p1) ≡ some x
  pub target_from :
      (n : Str) (x : Node)
      → lookup n (target own p1) ≡ some x
      → (lookup n (target own p) ≡ some x) ⊎ (lookup n p.workspace ≡ some x)

-- A change of the counter and the return code alone.
abbrev moved : Places → ℕ → Moving → Places
moved p t r = record p { tick = t; rc = r }

target-moved :
    (own : Bool) (p : Places) (t : ℕ) (r : Moving) → target own (moved p t r) ≡ target own p
target-moved true p t r = refl
target-moved false p t r = refl

waits : (own : Bool) (p : Places) (t : ℕ) (r : Moving) → IsDelivery own p (moved p t r)
waits true p t r = record {
  workspace_same = refl;
  other_same = refl;
  target_kept = λ n x e. e;
  target_from = λ n x e. inl e;
}
waits false p t r = record {
  workspace_same = refl;
  other_same = refl;
  target_kept = λ n x e. e;
  target_from = λ n x e. inl e;
}

follows :
    (own : Bool) (p p1 p2 : Places)
    → IsDelivery own p p1
    → IsDelivery own p1 p2
    → IsDelivery own p p2
follows own p p1 p2 f g = record {
  workspace_same = g.workspace_same ∙ f.workspace_same;
  other_same = g.other_same ∙ f.other_same;
  target_kept = λ n x e. g.target_kept n x (f.target_kept n x e);
  target_from = λ n x e. elim (g.target_from n x e) [
    | inl h ↦ f.target_from n x h
    | inr h ↦ inr (ap (lookup n) (sym f.workspace_same) ∙ h)
  ];
}

linked :
    (fails : ℕ → Bool) (own : Bool) (p : Places) (name : Str) (t u : ℕ) (es : Entries)
    → linkat fails t p.workspace (target own p) name ≡ some es
    → IsDelivery own p (put_target own es (moved p u p.rc))
linked fails true p name t u es e =
    let (node, found, free, f) = lookup-linkat fails t p.workspace p.active es name e in
    record {
      workspace_same = refl;
      other_same = refl;
      target_kept = λ n x g. ground (arith, f n, str_eq_iff name n);
      target_from = λ n x g. ground (arith, f n, str_eq_iff name n);
    }
linked fails false p name t u es e =
    let (node, found, free, f) = lookup-linkat fails t p.workspace p.incoming es name e in
    record {
      workspace_same = refl;
      other_same = refl;
      target_kept = λ n x g. ground (arith, f n, str_eq_iff name n);
      target_from = λ n x g. ground (arith, f n, str_eq_iff name n);
    }

module _ (fails : ℕ → Bool) (own : Bool) where
  abbrev pub skips : Str → Places → Bool
  skips name p =
      not (is_regular (fstatat fails p.tick p.workspace name))
      || starts_with b'_' name
      || starts_with b'.' name

  pub deliver-IsDelivery : (name : Str) (p : Places) → IsDelivery own p (deliver fails own name p)
  unfolding deliver
  deliver-IsDelivery name p = elim (Bool-cases (skips name p)) [
    | inl skipped ↦ rw (skipped, deliver) (waits own p _ p.rc)
    | inr taken ↦ elim (Option-cases (linkat fails (p.tick + 1) p.workspace (target own p) name)) [
      | inl e ↦ rw (taken, e, deliver) (waits own p _ failed)
      | inr (es, e) ↦
          rw (taken, e, deliver) (linked fails own p name (p.tick + 1) (p.tick + 2) es e)
    ]
  ]

  pub deliver_all-IsDelivery :
      (names : List Str) (p : Places) → IsDelivery own p (deliver_all fails own names p)
  unfolding deliver_all
  deliver_all-IsDelivery [] p = waits own p p.tick p.rc
  deliver_all-IsDelivery (name ∷ names) p =
      follows own p _ _ (deliver-IsDelivery name p)
        (deliver_all-IsDelivery names (deliver fails own name p))

-- Whatever calls of the system fail and whatever the workspace lists: the results of an action stay in its
-- workspace, nothing that the destination has is lost or replaced, what is new there is a file of the workspace,
-- and the destination's other directory does not change.
pub action_move-IsDelivery :
    (fails : ℕ → Bool) (own : Bool) (schedule : Option Schedule) (action : Option Action)
    (destination : Option Schedule) (defer : Bool) (listing : List Str) (p : Places)
    → IsDelivery own p
        (lmapd_workspace_action_move fails own schedule action destination defer listing p).0
unfolding lmapd_workspace_action_move
action_move-IsDelivery fails own schedule action destination defer listing p =
    elim (Bool-cases (complete schedule action destination)) [
      | inr nothing ↦ rw (nothing, lmapd_workspace_action_move) (waits own p p.tick p.rc)
      | inl all_given ↦ elim (Bool-cases (defer && not own)) [
        | inl later ↦ rw (all_given, later, lmapd_workspace_action_move) (waits own p p.tick p.rc)
        | inr now ↦ elim (Bool-cases (fails p.tick)) [
          | inl bad ↦ rw (all_given, now, bad, lmapd_workspace_action_move) (waits own p _ p.rc)
          | inr good ↦
              rw (all_given, now, good, lmapd_workspace_action_move)
                (follows own p _ _ (waits own p _ done)
                  (deliver_all-IsDelivery fails own listing (moved p (p.tick + 1) done)))
        ]
      ]
    ]
