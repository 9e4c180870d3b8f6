-- ===== src/Workspace/Delivery/Arrival.antt =====
-- A delivery that reports success brought every result; then the destination's own move makes it active.
use mathlib.Core.Path.{subst}
use simet_lmapd.Base.{
  ℕ, ◌+◌, ◌≡◌, ◌≢◌, refl, sym, ap, ◌∙◌, ◌⊎◌, inl, inr, Bool, true, false, not, ◌||◌, List, [], ◌∷◌,
  ◌++◌, Option, none, some, arith, Bool-cases, Option-cases,
}
use simet_lmapd.Text.{Str, str_eq_refl}
use simet_lmapd.Model.{Action, Schedule}
use simet_lmapd.Workspace.Tree.{Node, Entries, is_regular, lookup, fstatat, linkat}
use simet_lmapd.Workspace.Tree.Lookup.{lookup-linkat}
use simet_lmapd.Workspace.Queue.{Queue, starts_with, data_name, lmapd_workspace_schedule_move}
use simet_lmapd.Workspace.Queue.Complete.{IsApart}
use simet_lmapd.Workspace.Queue.Drained.{schedule_move-Moved}
use simet_lmapd.Workspace.Delivery.{
  Moving, done, failed, Places, target, put_target, deliver, deliver_all, complete,
  lmapd_workspace_action_move,
}
use simet_lmapd.Workspace.Delivery.Linked.{
  IsDelivery, skips, deliver_all-IsDelivery, action_move-IsDelivery, deliver-IsDelivery,
}

abbrev pub is_visible : Str → Bool
is_visible name = not (starts_with b'_' name || starts_with b'.' name)

module _ (fails : ℕ → Bool) (own : Bool) where
  put_target-rc : (o : Bool) (es : Entries) (p : Places) → (put_target o es p).rc ≡ p.rc
  put_target-rc true es p = refl
  put_target-rc false es p = refl

  put_target-target : (o : Bool) (es : Entries) (p : Places) → target o (put_target o es p) ≡ es
  put_target-target true es p = refl
  put_target-target false es p = refl

  -- What one entry does: it is skipped, it fails, or it is linked.
  deliver-cases :
      (name : Str) (p : Places)
      → ((skips fails own name p ≡ true) × ((deliver fails own name p).rc ≡ p.rc))
        ⊎ (((deliver fails own name p).rc ≡ failed)
            ⊎ ((es : Entries) × (linkat fails (p.tick + 1) p.workspace (target own p) name
                  ≡ some es)
                × ((deliver fails own name p).rc ≡ p.rc)
                × (target own (deliver fails own name p) ≡ es)))
  unfolding deliver
  deliver-cases name p = elim (Bool-cases (skips fails own name p)) [
    | inl skipped ↦ inl (skipped, rw (skipped, deliver) refl)
    | inr taken ↦ elim (Option-cases (linkat fails (p.tick + 1) p.workspace (target own p) name)) [
      | inl e ↦ inr (inl (rw (taken, e, deliver) refl))
      | inr (es, e) ↦ inr (
          inr (
            es,
            e,
            rw (taken, e, deliver) (put_target-rc own es (record p { tick = p.tick + 2 })),
            rw (taken, e, deliver) (put_target-target own es (record p { tick = p.tick + 2 })),
          ))
    ]
  ]

  deliver-done : (name : Str) (p : Places) → (deliver fails own name p).rc ≡ done → p.rc ≡ done
  deliver-done name p h = elim (deliver-cases name p) [
    | inl (_, e) ↦ sym e ∙ h
    | inr (inl e) ↦ absurd (differ (sym e ∙ h))
    | inr (inr (_, _, e, _)) ↦ sym e ∙ h
  ]
    where
      differ : failed ≢ done
      differ e = absurd cc

  deliver_all-done :
      (names : List Str) (p : Places) → (deliver_all fails own names p).rc ≡ done → p.rc ≡ done
  unfolding deliver_all
  deliver_all-done [] p h = h
  deliver_all-done (name ∷ names) p h =
      deliver-done name p (deliver_all-done names (deliver fails own name p) h)

  module _ (n : Str) (x : Node) (ok : (t : ℕ) → fails t ≡ false) (visible : is_visible n ≡ true)
      (rx : is_regular (some x) ≡ true) where
    stat :
        (p : Places) → lookup n p.workspace ≡ some x → fstatat fails p.tick p.workspace n ≡ some x
    unfolding fstatat
    stat p e = rw (fstatat, ok p.tick) e

    brings :
        (p : Places)
        → lookup n p.workspace ≡ some x
        → (deliver fails own n p).rc ≡ done
        → lookup n (target own (deliver fails own n p)) ≡ some x
    brings p e h = elim (deliver-cases n p) [
      | inl (skipped, _) ↦ absurd (shown skipped)
      | inr (inl f) ↦ absurd (differ (sym f ∙ h))
      | inr (inr (es, f, _, g)) ↦
          let (node, found, free, l) =
            lookup-linkat fails (p.tick + 1) p.workspace (target own p) es n f in
          rw g (l n ∙ ground (arith, str_eq_refl n, found, e))
    ]
      where
        differ : failed ≢ done
        differ f = absurd cc

        shown : skips fails own n p ≢ true
        shown f = ground (arith, f, visible, rx, stat p e)

    brings_all :
        (before after : List Str) (p : Places)
        → lookup n p.workspace ≡ some x
        → (deliver_all fails own (before ++ n ∷ after) p).rc ≡ done
        → lookup n (target own (deliver_all fails own (before ++ n ∷ after) p)) ≡ some x
    unfolding deliver_all
    brings_all [] after p e h =
        (deliver_all-IsDelivery fails own after (deliver fails own n p)).target_kept n x
          (brings p e (deliver_all-done after (deliver fails own n p) h))
    brings_all (name ∷ before) after p e h =
        brings_all before after (deliver fails own name p)
          (ap (lookup n) ((deliver-IsDelivery fails own name p).workspace_same) ∙ e) h

    brings_listed :
        (listing before after : List Str) (p : Places)
        → listing ≡ before ++ n ∷ after
        → lookup n p.workspace ≡ some x
        → (deliver_all fails own listing p).rc ≡ done
        → lookup n (target own (deliver_all fails own listing p)) ≡ some x
    brings_listed listing before after p e em =
        subst
          (λ (l : List Str).
            (deliver_all fails own l p).rc ≡ done
            → lookup n (target own (deliver_all fails own l p)) ≡ some x)
          (sym e) (brings_all before after p em)

-- The queue that the destination's own move finds.
abbrev pub queue_of : Places → ℕ → Queue
queue_of p t = record { incoming = p.incoming; active = p.active; tick = t }

IsDelivery-IsApart :
    (p p1 : Places) (t : ℕ)
    → IsDelivery false p p1
    → IsApart (queue_of p t)
    → ((n : Str) → lookup n p.workspace ≢ none → lookup n p.active ≡ none)
    → IsApart (queue_of p1 t)
IsDelivery-IsApart p p1 t f apart fresh n there = elim (Option-cases (lookup n p1.incoming)) [
  | inl e ↦ absurd (there e)
  | inr (x, e) ↦ ap (lookup n) f.other_same ∙ (elim (f.target_from n x e) [
    | inl h ↦ apart n (λ g. ground arith)
    | inr h ↦ fresh n (λ g. ground arith)
  ])
]

delivered :
    (fails : ℕ → Bool) (schedule : Option Schedule) (action : Option Action)
    (destination : Option Schedule) (listing : List Str) (p : Places)
    → fails p.tick ≡ false
    → complete schedule action destination ≡ true
    → lmapd_workspace_action_move fails false schedule action destination false listing p ≡ (
        let p1 = deliver_all fails false listing (record p { tick = p.tick + 1; rc = done }) in
        (p1, p1.rc))
unfolding lmapd_workspace_action_move
delivered fails schedule action destination listing p good given =
    rw (given, good, lmapd_workspace_action_move) refl

-- Where no call of the system fails, the schedule has a name, the action a name and a workspace and the
-- destination (another schedule) a workspace, no name is in both directories of the destination and none of the workspace is in
-- its active one, let the workspace list a meta file and its data file, regular files whose names start
-- with neither _ nor a dot: if the move of the results returns 0, and the queue move of the destination
-- lists the meta file next, both files are active there, the same as in the workspace, and neither is
-- incoming any more.
pub arrival :
    (fails : ℕ → Bool) (schedule : Option Schedule) (action : Option Action)
    (destination : Option Schedule) (workspace m d : Str) (x y : Node)
    (b1 a1 b2 a2 b3 a3 : List Str) (p p1 : Places) (t : ℕ)
    → ((k : ℕ) → fails k ≡ false)
    → complete schedule action destination ≡ true
    → data_name m ≡ some d
    → is_visible m ≡ true
    → is_visible d ≡ true
    → is_regular (some x) ≡ true
    → is_regular (some y) ≡ true
    → lookup m p.workspace ≡ some x
    → lookup d p.workspace ≡ some y
    → IsApart (queue_of p t)
    → ((n : Str) → lookup n p.workspace ≢ none → lookup n p.active ≡ none)
    → b1 ++ m ∷ a1 ≡ b2 ++ d ∷ a2
    → lmapd_workspace_action_move fails false schedule action destination false (b1 ++ m ∷ a1) p
      ≡ (p1, done)
    → let q =
        (lmapd_workspace_schedule_move fails (some workspace) (b3 ++ m ∷ a3) (queue_of p1 t)).0 in
      (lookup m q.active ≡ some x)
      × (lookup d q.active ≡ some y)
      × (lookup m q.incoming ≡ none)
      × (lookup d q.incoming ≡ none)
arrival fails schedule action destination workspace m d x y b1 a1 b2 a2 b3 a3 p p1 t ok given is vm
      vd rx ry em ed apart fresh same move =
    schedule_move-Moved fails workspace b3 a3 (queue_of p1 t) m d x y ok is (ground (arith, vm)) rx
      ry (IsDelivery-IsApart p p1 t delivery apart fresh) (got m x vm rx em b1 a1 refl)
      (got d y vd ry ed b2 a2 same)
  where
    ran :
        ◌≡◌ {A = Places × Moving}
          (p1, done)
          (let p2 =
              deliver_all fails false (b1 ++ m ∷ a1) (record p { tick = p.tick + 1; rc = done }) in
            (p2, p2.rc))
    ran = sym move ∙ delivered fails schedule action destination (b1 ++ m ∷ a1) p (ok p.tick) given

    delivery : IsDelivery false p p1
    delivery =
        subst (IsDelivery false p) (ap (λ (r : Places × Moving). r.0) move)
          (action_move-IsDelivery fails false schedule action destination false (b1 ++ m ∷ a1) p)

    got :
        (n : Str) (z : Node)
        → is_visible n ≡ true
        → is_regular (some z) ≡ true
        → lookup n p.workspace ≡ some z
        → (b a : List Str) → b1 ++ m ∷ a1 ≡ b ++ n ∷ a
        → lookup n p1.incoming ≡ some z
    got n z v r e b a l =
        ap (λ (o : Places × Moving). lookup n o.0.incoming) ran
        ∙ brings_listed fails false n z ok v r (b1 ++ m ∷ a1) b a
            (record p { tick = p.tick + 1; rc = done }) l e
            (sym (ap (λ (o : Places × Moving). o.1) ran))
