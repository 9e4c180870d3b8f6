-- ===== src/Workspace/Queue/Steps.antt =====
-- One entry of the incoming directory: what a pair of links and removals keeps, whatever fails.
use simet_lmapd.Base.{ℕ, ◌≡◌, ◌≢◌, ◌⊎◌, inl, inr, Bool, none, some, arith}
use simet_lmapd.Text.{Str, str_eq_iff}
use simet_lmapd.Workspace.Tree.{Node, Entries, lookup, unlinkat, linkat}
use simet_lmapd.Workspace.Tree.Lookup.{lookup-unlinkat, lookup-linkat}
use simet_lmapd.Workspace.Queue.{Queue, data_name}
use simet_lmapd.Workspace.Queue.Suffix.{data_name-none}

-- From one state of the queue to a later one: nothing that is active is lost or replaced, what leaves the
-- incoming directory is active, and nothing comes from elsewhere.
pub record IsMove (q q1 : Queue) : Type 0 where
  pub active_kept : (n : Str) (x : Node) → lookup n q.active ≡ some x → lookup n q1.active ≡ some x
  pub incoming_kept :
      (n : Str) (x : Node)
      → lookup n q.incoming ≡ some x
      → (lookup n q1.incoming ≡ some x) ⊎ (lookup n q1.active ≡ some x)
  pub incoming_old :
      (n : Str) (x : Node) → lookup n q1.incoming ≡ some x → lookup n q.incoming ≡ some x
  pub active_from :
      (n : Str) (x : Node)
      → lookup n q1.active ≡ some x
      → (lookup n q.active ≡ some x) ⊎ (lookup n q.incoming ≡ some x)

-- Every meta file that is active has its data file beside it.
abbrev pub IsPaired : Entries → Type 0
IsPaired active =
    (m d : Str) → data_name m ≡ some d → lookup m active ≢ none → lookup d active ≢ none

-- A move that keeps the pairs.
abbrev pub IsStep : Queue → Queue → Type 0
IsStep q q1 = IsMove q q1 × (IsPaired q.active → IsPaired q1.active)

pub stays : (q : Queue) (t : ℕ) → IsMove q (record q { tick = t })
stays q t = record {
  active_kept = λ n x e. e;
  incoming_kept = λ n x e. inl e;
  incoming_old = λ n x e. e;
  active_from = λ n x e. inl e;
}

pub follows : (q q1 q2 : Queue) → IsMove q q1 → IsMove q1 q2 → IsMove q q2
follows q q1 q2 f g = record {
  active_kept = λ n x e. g.active_kept n x (f.active_kept n x e);
  incoming_kept = λ n x e. elim (f.incoming_kept n x e) [
    | inl h ↦ g.incoming_kept n x h
    | inr h ↦ inr (g.active_kept n x h)
  ];
  incoming_old = λ n x e. f.incoming_old n x (g.incoming_old n x e);
  active_from = λ n x e. elim (g.active_from n x e) [
    | inl h ↦ f.active_from n x h
    | inr h ↦ inr (f.incoming_old n x h)
  ];
}

module _ (fails : ℕ → Bool) (q : Queue) (name sdata : Str) where
  pub rolled_back :
      (t u : ℕ) (active1 : Entries)
      → linkat fails q.tick q.incoming q.active sdata ≡ some active1
      → IsMove q (record q { active = unlinkat fails t active1 sdata; tick = u })
  rolled_back t u active1 e =
      let (node, found, free, f) = lookup-linkat fails q.tick q.incoming q.active active1 sdata e in
      record {
        active_kept = λ n x g.
            ground (arith, f n, lookup-unlinkat fails t active1 sdata n, str_eq_iff sdata n);
        incoming_kept = λ n x g. inl g;
        incoming_old = λ n x g. g;
        active_from = λ n x g.
            ground (arith, f n, lookup-unlinkat fails t active1 sdata n, str_eq_iff sdata n);
      }

  pub moved :
      (t s1 s2 u : ℕ) (active1 active2 : Entries)
      → linkat fails q.tick q.incoming q.active sdata ≡ some active1
      → linkat fails t q.incoming active1 name ≡ some active2
      → IsMove q (record q {
        incoming = unlinkat fails s2 (unlinkat fails s1 q.incoming name) sdata;
        active = active2;
        tick = u;
      })
  moved t s1 s2 u active1 active2 e1 e2 =
      let (node1, found1, free1, f1) =
        lookup-linkat fails q.tick q.incoming q.active active1 sdata e1 in
      let (node2, found2, free2, f2) = lookup-linkat fails t q.incoming active1 active2 name e2 in
      let u1 = lookup-unlinkat fails s1 q.incoming name in
      let u2 = lookup-unlinkat fails s2 (unlinkat fails s1 q.incoming name) sdata in
      record {
        active_kept = λ n x g. ground (arith, f1 n, f2 n, str_eq_iff sdata n, str_eq_iff name n);
        incoming_kept =
            λ n x g. ground (arith, f1 n, f2 n, u1 n, u2 n, str_eq_iff sdata n, str_eq_iff name n);
        incoming_old = λ n x g. ground (arith, u1 n, u2 n);
        active_from = λ n x g. ground (arith, f1 n, f2 n, str_eq_iff sdata n, str_eq_iff name n);
      }

  pub rolled_back-IsPaired :
      (t : ℕ) (active1 : Entries)
      → data_name name ≡ some sdata
      → linkat fails q.tick q.incoming q.active sdata ≡ some active1
      → IsPaired q.active
      → IsPaired (unlinkat fails t active1 sdata)
  rolled_back-IsPaired t active1 is e paired m d g there absent =
      let (node, found, free, f) = lookup-linkat fails q.tick q.incoming q.active active1 sdata e in
      let u = lookup-unlinkat fails t active1 sdata in
      ground (
        arith,
        f m,
        f d,
        u m,
        u d,
        paired m d g,
        str_eq_iff sdata m,
        str_eq_iff sdata d,
        data_name-none name sdata is,
      )

  pub moved-IsPaired :
      (t : ℕ) (active1 active2 : Entries)
      → data_name name ≡ some sdata
      → linkat fails q.tick q.incoming q.active sdata ≡ some active1
      → linkat fails t q.incoming active1 name ≡ some active2
      → IsPaired q.active
      → IsPaired active2
  moved-IsPaired t active1 active2 is e1 e2 paired m d g there absent =
      let (node1, found1, free1, f1) =
        lookup-linkat fails q.tick q.incoming q.active active1 sdata e1 in
      let (node2, found2, free2, f2) = lookup-linkat fails t q.incoming active1 active2 name e2 in
      ground (
        arith,
        f1 m,
        f1 d,
        f2 m,
        f2 d,
        paired m d g,
        str_eq_iff sdata m,
        str_eq_iff sdata d,
        str_eq_iff name m,
        data_name-none name sdata is,
      )
