-- ===== src/Workspace/Queue/Moving.antt =====
-- lmapd_workspace_schedule_move, whatever calls of the system fail and whatever readdir() returns.
use simet_lmapd.Base.{
  ℕ, ◌+◌, ◌≡◌, Bool, List, [], ◌∷◌, Option, none, some, Option-cases, Bool-cases, inl, inr,
}
use simet_lmapd.Text.{Str}
use simet_lmapd.Workspace.Tree.{is_regular, fstatat, linkat}
use simet_lmapd.Workspace.Queue.{
  Queue, starts_with, data_name, move_pair, move_meta, move_entry, move_entries,
  lmapd_workspace_schedule_move,
}
use simet_lmapd.Workspace.Queue.Steps.{
  IsMove, IsPaired, IsStep, stays, follows, rolled_back, moved, rolled_back-IsPaired,
  moved-IsPaired,
}

rests : (q : Queue) (t : ℕ) → IsStep q (record q { tick = t })
rests q t = (stays q t, λ p. p)

after_tick : (q : Queue) (t : ℕ) (q1 : Queue) → IsStep (record q { tick = t }) q1 → IsStep q q1
after_tick q t q1 (f, p) = (follows q (record q { tick = t }) q1 (stays q t) f, p)

module _ (fails : ℕ → Bool) where
  move_pair-IsStep :
      (name sdata : Str) (q : Queue)
      → data_name name ≡ some sdata
      → IsStep q (move_pair fails name sdata q).0
  unfolding move_pair
  move_pair-IsStep name sdata q is =
      elim (Option-cases (linkat fails q.tick q.incoming q.active sdata)) [
        | inl e ↦ rw (e, move_pair) (rests q _)
        | inr (active1, e1) ↦
            elim (Option-cases (linkat fails (q.tick + 1) q.incoming active1 name)) [
              | inl e ↦
                  rw (e1, e, move_pair)
                    (
                      rolled_back fails q name sdata (q.tick + 2) (q.tick + 3) active1 e1,
                      rolled_back-IsPaired fails q name sdata (q.tick + 2) active1 is e1,
                    )
              | inr (active2, e2) ↦
                  rw (e1, e2, move_pair)
                    (
                      moved fails q name sdata (q.tick + 1) (q.tick + 2) (q.tick + 3) (q.tick + 4)
                          active1 active2 e1 e2,
                      moved-IsPaired fails q name sdata (q.tick + 1) active1 active2 is e1 e2,
                    )
            ]
      ]

  move_meta-IsStep :
      (name sdata : Str) (q : Queue)
      → data_name name ≡ some sdata
      → IsStep q (move_meta fails name sdata q).0
  unfolding move_meta
  move_meta-IsStep name sdata q is =
      elim (Bool-cases (is_regular (fstatat fails q.tick q.incoming name))) [
        | inr missing ↦ rw (missing, move_meta) (rests q _)
        | inl there ↦ elim (Bool-cases (is_regular (fstatat fails (q.tick + 1) q.incoming sdata))) [
          | inr missing ↦ rw (there, missing, move_meta) (rests q _)
          | inl both ↦
              rw (there, both, move_meta)
                (after_tick q (q.tick + 2) _
                  (move_pair-IsStep name sdata (record q { tick = q.tick + 2 }) is))
        ]
      ]

  move_entry-IsStep : (name : Str) (q : Queue) → IsStep q (move_entry fails name q).0
  unfolding move_entry
  move_entry-IsStep name q = elim (Bool-cases (starts_with b'.' name)) [
    | inl hidden ↦ rw (hidden, move_entry) (rests q q.tick)
    | inr shown ↦ elim (Option-cases (data_name name)) [
      | inl other ↦ rw (shown, other, move_entry) (rests q q.tick)
      | inr (sdata, is) ↦ rw (shown, is, move_entry) (move_meta-IsStep name sdata q is)
    ]
  ]

  move_entries-IsStep : (names : List Str) (q : Queue) → IsStep q (move_entries fails names q)
  unfolding move_entries
  move_entries-IsStep [] q = rests q q.tick
  move_entries-IsStep (name ∷ names) q = elim (Bool-cases (move_entry fails name q).1) [
    | inr stop ↦ rw (stop, move_entries) (move_entry-IsStep name q)
    | inl on ↦
        let (f, p) = move_entry-IsStep name q in
        let (g, r) = move_entries-IsStep names (move_entry fails name q).0 in
        rw (on, move_entries) (follows q _ _ f g, λ x. r (p x))
  ]

schedule_move-IsStep :
    (fails : ℕ → Bool) (workspace : Option Str) (listing : List Str) (q : Queue)
    → IsStep q (lmapd_workspace_schedule_move fails workspace listing q).0
unfolding lmapd_workspace_schedule_move
schedule_move-IsStep fails none listing q = rests q q.tick
schedule_move-IsStep fails (some workspace) listing q = elim (Bool-cases (fails q.tick)) [
  | inl missing ↦ rw (missing, lmapd_workspace_schedule_move) (rests q _)
  | inr there ↦ elim (Bool-cases (fails (q.tick + 1))) [
    | inl missing ↦ rw (there, missing, lmapd_workspace_schedule_move) (rests q _)
    | inr both ↦
        rw (there, both, lmapd_workspace_schedule_move)
          (after_tick q (q.tick + 2) _
            (move_entries-IsStep fails listing (record q { tick = q.tick + 2 })))
  ]
]

-- Whatever calls of the system fail and whatever names the directory lists: a move of the incoming queue keeps
-- every active entry as it is, every entry that leaves the incoming directory is active with the same file,
-- and nothing else appears in either.
pub schedule_move-IsMove :
    (fails : ℕ → Bool) (workspace : Option Str) (listing : List Str) (q : Queue)
    → IsMove q (lmapd_workspace_schedule_move fails workspace listing q).0
schedule_move-IsMove fails workspace listing q = (schedule_move-IsStep fails workspace listing q).0

-- If every active meta file has its data file beside it, so it has after a move, whatever calls fail.
pub schedule_move-IsPaired :
    (fails : ℕ → Bool) (workspace : Option Str) (listing : List Str) (q : Queue)
    → IsPaired q.active
    → IsPaired (lmapd_workspace_schedule_move fails workspace listing q).0.active
schedule_move-IsPaired fails workspace listing q paired =
    (schedule_move-IsStep fails workspace listing q).1 paired
