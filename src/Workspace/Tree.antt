-- ===== src/Workspace/Tree.antt =====
-- Directories as src/workspace.c sees them: entries with names, and what fstatat, linkat, unlinkat and remove
-- do to them. Every call of the system may fail: `fails t` says so of the call at tick t.
use simet_lmapd.Base.{
  ℕ, suc, ◌+◌, ◌*◌, ◌%◌, ◌^◌, ◌≡◌, Bool, true, false, not, ◌&&◌, List, [], ◌∷◌, ◌++◌, Option, none,
  some, if◌then◌else◌, ◌==◌,
}
use simet_lmapd.Text.{Str, codes, str_eq}
pub mod Lookup

-- A regular file has an inode, which its hard links share, and a number of blocks.
mutual
  pub data Node : Type 0 where
    regular : ℕ → ℕ → Node
    special : Node
    directory : Entries → Node

  pub data Entries : Type 0 where
    nil : Entries
    entry : Str → Node → Entries → Entries

abbrev pub is_regular : Option Node → Bool
is_regular (some (regular inode blocks)) = true
is_regular _ = false

abbrev pub is_directory : Option Node → Bool
is_directory (some (directory es)) = true
is_directory _ = false

abbrev pub is_file : Option Node → Bool
is_file none = false
is_file (some n) = not (is_directory (some n))

abbrev pub is_nil : Entries → Bool
is_nil nil = true
is_nil (entry s n es) = false

unfoldable pub lookup : Str → Entries → Option Node
lookup name nil = none
lookup name (entry s n es) = elim (str_eq s name) [ true ↦ some n | false ↦ lookup name es ]

unfoldable pub erase : Str → Entries → Entries
erase name nil = nil
erase name (entry s n es) =
    let rest = erase name es in if str_eq s name then rest else entry s n rest

-- A hard link under the same name in another directory, where it must be free; never of a directory.
unfoldable pub link_node : Str → Option Node → Option Node → Entries → Option Entries
link_node name (some (regular inode blocks)) none dest =
    some (entry name (regular inode blocks) dest)
link_node name (some special) none dest = some (entry name special dest)
link_node name _ _ dest = none

module _ (fails : ℕ → Bool) where
  unfoldable pub fstatat : ℕ → Entries → Str → Option Node
  fstatat t es name = if fails t then none else lookup name es

  -- Whether unlinkat() removes the name, with no flags: not a directory.
  abbrev pub can_unlink : ℕ → Entries → Str → Bool
  can_unlink t es name = not (fails t) && is_file (lookup name es)

  unfoldable pub unlinkat : ℕ → Entries → Str → Entries
  unlinkat t es name = if can_unlink t es name then erase name es else es

  unfoldable pub linkat : ℕ → Entries → Entries → Str → Option Entries
  unfolding link_node
  linkat t source dest name =
      if fails t then none else link_node name (lookup name source) (lookup name dest) dest

  -- nftw() with FTW_DEPTH and `remove_cb`: children first, and a failed remove() is passed over.
  unfoldable mutual
    pub remove_node : ℕ → Node → Option Node × ℕ
    remove_node t (directory es) =
        let (es1, t1) = remove_entries t es in
        (if is_nil es1 && not (fails t1) then none else some (directory es1), suc t1)
    remove_node t n = (if fails t then some n else none, suc t)

    pub remove_entries : ℕ → Entries → Entries × ℕ
    remove_entries t nil = (nil, t)
    remove_entries t (entry s n es) =
        let (o, t1) = remove_node t n in
        let (es1, t2) = remove_entries t1 es in
        (elim o [ none ↦ es1 | some n1 ↦ entry s n1 es1 ], t2)

-- The blocks of the regular files in a tree, as `du_cb` adds them up.
unfoldable mutual
  pub du_node : Node → ℕ
  du_node (regular inode blocks) = blocks
  du_node special = 0
  du_node (directory es) = du_entries es

  pub du_entries : Entries → ℕ
  du_entries nil = 0
  du_entries (entry s n es) = du_node n + du_entries es

-- `du` of a path where nftw() finds this; a uint64_t.
unfoldable pub du : Option Node → Option ℕ
unfolding du_node
du none = none
du (some n) = some (du_node n * 512 % 2 ^ 64)
