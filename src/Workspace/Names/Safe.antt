-- ===== src/Workspace/Names/Safe.antt =====
-- What mksafe can return.
use simet_lmapd.Base.{
  ℕ, ◌+◌, ◌/◌, ◌%◌, ◌≤◌, ◌<◌, ◌≡◌, refl, Bool, true, false, ◌||◌, [], ◌∷◌, Option, none, some,
  arith, ◌==◌, All, length,
}
use simet_lmapd.Text.{Str}
use simet_lmapd.Workspace.Names.{name_max, isalnum, is_punct, hex, safe_loop, mksafe}

abbrev pub is_safe : ℕ → Bool
is_safe c = isalnum c || is_punct c || c == b'%'

-- The first character, if there is one, is a letter, a digit or a percent sign.
abbrev pub is_visible : Str → Bool
is_visible [] = true
is_visible (c ∷ cs) = isalnum c || c == b'%'

hex-is_safe : (d : ℕ) → d < 16 → is_safe (hex d) ≡ true
hex-is_safe d h = ground arith

safe_loop-All :
    (b j : ℕ) (first : Bool) (name : Str) → All (λ c. is_safe c ≡ true) (safe_loop b j first name)
unfolding safe_loop
safe_loop-All b j first [] = tt
safe_loop-All b j first (c ∷ cs) = ground (
  arith,
  safe_loop-All b (j + 1) false cs,
  safe_loop-All b (j + 3) false cs,
  hex-is_safe (c / 16 % 16) (omega arith),
  hex-is_safe (c % 16) (omega arith),
)

safe_loop-visible : (b : ℕ) (name : Str) → is_visible (safe_loop b 0 true name) ≡ true
unfolding safe_loop
safe_loop-visible b [] = refl
safe_loop-visible b (c ∷ cs) = ground arith

safe_loop-length :
    (b j : ℕ) (first : Bool) (name : Str)
    → name_max ≤ b
    → j < b
    → j + length (safe_loop b j first name) < b
unfolding safe_loop
safe_loop-length b j first [] h k = omega arith
safe_loop-length b j first (c ∷ cs) h k =
    ground (arith, safe_loop-length b (j + 1) false cs h, safe_loop-length b (j + 3) false cs h)

-- What mksafe returns for any name has only letters, digits and the characters -.,_% (so no slash), starts
-- with none of -.,_ and fits with its NUL in the buffer of NAME_MAX bytes.
pub mksafe-safe :
    (name : Option Str)
    → All (λ c. is_safe c ≡ true) (mksafe none name)
      × (is_visible (mksafe none name) ≡ true)
      × (length (mksafe none name) < name_max)
unfolding mksafe
mksafe-safe none = (tt, refl, omega arith)
mksafe-safe (some name) = (
  safe_loop-All name_max 0 true name,
  safe_loop-visible name_max name,
  omega (arith, safe_loop-length name_max 0 true name (omega arith) (omega arith)),
)
