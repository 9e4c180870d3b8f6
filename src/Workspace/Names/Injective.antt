-- ===== src/Workspace/Names/Injective.antt =====
-- Names that are not cut short keep apart.
use simet_lmapd.Base.{
  ℕ, ◌+◌, ◌-◌, ◌*◌, ◌/◌, ◌%◌, ◌≤◌, ◌<◌, ◌≡◌, ◌≢◌, refl, sym, ◌∙◌, Bool, true, false, [], ◌∷◌, none,
  some, arith, All, length, Bool-cases, inl, inr,
}
use simet_lmapd.Text.{Str}
use simet_lmapd.Workspace.Names.{name_max, hex, keeps, safe_loop, mksafe}

-- Short enough that every character can be escaped.
abbrev pub IsShort : ℕ → Str → Type 0
IsShort j name = j + 3 * length name ≤ name_max - 2

abbrev pub IsBytes : Str → Type 0
IsBytes = All (λ c. c < 256)

hex-injective :
    (c d : ℕ)
    → c < 256
    → d < 256
    → hex (c / 16 % 16) ≡ hex (d / 16 % 16)
    → hex (c % 16) ≡ hex (d % 16)
    → c ≡ d
hex-injective c d p q e f =
    omega (arith, digit (c / 16 % 16) (d / 16 % 16) e, digit (c % 16) (d % 16) f)
  where
    digit : (a b : ℕ) → hex a ≡ hex b → a ≡ b
    digit a b h = ground arith

kept :
    (j c : ℕ) (first : Bool) (a : Str)
    → j ≤ 250
    → keeps first c ≡ true
    → safe_loop name_max j first (c ∷ a) ≡ c ∷ safe_loop name_max (j + 1) false a
unfolding safe_loop
kept j c first a h k = ground arith

escaped :
    (j c : ℕ) (first : Bool) (a : Str)
    → j ≤ 250
    → keeps first c ≡ false
    → safe_loop name_max j first (c ∷ a)
      ≡ b'%' ∷ hex (c / 16 % 16) ∷ hex (c % 16) ∷ safe_loop name_max (j + 3) false a
unfolding safe_loop
escaped j c first a h k = ground arith

not_percent : (first : Bool) (c : ℕ) → keeps first c ≡ true → c ≢ b'%'
not_percent first c h = ground arith

head_eq : (c d : ℕ) (a b : Str) → c ∷ a ≡ d ∷ b → (c ≡ d) × (a ≡ b)
head_eq c d a b e = (cc, cc)

safe_loop-injective :
    (j : ℕ) (first : Bool) (a b : Str)
    → IsShort j a
    → IsShort j b
    → IsBytes a
    → IsBytes b
    → safe_loop name_max j first a ≡ safe_loop name_max j first b
    → a ≡ b
unfolding safe_loop
safe_loop-injective j first [] [] p q s t e = refl
safe_loop-injective j first [] (d ∷ b) p q s t e = ground arith
safe_loop-injective j first (c ∷ a) [] p q s t e = ground arith
safe_loop-injective j first (c ∷ a) (d ∷ b) p q s t e = elim (Bool-cases (keeps first c)) [
  | inl k ↦ elim (Bool-cases (keeps first d)) [
    | inl l ↦
        let (f, g) =
          head_eq _ _ _ _ (sym (kept j c first a room k) ∙ e ∙ kept j d first b room l) in
        joined f (safe_loop-injective (j + 1) false a b (omega arith) (omega arith) s.1 t.1 g)
    | inr l ↦ absurd (
        not_percent first c k
          (head_eq _ _ _ _ (sym (kept j c first a room k) ∙ e ∙ escaped j d first b room l)).0)
  ]
  | inr k ↦ elim (Bool-cases (keeps first d)) [
    | inl l ↦ absurd (
        not_percent first d l (
          sym (head_eq _ _ _ _ (sym (escaped j c first a room k) ∙ e ∙ kept j d first b room l)).0))
    | inr l ↦
        let (f, g) =
          head_eq _ _ _ _ (sym (escaped j c first a room k) ∙ e ∙ escaped j d first b room l) in
        let (high, g1) = head_eq _ _ _ _ g in
        let (low, g2) = head_eq _ _ _ _ g1 in
        joined (hex-injective c d s.0 t.0 high low)
          (safe_loop-injective (j + 3) false a b (omega arith) (omega arith) s.1 t.1 g2)
  ]
]
  where
    room : j ≤ 250
    room = omega arith

    joined : c ≡ d → a ≡ b → c ∷ a ≡ d ∷ b
    joined f g = cc

-- Two names that are returned alike are equal, if every character of both fits escaped: at most 84 characters.
pub mksafe-injective :
    (a b : Str)
    → length a ≤ 84
    → length b ≤ 84
    → IsBytes a
    → IsBytes b
    → mksafe none (some a) ≡ mksafe none (some b)
    → a ≡ b
unfolding mksafe
mksafe-injective a b p q s t e = safe_loop-injective 0 true a b (omega arith) (omega arith) s t e
