-- ===== src/Data/Agent/Uuid.antt =====
-- Which strings `lmap_agent_set_agent_id` accepts.
use simet_lmapd.Base.{
  ℕ, zero, suc, ◌+◌, ◌≡◌, refl, ◌∙◌, Bool, true, false, ◌&&◌, List, [], ◌∷◌, ◌++◌, some, arith,
  ◌==◌, if◌then◌else◌,
}
use simet_lmapd.Text.{Str, isxdigit}
use simet_lmapd.Model.{Agent, done, failed}
use simet_lmapd.Data.Agent.{uuid_loop, is_dash_index, lmap_agent_set_agent_id}

pub data Place : Type 0 where
  hex dash : Place

abbrev pub fits : Place → ℕ → Bool
fits hex c = isxdigit c
fits dash c = c == b'-'

abbrev pub hexes : ℕ → List Place → List Place
hexes zero ps = ps
hexes (suc n) ps = hex ∷ hexes n ps

-- 8-4-4-4-12 hexadecimal digits (RFC 4122).
abbrev pub uuid_pattern : List Place
uuid_pattern = hexes 8 (dash ∷ hexes 4 (dash ∷ hexes 4 (dash ∷ hexes 4 (dash ∷ hexes 12 []))))

-- Every place of the pattern is fitted, and then the string ends or goes on with a hexadecimal digit.
unfoldable pub accepts : List Place → Str → Bool
accepts [] [] = true
accepts [] (c ∷ s) = isxdigit c
accepts (p ∷ ps) [] = false
accepts (p ∷ ps) (c ∷ s) = fits p c && accepts ps s

-- The pattern and nothing behind it.
unfoldable pub accepts_exact : List Place → Str → Bool
accepts_exact [] [] = true
accepts_exact [] (c ∷ s) = false
accepts_exact (p ∷ ps) [] = false
accepts_exact (p ∷ ps) (c ∷ s) = fits p c && accepts_exact ps s

abbrev place_at : ℕ → Place
place_at i = if is_dash_index i then dash else hex

abbrev suffix : ℕ → ℕ → List Place
suffix zero i = []
suffix (suc left) i = place_at i ∷ suffix left (i + 1)

suffix-pattern : suffix 36 0 ≡ uuid_pattern
suffix-pattern = refl

uuid_loop-accepts :
    (left i : ℕ) (s : Str) → left + i ≡ 36 → uuid_loop left i s ≡ accepts (suffix left i) s
unfolding uuid_loop accepts
uuid_loop-accepts zero i [] h = ground arith
uuid_loop-accepts zero i (c ∷ s) h = ground arith
uuid_loop-accepts (suc left) i [] h = refl
uuid_loop-accepts (suc left) i (c ∷ s) h = ground (arith, uuid_loop-accepts left (i + 1) s)

-- The setter stores exactly the strings with 36 characters in the form of a UUID, alone or followed
-- by a hexadecimal digit and anything more; of the others it changes nothing.
pub set_agent_id_iff :
    (a : Agent) (s : Str)
    → lmap_agent_set_agent_id a (some s)
      ≡ (if accepts uuid_pattern s then (record a { agent_id = some s }, done) else (a, failed))
unfolding lmap_agent_set_agent_id
set_agent_id_iff a s = rw (uuid_loop-accepts 36 0 s (omega arith)) refl

accepts-append :
    (ps : List Place) (s : Str) (c : ℕ) (t : Str)
    → accepts_exact ps s ≡ true
    → isxdigit c ≡ true
    → accepts ps (s ++ c ∷ t) ≡ true
unfolding accepts accepts_exact
accepts-append [] [] c t e h = h
accepts-append [] (d ∷ s) c t e h = cc
accepts-append (p ∷ ps) [] c t e h = cc
accepts-append (p ∷ ps) (d ∷ s) c t e h = ground (arith, accepts-append ps s c t)

-- A UUID of 36 characters with a hexadecimal digit and any text behind it is stored as well.
pub uuid_overlong :
    (a : Agent) (s : Str) (c : ℕ) (t : Str)
    → accepts_exact uuid_pattern s ≡ true
    → isxdigit c ≡ true
    → lmap_agent_set_agent_id a (some (s ++ c ∷ t))
      ≡ (record a { agent_id = some (s ++ c ∷ t) }, done)
uuid_overlong a s c t e h =
    set_agent_id_iff a (s ++ c ∷ t) ∙ rw (accepts-append uuid_pattern s c t e h) refl
