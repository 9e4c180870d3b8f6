-- ===== src/Runner/Timers/Arming.antt =====
-- The delays of `lmapd_run` and of the callbacks.
use mathlib.Core.Option.{some-injective}
use simet_lmapd.Base.{
  ℕ, ◌+◌, ◌-◌, ◌*◌, ◌/◌, ◌≤◌, ◌<◌, ◌≡◌, refl, ap, ◌≢◌, ◌⊎◌, inl, inr, true, false, List, Option,
  none, sym, ◌∙◌, if◌then◌else◌, some, arith, Bool-cases,
}
use simet_lmapd.Base.Int.{ℤ, pos, pos_part, neg_part, ◌+ℤ◌, ◌-ℤ◌, ltb_ℤ, int_laws, ◌≤ℤ◌}
use simet_lmapd.Text.{negated}
use simet_lmapd.Model.{Event}
use simet_lmapd.Data.Event.{rand_max}
use simet_lmapd.Runner.Random.{rand_interval, rand_interval_lem}
use simet_lmapd.Runner.Timers.{Armed, fire_event, periodic_delay, add_random_spread}

diff-pos : (a b : ℤ) → ltb_ℤ a b ≡ true → (n : ℕ) × (b -ℤ a ≡ pos n) × (0 < n)
unfolding ◌-ℤ◌
diff-pos a b h = (pos_part (b -ℤ a), ground arith, ground arith)

diff-nonneg : (a b : ℤ) → ltb_ℤ a b ≡ false → (n : ℕ) × (a -ℤ b ≡ pos n)
unfolding ◌-ℤ◌
diff-nonneg a b h = (pos_part (a -ℤ b), ground arith)

behind : (a b : ℤ) → ltb_ℤ b a ≡ false → (n : ℕ) × (a -ℤ b ≡ negated n)
unfolding ◌-ℤ◌
behind a b h = (neg_part (a -ℤ b), ground arith)

ahead :
    (start now : ℤ) (n m : ℕ) → now -ℤ start ≡ pos n → n ≤ m → start +ℤ pos m -ℤ now ≡ pos (m - n)
ahead start now n m e h = omega (int_laws, ap pos_part e, ap neg_part e)

below : (n i : ℕ) → i ≢ 0 → n < (n / i + 1) * i
below n i h = grind arith

above : (n i : ℕ) → i ≢ 0 → n / i * i ≤ n
above n i h = grind arith

met : (start now : ℤ) (d : ℕ) → start -ℤ now ≡ pos d → now +ℤ pos d ≡ start +ℤ pos 0
met start now d e = omega (int_laws, ap pos_part e, ap neg_part e)

met_later :
    (start now : ℤ) (d m : ℕ) → start +ℤ pos m -ℤ now ≡ pos d → now +ℤ pos d ≡ start +ℤ pos m
met_later start now d m e = omega (int_laws, ap pos_part e, ap neg_part e)

none_passed : (e : Event) → 0 * e.interval ≡ 0
none_passed e = omega arith

-- The first trigger of a periodic event with a start and a positive interval comes at the start or a
-- whole number of intervals after it: at the start itself while that has not passed, and else after the
-- present second and not later than an interval from it.
pub periodic_delay_lem :
    (now : ℤ) (e : Event)
    → e.start_set ≡ true
    → e.interval ≢ 0
    → (k : ℕ) × (d : ℕ) × (periodic_delay now e ≡ pos d)
      × (now +ℤ pos d ≡ e.start +ℤ pos (k * e.interval))
      × (((ltb_ℤ e.start now ≡ false) × (k ≡ 0))
          ⊎ ((ltb_ℤ e.start now ≡ true) × (0 < d) × (d ≤ e.interval)))
unfolding periodic_delay
periodic_delay_lem now e set h = elim (Bool-cases (ltb_ℤ e.start now)) [
  | inl past ↦
      let (n, same, positive) = diff-pos e.start now past in
      let m = (n / e.interval + 1) * e.interval in
      let delay = ahead e.start now n m same (omega (arith, below n e.interval h)) in
      (
        n / e.interval + 1,
        m - n,
        rw (set, past, periodic_delay, same) delay,
        met_later e.start now (m - n) m delay,
        inr (past, omega (arith, below n e.interval h), grind (arith, above n e.interval h)),
      )
  | inr future ↦
      let (d, same) = diff-nonneg e.start now future in
      (
        0,
        d,
        rw (set, future, periodic_delay) same,
        rw (none_passed e) (met e.start now d same),
        inl (future, refl),
      )
]

-- The random part of a delay.
abbrev pub spread_of : Event → ℕ
spread_of e = if e.random_spread_set then e.random_spread else 0

-- A delay with a random spread below RAND_MAX, once it is drawn, is at most the spread longer.
pub add_random_spread_lem :
    (e : Event) (rs : List ℕ) (seconds total : ℤ)
    → e.random_spread < rand_max
    → add_random_spread e rs seconds ≡ some total
    → (v : ℕ) × (total ≡ seconds +ℤ pos v) × (v ≤ spread_of e)
unfolding add_random_spread
add_random_spread_lem e rs seconds total small drawn = elim (Bool-cases e.random_spread_set) [
  | inr off ↦ rw off (0, plain off, omega arith)
  | inl on ↦ elim (rand_interval_lem 0 e.random_spread rs (omega arith) small).1 [
    | inl (rejected, more) ↦ absurd (missing total (stuck on more ∙ drawn))
    | inr (before, r, rest, k, split, other, below_limit, found, high, low, up) ↦
        rw on (0 + k, sym (some-injective _ _ (ran on (0 + k) found ∙ drawn)), high)
  ]
]
  where
    missing : (t : ℤ) → none ≢ some t
    missing t h = cc

    plain : e.random_spread_set ≡ false → total ≡ seconds +ℤ pos 0
    plain off = sym (some-injective _ _ (unchanged off ∙ drawn)) ∙ omega int_laws
      where
        unchanged : e.random_spread_set ≡ false → some seconds ≡ add_random_spread e rs seconds
        unchanged h = rw (h, add_random_spread) refl

    stuck :
        e.random_spread_set ≡ true
        → rand_interval 0 e.random_spread rs ≡ none
        → none ≡ add_random_spread e rs seconds
    stuck on more = rw (on, more, add_random_spread) refl

    ran :
        e.random_spread_set ≡ true
        → (k : ℕ) → rand_interval 0 e.random_spread rs ≡ some k
        → some (seconds +ℤ pos k) ≡ add_random_spread e rs seconds
    ran on k found = rw (on, found, add_random_spread) refl

-- A timer that has the event fire itself, and is not behind the spread of the event.
abbrev IsSoon : Event → Option (Option Armed) → Type 0
IsSoon e none = Unit
IsSoon e (some none) = Unit
IsSoon e (some (some a)) = a.timer ≡ fire_event → a.seconds ≤ℤ pos (spread_of e)
