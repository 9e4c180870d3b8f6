-- ===== src/Runner/Random.antt =====
-- rand_interval and add_random_spread of src/runner.c.
use native.Mathlib.Nat.{lt-div-mul-add}
use simet_lmapd.Base.{
  ℕ, ◌+◌, ◌-◌, ◌*◌, ◌/◌, ◌%◌, ◌^◌, ◌≤◌, ◌<◌, ◌≡◌, refl, true, false, List, [], ◌∷◌, Option, none,
  some, arith, ap, ◌++◌, leb, Bool-cases, All, ◌⊎◌, inl, inr,
}
use simet_lmapd.Data.Event.{rand_max}

-- `1 + max - min`, in an unsigned int.
unfoldable pub range_of : ℕ → ℕ → ℕ
range_of lo hi = (1 + hi + 2 ^ 32 - lo) % 2 ^ 32

-- The loop over the numbers that rand() yields, up to the first that is below the limit.
unfoldable pub draw : ℕ → List ℕ → Option ℕ
draw limit [] = none
draw limit (r ∷ rs) = elim (leb limit r) [ true ↦ draw limit rs | false ↦ some r ]

-- `none` while the loop goes on.
unfoldable pub rand_interval : ℕ → ℕ → List ℕ → Option ℕ
unfolding draw range_of
rand_interval lo hi rs =
    let buckets = rand_max / range_of lo hi in
    elim (draw (buckets * range_of lo hi) rs) [ none ↦ none | some r ↦ some (lo + r / buckets) ]

-- The numbers are rejected up to one that is drawn.
draw_cases :
    (limit : ℕ) (rs : List ℕ)
    → (All (λ r. limit ≤ r) rs × (draw limit rs ≡ none))
      ⊎ ((before : List ℕ) × (r : ℕ) × (rest : List ℕ) × (rs ≡ before ++ r ∷ rest)
          × All (λ x. limit ≤ x) before
          × (r < limit)
          × (draw limit rs ≡ some r))
unfolding draw
draw_cases limit [] = inl (tt, refl)
draw_cases limit (x ∷ rs) = elim (Bool-cases (leb limit x)) [
  | inr below ↦ inr ([], x, rs, refl, tt, ground arith, rw (below, draw) refl)
  | inl above ↦ elim (draw_cases limit rs) [
    | inl (rejected, e) ↦ inl ((ground arith, rejected), rw (above, draw) e)
    | inr (before, r, rest, split, rejected, h, e) ↦ inr (
      x ∷ before,
      r,
      rest,
      ap (λ l. x ∷ l) split,
      (ground arith, rejected),
      h,
      rw (above, draw) e,
    )
  ]
]

bucket-lt : (r b n : ℕ) → r < b * n → r / b < n
bucket-lt r b n h = grind arith

range_of_lem : (lo hi : ℕ) → lo ≤ hi → hi < rand_max → range_of lo hi ≡ 1 + hi - lo
unfolding range_of
range_of_lem lo hi p q = omega arith

-- The numbers that the loop accepts.
abbrev pub limit_of : ℕ → ℕ → ℕ
limit_of lo hi = rand_max / range_of lo hi * range_of lo hi

in_bucket : (r b n : ℕ) → r < b * n → (r / b * b ≤ r) × (r < (r / b + 1) * b)
in_bucket r b n h = (grind arith, grind arith)

-- The numbers below the limit that stand for one value.
abbrev pub buckets_of : ℕ → ℕ → ℕ
buckets_of lo hi = rand_max / range_of lo hi

-- For bounds lo up to hi, below RAND_MAX: the loop goes on while every number is at or above the limit, and
-- ends at the first number r below it, with the value lo + k between the bounds for which r is in the k-th of the
-- equal classes of numbers below the limit; and of the numbers up to RAND_MAX at most as many are
-- rejected as the interval has values.
pub rand_interval_lem :
    (lo hi : ℕ) (rs : List ℕ)
    → lo ≤ hi
    → hi < rand_max
    → (rand_max < limit_of lo hi + (1 + hi - lo))
      × ((All (λ r. limit_of lo hi ≤ r) rs × (rand_interval lo hi rs ≡ none))
          ⊎ ((before : List ℕ) × (r : ℕ) × (rest : List ℕ) × (k : ℕ) × (rs ≡ before ++ r ∷ rest)
              × All (λ x. limit_of lo hi ≤ x) before
              × (r < limit_of lo hi)
              × (rand_interval lo hi rs ≡ some (lo + k))
              × (lo + k ≤ hi)
              × (k * buckets_of lo hi ≤ r)
              × (r < (k + 1) * buckets_of lo hi)))
unfolding rand_interval
rand_interval_lem lo hi rs p q = (
  few,
  elim (draw_cases (limit_of lo hi) rs) [
    | inl (rejected, e) ↦ inl (rejected, rw (e, rand_interval) refl)
    | inr (before, r, rest, split, rejected, h, e) ↦
        let b = bucket-lt r (buckets_of lo hi) (range_of lo hi) h in
        let (low, high) = in_bucket r (buckets_of lo hi) (range_of lo hi) h in
        inr (
          before,
          r,
          rest,
          r / buckets_of lo hi,
          split,
          rejected,
          h,
          rw (e, rand_interval) refl,
          omega (arith, b, size),
          low,
          high,
        )
  ],
)
  where
    size : range_of lo hi ≡ 1 + hi - lo
    size = range_of_lem lo hi p q

    few : rand_max < limit_of lo hi + (1 + hi - lo)
    few = rw size (lt-div-mul-add {a = rand_max} (omega arith))
