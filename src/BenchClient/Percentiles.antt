-- ===== src/BenchClient/Percentiles.antt =====
-- src/bench/libwayland-client.c: the percentiles that `run_latency` reports.
use wayring.Base.{
  ltb, Bool-cases, length, get_elem?, get_elem?_of_lt, ℕ, ◌+◌, ◌-◌, ◌*◌, ◌^◌, ◌≤◌, ◌<◌, ◌≡◌, refl,
  ◌≢◌, inl, inr, some, List, arith,
}
use wayring.BenchClient.{compare_u64, positive, rank, rank_index, percentile}

scaled : (count p q : ℕ) → p ≤ q → count * p ≤ count * q
scaled count p q h = grind arith

-- The rank of a percentile stays within the samples.
rank_index_bound :
    (count percent : ℕ)
    → 0 < count
    → percent ≤ 100
    → count * 100 + 99 < 2 ^ 64
    → rank_index count percent < count
unfolding rank
rank_index_bound count percent c p w = ground (arith, scaled count percent 100 p)

rank_index_mono :
    (count p q : ℕ)
    → p ≤ q
    → q ≤ 100
    → count * 100 + 99 < 2 ^ 64
    → rank_index count p ≤ rank_index count q
unfolding rank
rank_index_mono count p q l h w = ground (arith, scaled count p q l, scaled count q 100 h)

-- What qsort leaves: no sample compares greater than one behind it.
abbrev pub IsOrdered : List ℕ → Type 0
IsOrdered samples =
    (i j x y : ℕ)
    → i ≤ j
    → get_elem? samples i ≡ some x
    → get_elem? samples j ≡ some y
    → compare_u64 x y ≢ positive

compared : (x y : ℕ) → compare_u64 x y ≢ positive → x ≤ y
unfolding compare_u64
compared x y h = elim (Bool-cases (ltb y x)) [
  | inl greater ↦ absurd (h (rw greater refl))
  | inr at_most ↦ ground arith
]

module _ (samples : List ℕ) (count : ℕ) (counted : length samples ≡ count)
    (some_samples : 0 < count) (no_overflow : count * 100 + 99 < 2 ^ 64)
    (ordered : IsOrdered samples) where
  -- The percentiles of the sorted samples are all samples, and one for a greater percentage is not less;
  -- none is greater than the last sample, which is reported as the maximum.
  pub percentiles_ordered :
      (p q : ℕ)
      → p ≤ q
      → q ≤ 100
      → (x : ℕ) × (y : ℕ) × (m : ℕ) × ((percentile samples count p ≡ some x)
          × ((percentile samples count q ≡ some y)
              × ((get_elem? samples (count - 1) ≡ some m) × ((x ≤ y) × (y ≤ m)))))
  unfolding percentile
  percentiles_ordered p q l h =
      let bound_q = rank_index_bound count q some_samples h no_overflow in
      let below = rank_index_mono count p q l h no_overflow in
      let (x, is_x) =
        get_elem?_of_lt samples (rank_index count p) (omega (arith, bound_q, below, counted)) in
      let (y, is_y) =
        get_elem?_of_lt samples (rank_index count q) (omega (arith, bound_q, counted)) in
      let (m, is_m) = get_elem?_of_lt samples (count - 1) (omega (arith, counted, some_samples)) in
      (
        x,
        y,
        m,
        (
          is_x,
          (
            is_y,
            (
              is_m,
              (
                compared x y
                    (ordered (rank_index count p) (rank_index count q) x y below is_x is_y),
                compared y m (
                    ordered (rank_index count q) (count - 1) y m (omega (arith, bound_q)) is_y
                      is_m),
              ),
            ),
          ),
        ),
      )
