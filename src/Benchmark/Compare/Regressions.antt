-- ===== src/Benchmark/Compare/Regressions.antt =====
-- cedar-benchmarking/src/compare.rs: when the comparison of a run with a baseline finds a regression, in
-- terms of the results of the two runs.
use cedar_spec.Base.{ℕ, ◌+◌, ◌-◌, ◌≤◌, ◌<◌, ◌≡◌, true, false, List, In}
use Prim.Native.Nat.{◌^◌}
use cedar_spec.Benchmark.Compare.{
  Platform, BenchmarkResult, BenchmarkOutput, from_result, pct_change,
}

module _ (f : Platform) where
  abbrev difference : BenchmarkResult f → BenchmarkResult f → ℕ
  difference r b = (r.average - b.average) + (b.average - r.average)

  -- The average of `r` differs from that of `b` by the floor, by more than twice the pooled
  -- deviation, and upwards by more than the threshold.
  pub record HasSlowed (floor : ℕ) (threshold_pct : f.Float) (r b : BenchmarkResult f)
      : Type 0 where
    pub at_least : floor ≤ difference r b
    pub beyond_noise :
        f.less_equal
          (f.of_u128 (difference r b))
          (f.times f.significance_sigma (f.hypot b.stddev r.stddev))
        ≡ false
    pub slower : f.less threshold_pct (pct_change f r.average b.average) ≡ true

  -- Averages that an `i128` holds, and no key twice.
  pub record IsComparable (results : List (BenchmarkResult f)) : Type 0 where
    pub held : (r : BenchmarkResult f) → In r results → r.average < 2 ^ 127
    pub one_per_key :
        (r s : BenchmarkResult f)
        → In r results
        → In s results
        → from_result f r ≡ from_result f s
        → r ≡ s

  -- A current result and a baseline result of one key, of which the first is slower.
  abbrev pub Slowed : ℕ → BenchmarkOutput f → BenchmarkOutput f → f.Float → Type 0
  Slowed floor current baseline t =
      (r : BenchmarkResult f) × (b : BenchmarkResult f) × In r current.results
      × In b baseline.results
      × (from_result f b ≡ from_result f r)
      × HasSlowed floor t r b
