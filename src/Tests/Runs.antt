-- ===== src/Tests/Runs.antt =====
-- The theorems on the comparison of two runs, at whole numbers in place of floating-point numbers.
use cedar_spec.Base.{ℕ, ◌+◌, ◌-◌, ◌*◌, ◌/◌, [], ◌∷◌, ltb, leb, ℕ_discrete}
use cedar_spec.Benchmark.Compare.{Platform, BenchmarkResult, BenchmarkOutput, compare}
use cedar_spec.Benchmark.Compare.Matching.{IsReport, compare-IsReport}

abbrev platform : Platform
platform = record {
  Name = ℕ;
  Float = ℕ;
  name_discrete = ℕ_discrete;
  zero_float = 0;
  max_float = 1000000;
  hundred = 100;
  significance_sigma = 2;
  of_u128 = λ n. n;
  minus = λ a b. a - b;
  times = λ a b. a * b;
  divide = λ a b. a / b;
  negate = λ a. 0;
  hypot = λ a b. a + b;
  less = ltb;
  less_equal = leb;
}

abbrev result : ℕ → ℕ → BenchmarkResult platform
result name average = record {
  benchmark = name;
  target = 0;
  trials = 3;
  unit = 0;
  average = average;
  min = average;
  max = average;
  stddev = 1;
  iqr = 0;
  p50 = average;
  p95 = average;
  p99 = average;
}

abbrev current_run : BenchmarkOutput platform
current_run = record { cedar_version = 4; results = result 1 90 ∷ result 2 40 ∷ [] }

abbrev baseline_run : BenchmarkOutput platform
baseline_run = record { cedar_version = 3; results = result 1 30 ∷ result 3 20 ∷ [] }

compare-IsReport_example :
    IsReport platform current_run.results baseline_run.results
      (compare platform current_run baseline_run 0)
compare-IsReport_example = compare-IsReport platform current_run baseline_run 0
