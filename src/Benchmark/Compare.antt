-- ===== src/Benchmark/Compare.antt =====
-- cedar-benchmarking/src/compare.rs: the comparison of a run with a baseline. Floating-point numbers are
-- an interface of the caller's. An `i128` is its two's complement pattern, a number below 2 ^ 128.
pub mod Matching
pub mod Regressions
use cedar_spec.Base.{
  ℕ, ◌+◌, ◌-◌, ◌≡◌, refl, ap, ◌∙◌, Bool, true, false, ◌||◌, List, [], ◌∷◌, ◌++◌, Option, none, some,
  ltb, ◌==◌, if◌then◌else◌, test,
}
use cedar_spec.Base.Assoc.{lookup, insert}
use cedar_spec.Benchmark.Timing.{u128_mod}
use cedar_spec.Cli.RequestEnvs.{is_some}
use Prim.Native.Nat.{◌%◌, ◌^◌}

-- Texts with a decidable equality, and `f64`.
pub record Platform : Type 1 where
  pub Name : Type 0
  pub Float : Type 0
  pub name_discrete : Discrete Name
  pub zero_float : Float
  pub max_float : Float
  pub hundred : Float
  -- `SIGNIFICANCE_SIGMA`, 2.0
  pub significance_sigma : Float
  pub of_u128 : ℕ → Float
  pub minus : Float → Float → Float
  pub times : Float → Float → Float
  pub divide : Float → Float → Float
  pub negate : Float → Float
  pub hypot : Float → Float → Float
  -- `<` and `<=`
  pub less : Float → Float → Bool
  pub less_equal : Float → Float → Bool

abbrev pub min_delta_floor_us : ℕ
min_delta_floor_us = 10

pub data Significance : Type 0 where
  regression improvement insignificant : Significance

pub Significance-discrete : Discrete Significance
Significance-discrete = hlevel

-- `a as i128 - b as i128`, which wraps in a release build, and `unsigned_abs`.
unfoldable pub delta : ℕ → ℕ → ℕ
delta a b = (a + (u128_mod - b)) % u128_mod

unfoldable pub unsigned_abs : ℕ → ℕ
unsigned_abs d = if ltb d (2 ^ 127) then d else u128_mod - d

pub record BenchmarkResult (f : Platform) : Type 0 where
  pub benchmark : f.Name
  pub target : f.Name
  pub trials : ℕ
  pub unit : f.Name
  pub average : ℕ
  pub min : ℕ
  pub max : ℕ
  pub stddev : f.Float
  pub iqr : ℕ
  pub p50 : ℕ
  pub p95 : ℕ
  pub p99 : ℕ

pub record BenchmarkKey (f : Platform) : Type 0 where
  pub benchmark : f.Name
  pub target : f.Name

pub record BenchmarkComparison (f : Platform) : Type 0 where
  pub benchmark : f.Name
  pub target : f.Name
  pub current_avg : ℕ
  pub baseline_avg : ℕ
  pub delta_avg : ℕ
  pub delta_avg_pct : f.Float
  pub baseline_stddev : f.Float
  pub current_stddev : f.Float
  pub current_p50 : ℕ
  pub baseline_p50 : ℕ
  pub delta_p50_pct : f.Float
  pub current_p99 : ℕ
  pub baseline_p99 : ℕ
  pub delta_p99_pct : f.Float

pub record BenchmarkOutput (f : Platform) : Type 0 where
  pub cedar_version : f.Name
  pub results : List (BenchmarkResult f)

pub record ComparisonReport (f : Platform) : Type 0 where
  pub baseline_file : f.Name
  pub baseline_cedar_version : f.Name
  pub current_cedar_version : f.Name
  pub matched : List (BenchmarkComparison f)
  pub only_in_current : List (BenchmarkKey f)
  pub only_in_baseline : List (BenchmarkKey f)

module _ (f : Platform) where
  pub key_discrete : Discrete (BenchmarkKey f)
  key_discrete k l = elim (f.name_discrete k.benchmark l.benchmark) [
    | yes e ↦ elim (f.name_discrete k.target l.target) [
      | yes e' ↦ yes (
          ap (λ x. record { benchmark = x; target = k.target }) e
          ∙ ap (λ x. record { benchmark = l.benchmark; target = x }) e')
      | no n ↦ no (λ h. n (ap (λ x. x.target) h))
    ]
    | no n ↦ no (λ h. n (ap (λ x. x.benchmark) h))
  ]

  -- `BenchmarkKey::from_result`
  abbrev pub from_result : BenchmarkResult f → BenchmarkKey f
  from_result r = record { benchmark = r.benchmark; target = r.target }

  unfoldable pub significance : BenchmarkComparison f → f.Float → Significance
  significance self threshold_pct =
      let abs_delta = unsigned_abs self.delta_avg in
      let pooled_sigma = f.hypot self.baseline_stddev self.current_stddev in
      if ltb abs_delta min_delta_floor_us
      then insignificant
      else if f.less_equal (f.of_u128 abs_delta) (f.times f.significance_sigma pooled_sigma)
      then insignificant
      else if f.less threshold_pct self.delta_avg_pct
      then regression
      else if f.less self.delta_avg_pct (f.negate threshold_pct)
      then improvement
      else insignificant

  unfoldable pub pct_change : ℕ → ℕ → f.Float
  pct_change current baseline =
      if baseline == 0
      then if current == 0 then f.zero_float else f.max_float
      else f.times
          (f.divide (f.minus (f.of_u128 current) (f.of_u128 baseline)) (f.of_u128 baseline))
          f.hundred

  unfoldable pub compute_comparison : BenchmarkResult f → BenchmarkResult f → BenchmarkComparison f
  compute_comparison current baseline = record {
    benchmark = current.benchmark;
    target = current.target;
    current_avg = current.average;
    baseline_avg = baseline.average;
    delta_avg = delta current.average baseline.average;
    delta_avg_pct = pct_change current.average baseline.average;
    baseline_stddev = baseline.stddev;
    current_stddev = current.stddev;
    current_p50 = current.p50;
    baseline_p50 = baseline.p50;
    delta_p50_pct = pct_change current.p50 baseline.p50;
    current_p99 = current.p99;
    baseline_p99 = baseline.p99;
    delta_p99_pct = pct_change current.p99 baseline.p99;
  }

  -- `results.iter().map(|r| (BenchmarkKey::from_result(r), r)).collect()`, where a later result of
  -- a key replaces an earlier one
  unfoldable pub by_key :
      List (BenchmarkResult f)
      → List (BenchmarkKey f × BenchmarkResult f)
      → List (BenchmarkKey f × BenchmarkResult f)
  by_key [] m = m
  by_key (r ∷ rs) m = by_key rs (insert key_discrete (from_result r) r m)

  -- The loop over the current results: what it pushes to `matched` and to `only_in_current`.
  unfoldable pub match_results :
      List (BenchmarkKey f × BenchmarkResult f)
      → List (BenchmarkResult f)
      → List (BenchmarkComparison f) × List (BenchmarkKey f)
  match_results baseline_map [] = ([], [])
  match_results baseline_map (result ∷ results) =
      let rest = match_results baseline_map results in
      elim (lookup key_discrete (from_result result) baseline_map) [
        | none ↦ (rest.0, from_result result ∷ rest.1)
        | some baseline_result ↦ (compute_comparison result baseline_result ∷ rest.0, rest.1)
      ]

  -- `baseline_map.keys().filter(|k| !current_map.contains_key(k)).cloned().collect()`
  unfoldable pub keys_without :
      List (BenchmarkKey f × BenchmarkResult f)
      → List (BenchmarkKey f × BenchmarkResult f)
      → List (BenchmarkKey f)
  keys_without current_map [] = []
  keys_without current_map ((k, r) ∷ m) =
      let rest = keys_without current_map m in
      if is_some (lookup key_discrete k current_map) then rest else k ∷ rest

  unfoldable pub compare : BenchmarkOutput f → BenchmarkOutput f → f.Name → ComparisonReport f
  compare current baseline baseline_path =
      let baseline_map = by_key baseline.results [] in
      let current_map = by_key current.results [] in
      let pushed = match_results baseline_map current.results in
      record {
        baseline_file = baseline_path;
        baseline_cedar_version = baseline.cedar_version;
        current_cedar_version = current.cedar_version;
        matched = pushed.0;
        only_in_current = pushed.1;
        only_in_baseline = keys_without current_map baseline_map;
      }

  -- `r.matched.iter().any(…)`
  unfoldable pub any_regression : List (BenchmarkComparison f) → f.Float → Bool
  any_regression [] threshold_pct = false
  any_regression (c ∷ cs) threshold_pct =
      test (Significance-discrete (significance c threshold_pct) regression)
      || any_regression cs threshold_pct

  unfoldable pub has_regression : List (ComparisonReport f) → f.Float → Bool
  has_regression [] threshold_pct = false
  has_regression (r ∷ reports) threshold_pct =
      any_regression r.matched threshold_pct || has_regression reports threshold_pct
