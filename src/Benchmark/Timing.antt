-- ===== src/Benchmark/Timing.antt =====
-- cedar-benchmarking/src/output.rs: `TimingInfo::from_runs`. Sums of `u128` wrap, as in a release
-- build; the floating-point deviation is a function of the caller's, and `sort_unstable` one with the
-- documented laws.
use cedar_spec.Base.{
  ◌∙◌, ℕ, ◌+◌, ◌-◌, ◌*◌, ◌/◌, ◌≤◌, ◌<◌, ◌≡◌, refl, List, [], ◌∷◌, some, Exec, ok, panic, ◌>>=◌,
  expect, length, get_elem?, get_elem?-some, if◌then◌else◌, ◌==◌, arith,
}
use Prim.Native.Nat.{◌%◌, ◌^◌}

abbrev pub u128_mod : ℕ
u128_mod = 2 ^ 128

pub record TimingInfo (Float : Type 0) : Type 0 where
  pub average : ℕ
  pub min : ℕ
  pub max : ℕ
  pub stddev : Float
  pub iqr : ℕ
  pub p50 : ℕ
  pub p95 : ℕ
  pub p99 : ℕ

unfoldable pub sum_u128 : List ℕ → ℕ
sum_u128 [] = 0
sum_u128 (x ∷ xs) = (x + sum_u128 xs) % u128_mod

-- `runs[i]`, which panics out of bounds
abbrev index : {E : Type 0} → List ℕ → ℕ → Exec E ℕ
index xs i = expect (get_elem? xs i)

-- A division panics where the divisor is 0.
abbrev div_u128 : {E : Type 0} → ℕ → ℕ → Exec E ℕ
div_u128 a b = if b == 0 then panic else ok (a / b)

module _ {Float : Type 0} (sort_unstable : List ℕ → List ℕ) (stddev : List ℕ → ℕ → Float) where
  -- The statistics of a run that is sorted.
  unfoldable pub from_sorted : {E : Type 0} → List ℕ → Exec E (TimingInfo Float)
  from_sorted runs = do
    let len = length runs
    average ← div_u128 (sum_u128 runs) len
    p25 ← index runs (len * 25 / 100)
    p75 ← index runs (len * 75 / 100)
    min ← index runs 0
    max ← index runs (len - 1)
    p50 ← index runs (len * 50 / 100)
    p95 ← index runs (len * 95 / 100)
    p99 ← index runs (len * 99 / 100)
    ok (record {
      average = average;
      min = min;
      max = max;
      stddev = stddev runs average;
      iqr = p75 - p25;
      p50 = p50;
      p95 = p95;
      p99 = p99;
    })

  unfoldable pub from_runs : {E : Type 0} → List ℕ → Exec E (TimingInfo Float)
  from_runs runs = from_sorted (sort_unstable runs)

-- What `sort_unstable` documents.
abbrev pub IsSorted : List ℕ → Type 0
IsSorted xs = (i j a b : ℕ) → i ≤ j → get_elem? xs i ≡ some a → get_elem? xs j ≡ some b → a ≤ b

pub record SortLaws (sort : List ℕ → List ℕ) : Type 0 where
  pub sorted : (xs : List ℕ) → IsSorted (sort xs)
  pub length-sort : (xs : List ℕ) → length (sort xs) ≡ length xs
  pub sum-sort : (xs : List ℕ) → sum_u128 (sort xs) ≡ sum_u128 xs

-- The exact sum.
unfoldable pub sum : List ℕ → ℕ
sum [] = 0
sum (x ∷ xs) = x + sum xs

sum_u128-sum : (xs : List ℕ) → sum xs < u128_mod → sum_u128 xs ≡ sum xs
unfolding sum sum_u128
sum_u128-sum [] h = refl
sum_u128-sum (x ∷ xs) h = omega (arith, sum_u128-sum xs (omega arith))

-- The average is the exact sum over the number of runs, and the percentiles are in order.
pub record IsSummary {Float : Type 0} (runs : List ℕ) (t : TimingInfo Float) : Type 0 where
  pub average_eq : t.average ≡ sum runs / length runs
  pub min_le : t.min ≤ t.p50
  pub p50_le : t.p50 ≤ t.p95
  pub p95_le : t.p95 ≤ t.p99
  pub p99_le : t.p99 ≤ t.max

module _ {Float : Type 0} (sort_unstable : List ℕ → List ℕ) (stddev : List ℕ → ℕ → Float) where
  div_u128-ok : {E : Type 0} (a b : ℕ) → 0 < b → div_u128 {E = E} a b ≡ ok (a / b)
  div_u128-ok a b h = ground arith

  index-ok :
      {E : Type 0} (xs : List ℕ) (i a : ℕ) → get_elem? xs i ≡ some a → index {E = E} xs i ≡ ok a
  index-ok xs i a h = rw h refl

  -- Of at least one run, where the sum is below the bound of `u128` and `sort_unstable` sorts,
  -- `from_runs` returns a summary: the average is exact and the minimum, the percentiles and the
  -- maximum are in order.
  pub from_runs-IsSummary :
      (E : Type 0) (laws : SortLaws sort_unstable) (runs : List ℕ)
      → 0 < length runs
      → sum runs < u128_mod
      → (t : TimingInfo Float) × (from_runs sort_unstable stddev {E = E} runs ≡ ok t)
        × IsSummary runs t
  unfolding from_runs from_sorted
  from_runs-IsSummary E laws runs h small =
      let xs = sort_unstable runs in
      let n = length xs in
      let l : n ≡ length runs = laws.length-sort runs in
      let (v25, e25) = get_elem?-some xs (n * 25 / 100) (omega arith) in
      let (v75, e75) = get_elem?-some xs (n * 75 / 100) (omega arith) in
      let (v0, e0) = get_elem?-some xs 0 (omega arith) in
      let (vm, em) = get_elem?-some xs (n - 1) (omega arith) in
      let (v50, e50) = get_elem?-some xs (n * 50 / 100) (omega arith) in
      let (v95, e95) = get_elem?-some xs (n * 95 / 100) (omega arith) in
      let (v99, e99) = get_elem?-some xs (n * 99 / 100) (omega arith) in
      let avg : sum_u128 xs ≡ sum runs = laws.sum-sort runs ∙ sum_u128-sum runs small in
      (
        record {
          average = sum_u128 xs / n;
          min = v0;
          max = vm;
          stddev = stddev xs (sum_u128 xs / n);
          iqr = v75 - v25;
          p50 = v50;
          p95 = v95;
          p99 = v99;
        },
        rw (div_u128-ok {E = E} (sum_u128 xs) n (omega arith), e25, e75, e0, em, e50, e95, e99)
            refl,
        record {
          average_eq = rw (avg, l) refl;
          min_le = laws.sorted runs 0 (n * 50 / 100) v0 v50 (omega arith) e0 e50;
          p50_le = laws.sorted runs (n * 50 / 100) (n * 95 / 100) v50 v95 (omega arith) e50 e95;
          p95_le = laws.sorted runs (n * 95 / 100) (n * 99 / 100) v95 v99 (omega arith) e95 e99;
          p99_le = laws.sorted runs (n * 99 / 100) (n - 1) v99 vm (omega arith) e99 em;
        },
      )
