-- ===== src/Benchmark/Compare/Matching.antt =====
-- cedar-benchmarking/src/compare.rs: which results a report compares and which it lists as unmatched, and
-- when a comparison is a regression.
use cedar_spec.Base.{
  ℕ, ◌+◌, ◌-◌, ◌≤◌, ◌<◌, ◌≡◌, refl, sym, ap, ◌↔◌, ◌⊎◌, inl, inr, Bool, true, false, List, [], ◌∷◌,
  map, some, In, length, arith, Option-cases, Bool-cases, subst,
}
use cedar_spec.Base.Assoc.{lookup, insert, lookup-insert}
use cedar_spec.Cli.RequestEnvs.{is_some}
use Prim.Native.Nat.{◌^◌}
use cedar_spec.Benchmark.Compare.{
  Platform, Significance-discrete, regression, min_delta_floor_us, delta, unsigned_abs,
  BenchmarkResult, BenchmarkKey, BenchmarkComparison, BenchmarkOutput, ComparisonReport,
  key_discrete, from_result, significance, compute_comparison, by_key, match_results, keys_without,
  compare, any_regression, has_regression,
}

-- The wrapped difference of two numbers below 2 ^ 127 has the exact absolute value.
pub unsigned_abs-delta :
    (a b : ℕ) → a < 2 ^ 127 → b < 2 ^ 127 → unsigned_abs (delta a b) ≡ (a - b) + (b - a)
unfolding unsigned_abs delta
unsigned_abs-delta a b h k = ground arith

module _ (f : Platform) where
  abbrev Results : Type 0
  Results = List (BenchmarkResult f)

  abbrev pub keys : Results → List (BenchmarkKey f)
  keys = map (from_result f)

  abbrev KeyMap : Type 0
  KeyMap = List (BenchmarkKey f × BenchmarkResult f)

  lookup-by_key :
      (k : BenchmarkKey f) (rs : Results) (m : KeyMap)
      → (is_some (lookup (key_discrete f) k (by_key f rs m)) ≡ true)
        ↔ (In k (keys rs) ⊎ (is_some (lookup (key_discrete f) k m) ≡ true))
  unfolding by_key
  lookup-by_key k [] m = ground arith
  lookup-by_key k (r ∷ rs) m =
      let i = lookup-by_key k rs (insert (key_discrete f) (from_result f r) r m) in
      let e = lookup-insert (key_discrete f) (from_result f r) k r m in
      elim (key_discrete f (from_result f r) k) [
        | yes p ↦ ground (arith, i, e, sym p)
        | no n ↦ let other : ¬ (k ≡ from_result f r) = λ t. n (sym t) in ground (arith, i, e, other)
      ]

  lookup-by_key_from :
      (k : BenchmarkKey f) (rs : Results) (m : KeyMap) (b : BenchmarkResult f)
      → lookup (key_discrete f) k (by_key f rs m) ≡ some b
      → (In b rs × (from_result f b ≡ k)) ⊎ (lookup (key_discrete f) k m ≡ some b)
  unfolding by_key
  lookup-by_key_from k [] m b h = inr h
  lookup-by_key_from k (r ∷ rs) m b h =
      elim (lookup-by_key_from k rs (insert (key_discrete f) (from_result f r) r m) b h) [
        | inl (i, e) ↦ inl (inr i, e)
        | inr e ↦ inserted e
      ]
    where
      inserted :
          lookup (key_discrete f) k (insert (key_discrete f) (from_result f r) r m) ≡ some b
          → (In b (r ∷ rs) × (from_result f b ≡ k)) ⊎ (lookup (key_discrete f) k m ≡ some b)
      inserted e = elim (key_discrete f (from_result f r) k) [
        | yes p ↦
            let q : r ≡ b =
              ground (arith, lookup-insert (key_discrete f) (from_result f r) k r m, e) in
            inl (inl (sym q), subst (λ t. from_result f t ≡ k) q p)
        | no n ↦ inr (ground (arith, lookup-insert (key_discrete f) (from_result f r) k r m, e))
      ]

  -- Equal keys are found alike.
  found_alike :
      (k j : BenchmarkKey f) (m : KeyMap)
      → k ≡ j
      → is_some (lookup (key_discrete f) k m) ≡ is_some (lookup (key_discrete f) j m)
  found_alike k j m e = ap (λ t. is_some (lookup (key_discrete f) t m)) e

  match_results-lengths :
      (m : KeyMap) (rs : Results)
      → length (match_results f m rs).0 + length (match_results f m rs).1 ≡ length rs
  unfolding match_results
  match_results-lengths m [] = refl
  match_results-lengths m (r ∷ rs) = ground (arith, match_results-lengths m rs)

  In-unmatched :
      (k : BenchmarkKey f) (m : KeyMap) (rs : Results)
      → In k (match_results f m rs).1
        ↔ (In k (keys rs) × (is_some (lookup (key_discrete f) k m) ≡ false))
  unfolding match_results
  In-unmatched k m [] = ground arith
  In-unmatched k m (r ∷ rs) = ground (arith, In-unmatched k m rs, found_alike k (from_result f r) m)

  In-keys_without :
      (k : BenchmarkKey f) (cm m : KeyMap)
      → In k (keys_without f cm m) ↔ (
          (is_some (lookup (key_discrete f) k m) ≡ true)
          × (is_some (lookup (key_discrete f) k cm) ≡ false))
  unfolding keys_without lookup
  In-keys_without k cm [] = ground arith
  In-keys_without k cm ((j, r) ∷ m) =
      let i = In-keys_without k cm m in
      elim (key_discrete f j k) [
        | yes p ↦ ground (arith, i, found_alike k j cm (sym p), sym p)
        | no n ↦ let other : ¬ (k ≡ j) = λ t. n (sym t) in ground (arith, i, other)
      ]

  matched-from :
      (x : BenchmarkComparison f) (m : KeyMap) (rs : Results)
      → In x (match_results f m rs).0
      → (r : BenchmarkResult f) × (b : BenchmarkResult f) × In r rs
        × (lookup (key_discrete f) (from_result f r) m ≡ some b)
        × (x ≡ compute_comparison f r b)
  unfolding match_results
  matched-from x m [] i = absurd i
  matched-from x m (r ∷ rs) i = elim (Option-cases (lookup (key_discrete f) (from_result f r) m)) [
    | inl n ↦ later (matched-from x m rs (rw (n, match_results) at i))
    | inr (b, e) ↦ elim (head_or b (rw (e, match_results) at i)) [
      | inl p ↦ (r, b, inl refl, e, p)
      | inr j ↦ later (matched-from x m rs j)
    ]
  ]
    where
      head_or :
          (b : BenchmarkResult f)
          → In x (compute_comparison f r b ∷ (match_results f m rs).0)
          → (x ≡ compute_comparison f r b) ⊎ In x (match_results f m rs).0
      head_or b h = h

      later :
          ((s : BenchmarkResult f) × (b : BenchmarkResult f) × In s rs
            × (lookup (key_discrete f) (from_result f s) m ≡ some b)
            × (x ≡ compute_comparison f s b))
          → (s : BenchmarkResult f) × (b : BenchmarkResult f) × In s (r ∷ rs)
            × (lookup (key_discrete f) (from_result f s) m ≡ some b)
            × (x ≡ compute_comparison f s b)
      later (s, b, j, e, p) = (s, b, inr j, e, p)

  -- Every result is compared with the entry of its key, or its key is listed.
  match_results-In :
      (m : KeyMap) (rs : Results) (r : BenchmarkResult f)
      → In r rs
      → In (from_result f r) (match_results f m rs).1
        ⊎ ((b : BenchmarkResult f) × (lookup (key_discrete f) (from_result f r) m ≡ some b)
            × In (compute_comparison f r b) (match_results f m rs).0)
  unfolding match_results
  match_results-In m [] r i = absurd i
  match_results-In m (x ∷ rs) r (inl e) =
      elim (Option-cases (lookup (key_discrete f) (from_result f x) m)) [
        | inl n ↦ inl (rw (n, match_results) (inl (ap (from_result f) e)))
        | inr (b, h) ↦
            inr (b, rw e h, rw (h, match_results) (inl (ap (λ t. compute_comparison f t b) e)))
      ]
  match_results-In m (x ∷ rs) r (inr i) =
      elim (Option-cases (lookup (key_discrete f) (from_result f x) m)) [
        | inl n ↦ elim (match_results-In m rs r i) [
          | inl j ↦ inl (rw (n, match_results) (inr j))
          | inr (b, h, j) ↦ inr (b, h, rw (n, match_results) j)
        ]
        | inr (a, k) ↦ elim (match_results-In m rs r i) [
          | inl j ↦ inl (rw (k, match_results) j)
          | inr (b, h, j) ↦ inr (b, h, rw (k, match_results) (inr j))
        ]
      ]

  -- What a report says of two runs.
  pub record IsReport (current baseline : Results) (report : ComparisonReport f) : Type 0 where
    pub all_reported : length report.matched + length report.only_in_current ≡ length current
    pub compared :
        (r : BenchmarkResult f)
        → In r current
        → In (from_result f r) report.only_in_current
          ⊎ ((b : BenchmarkResult f) × In b baseline
              × (from_result f b ≡ from_result f r)
              × In (compute_comparison f r b) report.matched)
    pub comparisons :
        (x : BenchmarkComparison f)
        → In x report.matched
        → (r : BenchmarkResult f) × (b : BenchmarkResult f) × In r current
          × In b baseline
          × (from_result f b ≡ from_result f r)
          × (x ≡ compute_comparison f r b)
    pub current_only :
        (k : BenchmarkKey f)
        → In k report.only_in_current ↔ (In k (keys current) × ¬ In k (keys baseline))
    pub baseline_only :
        (k : BenchmarkKey f)
        → In k report.only_in_baseline ↔ (In k (keys baseline) × ¬ In k (keys current))

  found_iff :
      (k : BenchmarkKey f) (rs : Results)
      → (is_some (lookup (key_discrete f) k (by_key f rs [])) ≡ true) ↔ In k (keys rs)
  unfolding lookup
  found_iff k rs =
      let i = lookup-by_key k rs [] in
      (λ h. elim (i.0 h) [ inl j ↦ j | inr e ↦ cc ], λ j. i.1 (inl j))

  false_iff : (b : Bool) {P : Type 0} → (b ≡ true) ↔ P → (b ≡ false) ↔ (¬ P)
  false_iff true h = (λ e. cc, λ n. absurd (n (h.0 refl)))
  false_iff false h = (λ _ p. cc (h.1 p), λ _. refl)

  -- A report compares every current result with a baseline result of its key or lists its key as
  -- unmatched, and has as many entries for them as there are current results; each comparison is of
  -- a current and a baseline result of one key; and it lists as unmatched exactly the keys of one
  -- run alone.
  pub compare-IsReport :
      (current baseline : BenchmarkOutput f) (path : f.Name)
      → IsReport current.results baseline.results (compare f current baseline path)
  unfolding compare lookup
  compare-IsReport current baseline path = record {
    all_reported = match_results-lengths (by_key f baseline.results []) current.results;
    compared = λ r i. elim (match_results-In (by_key f baseline.results []) current.results r i) [
      | inl j ↦ inl j
      | inr (b, h, j) ↦ elim (lookup-by_key_from (from_result f r) baseline.results [] b h) [
        | inl (k, e) ↦ inr (b, k, e, j)
        | inr n ↦ cc
      ]
    ];
    comparisons =
        λ x i. both_sides x (matched-from x (by_key f baseline.results []) current.results i);
    current_only = λ k. ground (
      arith,
      In-unmatched k (by_key f baseline.results []) current.results,
      false_iff (is_some (lookup (key_discrete f) k (by_key f baseline.results [])))
          (found_iff k baseline.results),
    );
    baseline_only = λ k. ground (
      arith,
      In-keys_without k (by_key f current.results []) (by_key f baseline.results []),
      found_iff k baseline.results,
      false_iff (is_some (lookup (key_discrete f) k (by_key f current.results [])))
          (found_iff k current.results),
    );
  }
    where
      both_sides :
          (x : BenchmarkComparison f)
          → ((r : BenchmarkResult f) × (b : BenchmarkResult f) × In r current.results
              × (lookup (key_discrete f) (from_result f r) (by_key f baseline.results []) ≡ some b)
              × (x ≡ compute_comparison f r b))
          → (r : BenchmarkResult f) × (b : BenchmarkResult f) × In r current.results
            × In b baseline.results
            × (from_result f b ≡ from_result f r)
            × (x ≡ compute_comparison f r b)
      both_sides x (r, b, i, e, p) =
          elim (lookup-by_key_from (from_result f r) baseline.results [] b e) [
            | inl (j, q) ↦ (r, b, i, j, q, p)
            | inr n ↦ cc
          ]

  -- The conditions of a significant regression.
  pub record IsRegression (threshold_pct : f.Float) (c : BenchmarkComparison f) : Type 0 where
    pub floor : min_delta_floor_us ≤ unsigned_abs c.delta_avg
    pub noise :
        f.less_equal
          (f.of_u128 (unsigned_abs c.delta_avg))
          (f.times f.significance_sigma (f.hypot c.baseline_stddev c.current_stddev))
        ≡ false
    pub slower : f.less threshold_pct c.delta_avg_pct ≡ true

  significance_iff :
      (c : BenchmarkComparison f) (t : f.Float)
      → (significance f c t ≡ regression) ↔ IsRegression t c
  unfolding significance
  significance_iff c t = (
    λ h. record { floor = ground arith; noise = ground arith; slower = ground arith },
    λ k. ground (arith, k.floor, k.noise, k.slower),
  )

  any_regression_iff :
      (cs : List (BenchmarkComparison f)) (t : f.Float)
      → (any_regression f cs t ≡ true) ↔ ((c : BenchmarkComparison f) × In c cs × IsRegression t c)
  unfolding any_regression
  any_regression_iff [] t = (λ h. cc, λ (c, i, k). absurd i)
  any_regression_iff (x ∷ cs) t = elim (Significance-discrete (significance f x t) regression) [
    | yes p ↦ ((λ h. (x, inl refl, (significance_iff x t).0 p)), λ k. ground (arith, p))
    | no n ↦ (
      (λ h. let (c, i, k) = (any_regression_iff cs t).0 (ground arith) in (c, inr i, k)),
      λ (c, i, k). elim i [
        | inl e ↦ absurd (n ((significance_iff x t).1 (subst (IsRegression t) e k)))
        | inr j ↦ ground (arith, (any_regression_iff cs t).1 (c, j, k))
      ],
    )
  ]

  -- `has_regression` finds out whether some comparison of some report changed the average by the
  -- floor at least, by more than the noise, and upwards by more than the threshold.
  pub has_regression-IsRegression :
      (reports : List (ComparisonReport f)) (t : f.Float)
      → (has_regression f reports t ≡ true) ↔ (
          (r : ComparisonReport f) × (c : BenchmarkComparison f) × In r reports
          × In c r.matched
          × IsRegression t c)
  unfolding has_regression
  has_regression-IsRegression [] t = (λ h. cc, λ (r, c, i, j, k). absurd i)
  has_regression-IsRegression (x ∷ reports) t = elim (Bool-cases (any_regression f x.matched t)) [
    | inl e ↦ (
      (λ h. let (c, i, k) = (any_regression_iff x.matched t).0 e in (x, c, inl refl, i, k)),
      λ h. ground (arith, e),
    )
    | inr e ↦ (
      (λ h.
          let (r, c, i, j, k) = (has_regression-IsRegression reports t).0 (ground (arith, e)) in
          (r, c, inr i, j, k)),
      λ (r, c, i, j, k). elim i [
        | inl q ↦ cc ((any_regression_iff x.matched t).1 (c, subst (λ s. In c s.matched) q j, k))
        | inr i' ↦ ground (arith, e, (has_regression-IsRegression reports t).1 (r, c, i', j, k))
      ],
    )
  ]
