-- ===== src/Analysis/NoPanic.antt =====
-- cedar-lean-cli/src/analysis.rs: the `expect` calls and the indexing of `analyze_policyset` do not
-- panic, whatever the solver answers.
use cedar_spec.Base.{
  Ensures-then, ℕ, suc, ◌+◌, ◌<◌, ◌≡◌, ◌≢◌, refl, sym, ap, Bool, List, [], ◌∷◌, map, some, length,
  Ensures, Ensures-bind, Ensures-mono, Ensures-ne-panic, Zip, Zip-length, for_each-Zip, arith, ◌⊎◌,
  inl, inr, In, In-append, All, get_elem?-some, panic,
}
use cedar_spec.Base.Assoc.{lookup, insert, lookup-insert, insert-All, lookup-All}
use cedar_spec.Cedar.{Cedar, LeanFfi, CombinationLaws}
use cedar_spec.Cli.Err.{ExecError}
use cedar_spec.Cli.RequestEnvs.{to_request_envs, any}
use cedar_spec.Analysis.Vacuity.{VacuityResult, policy_vacuous, policyset_vacuous, vacuity_of}
use cedar_spec.Analysis.Update.{FindingsMap}
use cedar_spec.Analysis.Pairs.{
  Findings, no_findings, policies_vacuity, compare_policies, compare_pairs,
}
use cedar_spec.Analysis.Marks.{no_findings-IsSized}
use cedar_spec.Analysis.Compared.{AllSized, compare_pair-Compared}
use cedar_spec.Analysis.Report.{
  at_signature, findings_at, findings_from, analyze_policy_findings_new, policyset_findings,
}

module _ {A B : Type 0} where
  In-map_pair :
      (p : A) (x : A × B) (qs : List B) → In x (map (λ q. (p, q)) qs) → (x.0 ≡ p) × In x.1 qs
  In-map_pair p x [] h = absurd h
  In-map_pair p x (q ∷ qs) (inl e) = (ap (λ t. t.0) e, inl (ap (λ t. t.1) e))
  In-map_pair p x (q ∷ qs) (inr i) = let (e, j) = In-map_pair p x qs i in (e, inr j)

-- Both members of a pair are policies of the set.
pub In-combinations :
    {c : Cedar} (laws : CombinationLaws c) (ps : List c.Policy) (x : c.Policy × c.Policy)
    → In x (c.combinations ps)
    → In x.0 ps × In x.1 ps
In-combinations laws [] x h = absurd (rw laws.combinations-nil at h)
In-combinations laws (p ∷ ps) x h =
    elim ((In-append x _ _).0 (rw (laws.combinations-cons p ps) at h)) [
      | inl i ↦ let (e, j) = In-map_pair p x ps i in (inl e, inr j)
      | inr i ↦ let (j, k) = In-combinations laws ps x i in (inr j, inr k)
    ]

vacuity_of-Ensures :
    (E : Type 0) {F : Type 0} (always never : F ⊎ Bool)
    → Ensures (λ _. Unit {0}) (vacuity_of {E = E} always never)
unfolding vacuity_of
vacuity_of-Ensures E always never = ground arith

module _ (c : Cedar) (ffi : LeanFfi c) where
  open c use {PolicyId, Policy, PolicySet, RequestEnv, BoxedError, FfiError}

  pub policy_vacuous-length :
      (policy : Policy) (req_envs : List RequestEnv)
      → Ensures (λ vrs. length vrs ≡ length req_envs) (policy_vacuous c ffi policy req_envs)
  unfolding policy_vacuous
  policy_vacuous-length policy req_envs =
      Ensures-mono (Zip (λ _ _. Unit {0}) req_envs) _ _ (λ ys _ z. Zip-length _ req_envs ys z)
        (for_each-Zip (λ _ _. Unit {0}) _ req_envs (λ e. vacuity_of-Ensures BoxedError _ _))

  pub policyset_vacuous-Ensures :
      (policyset : PolicySet) (req_envs : List RequestEnv)
      → Ensures (λ _. Unit {0}) (policyset_vacuous c ffi policyset req_envs)
  unfolding policyset_vacuous
  policyset_vacuous-Ensures policyset req_envs =
      Ensures-mono (Zip (λ _ _. Unit {0}) req_envs) _ _ (λ _ _ _. tt)
        (for_each-Zip (λ _ _. Unit {0}) _ req_envs (λ e. vacuity_of-Ensures BoxedError _ _))

  module _ (req_envs : List RequestEnv) where
    abbrev Vacuities : Type 0
    Vacuities = List (PolicyId × List VacuityResult)

    abbrev Has : PolicyId → Vacuities → Type 0
    Has k vacuity = (vrs : List VacuityResult) × (lookup c.policy_id_discrete k vacuity ≡ some vrs)

    -- What the first loop establishes, for any predicate on the entries.
    pub record IsPrecomputed (V : PolicyId → List VacuityResult → Type 0) (policies : List Policy)
        (vacuity vacuity' : Vacuities) : Type 0 where
      pub entries : All (λ e. V e.0 e.1) vacuity'
      pub keeps : (k : PolicyId) → Has k vacuity → Has k vacuity'
      pub covers : (p : Policy) → In p policies → Has (c.id p) vacuity'

    Has-insert :
        (k j : PolicyId) (vrs : List VacuityResult) (vacuity : Vacuities)
        → (k ≡ j) ⊎ Has j vacuity
        → Has j (insert c.policy_id_discrete k vrs vacuity)
    Has-insert k j vrs vacuity h = elim (c.policy_id_discrete k j) [
      | yes e ↦ (vrs, ground (arith, lookup-insert c.policy_id_discrete k j vrs vacuity))
      | no n ↦ elim h [
        | inl e ↦ absurd (n e)
        | inr (old, q) ↦ (old, ground (arith, lookup-insert c.policy_id_discrete k j vrs vacuity))
      ]
    ]

    pub policies_vacuity-IsPrecomputed :
        (V : PolicyId → List VacuityResult → Type 0) (policies : List Policy) (vacuity : Vacuities)
        → ((p : Policy) → In p policies → Ensures (V (c.id p)) (policy_vacuous c ffi p req_envs))
        → All (λ e. V e.0 e.1) vacuity
        → Ensures
            (IsPrecomputed V policies vacuity)
            (policies_vacuity c ffi req_envs policies vacuity)
    unfolding policies_vacuity
    policies_vacuity-IsPrecomputed V [] vacuity h a = record {
      entries = a;
      keeps = λ k x. x;
      covers = λ p i. absurd i;
    }
    policies_vacuity-IsPrecomputed V (policy ∷ policies) vacuity h a =
        Ensures-bind (V (c.id policy)) _ _ _ (h policy (inl refl)) (λ pvr _ v.
          Ensures-mono
            (IsPrecomputed V policies (insert c.policy_id_discrete (c.id policy) pvr vacuity)) _ _
            (λ vacuity' _ k. record {
              entries = k.entries;
              keeps = λ j x. k.keeps j (Has-insert (c.id policy) j pvr vacuity (inr x));
              covers = λ p i. elim i [
                | inl e ↦
                    k.keeps (c.id p)
                      (Has-insert (c.id policy) (c.id p) pvr vacuity (inl (ap c.id (sym e))))
                | inr j ↦ k.covers p j
              ];
            })
            (policies_vacuity-IsPrecomputed V policies
              (insert c.policy_id_discrete (c.id policy) pvr vacuity) (λ p i. h p (inr i))
              (insert-All c.policy_id_discrete _ (c.id policy) pvr vacuity v a)))

    -- The vacuity of each policy is known, one value for each request environment.
    abbrev Precomputed : List Policy → Vacuities → Type 0
    Precomputed = λ policies. IsPrecomputed (λ _ vrs. length vrs ≡ length req_envs) policies []

    pub no_findings-AllSized : AllSized c ffi req_envs no_findings
    no_findings-AllSized = record {
      redundant_sized = no_findings-IsSized _ _;
      permits_sized = no_findings-IsSized _ _;
      overridden_sized = no_findings-IsSized _ _;
      forbids_sized = no_findings-IsSized _ _;
    }

    compare_policies-AllSized :
        (policies : List Policy) (vacuity : Vacuities) (pair : Policy × Policy)
        (f : Findings PolicyId)
        → Precomputed policies vacuity
        → In pair.0 policies
        → In pair.1 policies
        → AllSized c ffi req_envs f
        → Ensures (AllSized c ffi req_envs) (compare_policies c ffi req_envs vacuity pair f)
    unfolding compare_policies
    compare_policies-AllSized policies vacuity (p1, p2) f k i1 i2 z =
        let dec = c.policy_id_discrete in
        let (svr, e1) = k.covers p1 i1 in
        let (tvr, e2) = k.covers p2 i2 in
        rw (e1, e2)
          (Ensures-mono _ (AllSized c ffi req_envs) _ (λ f' _ g. g.0)
            (compare_pair-Compared c ffi req_envs (c.effect p1) (c.effect p2) p1 svr p2 tvr f
              (lookup-All dec _ (c.id p1) vacuity k.entries e1)
              (lookup-All dec _ (c.id p2) vacuity k.entries e2) z))

    compare_pairs-AllSized :
        (policies : List Policy) (vacuity : Vacuities) (pairs : List (Policy × Policy))
        (f : Findings PolicyId)
        → Precomputed policies vacuity
        → ((x : Policy × Policy) → In x pairs → In x.0 policies × In x.1 policies)
        → AllSized c ffi req_envs f
        → Ensures (AllSized c ffi req_envs) (compare_pairs c ffi req_envs vacuity pairs f)
    unfolding compare_pairs
    compare_pairs-AllSized policies vacuity [] f k i z = z
    compare_pairs-AllSized policies vacuity (pair ∷ pairs) f k i z =
        let (i1, i2) = i pair (inl refl) in
        Ensures-bind (AllSized c ffi req_envs) _ _ _
          (compare_policies-AllSized policies vacuity pair f k i1 i2 z)
          (λ f' _ z'. compare_pairs-AllSized policies vacuity pairs f' k (λ x j. i x (inr j)) z')

  -- Every set of a sized map is there at the place of a request environment.
  at_signature-Ensures :
      (n ind : ℕ) (f : FindingsMap PolicyId) (sig : List (PolicyId × List PolicyId))
      → ind < n
      → All (λ e. length e.1 ≡ n) f
      → Ensures {E = ExecError BoxedError FfiError}
          (λ _. Unit {0})
          (at_signature c.policy_id_discrete ind f sig)
  unfolding at_signature
  at_signature-Ensures n ind [] sig h a = tt
  at_signature-Ensures n ind ((pid, sets) ∷ f) sig h a =
      let (s, e) = get_elem?-some sets ind (omega (arith, a.0)) in
      rw e (at_signature-Ensures n ind f (insert c.policy_id_discrete pid s sig) h a.1)

  findings_at-Ensures :
      (req_envs : List RequestEnv) (f : Findings PolicyId) (ind : ℕ) (e : RequestEnv)
      → AllSized c ffi req_envs f
      → ind < length req_envs
      → Ensures (λ _. Unit {0}) (findings_at c f ind e)
  unfolding findings_at
  findings_at-Ensures req_envs f ind e z h =
      let n = length req_envs in
      Ensures-then _ _ _ (at_signature-Ensures n ind f.redundant [] h z.redundant_sized.sized) (λ r.
        Ensures-then _ _ _
          (at_signature-Ensures n ind f.permit_shadowed_by_permit [] h z.permits_sized.sized)
          (λ p.
            Ensures-then _ _ _
              (at_signature-Ensures n ind f.permit_overridden_by_forbid [] h
                z.overridden_sized.sized)
              (λ o.
                Ensures-then _ _ _
                  (at_signature-Ensures n ind f.forbid_shadowed_by_forbid [] h
                    z.forbids_sized.sized)
                  (λ q. tt))))

  findings_from-Ensures :
      (req_envs : List RequestEnv) (f : Findings PolicyId) (ind : ℕ) (es : List RequestEnv)
      → AllSized c ffi req_envs f
      → ind + length es ≡ length req_envs
      → Ensures (λ _. Unit {0}) (findings_from c f ind es)
  unfolding findings_from
  findings_from-Ensures req_envs f ind [] z h = tt
  findings_from-Ensures req_envs f ind (e ∷ es) z h =
      Ensures-then _ _ _ (findings_at-Ensures req_envs f ind e z (omega arith)) (λ sig.
        Ensures-then _ _ _ (findings_from-Ensures req_envs f (suc ind) es z (omega arith))
          (λ sigs. tt))

  to_request_envs-Ensures :
      (schema : c.Schema) → Ensures (λ _. Unit {0}) (to_request_envs c (any c) schema)
  unfolding to_request_envs any
  to_request_envs-Ensures schema = ground arith

  policyset_findings-Ensures :
      (laws : CombinationLaws c) (schema : c.Schema) (policy_set : PolicySet)
      → Ensures (λ _. Unit {0}) (policyset_findings c ffi schema policy_set)
  unfolding policyset_findings analyze_policy_findings_new
  policyset_findings-Ensures laws schema policy_set =
      let policies = c.policies policy_set in
      Ensures-then _ _ _ (to_request_envs-Ensures schema) (λ req_envs.
        Ensures-bind (Precomputed req_envs policies) _ _ _
          (policies_vacuity-IsPrecomputed req_envs _ policies []
            (λ p _. policy_vacuous-length p req_envs) tt)
          (λ vacuity _ k. Ensures-then _ _ _ (policyset_vacuous-Ensures policy_set req_envs) (λ pv.
            Ensures-bind (AllSized c ffi req_envs) _ _ _
              (compare_pairs-AllSized req_envs policies vacuity (c.combinations policies)
                no_findings k (In-combinations laws policies) (no_findings-AllSized req_envs))
              (λ f _ z.
                Ensures-then _ _ _ (findings_from-Ensures req_envs f 0 req_envs z (omega arith))
                  (λ sigs. tt)))))

  -- The computing of the findings of analyze_policyset, up to their printing, does not panic, for
  -- every policy set, schema and answers of the solver, where combinations lists the pairs of the
  -- policies: the vacuity of both policies of a pair has been computed, and every place that is
  -- marked or read exists.
  pub policyset_findings-ne-panic :
      (laws : CombinationLaws c) (schema : c.Schema) (policy_set : PolicySet)
      → policyset_findings c ffi schema policy_set ≢ panic
  policyset_findings-ne-panic laws schema policy_set =
      Ensures-ne-panic _ _ (policyset_findings-Ensures laws schema policy_set)
