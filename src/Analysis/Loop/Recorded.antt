-- ===== src/Analysis/Loop/Recorded.antt =====
-- cedar-lean-cli/src/analysis.rs: the loop of `analyze_policyset` over the pairs of policies records in a
-- map what is related, where each round adds what is.
use cedar_spec.Base.{
  ◌≡◌, refl, inl, inr, List, [], ◌∷◌, Ensures, Ensures-bind, Ensures-mono, Zip-length, In,
}
use cedar_spec.Base.Assoc.{lookup, lookup-All}
use cedar_spec.Cedar.{Cedar, LeanFfi, CombinationLaws}
use cedar_spec.Analysis.Vacuity.{VacuityResult}
use cedar_spec.Analysis.Update.{FindingsMap}
use cedar_spec.Analysis.Marks.{reported}
use cedar_spec.Analysis.Pairs.{Findings, no_findings, compare_policies, compare_pairs}
use cedar_spec.Analysis.Compared.{AllSized, Compared, compare_pair-Compared}
use cedar_spec.Analysis.Verdicts.{SolverLaws}
use cedar_spec.Analysis.NoPanic.{IsPrecomputed, In-combinations, no_findings-AllSized}
use cedar_spec.Analysis.Combinations.{combinations-In}
use cedar_spec.Analysis.Loop.{
  Adds, Adds-then, Related-mono, IsRecorded, IsPairOf, InPairs, Round, Known, HasVacuities,
}

module _ (c : Cedar) (ffi : LeanFfi c) (laws : SolverLaws c ffi) (req_envs : List c.RequestEnv)
    (view : Findings c.PolicyId → FindingsMap c.PolicyId)
    (Means : c.Policy → c.Policy → c.RequestEnv → Type 0) where
  open c use {Policy, PolicyId, RequestEnv}

  module _ (round : Round c ffi laws req_envs view Means) (ps : List Policy) where
    module _ (vacuity : List (PolicyId × List VacuityResult))
        (known : IsPrecomputed c ffi req_envs (Known c ffi laws req_envs ps) ps [] vacuity) where
      compare_policies-Adds :
          (x : Policy × Policy) (f : Findings PolicyId)
          → In x.0 ps
          → In x.1 ps
          → AllSized c ffi req_envs f
          → Ensures
              (λ f'.
                AllSized c ffi req_envs f'
                × Adds c ffi laws req_envs view Means (IsPairOf c x) f f')
              (compare_policies c ffi req_envs vacuity x f)
      unfolding compare_policies
      compare_policies-Adds (p1, p2) f i1 i2 s =
          let dec = c.policy_id_discrete in
          let (svr, l1) = known.covers p1 i1 in
          let (tvr, l2) = known.covers p2 i2 in
          let z1 : HasVacuities c ffi laws req_envs p1 svr =
            lookup-All dec _ (c.id p1) vacuity known.entries l1 p1 i1 refl in
          let z2 : HasVacuities c ffi laws req_envs p2 tvr =
            lookup-All dec _ (c.id p2) vacuity known.entries l2 p2 i2 refl in
          rw (l1, l2)
            (Ensures-mono
              (λ f'.
                AllSized c ffi req_envs f'
                × Compared c ffi req_envs (c.effect p1) (c.effect p2) p1 svr p2 tvr f f')
              _ _
              (λ f' _ (sized, compared). (
                sized,
                round (c.effect p1) (c.effect p2) p1 p2 svr tvr f f' refl refl z1 z2 compared,
              ))
              (compare_pair-Compared c ffi req_envs (c.effect p1) (c.effect p2) p1 svr p2 tvr f
                (Zip-length _ req_envs svr z1) (Zip-length _ req_envs tvr z2) s))

      compare_pairs-Adds :
          (pairs : List (Policy × Policy)) (f : Findings PolicyId)
          → ((x : Policy × Policy) → In x pairs → In x.0 ps × In x.1 ps)
          → AllSized c ffi req_envs f
          → Ensures
              (λ f'.
                AllSized c ffi req_envs f'
                × Adds c ffi laws req_envs view Means (InPairs c pairs) f f')
              (compare_pairs c ffi req_envs vacuity pairs f)
      unfolding compare_pairs
      compare_pairs-Adds [] f h s = (
        s,
        λ k j i e at. (
          inl,
          λ r. elim r [
            | inl r' ↦ r'
            | inr (p, q, inl b, d) ↦ absurd b
            | inr (p, q, inr b, d) ↦ absurd b
          ],
        ),
      )
      compare_pairs-Adds (x ∷ pairs) f h s =
          let (i1, i2) = h x (inl refl) in
          Ensures-bind
            (λ f'.
              AllSized c ffi req_envs f' × Adds c ffi laws req_envs view Means (IsPairOf c x) f f')
            _ _ _ (compare_policies-Adds x f i1 i2 s)
            (λ f1 _ (s1, first).
              Ensures-mono
                (λ f'.
                  AllSized c ffi req_envs f'
                  × Adds c ffi laws req_envs view Means (InPairs c pairs) f1 f')
                _ _
                (λ f' _ (s', later).
                  (s', Adds-then c ffi laws req_envs view Means x pairs f f1 f' first later))
                (compare_pairs-Adds pairs f1 (λ y j. h y (inr j)) s1))

      pub compare_pairs-IsRecorded :
          (combines : CombinationLaws c)
          → view no_findings ≡ []
          → Ensures
              (λ f. AllSized c ffi req_envs f × IsRecorded c ffi laws req_envs view Means ps f)
              (compare_pairs c ffi req_envs vacuity (c.combinations ps) no_findings)
      unfolding reported lookup
      compare_pairs-IsRecorded combines empty =
          Ensures-mono
            (λ f.
              AllSized c ffi req_envs f
              × Adds c ffi laws req_envs view Means (InPairs c (c.combinations ps)) no_findings f)
            _ _
            (λ f _ (s, adds). (
              s,
              record {
                sound = λ k j i e at r. elim ((adds k j i e at).0 r) [
                  | inl n ↦ cc
                  | inr m ↦ Related-mono c ffi laws req_envs view Means among m
                ];
                complete = λ p q i e ip iq n at m. (adds (c.id p) (c.id q) i e at).1 (
                    inr (
                      p,
                      q,
                      combinations-In combines ps p q ip iq n,
                      record { first = refl; second = refl; means = m },
                    ));
              },
            ))
            (compare_pairs-Adds (c.combinations ps) no_findings (In-combinations combines ps)
              (no_findings-AllSized c ffi req_envs))
        where
          among : (p q : Policy) → InPairs c (c.combinations ps) p q → In p ps × In q ps
          among p q (inl h) = In-combinations combines ps (p, q) h
          among p q (inr h) = let (b, a) = In-combinations combines ps (q, p) h in (a, b)
