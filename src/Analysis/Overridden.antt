-- ===== src/Analysis/Overridden.antt =====
-- cedar-lean-cli/src/analysis.rs: what the comparison of a permit with a forbid policy reports of the
-- requests that they match.

use cedar_spec.Base.{
  [], zero, suc, ◌∷◌, ◌<◌, ℕ, ◌≡◌, ◌↔◌, ◌⊎◌, true, List, some, length, get_elem?, get_elem?-some,
  Ensures, Ensures-mono, Ensures-ok, Zip, Zip-length, Zip-get_elem?, arith,
}
use cedar_spec.Cedar.{Cedar, LeanFfi, permit, forbid}
use cedar_spec.Analysis.Vacuity.{VacuityResult, matches_some}
use cedar_spec.Analysis.Shadowing.{OverrideResult, OverrideResult-discrete, overrides}
use cedar_spec.Analysis.Marks.{reported, hit}
use cedar_spec.Analysis.Pairs.{Findings, compare_pair}
use cedar_spec.Analysis.Compared.{AllSized, Compared, compare_pair-Compared}
use cedar_spec.Analysis.Verdicts.{SolverLaws, HasVacuity, HasOverride, Within}
use cedar_spec.Analysis.Meaning.{compute_forbid_overrides_shadow_result-HasOverride}

pub below : {A : Type 0} (xs : List A) (i : ℕ) {x : A} → get_elem? xs i ≡ some x → i < length xs
below [] i h = cc
below (y ∷ xs) zero h = omega arith
below (y ∷ xs) (suc i) h = omega (arith, below xs i h)

module _ (c : Cedar) (ffi : LeanFfi c) (laws : SolverLaws c ffi)
    (req_envs : List c.RequestEnv) where
  -- At each request environment, the first policy is reported as overridden by the second where it
  -- was before, or where each matches some request but not all and the second matches all that the
  -- first does.
  abbrev pub ReportsOverride :
      c.Policy → c.Policy → Findings c.PolicyId → Findings c.PolicyId → Type 0
  ReportsOverride p q f f' =
      (i : ℕ) (e : c.RequestEnv)
      → get_elem? req_envs i ≡ some e
      → (reported c.policy_id_discrete f'.permit_overridden_by_forbid (c.id p) i (c.id q) ≡ true)
        ↔ ((reported c.policy_id_discrete f.permit_overridden_by_forbid (c.id p) i (c.id q) ≡ true)
            ⊎ (HasVacuity (laws.matches q e) matches_some
                × HasVacuity (laws.matches p e) matches_some
                × Within (laws.matches p e) (laws.matches q e)))

  hit_iff :
      (results : List OverrideResult) (i : ℕ) (r : OverrideResult)
      → get_elem? results i ≡ some r
      → (hit c.policy_id_discrete OverrideResult-discrete results overrides i ≡ true)
        ↔ (r ≡ overrides)
  hit_iff results i r e = ground (arith, e)

  pub hit-HasOverride :
      (p q : c.Policy) (results : List OverrideResult)
      → Zip (λ e. HasOverride (laws.matches q e) (laws.matches p e)) req_envs results
      → (i : ℕ) (e : c.RequestEnv) → get_elem? req_envs i ≡ some e
      → i < length req_envs
      → (hit c.policy_id_discrete OverrideResult-discrete results overrides i ≡ true) ↔ (
          HasVacuity (laws.matches q e) matches_some
          × HasVacuity (laws.matches p e) matches_some
          × Within (laws.matches p e) (laws.matches q e))
  hit-HasOverride p q results z i e at l =
      let len = Zip-length _ req_envs results z in
      let (r, er) = get_elem?-some results i (omega arith) in
      let means =
        Zip-get_elem? (λ e. HasOverride (laws.matches q e) (laws.matches p e)) req_envs results i z
          at er in
      let here = hit_iff results i r er in (λ h. means.0 (here.0 h), λ k. here.1 (means.1 k))

  -- For a permit policy `p` and a forbid policy `q` with their vacuities, sized findings and a
  -- solver that answers as documented: the comparison of the two does not panic, and at each
  -- request environment it reports `p` as overridden by `q` exactly where it was reported before,
  -- or where each matches some request but not all and `q` matches all that `p` matches.
  pub compare_pair-ReportsOverride :
      (p q : c.Policy) (svr tvr : List VacuityResult) (f : Findings c.PolicyId)
      → Zip (λ e. HasVacuity (laws.matches p e)) req_envs svr
      → Zip (λ e. HasVacuity (laws.matches q e)) req_envs tvr
      → AllSized c ffi req_envs f
      → Ensures (ReportsOverride p q f) (compare_pair c ffi req_envs permit forbid p svr q tvr f)
  compare_pair-ReportsOverride p q svr tvr f z1 z2 s =
      Ensures-mono
        (λ f'. AllSized c ffi req_envs f' × Compared c ffi req_envs permit forbid p svr q tvr f f')
        (ReportsOverride p q f) _
        (λ f' _ (sized, (results, e, u, s1, s2, s3)). λ i env at.
          let z =
            Ensures-ok (Zip (λ e. HasOverride (laws.matches q e) (laws.matches p e)) req_envs) _
              (compute_forbid_overrides_shadow_result-HasOverride laws q p tvr svr req_envs z2 z1)
              e in
          let found = hit-HasOverride p q results z i env at (below req_envs i at) in
          ground (arith, u.reports (c.id p) i (c.id q), found))
        (compare_pair-Compared c ffi req_envs permit forbid p svr q tvr f
          (Zip-length _ req_envs svr z1) (Zip-length _ req_envs tvr z2) s)
