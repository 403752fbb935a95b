-- ===== src/Analysis/Loop/Shadows.antt =====
-- cedar-lean-cli/src/analysis.rs: what a round of the loop over pairs adds to the policies that are
-- redundant and to those that are shadowed, by the results of the comparison.
use cedar_spec.Base.{
  ℕ, ◌≡◌, ◌↔◌, true, List, get_elem?, get_elem?-some, some, Zip, Zip-length, Zip-get_elem?, sym,
  arith,
}
use cedar_spec.Cedar.{Cedar, LeanFfi, Effect}
use cedar_spec.Analysis.Vacuity.{matches_none}
use cedar_spec.Analysis.Shadowing.{ShadowingResult, equivalent, policy1_shadows2, policy2_shadows1}
use cedar_spec.Analysis.Compared.{found}
use cedar_spec.Analysis.Verdicts.{SolverLaws, HasVacuity, HasShadowing, Within}
use cedar_spec.Analysis.Overridden.{below}

module _ (c : Cedar) (ffi : LeanFfi c) (laws : SolverLaws c ffi) where
  open c use {Policy, PolicyId, RequestEnv}

  -- Each policy matches some request.
  abbrev BothMatch : Policy → Policy → RequestEnv → Type 0
  BothMatch p q e =
      (¬ HasVacuity (laws.matches p e) matches_none) × ¬ HasVacuity (laws.matches q e) matches_none

  -- Two policies of an effect, of which the second matches strictly more.
  pub record IsNarrower (effect : Effect) (p q : Policy) (e : RequestEnv) : Type 0 where
    pub first_effect : c.effect p ≡ effect
    pub second_effect : c.effect q ≡ effect
    pub match : BothMatch p q e
    pub within : Within (laws.matches p e) (laws.matches q e)
    pub strict : ¬ Within (laws.matches q e) (laws.matches p e)

  -- Two policies of one effect that match the same requests.
  pub record IsRedundant (p q : Policy) (e : RequestEnv) : Type 0 where
    pub same_effect : c.effect p ≡ c.effect q
    pub match : BothMatch p q e
    pub within : Within (laws.matches p e) (laws.matches q e)
    pub contains : Within (laws.matches q e) (laws.matches p e)

  module _ (req_envs : List RequestEnv) (p1 p2 : Policy) (results : List ShadowingResult)
      (z : Zip (λ e. HasShadowing (laws.matches p1 e) (laws.matches p2 e)) req_envs results) (i : ℕ)
      (e : RequestEnv) (at : get_elem? req_envs i ≡ some e) where
    result_at :
        (r : ShadowingResult) × (get_elem? results i ≡ some r)
        × HasShadowing (laws.matches p1 e) (laws.matches p2 e) r
    result_at =
        let len = Zip-length _ req_envs results z in
        let l = below req_envs i at in
        let (r, er) = get_elem?-some results i (omega arith) in
        (
          r,
          er,
          Zip-get_elem? (λ e. HasShadowing (laws.matches p1 e) (laws.matches p2 e)) req_envs results
              i z at er,
        )

    found_iff :
        (wanted : ShadowingResult) → (found c ffi results wanted i ≡ true) ↔ (result_at.0 ≡ wanted)
    found_iff wanted = let er = result_at.1 in ground (arith, er)

    pub IsRedundant-iff :
        c.effect p1 ≡ c.effect p2 → (found c ffi results equivalent i ≡ true) ↔ IsRedundant p1 p2 e
    IsRedundant-iff h =
        let means = result_at.2.is_equivalent in
        (
          λ r.
              let (n, m, a, b) = means.0 ((found_iff equivalent).0 r) in
              record { same_effect = h; match = (n, m); within = a; contains = b },
          λ d. (found_iff equivalent).1 (means.1 (d.match.0, d.match.1, d.within, d.contains)),
        )

    pub IsNarrower-iff :
        (effect : Effect)
        → c.effect p1 ≡ effect
        → c.effect p2 ≡ effect
        → (found c ffi results policy2_shadows1 i ≡ true) ↔ IsNarrower effect p1 p2 e
    IsNarrower-iff effect h1 h2 =
        let means = result_at.2.is_shadowed1 in
        (
          λ r.
              let (n, m, a, b) = means.0 ((found_iff policy2_shadows1).0 r) in
              record {
                first_effect = h1;
                second_effect = h2;
                match = (n, m);
                within = a;
                strict = b;
              },
          λ d. (found_iff policy2_shadows1).1 (means.1 (d.match.0, d.match.1, d.within, d.strict)),
        )

    pub IsNarrower-iff_reversed :
        (effect : Effect)
        → c.effect p1 ≡ effect
        → c.effect p2 ≡ effect
        → (found c ffi results policy1_shadows2 i ≡ true) ↔ IsNarrower effect p2 p1 e
    IsNarrower-iff_reversed effect h1 h2 =
        let means = result_at.2.is_shadowed2 in
        (
          λ r.
              let (n, m, a, b) = means.0 ((found_iff policy1_shadows2).0 r) in
              record {
                first_effect = h2;
                second_effect = h1;
                match = (m, n);
                within = a;
                strict = b;
              },
          λ d. (found_iff policy1_shadows2).1 (means.1 (d.match.1, d.match.0, d.within, d.strict)),
        )

  -- The second comparison of the two policies is about the same requests.
  pub IsRedundant-sym : (p q : Policy) (e : RequestEnv) → IsRedundant p q e → IsRedundant q p e
  IsRedundant-sym p q e d = record {
    same_effect = sym d.same_effect;
    match = (d.match.1, d.match.0);
    within = d.contains;
    contains = d.within;
  }
