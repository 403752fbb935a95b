-- ===== src/Analysis/Documented.antt =====
-- cedar-lean-cli/src/analysis.rs: what the comparisons of two policies say in the words of
-- cedar-lean-cli/README.md, for policies that are not vacuous.
use cedar_spec.Base.{◌≡◌, Bool, List, Ensures, Ensures-mono, Zip, Zip-mono}
use cedar_spec.Cedar.{Cedar, LeanFfi, permit}
use cedar_spec.Analysis.Vacuity.{VacuityResult, matches_some}
use cedar_spec.Analysis.Shadowing.{
  ShadowingResult, equivalent, policy1_shadows2, policy2_shadows1, OverrideResult, overrides,
  compute_permit_shadowing_result, compute_forbid_shadowing_result,
  compute_forbid_overrides_shadow_result,
}
use cedar_spec.Analysis.Verdicts.{SolverLaws, HasVacuity, HasShadowing, HasOverride, Within}
use cedar_spec.Analysis.Meaning.{
  Vacuity, compute_permit_shadowing_result-HasShadowing,
  compute_forbid_shadowing_result-HasShadowing, compute_forbid_overrides_shadow_result-HasOverride,
}

module _ {R : Type 0} where
  -- Some request is in the set, and some is not.
  abbrev pub NonVacuous : (R → Bool) → Type 0
  NonVacuous f = HasVacuity f matches_some

  abbrev pub Same : (R → Bool) → (R → Bool) → Type 0
  Same f g = Within f g × Within g f

  -- The second set has all requests of the first, and more.
  abbrev pub Strictly : (R → Bool) → (R → Bool) → Type 0
  Strictly f g = Within f g × ¬ Within g f

  -- A result is never wrong of the sets, and for two sets that are not vacuous it tells them apart.
  pub record ComparesShadowing (f g : R → Bool) (res : ShadowingResult) : Type 0 where
    pub equivalent_sound : res ≡ equivalent → Same f g
    pub shadowed1_sound : res ≡ policy2_shadows1 → Strictly f g
    pub shadowed2_sound : res ≡ policy1_shadows2 → Strictly g f
    pub equivalent_complete : NonVacuous f → NonVacuous g → Same f g → res ≡ equivalent
    pub shadowed1_complete : NonVacuous f → NonVacuous g → Strictly f g → res ≡ policy2_shadows1
    pub shadowed2_complete : NonVacuous f → NonVacuous g → Strictly g f → res ≡ policy1_shadows2

  pub record ComparesOverride (forbids permits : R → Bool) (res : OverrideResult) : Type 0 where
    pub sound : res ≡ overrides → Within permits forbids
    pub complete :
        NonVacuous forbids → NonVacuous permits → Within permits forbids → res ≡ overrides

  HasShadowing-ComparesShadowing :
      (f g : R → Bool) (res : ShadowingResult) → HasShadowing f g res → ComparesShadowing f g res
  HasShadowing-ComparesShadowing f g res h = record {
    equivalent_sound = λ e. let (n, m, a, b) = h.is_equivalent.0 e in (a, b);
    shadowed1_sound = λ e. let (n, m, a, b) = h.is_shadowed1.0 e in (a, b);
    shadowed2_sound = λ e. let (n, m, a, b) = h.is_shadowed2.0 e in (a, b);
    equivalent_complete = λ u v w. h.is_equivalent.1 ((λ k. u.1 k.0), (λ k. v.1 k.0), w.0, w.1);
    shadowed1_complete = λ u v w. h.is_shadowed1.1 ((λ k. u.1 k.0), (λ k. v.1 k.0), w.0, w.1);
    shadowed2_complete = λ u v w. h.is_shadowed2.1 ((λ k. u.1 k.0), (λ k. v.1 k.0), w.0, w.1);
  }

  HasOverride-ComparesOverride :
      (f g : R → Bool) (res : OverrideResult) → HasOverride f g res → ComparesOverride f g res
  HasOverride-ComparesOverride f g res h = record {
    sound = λ e. (h.0 e).2;
    complete = λ u v w. h.1 (u, v, w);
  }

module _ {c : Cedar} {ffi : LeanFfi c} (laws : SolverLaws c ffi) (p q : c.Policy)
    (vrs1 vrs2 : List VacuityResult) (req_envs : List c.RequestEnv)
    (z1 : Zip (Vacuity laws p) req_envs vrs1) (z2 : Zip (Vacuity laws q) req_envs vrs2) where
  -- For two permit policies with their vacuities, where the solver answers as documented:
  -- compute_permit_shadowing_result does not panic, and each of its results is equivalent only
  -- where both match the same requests, and a shadowing only where the one matches all that the
  -- other does and more; where neither policy is vacuous at the request environment, each matching
  -- some request but not all, it is equivalent and a shadowing exactly there.
  pub compute_permit_shadowing_result-ComparesShadowing :
      c.effect p ≡ permit
      → c.effect q ≡ permit
      → Ensures
          (Zip (λ e. ComparesShadowing (laws.matches p e) (laws.matches q e)) req_envs)
          (compute_permit_shadowing_result c ffi p vrs1 q vrs2 req_envs)
  compute_permit_shadowing_result-ComparesShadowing h1 h2 =
      Ensures-mono (Zip (λ e. HasShadowing (laws.matches p e) (laws.matches q e)) req_envs) _ _
        (λ rs _ z. Zip-mono _ _ (λ e r. HasShadowing-ComparesShadowing _ _ r) req_envs rs z)
        (compute_permit_shadowing_result-HasShadowing laws p q vrs1 vrs2 req_envs z1 z2 h1 h2)

  -- For two policies with their vacuities, where the solver answers as documented:
  -- compute_forbid_shadowing_result does not panic, and each of its results is equivalent only
  -- where both match the same requests, and a shadowing only where the one matches all that the
  -- other does and more; where neither policy is vacuous at the request environment, each matching
  -- some request but not all, it is equivalent and a shadowing exactly there.
  pub compute_forbid_shadowing_result-ComparesShadowing :
      Ensures
        (Zip (λ e. ComparesShadowing (laws.matches p e) (laws.matches q e)) req_envs)
        (compute_forbid_shadowing_result c ffi p vrs1 q vrs2 req_envs)
  compute_forbid_shadowing_result-ComparesShadowing =
      Ensures-mono (Zip (λ e. HasShadowing (laws.matches p e) (laws.matches q e)) req_envs) _ _
        (λ rs _ z. Zip-mono _ _ (λ e r. HasShadowing-ComparesShadowing _ _ r) req_envs rs z)
        (compute_forbid_shadowing_result-HasShadowing laws p q vrs1 vrs2 req_envs z1 z2)

  -- For a forbid policy p and a permit policy q with their vacuities, where the solver answers as
  -- documented: compute_forbid_overrides_shadow_result does not panic, and a result of it is an
  -- override only where p matches all that q matches; where neither policy is vacuous at the
  -- request environment, each matching some request but not all, it is one exactly there.
  pub compute_forbid_overrides_shadow_result-ComparesOverride :
      Ensures
        (Zip (λ e. ComparesOverride (laws.matches p e) (laws.matches q e)) req_envs)
        (compute_forbid_overrides_shadow_result c ffi p vrs1 q vrs2 req_envs)
  compute_forbid_overrides_shadow_result-ComparesOverride =
      Ensures-mono (Zip (λ e. HasOverride (laws.matches p e) (laws.matches q e)) req_envs) _ _
        (λ rs _ z. Zip-mono _ _ (λ e r. HasOverride-ComparesOverride _ _ r) req_envs rs z)
        (compute_forbid_overrides_shadow_result-HasOverride laws p q vrs1 vrs2 req_envs z1 z2)
