-- ===== src/Analysis/Meaning.antt =====
-- cedar-lean-cli/src/analysis.rs: what the results of the analyses say of the requests that the
-- policies match, where the solver answers as documented.
use cedar_spec.Base.{
  attempt-eq, ◌≡◌, subst, ◌↔◌, Bool, List, [], ◌∷◌, Exec, Ensures, Ensures-bind, Zip, for_each,
  for_each-Zip, inr,
}
use mathlib.Core.Path.{fun_ext}
use cedar_spec.Cedar.{Cedar, LeanFfi, permit}
use cedar_spec.Analysis.Vacuity.{VacuityResult, policy_vacuous, policyset_vacuous}
use cedar_spec.Analysis.Shadowing.{
  ShadowingResult, zip3, compute_permit_shadowing_result, compute_forbid_shadowing_result,
  compute_forbid_overrides_shadow_result,
}
use cedar_spec.Analysis.Verdicts.{
  SolverLaws, HasVacuity, HasShadowing, HasOverride, Within, vacuity_of-HasVacuity,
  shadowing_entry-HasShadowing, override_entry-HasOverride,
}

Within-iff :
    {R X : Type 0} {f f' g g' : R → Bool}
    → ((r : R) → f r ≡ f' r)
    → ((r : R) → g r ≡ g' r)
    → X ↔ Within f g
    → X ↔ Within f' g'
Within-iff {X = X} {f' = f'} {g = g} p q h =
    subst (λ t. X ↔ Within f' t) (fun_ext q) (subst (λ t. X ↔ Within t g) (fun_ext p) h)

-- The loop over three lists, where the first two say something of the third.
for_zip3 :
    {E A B C D : Type 0} (M : C → A → Type 0) (N : C → B → Type 0) (P : C → D → Type 0)
    (run : A × B × C → Exec E D) (as' : List A) (bs : List B) (cs : List C)
    → ((a : A) (b : B) (d : C) → M d a → N d b → Ensures (P d) (run (a, b, d)))
    → Zip M cs as'
    → Zip N cs bs
    → Ensures (Zip P cs) (for_each run (zip3 as' bs cs))
unfolding for_each zip3
for_zip3 M N P run [] bs [] h z y = tt
for_zip3 M N P run (a ∷ as') bs [] h z y = absurd z
for_zip3 M N P run [] bs (d ∷ cs) h z y = absurd z
for_zip3 M N P run (a ∷ as') [] (d ∷ cs) h z y = absurd y
for_zip3 M N P run (a ∷ as') (b ∷ bs) (d ∷ cs) h z y =
    Ensures-bind (P d) (Zip P (d ∷ cs)) (run (a, b, d)) _ (h a b d z.0 y.0) (λ r _ p.
      Ensures-bind (Zip P cs) (Zip P (d ∷ cs)) (for_each run (zip3 as' bs cs)) _
        (for_zip3 M N P run as' bs cs h z.1 y.1) (λ rs _ q. (p, q)))

module _ {c : Cedar} {ffi : LeanFfi c} (laws : SolverLaws c ffi) where
  open c use {Policy, PolicySet, RequestEnv, BoxedError, FfiError}

  -- The vacuity of a policy in an environment, as the solver's answers determine it.
  abbrev pub Vacuity : Policy → RequestEnv → VacuityResult → Type 0
  Vacuity p e = HasVacuity (laws.matches p e)

  -- Where the solver answers as documented, the results of `policy_vacuous` say, for each request
  -- environment, whether the policy matches all of its requests, none or some; it does not panic.
  pub policy_vacuous-HasVacuity :
      (p : Policy) (req_envs : List RequestEnv)
      → Ensures (Zip (Vacuity p) req_envs) (policy_vacuous c ffi p req_envs)
  unfolding policy_vacuous
  policy_vacuous-HasVacuity p req_envs = for_each-Zip (Vacuity p) _ req_envs (λ e.
      vacuity_of-HasVacuity BoxedError (laws.matches p e) _ _ (laws.always_matches p e)
        (laws.never_matches p e))

  -- Where the solver answers as documented, the results of `policyset_vacuous` say, for each
  -- request environment, whether the policy set allows all of its requests, none or some; it does
  -- not panic.
  pub policyset_vacuous-HasVacuity :
      (s : PolicySet) (req_envs : List RequestEnv)
      → Ensures
          (Zip (λ e. HasVacuity (laws.allows s e)) req_envs)
          (policyset_vacuous c ffi s req_envs)
  unfolding policyset_vacuous
  policyset_vacuous-HasVacuity s req_envs =
      for_each-Zip (λ e. HasVacuity (laws.allows s e)) _ req_envs
        (λ e.
          vacuity_of-HasVacuity BoxedError (laws.allows s e) _ _ (laws.always_allows s e)
            (laws.always_denies s e))

  module _ (p q : Policy) (vrs1 vrs2 : List VacuityResult) (req_envs : List RequestEnv)
      (z1 : Zip (Vacuity p) req_envs vrs1) (z2 : Zip (Vacuity q) req_envs vrs2) where
    abbrev Shadowing : List ShadowingResult → Type 0
    Shadowing = Zip (λ e. HasShadowing (laws.matches p e) (laws.matches q e)) req_envs

    -- For two permit policies with their vacuities, where the solver answers as documented: each
    -- result of `compute_permit_shadowing_result` is `equivalent` exactly where both match some
    -- request and the same ones, a shadowing exactly where both match some request and one matches
    -- strictly more, and otherwise `no_result`; it does not panic.
    pub compute_permit_shadowing_result-HasShadowing :
        c.effect p ≡ permit
        → c.effect q ≡ permit
        → Ensures
            (Zip (λ e. HasShadowing (laws.matches p e) (laws.matches q e)) req_envs)
            (compute_permit_shadowing_result c ffi p vrs1 q vrs2 req_envs)
    unfolding compute_permit_shadowing_result
    compute_permit_shadowing_result-HasShadowing ep eq =
        Ensures-bind (λ s. c.from_policy p ≡ inr s) Shadowing _ _ (attempt-eq _ (c.from_policy p))
          (λ s _ hs.
            Ensures-bind (λ t. c.from_policy q ≡ inr t) Shadowing _ _
              (attempt-eq _ (c.from_policy q))
              (λ t _ ht.
                for_zip3 (Vacuity p) (Vacuity q)
                  (λ e. HasShadowing (laws.matches p e) (laws.matches q e)) _ vrs1 vrs2 req_envs
                  (λ vr1 vr2 e u v.
                    shadowing_entry-HasShadowing BoxedError _ _ vr1 vr2 _ _ u v
                      (λ b h.
                        Within-iff (λ r. laws.allows_from_policy p s e r ep hs)
                          (λ r. laws.allows_from_policy q t e r eq ht) (laws.implies s t e b h))
                      (λ b h.
                        Within-iff (λ r. laws.allows_from_policy q t e r eq ht)
                          (λ r. laws.allows_from_policy p s e r ep hs) (laws.implies t s e b h)))
                  z1 z2))

    -- For two policies with their vacuities, where the solver answers as documented: each result of
    -- `compute_forbid_shadowing_result` is `equivalent` exactly where both match some request and
    -- the same ones, and a shadowing exactly where both match some request and one matches strictly
    -- more; it does not panic.
    pub compute_forbid_shadowing_result-HasShadowing :
        Ensures
          (Zip (λ e. HasShadowing (laws.matches p e) (laws.matches q e)) req_envs)
          (compute_forbid_shadowing_result c ffi p vrs1 q vrs2 req_envs)
    unfolding compute_forbid_shadowing_result
    compute_forbid_shadowing_result-HasShadowing =
        for_zip3 (Vacuity p) (Vacuity q) (λ e. HasShadowing (laws.matches p e) (laws.matches q e)) _
          vrs1 vrs2 req_envs
          (λ vr1 vr2 e u v.
            shadowing_entry-HasShadowing BoxedError _ _ vr1 vr2 _ _ u v (laws.matches_implies p q e)
              (laws.matches_implies q p e))
          z1 z2

    -- For a forbid policy `p` and a permit policy `q` with their vacuities, where the solver
    -- answers as documented: a result of `compute_forbid_overrides_shadow_result` is an override
    -- exactly where each matches some request but not all and `p` matches all that `q` matches; it
    -- does not panic.
    pub compute_forbid_overrides_shadow_result-HasOverride :
        Ensures
          (Zip (λ e. HasOverride (laws.matches p e) (laws.matches q e)) req_envs)
          (compute_forbid_overrides_shadow_result c ffi p vrs1 q vrs2 req_envs)
    unfolding compute_forbid_overrides_shadow_result
    compute_forbid_overrides_shadow_result-HasOverride =
        for_zip3 (Vacuity p) (Vacuity q) (λ e. HasOverride (laws.matches p e) (laws.matches q e)) _
          vrs1 vrs2 req_envs
          (λ vr1 vr2 e u v.
            override_entry-HasOverride BoxedError _ _ vr1 vr2 _ u v (laws.matches_implies q p e))
          z1 z2
