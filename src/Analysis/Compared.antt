-- ===== src/Analysis/Compared.antt =====
-- cedar-lean-cli/src/analysis.rs: what one round of the loop over pairs leaves in the findings, in
-- terms of the results that the comparison computed. No round panics.
use cedar_spec.Base.{
  ℕ, ◌≡◌, refl, sym, subst, ◌∙◌, Bool, ◌&&◌, ◌||◌, List, [], ◌∷◌, Exec, ok, length, Ensures,
  Ensures-bind, Ensures-mono, Zip, Zip-length, for_each, for_each-Zip, test, arith, attempt, ◌⊎◌,
  inl, inr,
}
use cedar_spec.Cedar.{Cedar, LeanFfi, Effect, permit, forbid}
use cedar_spec.Cli.Err.{ExecError}
use cedar_spec.Analysis.Vacuity.{VacuityResult}
use cedar_spec.Analysis.Shadowing.{
  ShadowingResult, ShadowingResult-discrete, equivalent, policy1_shadows2, policy2_shadows1, zip3,
  shadowing_entry, override_entry, OverrideResult, OverrideResult-discrete, overrides,
  compute_permit_shadowing_result, compute_forbid_shadowing_result,
  compute_forbid_overrides_shadow_result,
}
use cedar_spec.Analysis.Update.{FindingsMap}
use cedar_spec.Analysis.Marks.{reported, hit, IsSized, IsUpdated, Ensures-update}
use cedar_spec.Analysis.Pairs.{Findings, update_shadowing, compare_pair}

pub length-zip3 :
    {A B C : Type 0} (as' : List A) (bs : List B) (cs : List C)
    → length as' ≡ length cs
    → length bs ≡ length cs
    → length (zip3 as' bs cs) ≡ length cs
unfolding zip3
length-zip3 [] bs [] h k = refl
length-zip3 [] bs (d ∷ cs) h k = h
length-zip3 (a ∷ as') [] cs h k = k
length-zip3 (a ∷ as') (b ∷ bs) [] h k = refl
length-zip3 (a ∷ as') (b ∷ bs) (d ∷ cs) h k =
    omega (arith, length-zip3 as' bs cs (omega arith) (omega arith))

-- The rounds of the loops do not panic, since the solver's calls do not.
pub attempt-Ensures :
    {E F A : Type 0} (wrap : F → E) (m : F ⊎ A) → Ensures (λ _. Unit {0}) (attempt wrap m)
attempt-Ensures wrap (inl e) = tt
attempt-Ensures wrap (inr a) = tt

shadowing_entry-Ensures :
    (E : Type 0) {F : Type 0} (vr1 vr2 : VacuityResult) (fwd bwd : F ⊎ Bool)
    → Ensures (λ _. Unit {0}) (shadowing_entry {E = E} vr1 vr2 fwd bwd)
unfolding shadowing_entry
shadowing_entry-Ensures E vr1 vr2 fwd bwd = ground arith

override_entry-Ensures :
    (E : Type 0) {F : Type 0} (vr1 vr2 : VacuityResult) (implied : F ⊎ Bool)
    → Ensures (λ _. Unit {0}) (override_entry {E = E} vr1 vr2 implied)
unfolding override_entry
override_entry-Ensures E vr1 vr2 implied = ground arith

module _ (c : Cedar) (ffi : LeanFfi c) where
  open c use {PolicyId, Policy, RequestEnv, BoxedError, FfiError}

  -- Where `p` and `q` are the two policies of a pair, in this order.
  abbrev pub is_pair : PolicyId → PolicyId → PolicyId → PolicyId → Bool
  is_pair id1 id2 p q = test (c.policy_id_discrete id1 p) && test (c.policy_id_discrete id2 q)

  abbrev pub reports : FindingsMap PolicyId → PolicyId → ℕ → PolicyId → Bool
  reports = reported c.policy_id_discrete

  abbrev pub Sized : ℕ → FindingsMap PolicyId → Type 0
  Sized = IsSized c.policy_id_discrete

  abbrev pub found : List ShadowingResult → ShadowingResult → ℕ → Bool
  found = hit c.policy_id_discrete ShadowingResult-discrete

  -- The two maps after a comparison of policies of one effect.
  pub record IsShadowed (id1 id2 : PolicyId) (results : List ShadowingResult)
      (redundant shadowed : FindingsMap PolicyId)
      (after : FindingsMap PolicyId × FindingsMap PolicyId) : Type 0 where
    pub redundant_sized : Sized (length results) after.0
    pub shadowed_sized : Sized (length results) after.1
    pub redundant_reports :
        (p : PolicyId) (i : ℕ) (q : PolicyId)
        → reports after.0 p i q ≡ (
            reports redundant p i q
            || (found results equivalent i && (is_pair id1 id2 p q || is_pair id2 id1 p q)))
    pub shadowed_reports :
        (p : PolicyId) (i : ℕ) (q : PolicyId)
        → reports after.1 p i q ≡ (
            reports shadowed p i q
            || ((found results policy2_shadows1 i && is_pair id1 id2 p q)
                || (found results policy1_shadows2 i && is_pair id2 id1 p q)))

  update_shadowing-IsShadowed :
      (id1 id2 : PolicyId) (results : List ShadowingResult)
      (redundant shadowed : FindingsMap PolicyId)
      → Sized (length results) redundant
      → Sized (length results) shadowed
      → Ensures
          (IsShadowed id1 id2 results redundant shadowed)
          (update_shadowing c ffi id1 id2 results redundant shadowed)
  unfolding update_shadowing
  update_shadowing-IsShadowed id1 id2 results redundant shadowed zr zs =
      let dec = c.policy_id_discrete in
      let eq = ShadowingResult-discrete in
      let Goal = IsShadowed id1 id2 results redundant shadowed in
      Ensures-update dec eq Goal id1 id2 results redundant equivalent _ zr (λ r1 u1.
        Ensures-update dec eq Goal id2 id1 results r1 equivalent _ u1.still_sized (λ r2 u2.
          Ensures-update dec eq Goal id1 id2 results shadowed policy2_shadows1 _ zs (λ s1 v1.
            Ensures-update dec eq Goal id2 id1 results s1 policy1_shadows2 _ v1.still_sized
              (λ s2 v2. record {
                redundant_sized = u2.still_sized;
                shadowed_sized = v2.still_sized;
                redundant_reports = λ p i q. ground (arith, u1.reports p i q, u2.reports p i q);
                shadowed_reports = λ p i q. ground (arith, v1.reports p i q, v2.reports p i q);
              }))))

  module _ (req_envs : List RequestEnv) where
    -- One result for each request environment.
    OfLength : {T : Type 0} → List T → Type 0
    OfLength results = length results ≡ length req_envs

    for_each-OfLength :
        {A T : Type 0} (run : A → Exec (ExecError BoxedError FfiError) T) (xs : List A)
        → length xs ≡ length req_envs
        → ((x : A) → Ensures (λ _. Unit {0}) (run x))
        → Ensures OfLength (for_each run xs)
    unfolding OfLength
    for_each-OfLength run xs h k =
        Ensures-mono (Zip (λ _ _. Unit {0}) xs) OfLength (for_each run xs)
          (λ ys _ z. Zip-length _ xs ys z ∙ h) (for_each-Zip (λ _ _. Unit {0}) run xs k)

    module _ (policy1 : Policy) (vrs1 : List VacuityResult) (policy2 : Policy)
        (vrs2 : List VacuityResult) (h1 : length vrs1 ≡ length req_envs)
        (h2 : length vrs2 ≡ length req_envs) where
      permit_shadowing-OfLength :
          Ensures OfLength
            (compute_permit_shadowing_result c ffi policy1 vrs1 policy2 vrs2 req_envs)
      unfolding compute_permit_shadowing_result
      permit_shadowing-OfLength =
          Ensures-bind (λ _. Unit {0}) OfLength _ _ (attempt-Ensures _ (c.from_policy policy1))
            (λ pset1 _ _.
              Ensures-bind (λ _. Unit {0}) OfLength _ _ (attempt-Ensures _ (c.from_policy policy2))
                (λ pset2 _ _.
                  for_each-OfLength _ _ (length-zip3 vrs1 vrs2 req_envs h1 h2)
                    (λ (vr1, vr2, e). shadowing_entry-Ensures (BoxedError) vr1 vr2 _ _)))

      forbid_shadowing-OfLength :
          Ensures OfLength
            (compute_forbid_shadowing_result c ffi policy1 vrs1 policy2 vrs2 req_envs)
      unfolding compute_forbid_shadowing_result
      forbid_shadowing-OfLength =
          for_each-OfLength _ _ (length-zip3 vrs1 vrs2 req_envs h1 h2)
            (λ (vr1, vr2, e). shadowing_entry-Ensures (BoxedError) vr1 vr2 _ _)

      overrides-OfLength :
          Ensures OfLength
            (compute_forbid_overrides_shadow_result c ffi policy1 vrs1 policy2 vrs2 req_envs)
      unfolding compute_forbid_overrides_shadow_result
      overrides-OfLength =
          for_each-OfLength _ _ (length-zip3 vrs1 vrs2 req_envs h1 h2)
            (λ (vr1, vr2, e). override_entry-Ensures (BoxedError) vr1 vr2 _)

    -- Every map of the findings has one set for each request environment.
    pub record AllSized (f : Findings PolicyId) : Type 0 where
      pub redundant_sized : Sized (length req_envs) f.redundant
      pub permits_sized : Sized (length req_envs) f.permit_shadowed_by_permit
      pub overridden_sized : Sized (length req_envs) f.permit_overridden_by_forbid
      pub forbids_sized : Sized (length req_envs) f.forbid_shadowed_by_forbid

    abbrev Updated :
        PolicyId
        → PolicyId
        → List OverrideResult
        → FindingsMap PolicyId
        → FindingsMap PolicyId
        → Type 0
    Updated id1 id2 results =
        IsUpdated c.policy_id_discrete OverrideResult-discrete results overrides id1 id2

    -- What a comparison changes, by the effects of the two policies.
    abbrev pub Compared :
        Effect
        → Effect
        → Policy
        → List VacuityResult
        → Policy
        → List VacuityResult
        → Findings PolicyId
        → Findings PolicyId
        → Type 0
    Compared permit permit policy1 svr policy2 tvr f f' =
        (results : List ShadowingResult) × (compute_permit_shadowing_result c ffi policy1 svr
            policy2 tvr req_envs
          ≡ ok results)
        × IsShadowed (c.id policy1) (c.id policy2) results f.redundant f.permit_shadowed_by_permit
            (f'.redundant, f'.permit_shadowed_by_permit)
        × (f'.permit_overridden_by_forbid ≡ f.permit_overridden_by_forbid)
        × (f'.forbid_shadowed_by_forbid ≡ f.forbid_shadowed_by_forbid)
    Compared permit forbid policy1 svr policy2 tvr f f' =
        (results : List OverrideResult) × (compute_forbid_overrides_shadow_result c ffi policy2 tvr
            policy1 svr req_envs
          ≡ ok results)
        × Updated (c.id policy1) (c.id policy2) results f.permit_overridden_by_forbid
            f'.permit_overridden_by_forbid
        × (f'.redundant ≡ f.redundant)
        × (f'.permit_shadowed_by_permit ≡ f.permit_shadowed_by_permit)
        × (f'.forbid_shadowed_by_forbid ≡ f.forbid_shadowed_by_forbid)
    Compared forbid permit policy1 svr policy2 tvr f f' =
        (results : List OverrideResult) × (compute_forbid_overrides_shadow_result c ffi policy1 svr
            policy2 tvr req_envs
          ≡ ok results)
        × Updated (c.id policy2) (c.id policy1) results f.permit_overridden_by_forbid
            f'.permit_overridden_by_forbid
        × (f'.redundant ≡ f.redundant)
        × (f'.permit_shadowed_by_permit ≡ f.permit_shadowed_by_permit)
        × (f'.forbid_shadowed_by_forbid ≡ f.forbid_shadowed_by_forbid)
    Compared forbid forbid policy1 svr policy2 tvr f f' =
        (results : List ShadowingResult) × (compute_forbid_shadowing_result c ffi policy1 svr
            policy2 tvr req_envs
          ≡ ok results)
        × IsShadowed (c.id policy1) (c.id policy2) results f.redundant f.forbid_shadowed_by_forbid
            (f'.redundant, f'.forbid_shadowed_by_forbid)
        × (f'.permit_overridden_by_forbid ≡ f.permit_overridden_by_forbid)
        × (f'.permit_shadowed_by_permit ≡ f.permit_shadowed_by_permit)

    -- Where the vacuities of two policies have a result for each request environment and the maps
    -- of findings are sized, the comparison of the two does not panic and keeps the maps sized. By
    -- their effects: two policies of one effect are marked redundant with each other where they are
    -- equivalent, and one as shadowed where the other is strictly wider; a permit is marked as
    -- overridden by a forbid where it is; no other mark is added and the other maps stay as they
    -- are.
    pub compare_pair-Compared :
        (e1 e2 : Effect) (policy1 : Policy) (svr : List VacuityResult) (policy2 : Policy)
        (tvr : List VacuityResult) (f : Findings PolicyId)
        → length svr ≡ length req_envs
        → length tvr ≡ length req_envs
        → AllSized f
        → Ensures
            (λ f'. AllSized f' × Compared e1 e2 policy1 svr policy2 tvr f f')
            (compare_pair c ffi req_envs e1 e2 policy1 svr policy2 tvr f)
    unfolding compare_pair OfLength
    compare_pair-Compared permit permit policy1 svr policy2 tvr f h1 h2 z =
        let Goal : Findings PolicyId → Type 0 =
          λ f'. AllSized f' × Compared permit permit policy1 svr policy2 tvr f f' in
        Ensures-bind OfLength Goal _ _ (permit_shadowing-OfLength policy1 svr policy2 tvr h1 h2)
          (λ results e l.
            Ensures-bind
              (IsShadowed (c.id policy1) (c.id policy2) results f.redundant
                f.permit_shadowed_by_permit)
              Goal _ _
              (update_shadowing-IsShadowed (c.id policy1) (c.id policy2) results f.redundant
                f.permit_shadowed_by_permit
                (subst (λ n. Sized n f.redundant) (sym l) z.redundant_sized)
                (subst (λ n. Sized n f.permit_shadowed_by_permit) (sym l) z.permits_sized))
              (λ (r, s) _ u. (
                record {
                  redundant_sized = subst (λ n. Sized n r) l u.redundant_sized;
                  permits_sized = subst (λ n. Sized n s) l u.shadowed_sized;
                  overridden_sized = z.overridden_sized;
                  forbids_sized = z.forbids_sized;
                },
                (results, e, u, refl, refl),
              )))
    compare_pair-Compared permit forbid policy1 svr policy2 tvr f h1 h2 z =
        Ensures-bind OfLength _ _ _ (overrides-OfLength policy2 tvr policy1 svr h2 h1)
          (λ results e l.
            Ensures-update c.policy_id_discrete OverrideResult-discrete _ (c.id policy1)
              (c.id policy2) results f.permit_overridden_by_forbid overrides _
              (subst (λ n. Sized n f.permit_overridden_by_forbid) (sym l) z.overridden_sized)
              (λ o u. (
                record {
                  redundant_sized = z.redundant_sized;
                  permits_sized = z.permits_sized;
                  overridden_sized = subst (λ n. Sized n o) l u.still_sized;
                  forbids_sized = z.forbids_sized;
                },
                (results, e, u, refl, refl, refl),
              )))
    compare_pair-Compared forbid permit policy1 svr policy2 tvr f h1 h2 z =
        Ensures-bind OfLength _ _ _ (overrides-OfLength policy1 svr policy2 tvr h1 h2)
          (λ results e l.
            Ensures-update c.policy_id_discrete OverrideResult-discrete _ (c.id policy2)
              (c.id policy1) results f.permit_overridden_by_forbid overrides _
              (subst (λ n. Sized n f.permit_overridden_by_forbid) (sym l) z.overridden_sized)
              (λ o u. (
                record {
                  redundant_sized = z.redundant_sized;
                  permits_sized = z.permits_sized;
                  overridden_sized = subst (λ n. Sized n o) l u.still_sized;
                  forbids_sized = z.forbids_sized;
                },
                (results, e, u, refl, refl, refl),
              )))
    compare_pair-Compared forbid forbid policy1 svr policy2 tvr f h1 h2 z =
        let Goal : Findings PolicyId → Type 0 =
          λ f'. AllSized f' × Compared forbid forbid policy1 svr policy2 tvr f f' in
        Ensures-bind OfLength Goal _ _ (forbid_shadowing-OfLength policy1 svr policy2 tvr h1 h2)
          (λ results e l.
            Ensures-bind
              (IsShadowed (c.id policy1) (c.id policy2) results f.redundant
                f.forbid_shadowed_by_forbid)
              Goal _ _
              (update_shadowing-IsShadowed (c.id policy1) (c.id policy2) results f.redundant
                f.forbid_shadowed_by_forbid
                (subst (λ n. Sized n f.redundant) (sym l) z.redundant_sized)
                (subst (λ n. Sized n f.forbid_shadowed_by_forbid) (sym l) z.forbids_sized))
              (λ (r, s) _ u. (
                record {
                  redundant_sized = subst (λ n. Sized n r) l u.redundant_sized;
                  permits_sized = z.permits_sized;
                  overridden_sized = z.overridden_sized;
                  forbids_sized = subst (λ n. Sized n s) l u.shadowed_sized;
                },
                (results, e, u, refl, refl),
              )))
