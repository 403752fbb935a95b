-- ===== src/Analysis/Reports/Documented.antt =====
-- cedar-lean-cli/src/analysis.rs: the findings of a run in the words of cedar-lean-cli/README.md, for
-- policies that are not vacuous.
use cedar_spec.Base.{◌≤◌, ◌≡◌, ◌≢◌, true, List, length, Zip, In}
use cedar_spec.Base.Assoc.{contains}
use cedar_spec.Cedar.{Cedar, LeanFfi, Effect, permit, forbid}
use cedar_spec.Analysis.Classes.{Disjoint}
use cedar_spec.Analysis.Documented.{NonVacuous, Same, Strictly}
use cedar_spec.Analysis.Verdicts.{SolverLaws, Within}
use cedar_spec.Analysis.Report.{SetMap, PerSigFindings, request_env_ser}
use cedar_spec.Analysis.Signatures.{listed}
use cedar_spec.Analysis.Reports.{ArePolicies}
use cedar_spec.Analysis.Reports.Described.{with_findings}

module _ (c : Cedar) (ffi : LeanFfi c) (laws : SolverLaws c ffi) where
  open c use {Policy, PolicyId, RequestEnv}

  -- Every request that the permit policy allows, the forbid policy denies.
  pub record MeetsOverride (e : RequestEnv) (p q : Policy) : Type 0 where
    pub permits : c.effect p ≡ permit
    pub forbids : c.effect q ≡ forbid
    pub within : Within (laws.matches p e) (laws.matches q e)

  -- Of two policies of an effect, the second matches all that the first does, and more.
  pub record MeetsShadow (effect : Effect) (e : RequestEnv) (p q : Policy) : Type 0 where
    pub first_effect : c.effect p ≡ effect
    pub second_effect : c.effect q ≡ effect
    pub strictly : Strictly (laws.matches p e) (laws.matches q e)

  -- Two policies of one effect match the same requests.
  pub record MeetsRedundant (e : RequestEnv) (p q : Policy) : Type 0 where
    pub same_effect : c.effect p ≡ c.effect q
    pub same : Same (laws.matches p e) (laws.matches q e)

  module _ (ps : List Policy) where
    -- All that is listed meets the definition, and any two different policies that are not vacuous
    -- and meet it are listed.
    pub record ListsAll (e : RequestEnv) (Meets : Policy → Policy → Type 0) (m : SetMap PolicyId)
        : Type 0 where
      pub sound :
          (k j : PolicyId)
          → listed c.policy_id_discrete m k j ≡ true
          → ArePolicies c ffi laws ps Meets k j
      pub complete :
          (p q : Policy)
          → In p ps
          → In q ps
          → ¬ (p ≡ q)
          → NonVacuous (laws.matches p e)
          → NonVacuous (laws.matches q e)
          → Meets p q
          → listed c.policy_id_discrete m (c.id p) (c.id q) ≡ true

    -- Disjoint classes of redundant policies, in which any two that are not vacuous stand together.
    pub record ClassesAll (e : RequestEnv) (classes : List (List PolicyId)) : Type 0 where
      pub large : (xs : List PolicyId) → In xs classes → 2 ≤ length xs
      pub disjoint : Disjoint c.policy_id_discrete classes
      pub sound :
          (xs : List PolicyId) (k j : PolicyId)
          → In xs classes
          → contains c.policy_id_discrete k xs ≡ true
          → contains c.policy_id_discrete j xs ≡ true
          → k ≢ j
          → ArePolicies c ffi laws ps (MeetsRedundant e) k j
      pub complete :
          (p q : Policy)
          → In p ps
          → In q ps
          → ¬ (p ≡ q)
          → NonVacuous (laws.matches p e)
          → NonVacuous (laws.matches q e)
          → MeetsRedundant e p q
          → (xs : List PolicyId) × In xs classes
            × (contains c.policy_id_discrete (c.id p) xs ≡ true)
            × (contains c.policy_id_discrete (c.id q) xs ≡ true)

    pub record Documents (e : RequestEnv) (sig : PerSigFindings PolicyId) : Type 0 where
      pub env : sig.req_env ≡ request_env_ser c e
      pub overridden : ListsAll e (MeetsOverride e) sig.permit_overridden_by_forbids
      pub permits : ListsAll e (MeetsShadow permit e) sig.permit_shadowed_by_permits
      pub forbids : ListsAll e (MeetsShadow forbid e) sig.forbid_shadowed_by_forbids
      pub classes : ClassesAll e sig.equiv_classes

    pub record IsDocumented (es : List RequestEnv) (sigs : List (PerSigFindings PolicyId))
        : Type 0 where
      pub all : List (PerSigFindings PolicyId)
      pub documented : Zip Documents es all
      pub kept : sigs ≡ with_findings all
