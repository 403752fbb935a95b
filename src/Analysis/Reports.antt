-- ===== src/Analysis/Reports.antt =====
-- cedar-lean-cli/src/analysis.rs: what `analyze_policyset` reports of the policies at each request
-- environment.
pub mod Described
pub mod Complete
pub mod Documented
use cedar_spec.Base.{
  inl, inr, ℕ, zero, suc, ◌+◌, ◌≤◌, ◌<◌, ◌≡◌, ◌≢◌, refl, sym, subst, ap, ◌∙◌, true, List, [], ◌∷◌,
  get_elem?, some, length, Ensures, Ensures-bind, Ensures-mono, Zip, In, arith, leb, if◌then◌else◌,
}
use cedar_spec.Base.Assoc.{contains}
use cedar_spec.Cedar.{Cedar, LeanFfi, permit, forbid}
use cedar_spec.Cli.Err.{ExecError}
use cedar_spec.Analysis.Marks.{reported}
use cedar_spec.Analysis.Pairs.{Findings}
use cedar_spec.Analysis.Compared.{AllSized}
use cedar_spec.Analysis.Classes.{
  Disjoint, IsPartition, IsEquivalence, related, per_sig_findings_new-IsPartition,
}
use cedar_spec.Analysis.Report.{
  SetMap, PerSigFindings, nfindings, RequestEnvSer, request_env_ser, per_sig_findings_new,
  findings_at, findings_from, at_signature,
}
use cedar_spec.Analysis.Signatures.{listed, related_cases, listed-related, listed-IsEquivalence}
use cedar_spec.Analysis.Verdicts.{SolverLaws}
use cedar_spec.Analysis.Overridden.{below}
use cedar_spec.Analysis.Loop.{IdsDistinct, IsRecorded}
use cedar_spec.Analysis.Loop.Overrides.{IsOverridden, overridden_view}
use cedar_spec.Analysis.Loop.Shadows.{IsNarrower, IsRedundant}
use cedar_spec.Analysis.Loop.Redundant.{redundant_view}
use cedar_spec.Analysis.Loop.Narrower.{permits_view, forbids_view}

module _ (c : Cedar) (ffi : LeanFfi c) (laws : SolverLaws c ffi) (ps : List c.Policy) where
  open c use {Policy, PolicyId, RequestEnv, BoxedError, FfiError}

  -- Two policies of the list have these ids and are related.
  pub record ArePolicies (Means : Policy → Policy → Type 0) (k j : PolicyId) : Type 0 where
    pub first : Policy
    pub second : Policy
    pub in_first : In first ps
    pub in_second : In second ps
    pub id_first : c.id first ≡ k
    pub id_second : c.id second ≡ j
    pub means : Means first second

  -- A map lists policies that are related, and any two different ones that are.
  pub record IsListing (Means : Policy → Policy → Type 0) (m : SetMap PolicyId) : Type 0 where
    pub sound : (k j : PolicyId) → listed c.policy_id_discrete m k j ≡ true → ArePolicies Means k j
    pub complete :
        (p q : Policy)
        → In p ps
        → In q ps
        → ¬ (p ≡ q)
        → Means p q
        → listed c.policy_id_discrete m (c.id p) (c.id q) ≡ true

  -- Classes of two members at least, disjoint, in which exactly the redundant policies stand
  -- together.
  pub record IsClassing (e : RequestEnv) (classes : List (List PolicyId)) : Type 0 where
    pub large : (xs : List PolicyId) → In xs classes → 2 ≤ length xs
    pub disjoint : Disjoint c.policy_id_discrete classes
    pub sound :
        (xs : List PolicyId) (k j : PolicyId)
        → In xs classes
        → contains c.policy_id_discrete k xs ≡ true
        → contains c.policy_id_discrete j xs ≡ true
        → k ≢ j
        → ArePolicies (λ p q. IsRedundant c ffi laws p q e) k j
    pub complete :
        (p q : Policy)
        → In p ps
        → In q ps
        → ¬ (p ≡ q)
        → IsRedundant c ffi laws p q e
        → (xs : List PolicyId) × In xs classes
          × (contains c.policy_id_discrete (c.id p) xs ≡ true)
          × (contains c.policy_id_discrete (c.id q) xs ≡ true)

  -- The findings of a request environment are those of the policies.
  pub record Describes (e : RequestEnv) (sig : PerSigFindings PolicyId) : Type 0 where
    pub env : sig.req_env ≡ request_env_ser c e
    pub overridden :
        IsListing (λ p q. IsOverridden c ffi laws p q e) sig.permit_overridden_by_forbids
    pub permits :
        IsListing (λ p q. IsNarrower c ffi laws permit p q e) sig.permit_shadowed_by_permits
    pub forbids :
        IsListing (λ p q. IsNarrower c ffi laws forbid p q e) sig.forbid_shadowed_by_forbids
    pub classes : IsClassing e sig.equiv_classes

  module _ (ids : IdsDistinct c ps) (e : RequestEnv) (m : SetMap PolicyId)
      (l : IsListing (λ p q. IsRedundant c ffi laws p q e) m) where
    -- Two policies that are related and have different ids are listed.
    relist :
        {k j : PolicyId}
        → k ≢ j
        → ArePolicies (λ p q. IsRedundant c ffi laws p q e) k j
        → listed c.policy_id_discrete m k j ≡ true
    relist {k} {j} n a =
        let a1 = a.id_first in
        let a2 = a.id_second in
        subst (λ t. listed c.policy_id_discrete m k t ≡ true) a2
          (subst (λ t. listed c.policy_id_discrete m t (c.id a.second) ≡ true) a1
            (l.complete a.first a.second a.in_first a.in_second
              (λ same. n (sym a1 ∙ ap c.id same ∙ a2)) a.means))

    pub redundant-IsEquivalence : IsEquivalence c.policy_id_discrete m
    redundant-IsEquivalence =
        listed-IsEquivalence c.policy_id_discrete m
          (λ p q n h.
            let a = l.sound p q h in
            relist (λ same. n (sym same))
              (record {
                first = a.second;
                second = a.first;
                in_first = a.in_second;
                in_second = a.in_first;
                id_first = a.id_second;
                id_second = a.id_first;
                means = record {
                  same_effect = sym a.means.same_effect;
                  match = (a.means.match.1, a.means.match.0);
                  within = a.means.contains;
                  contains = a.means.within;
                };
              }))
          (λ p q r n h k.
            let a = l.sound p q h in
            let b = l.sound q r k in
            let mid : a.second ≡ b.first =
              ids a.second b.first a.in_second b.in_first (a.id_second ∙ sym b.id_first) in
            let d : IsRedundant c ffi laws a.second b.second e =
              subst (λ t. IsRedundant c ffi laws t b.second e) (sym mid) b.means in
            relist n (record {
              first = a.first;
              second = b.second;
              in_first = a.in_first;
              in_second = b.in_second;
              id_first = a.id_first;
              id_second = b.id_second;
              means = record {
                same_effect = a.means.same_effect ∙ d.same_effect;
                match = (a.means.match.0, d.match.1);
                within = λ r x. d.within r (a.means.within r x);
                contains = λ r x. a.means.contains r (d.contains r x);
              };
            }))

    pub IsClassing-partition :
        (classes : List (List PolicyId))
        → IsPartition c.policy_id_discrete m classes
        → IsClassing e classes
    IsClassing-partition classes part = record {
      large = λ xs i. (part.sound xs i).1.large;
      disjoint = part.disjoint;
      sound = λ xs k j i hk hj n.
          let (p, cl) = part.sound xs i in
          let pk : related c.policy_id_discrete m p k ≡ true = sym (cl.members k) ∙ hk in
          let pj : related c.policy_id_discrete m p j ≡ true = sym (cl.members j) ∙ hj in
          let kj =
            redundant-IsEquivalence.transitive k p j (redundant-IsEquivalence.symmetric p k pk)
              pj in
          elim (related_cases c.policy_id_discrete m k j kj) [
            | inl same ↦ absurd (n same)
            | inr h ↦ l.sound k j h
          ];
      complete = λ p q ip iq n d.
          part.complete (c.id p) (c.id q)
            (listed-related c.policy_id_discrete m (c.id p) (c.id q) (l.complete p q ip iq n d))
            (λ same. n (ids p q ip iq same));
    }
