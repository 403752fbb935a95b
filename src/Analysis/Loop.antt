-- ===== src/Analysis/Loop.antt =====
-- cedar-lean-cli/src/analysis.rs: what the loop of `analyze_policyset` over the pairs of policies
-- leaves in one of its maps, where the map and the relation that it records are parameters.

pub mod Recorded
pub mod Overrides
pub mod Shadows
pub mod Redundant
pub mod Narrower
use cedar_spec.Base.{
  ℕ, ◌≡◌, refl, sym, subst, ◌↔◌, ◌⊎◌, inl, inr, true, List, [], ◌∷◌, get_elem?, some, map, Ensures,
  Ensures-bind, Ensures-mono, Zip, Zip-length, In, In-append,
}
use cedar_spec.Base.Assoc.{lookup, lookup-All}
use cedar_spec.Cedar.{Cedar, LeanFfi, CombinationLaws, Effect}
use cedar_spec.Analysis.Vacuity.{VacuityResult}
use cedar_spec.Analysis.Update.{FindingsMap}
use cedar_spec.Analysis.Marks.{reported}
use cedar_spec.Analysis.Pairs.{Findings, no_findings, compare_policies, compare_pairs}
use cedar_spec.Analysis.Compared.{AllSized, Compared, compare_pair-Compared}
use cedar_spec.Analysis.Verdicts.{SolverLaws, HasVacuity}
use cedar_spec.Analysis.NoPanic.{IsPrecomputed, In-combinations, no_findings-AllSized}

-- Policies with one id are one policy.
abbrev pub IdsDistinct : (c : Cedar) → List c.Policy → Type 0
IdsDistinct c ps = (p q : c.Policy) → In p ps → In q ps → c.id p ≡ c.id q → p ≡ q

-- The pair of two policies, in one of the two orders.
abbrev pub IsPairOf : (c : Cedar) → c.Policy × c.Policy → c.Policy → c.Policy → Type 0
IsPairOf c x p q = ((p, q) ≡ x) ⊎ ((q, p) ≡ x)

abbrev pub InPairs : (c : Cedar) → List (c.Policy × c.Policy) → c.Policy → c.Policy → Type 0
InPairs c pairs p q =
    In {A = c.Policy × c.Policy} (p, q) pairs ⊎ In {A = c.Policy × c.Policy} (q, p) pairs

module _ (c : Cedar) (ffi : LeanFfi c) (laws : SolverLaws c ffi)
    (req_envs : List c.RequestEnv) where
  abbrev pub HasVacuities : c.Policy → List VacuityResult → Type 0
  HasVacuities p vrs = Zip (λ e. HasVacuity (laws.matches p e)) req_envs vrs

  -- The vacuities of the policies, by their ids.
  abbrev pub Known : List c.Policy → c.PolicyId → List VacuityResult → Type 0
  Known ps k vrs = (p : c.Policy) → In p ps → c.id p ≡ k → HasVacuities p vrs

module _ (c : Cedar) (ffi : LeanFfi c) (laws : SolverLaws c ffi) (req_envs : List c.RequestEnv)
    (view : Findings c.PolicyId → FindingsMap c.PolicyId)
    (Means : c.Policy → c.Policy → c.RequestEnv → Type 0) where
  open c use {Policy, PolicyId, RequestEnv}

  pub record Holds (k j : PolicyId) (e : RequestEnv) (p q : Policy) : Type 0 where
    pub first : c.id p ≡ k
    pub second : c.id q ≡ j
    pub means : Means p q e

  -- Two related policies with these ids, of which `Among` holds.
  abbrev pub Related : (Policy → Policy → Type 0) → PolicyId → PolicyId → RequestEnv → Type 0
  Related Among k j e = (p : Policy) × (q : Policy) × Among p q × Holds k j e p q

  pub Related-mono :
      {Among Among' : Policy → Policy → Type 0} {k j : PolicyId} {e : RequestEnv}
      → ((p q : Policy) → Among p q → Among' p q)
      → Related Among k j e
      → Related Among' k j e
  Related-mono f (p, q, h, d) = (p, q, f p q h, d)

  -- Policies are reported that were reported, or that are related.
  abbrev pub Adds : (Policy → Policy → Type 0) → Findings PolicyId → Findings PolicyId → Type 0
  Adds Among f f' =
      (k j : PolicyId) (i : ℕ) (e : RequestEnv)
      → get_elem? req_envs i ≡ some e
      → (reported c.policy_id_discrete (view f') k i j ≡ true)
        ↔ ((reported c.policy_id_discrete (view f) k i j ≡ true) ⊎ Related Among k j e)

  -- What is added is related, in one of the two orders of the pair.
  pub Adds-pair :
      (p1 p2 : Policy) (f f' : Findings PolicyId)
      → ((k j : PolicyId) (i : ℕ) (e : RequestEnv)
          → get_elem? req_envs i ≡ some e
          → (reported c.policy_id_discrete (view f') k i j ≡ true) ↔ (
              (reported c.policy_id_discrete (view f) k i j ≡ true)
              ⊎ (Holds k j e p1 p2 ⊎ Holds k j e p2 p1)))
      → Adds (IsPairOf c (p1, p2)) f f'
  Adds-pair p1 p2 f f' h k j i e at = (
    λ r. elim ((h k j i e at).0 r) [
      | inl r' ↦ inl r'
      | inr (inl d) ↦ inr (p1, p2, inl refl, d)
      | inr (inr d) ↦ inr (p2, p1, inr refl, d)
    ],
    λ r. elim r [
      | inl r' ↦ (h k j i e at).1 (inl r')
      | inr (p, q, inl y, d) ↦ (h k j i e at).1 (inr (inl (subst (λ t. Holds k j e t.0 t.1) y d)))
      | inr (p, q, inr y, d) ↦ (h k j i e at).1 (inr (inr (subst (λ t. Holds k j e t.1 t.0) y d)))
    ],
  )

  -- Nothing is added for a pair that is not related.
  pub Adds-none :
      (p1 p2 : Policy) (f f' : Findings PolicyId)
      → view f' ≡ view f
      → ((e : RequestEnv) → ¬ Means p1 p2 e)
      → ((e : RequestEnv) → ¬ Means p2 p1 e)
      → Adds (IsPairOf c (p1, p2)) f f'
  Adds-none p1 p2 f f' same n12 n21 = Adds-pair p1 p2 f f' (λ k j i e at. (
    λ r. inl (subst (λ o. reported c.policy_id_discrete o k i j ≡ true) same r),
    λ r. elim r [
      | inl r' ↦ subst (λ o. reported c.policy_id_discrete o k i j ≡ true) (sym same) r'
      | inr (inl d) ↦ absurd (n12 e d.means)
      | inr (inr d) ↦ absurd (n21 e d.means)
    ],
  ))

  -- What is to be shown of a round, by the effects of its policies.
  abbrev pub Round : Type 0
  Round =
      (e1 e2 : Effect) (p1 p2 : Policy) (svr tvr : List VacuityResult) (f f' : Findings PolicyId)
      → c.effect p1 ≡ e1
      → c.effect p2 ≡ e2
      → HasVacuities c ffi laws req_envs p1 svr
      → HasVacuities c ffi laws req_envs p2 tvr
      → Compared c ffi req_envs e1 e2 p1 svr p2 tvr f f'
      → Adds (IsPairOf c (p1, p2)) f f'

  pub Adds-then :
      (x : Policy × Policy) (pairs : List (Policy × Policy)) (f f1 f' : Findings PolicyId)
      → Adds (IsPairOf c x) f f1
      → Adds (InPairs c pairs) f1 f'
      → Adds (InPairs c (x ∷ pairs)) f f'
  Adds-then x pairs f f1 f' first later k j i e at =
      let a = first k j i e at in
      let b = later k j i e at in
      (
        λ r. elim (b.0 r) [
          | inl r1 ↦ elim (a.0 r1) [
            | inl r0 ↦ inl r0
            | inr m ↦
                inr (Related-mono (λ p q h. elim h [ inl y ↦ inl (inl y) | inr y ↦ inr (inl y) ]) m)
          ]
          | inr m ↦
              inr (Related-mono (λ p q h. elim h [ inl y ↦ inl (inr y) | inr y ↦ inr (inr y) ]) m)
        ],
        λ r. elim r [
          | inl r0 ↦ b.1 (inl (a.1 (inl r0)))
          | inr (p, q, inl (inl y), d) ↦ b.1 (inl (a.1 (inr (p, q, inl y, d))))
          | inr (p, q, inl (inr y), d) ↦ b.1 (inr (p, q, inl y, d))
          | inr (p, q, inr (inl y), d) ↦ b.1 (inl (a.1 (inr (p, q, inr y, d))))
          | inr (p, q, inr (inr y), d) ↦ b.1 (inr (p, q, inr y, d))
        ],
      )

  -- After the loop over all pairs, what is reported is related, and of two different policies
  -- that are related the first is reported with the second.
  pub record IsRecorded (ps : List Policy) (f : Findings PolicyId) : Type 0 where
    pub sound :
        (k j : PolicyId) (i : ℕ) (e : RequestEnv)
        → get_elem? req_envs i ≡ some e
        → reported c.policy_id_discrete (view f) k i j ≡ true
        → Related (λ p q. In p ps × In q ps) k j e
    pub complete :
        (p q : Policy) (i : ℕ) (e : RequestEnv)
        → In p ps
        → In q ps
        → ¬ (p ≡ q)
        → get_elem? req_envs i ≡ some e
        → Means p q e
        → reported c.policy_id_discrete (view f) (c.id p) i (c.id q) ≡ true
