-- ===== src/Analysis/Verdicts.antt =====
-- cedar-lean-cli/src/analysis.rs: the meaning of the solver's answers and of the results for one request
-- environment.
use cedar_spec.Base.{◌≡◌, refl, ◌↔◌, Bool, true, false, Ensures, ◌⊎◌, inl, inr}
use cedar_spec.Cedar.{Cedar, LeanFfi, permit}
use cedar_spec.Analysis.Vacuity.{VacuityResult, matches_all, matches_some, matches_none, vacuity_of}
use cedar_spec.Analysis.Shadowing.{
  ShadowingResult, equivalent, policy1_shadows2, policy2_shadows1, shadowing_entry, override_entry,
  direction, OverrideResult, overrides,
}

-- The requests of a request environment, which of them a policy matches and a policy set allows,
-- and the documented meaning of the solver's answers.
pub record SolverLaws (c : Cedar) (ffi : LeanFfi c) : Type 1 where
  pub Request : c.RequestEnv → Type 0
  pub matches : c.Policy → (e : c.RequestEnv) → Request e → Bool
  pub allows : c.PolicySet → (e : c.RequestEnv) → Request e → Bool
  pub always_allows :
      (s : c.PolicySet) (e : c.RequestEnv) (b : Bool)
      → ffi.run_check_always_allows s e ≡ inr b
      → (b ≡ true) ↔ ((r : Request e) → allows s e r ≡ true)
  pub always_denies :
      (s : c.PolicySet) (e : c.RequestEnv) (b : Bool)
      → ffi.run_check_always_denies s e ≡ inr b
      → (b ≡ true) ↔ ((r : Request e) → allows s e r ≡ false)
  pub always_matches :
      (p : c.Policy) (e : c.RequestEnv) (b : Bool)
      → ffi.run_check_always_matches p e ≡ inr b
      → (b ≡ true) ↔ ((r : Request e) → matches p e r ≡ true)
  pub never_matches :
      (p : c.Policy) (e : c.RequestEnv) (b : Bool)
      → ffi.run_check_never_matches p e ≡ inr b
      → (b ≡ true) ↔ ((r : Request e) → matches p e r ≡ false)
  pub implies :
      (s t : c.PolicySet) (e : c.RequestEnv) (b : Bool)
      → ffi.run_check_implies s t e ≡ inr b
      → (b ≡ true) ↔ ((r : Request e) → allows s e r ≡ true → allows t e r ≡ true)
  pub matches_implies :
      (p q : c.Policy) (e : c.RequestEnv) (b : Bool)
      → ffi.run_check_matches_implies p q e ≡ inr b
      → (b ≡ true) ↔ ((r : Request e) → matches p e r ≡ true → matches q e r ≡ true)
  -- a set of one permit policy allows what the policy matches
  pub allows_from_policy :
      (p : c.Policy) (s : c.PolicySet) (e : c.RequestEnv) (r : Request e)
      → c.effect p ≡ permit
      → c.from_policy p ≡ inr s
      → allows s e r ≡ matches p e r

-- The direction of two decided implications.
module _ {N M P Q : Type 0} (n : ¬ N) (m : ¬ M) where
  direction-equivalent :
      (b1 b2 : Bool)
      → (b1 ≡ true) ↔ P
      → (b2 ≡ true) ↔ Q
      → (direction b1 b2 ≡ equivalent) ↔ ((¬ N) × (¬ M) × P × Q)
  unfolding direction
  direction-equivalent true true x y = (λ _. (n, m, x.0 refl, y.0 refl), λ _. refl)
  direction-equivalent true false x y = (λ h. cc, λ h. cc (y.1 h.3))
  direction-equivalent false true x y = (λ h. cc, λ h. cc (x.1 h.2))
  direction-equivalent false false x y = (λ h. cc, λ h. cc (x.1 h.2))

  direction-shadowed1 :
      (b1 b2 : Bool)
      → (b1 ≡ true) ↔ P
      → (b2 ≡ true) ↔ Q
      → (direction b1 b2 ≡ policy2_shadows1) ↔ ((¬ N) × (¬ M) × P × ¬ Q)
  unfolding direction
  direction-shadowed1 true true x y = (λ h. cc, λ h. absurd (h.3 (y.0 refl)))
  direction-shadowed1 true false x y = (λ _. (n, m, x.0 refl, λ q. cc (y.1 q)), λ _. refl)
  direction-shadowed1 false true x y = (λ h. cc, λ h. cc (x.1 h.2))
  direction-shadowed1 false false x y = (λ h. cc, λ h. cc (x.1 h.2))

  direction-shadowed2 :
      (b1 b2 : Bool)
      → (b1 ≡ true) ↔ P
      → (b2 ≡ true) ↔ Q
      → (direction b1 b2 ≡ policy1_shadows2) ↔ ((¬ N) × (¬ M) × Q × ¬ P)
  unfolding direction
  direction-shadowed2 true true x y = (λ h. cc, λ h. absurd (h.3 (x.0 refl)))
  direction-shadowed2 true false x y = (λ h. cc, λ h. absurd (h.3 (x.0 refl)))
  direction-shadowed2 false true x y = (λ _. (n, m, y.0 refl, λ q. cc (x.1 q)), λ _. refl)
  direction-shadowed2 false false x y = (λ h. cc, λ h. cc (y.1 h.2))

decided_true : {P : Type 0} → P → (true ≡ true) ↔ P
decided_true p = (λ _. p, λ _. refl)

decided_false : {P : Type 0} → ¬ P → (false ≡ true) ↔ P
decided_false n = (λ h. cc, λ p. absurd (n p))

-- Sets of requests, as tests.
module _ {R : Type 0} where
  abbrev pub Full : (R → Bool) → Type 0
  Full f = (r : R) → f r ≡ true

  abbrev pub Empty : (R → Bool) → Type 0
  Empty f = (r : R) → f r ≡ false

  abbrev pub Within : (R → Bool) → (R → Bool) → Type 0
  Within f g = (r : R) → f r ≡ true → g r ≡ true

  -- What a vacuity says of a set of requests. Where there is no request, the set counts as full.
  abbrev pub HasVacuity : (R → Bool) → VacuityResult → Type 0
  HasVacuity f matches_all = Full f
  HasVacuity f matches_none = Empty f × ¬ Full f
  HasVacuity f matches_some = (¬ Full f) × (¬ Empty f)

  -- What a comparison says of two sets: which of them is contained in the other, unless one is
  -- empty and nothing is said.
  pub record HasShadowing (f g : R → Bool) (res : ShadowingResult) : Type 0 where
    pub is_equivalent :
        (res ≡ equivalent)
        ↔ ((¬ HasVacuity f matches_none) × (¬ HasVacuity g matches_none) × Within f g × Within g f)
    pub is_shadowed1 : (res ≡ policy2_shadows1) ↔ (
        (¬ HasVacuity f matches_none) × (¬ HasVacuity g matches_none) × Within f g × ¬ Within g f)
    pub is_shadowed2 : (res ≡ policy1_shadows2) ↔ (
        (¬ HasVacuity f matches_none) × (¬ HasVacuity g matches_none) × Within g f × ¬ Within f g)

  direction-HasShadowing :
      (f g : R → Bool) (b1 b2 : Bool)
      → ¬ HasVacuity f matches_none
      → ¬ HasVacuity g matches_none
      → (b1 ≡ true) ↔ Within f g
      → (b2 ≡ true) ↔ Within g f
      → HasShadowing f g (direction b1 b2)
  direction-HasShadowing f g b1 b2 n m x y = record {
    is_equivalent = direction-equivalent n m b1 b2 x y;
    is_shadowed1 = direction-shadowed1 n m b1 b2 x y;
    is_shadowed2 = direction-shadowed2 n m b1 b2 x y;
  }

  -- One of the sets is empty.
  no_result-HasShadowing :
      (f g : R → Bool)
      → ((¬ HasVacuity f matches_none) → (¬ HasVacuity g matches_none) → ⊥)
      → HasShadowing f g ShadowingResult.no_result
  no_result-HasShadowing f g n = record {
    is_equivalent = (λ h. cc, λ h. absurd (n h.0 h.1));
    is_shadowed1 = (λ h. cc, λ h. absurd (n h.0 h.1));
    is_shadowed2 = (λ h. cc, λ h. absurd (n h.0 h.1));
  }

  -- A permit is overridden where neither set is empty nor full and all that is permitted is forbidden.
  abbrev pub HasOverride : (R → Bool) → (R → Bool) → OverrideResult → Type 0
  HasOverride forbids permits res =
      (res ≡ overrides)
      ↔ (HasVacuity forbids matches_some × HasVacuity permits matches_some × Within permits forbids)

  pub vacuity_of-HasVacuity :
      (E : Type 0) {F : Type 0} (f : R → Bool) (always never : F ⊎ Bool)
      → ((b : Bool) → always ≡ inr b → (b ≡ true) ↔ Full f)
      → ((b : Bool) → never ≡ inr b → (b ≡ true) ↔ Empty f)
      → Ensures (HasVacuity f) (vacuity_of {E = E} always never)
  unfolding vacuity_of
  vacuity_of-HasVacuity E f (inl x) never a n = tt
  vacuity_of-HasVacuity E f (inr true) never a n = (a true refl).0 refl
  vacuity_of-HasVacuity E f (inr false) (inl x) a n = tt
  vacuity_of-HasVacuity E f (inr false) (inr true) a n =
      ((n true refl).0 refl, λ h. cc ((a false refl).1 h))
  vacuity_of-HasVacuity E f (inr false) (inr false) a n =
      (λ h. cc ((a false refl).1 h), λ h. cc ((n false refl).1 h))

  pub shadowing_entry-HasShadowing :
      (E : Type 0) {F : Type 0} (f g : R → Bool) (vr1 vr2 : VacuityResult) (fwd bwd : F ⊎ Bool)
      → HasVacuity f vr1
      → HasVacuity g vr2
      → ((b : Bool) → fwd ≡ inr b → (b ≡ true) ↔ Within f g)
      → ((b : Bool) → bwd ≡ inr b → (b ≡ true) ↔ Within g f)
      → Ensures (HasShadowing f g) (shadowing_entry {E = E} vr1 vr2 fwd bwd)
  unfolding shadowing_entry direction
  shadowing_entry-HasShadowing E f g matches_none vr2 fwd bwd u v x y =
      no_result-HasShadowing f g (λ a b. a u)
  shadowing_entry-HasShadowing E f g matches_all matches_none fwd bwd u v x y =
      no_result-HasShadowing f g (λ a b. b v)
  shadowing_entry-HasShadowing E f g matches_some matches_none fwd bwd u v x y =
      no_result-HasShadowing f g (λ a b. b v)
  shadowing_entry-HasShadowing E f g matches_all matches_all fwd bwd u v x y =
      direction-HasShadowing f g true true (λ h. h.1 u) (λ h. h.1 v) (decided_true (λ r _. v r))
        (decided_true (λ r _. u r))
  shadowing_entry-HasShadowing E f g matches_all matches_some fwd bwd u v x y =
      direction-HasShadowing f g false true (λ h. h.1 u) (λ h. v.1 h.0)
        (decided_false (λ w. v.0 (λ r. w r (u r)))) (decided_true (λ r _. u r))
  shadowing_entry-HasShadowing E f g matches_some matches_all fwd bwd u v x y =
      direction-HasShadowing f g true false (λ h. u.1 h.0) (λ h. h.1 v) (decided_true (λ r _. v r))
        (decided_false (λ w. u.0 (λ r. w r (v r))))
  shadowing_entry-HasShadowing E f g matches_some matches_some (inl e) bwd u v x y = tt
  shadowing_entry-HasShadowing E f g matches_some matches_some (inr b1) (inl e) u v x y = tt
  shadowing_entry-HasShadowing E f g matches_some matches_some (inr b1) (inr b2) u v x y =
      direction-HasShadowing f g b1 b2 (λ h. u.1 h.0) (λ h. v.1 h.0) (x b1 refl) (y b2 refl)

  pub override_entry-HasOverride :
      (E : Type 0) {F : Type 0} (f g : R → Bool) (vr1 vr2 : VacuityResult) (implied : F ⊎ Bool)
      → HasVacuity f vr1
      → HasVacuity g vr2
      → ((b : Bool) → implied ≡ inr b → (b ≡ true) ↔ Within g f)
      → Ensures (HasOverride f g) (override_entry {E = E} vr1 vr2 implied)
  unfolding override_entry
  override_entry-HasOverride E f g matches_none vr2 implied u v x =
      (λ h. cc, λ h. absurd (h.0.1 u.0))
  override_entry-HasOverride E f g matches_all vr2 implied u v x = (λ h. cc, λ h. absurd (h.0.0 u))
  override_entry-HasOverride E f g matches_some matches_none implied u v x =
      (λ h. cc, λ h. absurd (h.1.1 v.0))
  override_entry-HasOverride E f g matches_some matches_all implied u v x =
      (λ h. cc, λ h. absurd (h.1.0 v))
  override_entry-HasOverride E f g matches_some matches_some (inl e) u v x = tt
  override_entry-HasOverride E f g matches_some matches_some (inr true) u v x =
      (λ _. (u, v, (x true refl).0 refl), λ _. refl)
  override_entry-HasOverride E f g matches_some matches_some (inr false) u v x =
      (λ h. cc, λ h. cc ((x false refl).1 h.2))
