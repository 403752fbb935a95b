-- ===== src/Tests/Samples.antt =====
-- A small instance of the parameters of the policy analysis. A request environment has two requests,
-- a policy matches some of them, and the solver decides by trying both.
use cedar_spec.Base.{
  sym, ℕ, ◌≡◌, refl, ◌↔◌, ◌⊎◌, inr, Bool, true, false, not, ◌&&◌, ◌||◌, List, [], ◌∷◌, ◌++◌, map,
  Option, none, some, ℕ_discrete, arith, if◌then◌else◌,
}
use cedar_spec.Cedar.{Cedar, LeanFfi, Effect, permit, forbid, CombinationLaws, EnvLaws}
use cedar_spec.Analysis.Verdicts.{SolverLaws}
use cedar_spec.Analysis.Compare.{CexLaws}

pub record SamplePolicy : Type 0 where
  pub name : ℕ
  pub effect : Effect
  pub matches : Bool → Bool

pub record SampleEnv : Type 0 where
  pub principal : ℕ
  pub action : ℕ
  pub resource : ℕ

abbrev pairs : List SamplePolicy → List (SamplePolicy × SamplePolicy)
pairs [] = []
pairs (p ∷ ps) = map (λ q. (p, q)) ps ++ pairs ps

abbrev pub types_of_action : Unit {0} → ℕ → Option (List ℕ)
types_of_action s a = some (1 ∷ 2 ∷ [])

abbrev pub sample : Cedar
sample = record {
  PolicyId = ℕ;
  EntityTypeName = ℕ;
  EntityId = ℕ;
  EntityUid = ℕ;
  Entity = ℕ;
  Policy = SamplePolicy;
  PolicySet = List SamplePolicy;
  Schema = Unit {0};
  RequestEnv = SampleEnv;
  BoxedError = ℕ;
  FfiError = ℕ;
  policy_id_discrete = ℕ_discrete;
  type_name_discrete = ℕ_discrete;
  entity_id_discrete = ℕ_discrete;
  id = λ p. p.name;
  effect = λ p. p.effect;
  policies = λ s. s;
  from_policy = λ p. inr (p ∷ []);
  uid = λ e. e;
  entity_id = λ e. e;
  from_type_name_and_id = λ t e. e;
  parse_type_name = λ s. inr 0;
  parse_entity_id = λ s. 0;
  basename = λ t. "type";
  escaped = λ e. "id";
  action_entities = λ s. inr (0 ∷ []);
  principals_for_action = types_of_action;
  resources_for_action = types_of_action;
  new_request_env = λ p a r. record { principal = p; action = a; resource = r };
  principal = λ e. e.principal;
  action = λ e. e.action;
  resource = λ e. e.resource;
  sort_request_envs = λ es. es;
  combinations = pairs;
}

pub sample-CombinationLaws : CombinationLaws sample
sample-CombinationLaws = record { combinations-nil = refl; combinations-cons = λ p ps. refl }

pub sample-EnvLaws : EnvLaws sample
sample-EnvLaws = record {
  principal-new = λ p a r. refl;
  action-new = λ p a r. refl;
  resource-new = λ p a r. refl;
  in_sort = λ e es. (λ i. i, λ i. i);
}

-- Whether a test holds at both requests.
abbrev both : (Bool → Bool) → Bool
both f = f true && f false

abbrev implies : (Bool → Bool) → (Bool → Bool) → Bool → Bool
implies f g r = not (f r) || g r

pub both_iff : (f : Bool → Bool) (b : Bool) → both f ≡ b → (b ≡ true) ↔ ((r : Bool) → f r ≡ true)
both_iff f b e = (λ h. at_each h, λ h. ground (arith, h true, h false))
  where
    at_each : b ≡ true → (r : Bool) → f r ≡ true
    at_each h true = ground arith
    at_each h false = ground arith

pub implies_iff :
    (f g : Bool → Bool) (b : Bool)
    → both (implies f g) ≡ b
    → (b ≡ true) ↔ ((r : Bool) → f r ≡ true → g r ≡ true)
implies_iff f g b e =
    let i = both_iff (implies f g) b e in
    (λ h r k. ground (arith, i.0 h r), λ h. i.1 (λ r. ground (arith, h r)))

pub not_iff :
    (f : Bool → Bool) (b : Bool)
    → both (λ r. not (f r)) ≡ b
    → (b ≡ true) ↔ ((r : Bool) → f r ≡ false)
not_iff f b e =
    let i = both_iff (λ r. not (f r)) b e in
    (λ h r. ground (arith, i.0 h r), λ h. i.1 (λ r. ground (arith, h r)))

abbrev is_effect : Effect → Effect → Bool
is_effect permit permit = true
is_effect permit forbid = false
is_effect forbid permit = false
is_effect forbid forbid = true

-- Some policy of an effect matches the request.
abbrev some_matches : Effect → List SamplePolicy → Bool → Bool
some_matches e [] r = false
some_matches e (p ∷ ps) r = (is_effect p.effect e && p.matches r) || some_matches e ps r

abbrev pub allowed : List SamplePolicy → Bool → Bool
allowed s r = some_matches permit s r && not (some_matches forbid s r)

-- A request that the first allows and the second does not.
abbrev counterexample : (Bool → Bool) → (Bool → Bool) → Option Bool
counterexample f g =
    if f true && not (g true)
    then some true
    else if f false && not (g false)
    then some false
    else none

abbrev pub solver : LeanFfi sample
solver = record {
  Env = Bool;
  run_check_always_allows = λ s e. inr (both (allowed s));
  run_check_always_denies = λ s e. inr (both (λ r. not (allowed s r)));
  run_check_always_matches = λ p e. inr (both p.matches);
  run_check_never_matches = λ p e. inr (both (λ r. not (p.matches r)));
  run_check_implies = λ s t e. inr (both (implies (allowed s) (allowed t)));
  run_check_matches_implies = λ p q e. inr (both (implies p.matches q.matches));
  run_check_implies_with_cex = λ s t e. inr (counterexample (allowed s) (allowed t));
}

of_effect :
    (e : Effect) (b : Bool)
    → e ≡ permit
    → (((is_effect e permit && b) || false) && not ((is_effect e forbid && b) || false)) ≡ b
of_effect permit true k = refl
of_effect permit false k = refl
of_effect forbid b k = cc

pub inr_injective : {A B : Type 0} {x y : B} → ◌≡◌ {A = A ⊎ B} (inr x) (inr y) → x ≡ y
inr_injective h = cc

pub allows_one :
    (p : SamplePolicy) (s : List SamplePolicy) (r : Bool)
    → p.effect ≡ permit
    → (p ∷ []) ≡ s
    → allowed s r ≡ p.matches r
allows_one p s r k e = rw (sym e) (of_effect p.effect (p.matches r) k)

abbrev pub solver-SolverLaws : SolverLaws sample solver
solver-SolverLaws = record {
  Request = λ e. Bool;
  matches = λ p e r. p.matches r;
  allows = λ s e r. allowed s r;
  always_allows = λ s e b h. both_iff (allowed s) b (inr_injective {A = ℕ} h);
  always_denies = λ s e b h. not_iff (allowed s) b (inr_injective {A = ℕ} h);
  always_matches = λ p e b h. both_iff p.matches b (inr_injective {A = ℕ} h);
  never_matches = λ p e b h. not_iff p.matches b (inr_injective {A = ℕ} h);
  implies = λ s t e b h. implies_iff (allowed s) (allowed t) b (inr_injective {A = ℕ} h);
  matches_implies = λ p q e b h. implies_iff p.matches q.matches b (inr_injective {A = ℕ} h);
  allows_from_policy = λ p s e r k h. allows_one p s r k (inr_injective {A = ℕ} h);
}

pub no_cex : (f g : Bool → Bool) → counterexample f g ≡ none → (x : Bool) → f x ≡ true → g x ≡ true
no_cex f g h true k = ground arith
no_cex f g h false k = ground arith

pub cex_lem :
    (f g : Bool → Bool) (x : Bool) → counterexample f g ≡ some x → (f x ≡ true) × (g x ≡ false)
cex_lem f g true h = ground arith
cex_lem f g false h = ground arith

abbrev pub solver-CexLaws : CexLaws sample solver
solver-CexLaws = record {
  allows = λ s e r. allowed s r;
  no_cex = λ s t e h. no_cex (allowed s) (allowed t) (inr_injective {A = ℕ} h);
  cex = λ s t e x h. cex_lem (allowed s) (allowed t) x (inr_injective {A = ℕ} h);
}

abbrev pub narrow : SamplePolicy
narrow = record { name = 1; effect = permit; matches = λ r. r }

abbrev pub narrow_again : SamplePolicy
narrow_again = record { name = 2; effect = permit; matches = λ r. r }

abbrev pub wide : SamplePolicy
wide = record { name = 3; effect = permit; matches = λ r. true }

abbrev pub block : SamplePolicy
block = record { name = 4; effect = forbid; matches = λ r. r }

abbrev pub some_env : SampleEnv
some_env = record { principal = 1; action = 0; resource = 2 }
