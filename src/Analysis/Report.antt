-- ===== src/Analysis/Report.antt =====
-- cedar-lean-cli/src/analysis.rs: `PerSigFindings`, `AnalyzePolicyFindings` and the whole of
-- `analyze_policyset` up to the printing.
use Prim.Native.String.{String}
use cedar_spec.Base.{
  ℕ, zero, suc, ◌+◌, List, [], ◌∷◌, Exec, ok, ◌>>=◌, expect, length, get_elem?, test, if◌then◌else◌,
  leb,
}
use cedar_spec.Base.Assoc.{insert, insert_elem, remove}
use cedar_spec.Cedar.{Cedar, LeanFfi}
use cedar_spec.Cli.Err.{ExecError}
use cedar_spec.Cli.RequestEnvs.{to_request_envs, any}
use cedar_spec.Analysis.Vacuity.{
  VacuityResult, VacuityResult-discrete, matches_some, policyset_vacuous,
  vacuous_finding_from_results,
}
use cedar_spec.Analysis.Update.{FindingsMap}
use cedar_spec.Analysis.Pairs.{Findings, no_findings, policies_vacuity, compare_pairs}

-- util.rs: the texts of a request environment that the reports show.
pub record RequestEnvSer : Type 0 where
  pub principal_type : String
  pub action_uid : String
  pub resource_type : String

-- One set of policies for each policy.
abbrev pub SetMap : Type 0 → Type 0
SetMap PolicyId = List (PolicyId × List PolicyId)

pub record PerSigFindings (PolicyId : Type 0) : Type 0 where
  pub req_env : RequestEnvSer
  pub equiv_classes : List (List PolicyId)
  pub permit_shadowed_by_permits : SetMap PolicyId
  pub forbid_shadowed_by_forbids : SetMap PolicyId
  pub permit_overridden_by_forbids : SetMap PolicyId

module _ {PolicyId : Type 0} where
  -- `for s in map.values() { ret += s.len() }`
  unfoldable pub count_values : SetMap PolicyId → ℕ
  count_values [] = 0
  count_values ((pid, s) ∷ m) = length s + count_values m

  unfoldable pub nfindings : PerSigFindings PolicyId → ℕ
  nfindings f =
      length f.equiv_classes
      + count_values f.permit_shadowed_by_permits
      + count_values f.permit_overridden_by_forbids
      + count_values f.forbid_shadowed_by_forbids

module _ {PolicyId : Type 0} (dec : Discrete PolicyId) where
  -- `for pid in equiv_class.iter() { equiv_results.remove(pid); }`
  unfoldable pub remove_all : List PolicyId → SetMap PolicyId → SetMap PolicyId
  remove_all [] m = m
  remove_all (pid ∷ pids) m = remove_all pids (remove dec pid m)

  -- The `while` loop of `PerSigFindings::new`, on fuel: each round takes the first entry, makes its
  -- class, removes the members of the class and keeps the class if it has two members.
  unfoldable pub equiv_classes_loop : ℕ → SetMap PolicyId → List (List PolicyId)
  equiv_classes_loop fuel [] = []
  equiv_classes_loop zero (entry ∷ m) = []
  equiv_classes_loop (suc fuel) ((pid, redundants) ∷ m) =
      let equiv_class = insert_elem dec pid redundants in
      let rest = equiv_classes_loop fuel (remove_all equiv_class ((pid, redundants) ∷ m)) in
      if leb 2 (length equiv_class) then equiv_class ∷ rest else rest

  -- The entries of a map of findings at one request environment.
  unfoldable pub at_signature :
      {E : Type 0} → ℕ → FindingsMap PolicyId → SetMap PolicyId → Exec E (SetMap PolicyId)
  at_signature ind [] sig = ok sig
  at_signature ind ((pid, found) ∷ findings) sig = do
    s ← expect (get_elem? found ind)
    at_signature ind findings (insert dec pid s sig)

module _ (c : Cedar) where
  open c use {PolicyId, PolicySet, Schema, RequestEnv, BoxedError, FfiError}

  abbrev pub request_env_ser : RequestEnv → RequestEnvSer
  request_env_ser e = record {
    principal_type = c.basename (c.principal e);
    action_uid = c.escaped (c.entity_id (c.action e));
    resource_type = c.basename (c.resource e);
  }

  -- `PerSigFindings::new`; each round of its loop removes an entry, so the entries are fuel enough.
  unfoldable pub per_sig_findings_new :
      RequestEnv
      → SetMap PolicyId
      → SetMap PolicyId
      → SetMap PolicyId
      → SetMap PolicyId
      → PerSigFindings PolicyId
  per_sig_findings_new e equiv_results permits forbids overridden = record {
    req_env = request_env_ser e;
    equiv_classes = equiv_classes_loop c.policy_id_discrete (length equiv_results) equiv_results;
    permit_shadowed_by_permits = permits;
    forbid_shadowed_by_forbids = forbids;
    permit_overridden_by_forbids = overridden;
  }

  pub record AnalyzePolicyFindings : Type 0 where
    pub vacuous_result : VacuityResult
    pub vacuous_policies : List (PolicyId × VacuityResult)
    pub per_sig_findings : List (PerSigFindings PolicyId)

  -- `.map(…).filter(…).collect()` over the vacuity of each policy
  unfoldable pub vacuous_policies_of :
      List (PolicyId × List VacuityResult) → List (PolicyId × VacuityResult)
  vacuous_policies_of [] = []
  vacuous_policies_of ((pid, pvr) ∷ vacuity) =
      let rest = vacuous_policies_of vacuity in
      let found = vacuous_finding_from_results pvr in
      if test (VacuityResult-discrete found matches_some) then rest else (pid, found) ∷ rest

  -- One round of the loop over the request environments.
  unfoldable pub findings_at :
      Findings PolicyId
      → ℕ
      → RequestEnv
      → Exec (ExecError BoxedError FfiError) (PerSigFindings PolicyId)
  findings_at f ind e = do
    redundant ← at_signature c.policy_id_discrete ind f.redundant []
    permits ← at_signature c.policy_id_discrete ind f.permit_shadowed_by_permit []
    overridden ← at_signature c.policy_id_discrete ind f.permit_overridden_by_forbid []
    forbids ← at_signature c.policy_id_discrete ind f.forbid_shadowed_by_forbid []
    ok (per_sig_findings_new e redundant permits forbids overridden)

  -- `for (ind, req_env) in req_envs.iter().enumerate()`, from `ind` on
  unfoldable pub findings_from :
      Findings PolicyId
      → ℕ
      → List RequestEnv
      → Exec (ExecError BoxedError FfiError) (List (PerSigFindings PolicyId))
  findings_from f ind [] = ok []
  findings_from f ind (e ∷ es) = do
    sig ← findings_at f ind e
    sigs ← findings_from f (suc ind) es
    ok (if leb 1 (nfindings sig) then sig ∷ sigs else sigs)

  -- `AnalyzePolicyFindings::new`
  unfoldable pub analyze_policy_findings_new :
      List RequestEnv
      → List VacuityResult
      → List (PolicyId × List VacuityResult)
      → Findings PolicyId
      → Exec (ExecError BoxedError FfiError) AnalyzePolicyFindings
  analyze_policy_findings_new req_envs vacuous_results vacuity f = do
    sigs ← findings_from f 0 req_envs
    ok (record {
      vacuous_result = vacuous_finding_from_results vacuous_results;
      vacuous_policies = vacuous_policies_of vacuity;
      per_sig_findings = sigs;
    })

  module _ (ffi : LeanFfi c) (schema : Schema) where
    -- `analyze_policyset` up to the printing of its findings
    unfoldable pub policyset_findings :
        PolicySet → Exec (ExecError BoxedError FfiError) AnalyzePolicyFindings
    policyset_findings policy_set = do
      req_envs ← to_request_envs c (any c) schema
      let policies = c.policies policy_set
      vacuity ← policies_vacuity c ffi req_envs policies []
      policyset_vacuity ← policyset_vacuous c ffi policy_set req_envs
      f ← compare_pairs c ffi req_envs vacuity (c.combinations policies) no_findings
      analyze_policy_findings_new req_envs policyset_vacuity vacuity f
