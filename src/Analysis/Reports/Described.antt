-- ===== src/Analysis/Reports/Described.antt =====
-- cedar-lean-cli/src/analysis.rs: what `AnalyzePolicyFindings::new` makes of the maps of findings.
use cedar_spec.Base.{
  ℕ, suc, ◌+◌, ◌≡◌, refl, subst, ◌∙◌, List, [], ◌∷◌, get_elem?, some, length, Ensures, Ensures-bind,
  ap, Zip, arith, leb, if◌then◌else◌, sym,
}
use cedar_spec.Cedar.{Cedar, LeanFfi, permit, forbid}
use cedar_spec.Analysis.Marks.{reported}
use cedar_spec.Analysis.Pairs.{Findings}
use cedar_spec.Analysis.Compared.{AllSized}
use cedar_spec.Analysis.Classes.{per_sig_findings_new-IsPartition}
use cedar_spec.Analysis.Report.{
  SetMap, PerSigFindings, nfindings, findings_at, findings_from, per_sig_findings_new,
}
use cedar_spec.Analysis.Signatures.{listed, Ensures-signature}
use cedar_spec.Analysis.Verdicts.{SolverLaws}
use cedar_spec.Analysis.Overridden.{below}
use cedar_spec.Analysis.Loop.{IdsDistinct, IsRecorded}
use cedar_spec.Analysis.Loop.Overrides.{IsOverridden, overridden_view}
use cedar_spec.Analysis.Loop.Shadows.{IsNarrower, IsRedundant}
use cedar_spec.Analysis.Loop.Redundant.{redundant_view}
use cedar_spec.Analysis.Loop.Narrower.{permits_view, forbids_view}
use cedar_spec.Analysis.Reports.{
  IsListing, Describes, IsClassing-partition, redundant-IsEquivalence,
}

-- The findings that the report keeps.
unfoldable pub with_findings : {P : Type 0} → List (PerSigFindings P) → List (PerSigFindings P)
with_findings [] = []
with_findings (sig ∷ sigs) =
    let rest = with_findings sigs in if leb 1 (nfindings sig) then sig ∷ rest else rest

module _ (c : Cedar) (ffi : LeanFfi c) (laws : SolverLaws c ffi) (ps : List c.Policy)
    (ids : IdsDistinct c ps) where
  open c use {Policy, PolicyId, RequestEnv, BoxedError, FfiError}

  -- The report describes the policies at each request environment, and leaves out those without
  -- findings.
  pub record IsDescription (es : List RequestEnv) (sigs : List (PerSigFindings PolicyId))
      : Type 0 where
    pub all : List (PerSigFindings PolicyId)
    pub described : Zip (Describes c ffi laws ps) es all
    pub kept : sigs ≡ with_findings all

  module _ (req_envs : List RequestEnv) where
    -- What the loop over pairs has recorded.
    pub record AllRecorded (f : Findings PolicyId) : Type 0 where
      pub sized : AllSized c ffi req_envs f
      pub redundant :
          IsRecorded c ffi laws req_envs
            (redundant_view c ffi laws req_envs)
            (IsRedundant c ffi laws)
            ps
            f
      pub overridden :
          IsRecorded c ffi laws req_envs
            (overridden_view c ffi laws req_envs)
            (IsOverridden c ffi laws)
            ps
            f
      pub permits :
          IsRecorded c ffi laws req_envs
            (permits_view c ffi laws req_envs)
            (IsNarrower c ffi laws permit)
            ps
            f
      pub forbids :
          IsRecorded c ffi laws req_envs
            (forbids_view c ffi laws req_envs)
            (IsNarrower c ffi laws forbid)
            ps
            f

    module _ (f : Findings PolicyId) (i : ℕ) (e : RequestEnv)
        (at : get_elem? req_envs i ≡ some e) where
      IsListing-recorded :
          (view : Findings PolicyId → List (PolicyId × List (List PolicyId)))
          (Means : Policy → Policy → RequestEnv → Type 0)
          → IsRecorded c ffi laws req_envs view Means ps f
          → (m : SetMap PolicyId)
          → ((p q : PolicyId)
              → listed c.policy_id_discrete m p q ≡ reported c.policy_id_discrete (view f) p i q)
          → IsListing c ffi laws ps (λ p q. Means p q e) m
      IsListing-recorded view Means rec m same = record {
        sound = λ k j h.
            let (p, q, (ip, iq), d) = rec.sound k j i e at (sym (same k j) ∙ h) in
            record {
              first = p;
              second = q;
              in_first = ip;
              in_second = iq;
              id_first = d.first;
              id_second = d.second;
              means = d.means;
            };
        complete = λ p q ip iq n d. same (c.id p) (c.id q) ∙ rec.complete p q i e ip iq n at d;
      }

      findings_at-Describes :
          AllRecorded f → Ensures (Describes c ffi laws ps e) (findings_at c f i e)
      unfolding findings_at per_sig_findings_new
      findings_at-Describes rec =
          let n = length req_envs in
          let dec = c.policy_id_discrete in
          let Goal = Describes c ffi laws ps e in
          let z = rec.sized in
          let l = below req_envs i at in
          Ensures-signature dec Goal n i f.redundant _ z.redundant_sized l (λ r kr.
            Ensures-signature dec Goal n i f.permit_shadowed_by_permit _ z.permits_sized l (λ p kp.
              Ensures-signature dec Goal n i f.permit_overridden_by_forbid _ z.overridden_sized l
                (λ o ko.
                  Ensures-signature dec Goal n i f.forbid_shadowed_by_forbid _ z.forbids_sized l
                    (λ q kq. record {
                      env = refl;
                      overridden =
                          IsListing-recorded (overridden_view c ffi laws req_envs)
                            (IsOverridden c ffi laws) rec.overridden o ko;
                      permits =
                          IsListing-recorded (permits_view c ffi laws req_envs)
                            (IsNarrower c ffi laws permit) rec.permits p kp;
                      forbids =
                          IsListing-recorded (forbids_view c ffi laws req_envs)
                            (IsNarrower c ffi laws forbid) rec.forbids q kq;
                      classes =
                          let lists =
                            IsListing-recorded (redundant_view c ffi laws req_envs)
                              (IsRedundant c ffi laws) rec.redundant r kr in
                          IsClassing-partition c ffi laws ps ids e r lists _ (
                            per_sig_findings_new-IsPartition c e r p q o
                              (redundant-IsEquivalence c ffi laws ps ids e r lists));
                    }))))

    pub findings_from-IsDescription :
        (f : Findings PolicyId) (ind : ℕ) (es : List RequestEnv)
        → AllRecorded f
        → ((i : ℕ) (e : RequestEnv)
            → get_elem? es i ≡ some e
            → get_elem? req_envs (ind + i) ≡ some e)
        → Ensures (IsDescription es) (findings_from c f ind es)
    unfolding findings_from with_findings
    findings_from-IsDescription f ind [] rec at = record { all = []; described = tt; kept = refl }
    findings_from-IsDescription f ind (e ∷ es) rec at =
        Ensures-bind (Describes c ffi laws ps e) (IsDescription (e ∷ es)) _ _
          (findings_at-Describes f ind e
            (subst (λ n. get_elem? req_envs n ≡ some e) (omega arith) (at 0 e refl)) rec)
          (λ sig _ d.
            Ensures-bind (IsDescription es) (IsDescription (e ∷ es)) _ _
              (findings_from-IsDescription f (suc ind) es rec (λ i x h.
                subst (λ n. get_elem? req_envs n ≡ some x) (omega arith) (at (suc i) x h)))
              (λ sigs _ rest. record {
                all = sig ∷ rest.all;
                described = (d, rest.described);
                kept = ap (λ t. if leb 1 (nfindings sig) then sig ∷ t else t) rest.kept;
              }))
