-- ===== src/Analysis/Loop/Narrower.antt =====
-- cedar-lean-cli/src/analysis.rs: what a round of the loop over pairs adds to the policies that are
-- shadowed.
use cedar_spec.Base.{◌≡◌, ◌↔◌, ◌⊎◌, inl, inr, true, ◌||◌, ◌&&◌, Bool, List, Ensures-ok, Zip, arith}
use cedar_spec.Cedar.{Cedar, LeanFfi, Effect, permit, forbid}
use cedar_spec.Analysis.Shadowing.{ShadowingResult}
use cedar_spec.Analysis.Update.{FindingsMap}
use cedar_spec.Analysis.Pairs.{Findings}
use cedar_spec.Analysis.Compared.{IsShadowed, is_pair}
use cedar_spec.Analysis.Verdicts.{SolverLaws, HasShadowing}
use cedar_spec.Analysis.Meaning.{
  compute_permit_shadowing_result-HasShadowing, compute_forbid_shadowing_result-HasShadowing,
}
use cedar_spec.Analysis.Loop.{Adds, Adds-pair, IsPairOf, Round}
use cedar_spec.Analysis.Loop.{Adds-none}
use cedar_spec.Analysis.Loop.Shadows.{IsNarrower, IsNarrower-iff, IsNarrower-iff_reversed}

module _ (c : Cedar) (ffi : LeanFfi c) (laws : SolverLaws c ffi) where
  open c use {Policy, PolicyId, RequestEnv}

  module _ (req_envs : List RequestEnv) where
    abbrev HasShadowings : Policy → Policy → List ShadowingResult → Type 0
    HasShadowings p1 p2 = Zip (λ e. HasShadowing (laws.matches p1 e) (laws.matches p2 e)) req_envs

    module _ (view : Findings PolicyId → FindingsMap PolicyId) (effect : Effect) where
      abbrev Narrower : Policy → Policy → RequestEnv → Type 0
      Narrower = IsNarrower c ffi laws effect

      Adds-Narrower :
          (p1 p2 : Policy) (results : List ShadowingResult) (f f' : Findings PolicyId)
          (redundant redundant' : FindingsMap PolicyId)
          → c.effect p1 ≡ effect
          → c.effect p2 ≡ effect
          → HasShadowings p1 p2 results
          → IsShadowed c ffi (c.id p1) (c.id p2) results redundant (view f) (redundant', view f')
          → Adds c ffi laws req_envs view Narrower (IsPairOf c (p1, p2)) f f'
      Adds-Narrower p1 p2 results f f' redundant redundant' h1 h2 z u =
          Adds-pair c ffi laws req_envs view Narrower p1 p2 f f' (λ k j i e at.
            let narrower = IsNarrower-iff c ffi laws req_envs p1 p2 results z i e at effect h1 h2 in
            let wider =
              IsNarrower-iff_reversed c ffi laws req_envs p1 p2 results z i e at effect h1 h2 in
            let marks = marked_iff _ _ _ _ (c.id p1) (c.id p2) k j (u.shadowed_reports k i j) in
            (
              λ r. elim (marks.0 r) [
                | inl r' ↦ inl r'
                | inr (inl (m, a, b)) ↦
                    inr (inl (record { first = a; second = b; means = narrower.0 m }))
                | inr (inr (m, a, b)) ↦
                    inr (inr (record { first = a; second = b; means = wider.0 m }))
              ],
              λ r. elim r [
                | inl r' ↦ marks.1 (inl r')
                | inr (inl d) ↦ marks.1 (inr (inl (narrower.1 d.means, d.first, d.second)))
                | inr (inr d) ↦ marks.1 (inr (inr (wider.1 d.means, d.first, d.second)))
              ],
            ))
        where
          marked_iff :
              (after before hit1 hit2 : Bool) (id1 id2 k j : PolicyId)
              → after ≡ (
                  before
                  || ((hit1 && is_pair c ffi id1 id2 k j) || (hit2 && is_pair c ffi id2 id1 k j)))
              → (after ≡ true) ↔ (
                  (before ≡ true)
                  ⊎ (((hit1 ≡ true) × (id1 ≡ k) × (id2 ≡ j))
                      ⊎ ((hit2 ≡ true) × (id2 ≡ k) × (id1 ≡ j))))
          marked_iff after before hit1 hit2 id1 id2 k j h = ground arith

      -- A pair of which a policy has another effect.
      Adds-Narrower_none :
          (p1 p2 : Policy) (f f' : Findings PolicyId)
          → (¬ (c.effect p1 ≡ effect)) ⊎ (¬ (c.effect p2 ≡ effect))
          → view f' ≡ view f
          → Adds c ffi laws req_envs view Narrower (IsPairOf c (p1, p2)) f f'
      Adds-Narrower_none p1 p2 f f' n same =
          Adds-none c ffi laws req_envs view Narrower p1 p2 f f' same
            (λ e d. elim n [ inl m ↦ m d.first_effect | inr m ↦ m d.second_effect ])
            (λ e d. elim n [ inl m ↦ m d.second_effect | inr m ↦ m d.first_effect ])

    abbrev pub permits_view : Findings PolicyId → FindingsMap PolicyId
    permits_view f = f.permit_shadowed_by_permit

    abbrev pub forbids_view : Findings PolicyId → FindingsMap PolicyId
    forbids_view f = f.forbid_shadowed_by_forbid

    pub permits-Round : Round c ffi laws req_envs permits_view (IsNarrower c ffi laws permit)
    permits-Round permit permit p1 p2 svr tvr f f' h1 h2 z1 z2 (results, e, u, k, m) =
        Adds-Narrower permits_view permit p1 p2 results f f' f.redundant f'.redundant h1 h2
          (Ensures-ok (HasShadowings p1 p2) _
            (compute_permit_shadowing_result-HasShadowing laws p1 p2 svr tvr req_envs z1 z2 h1 h2)
            e)
          u
    permits-Round permit forbid p1 p2 svr tvr f f' h1 h2 z1 z2 (results, e, u, r, same, k) =
        Adds-Narrower_none permits_view permit p1 p2 f f' (inr (λ h. cc)) same
    permits-Round forbid permit p1 p2 svr tvr f f' h1 h2 z1 z2 (results, e, u, r, same, k) =
        Adds-Narrower_none permits_view permit p1 p2 f f' (inl (λ h. cc)) same
    permits-Round forbid forbid p1 p2 svr tvr f f' h1 h2 z1 z2 (results, e, u, o, same) =
        Adds-Narrower_none permits_view permit p1 p2 f f' (inl (λ h. cc)) same

    pub forbids-Round : Round c ffi laws req_envs forbids_view (IsNarrower c ffi laws forbid)
    forbids-Round permit permit p1 p2 svr tvr f f' h1 h2 z1 z2 (results, e, u, o, same) =
        Adds-Narrower_none forbids_view forbid p1 p2 f f' (inl (λ h. cc)) same
    forbids-Round permit forbid p1 p2 svr tvr f f' h1 h2 z1 z2 (results, e, u, r, s, same) =
        Adds-Narrower_none forbids_view forbid p1 p2 f f' (inl (λ h. cc)) same
    forbids-Round forbid permit p1 p2 svr tvr f f' h1 h2 z1 z2 (results, e, u, r, s, same) =
        Adds-Narrower_none forbids_view forbid p1 p2 f f' (inr (λ h. cc)) same
    forbids-Round forbid forbid p1 p2 svr tvr f f' h1 h2 z1 z2 (results, e, u, k, m) =
        Adds-Narrower forbids_view forbid p1 p2 results f f' f.redundant f'.redundant h1 h2
          (Ensures-ok (HasShadowings p1 p2) _
            (compute_forbid_shadowing_result-HasShadowing laws p1 p2 svr tvr req_envs z1 z2) e)
          u
