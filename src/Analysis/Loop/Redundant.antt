-- ===== src/Analysis/Loop/Redundant.antt =====
-- cedar-lean-cli/src/analysis.rs: what a round of the loop over pairs adds to the policies that are
-- redundant.
use cedar_spec.Base.{◌≡◌, ◌↔◌, ◌⊎◌, inl, inr, true, ◌||◌, ◌&&◌, Bool, List, Ensures-ok, Zip, arith}
use cedar_spec.Cedar.{Cedar, LeanFfi, permit, forbid}
use cedar_spec.Analysis.Shadowing.{ShadowingResult}
use cedar_spec.Analysis.Update.{FindingsMap}
use cedar_spec.Analysis.Pairs.{Findings}
use cedar_spec.Analysis.Compared.{IsShadowed, is_pair}
use cedar_spec.Analysis.Verdicts.{SolverLaws, HasShadowing}
use cedar_spec.Analysis.Meaning.{
  compute_permit_shadowing_result-HasShadowing, compute_forbid_shadowing_result-HasShadowing,
}
use cedar_spec.Analysis.Loop.{Adds, Adds-pair, IsPairOf, Round}
use cedar_spec.Analysis.Loop.{Adds-none}
use cedar_spec.Analysis.Loop.Shadows.{IsRedundant, IsRedundant-sym, IsRedundant-iff}

module _ (c : Cedar) (ffi : LeanFfi c) (laws : SolverLaws c ffi) where
  open c use {Policy, PolicyId, RequestEnv}

  module _ (req_envs : List RequestEnv) where
    abbrev Redundant : Policy → Policy → RequestEnv → Type 0
    Redundant = IsRedundant c ffi laws

    abbrev HasShadowings : Policy → Policy → List ShadowingResult → Type 0
    HasShadowings p1 p2 = Zip (λ e. HasShadowing (laws.matches p1 e) (laws.matches p2 e)) req_envs

    abbrev pub redundant_view : Findings PolicyId → FindingsMap PolicyId
    redundant_view f = f.redundant

    Adds-redundant :
        (p1 p2 : Policy) (results : List ShadowingResult) (f f' : Findings PolicyId)
        (shadowed : FindingsMap PolicyId) (shadowed' : FindingsMap PolicyId)
        → c.effect p1 ≡ c.effect p2
        → HasShadowings p1 p2 results
        → IsShadowed c ffi
            (c.id p1)
            (c.id p2)
            results
            f.redundant
            shadowed
            (f'.redundant, shadowed')
        → Adds c ffi laws req_envs redundant_view Redundant (IsPairOf c (p1, p2)) f f'
    Adds-redundant p1 p2 results f f' shadowed shadowed' h z u =
        Adds-pair c ffi laws req_envs redundant_view Redundant p1 p2 f f' (λ k j i e at.
          let means = IsRedundant-iff c ffi laws req_envs p1 p2 results z i e at h in
          let marks = marked_iff _ _ _ (c.id p1) (c.id p2) k j (u.redundant_reports k i j) in
          (
            λ r. elim (marks.0 r) [
              | inl r' ↦ inl r'
              | inr (inl (m, a, b)) ↦
                  inr (inl (record { first = a; second = b; means = means.0 m }))
              | inr (inr (m, a, b)) ↦ inr (
                  inr (record {
                    first = a;
                    second = b;
                    means = IsRedundant-sym c ffi laws p1 p2 e (means.0 m);
                  }))
            ],
            λ r. elim r [
              | inl r' ↦ marks.1 (inl r')
              | inr (inl d) ↦ marks.1 (inr (inl (means.1 d.means, d.first, d.second)))
              | inr (inr d) ↦ marks.1 (
                  inr
                    (inr (means.1 (IsRedundant-sym c ffi laws p2 p1 e d.means), d.first, d.second)))
            ],
          ))
      where
        marked_iff :
            (after before hit : Bool) (id1 id2 k j : PolicyId)
            → after ≡ (before || (hit && (is_pair c ffi id1 id2 k j || is_pair c ffi id2 id1 k j)))
            → (after ≡ true) ↔ (
                (before ≡ true)
                ⊎ (((hit ≡ true) × (id1 ≡ k) × (id2 ≡ j)) ⊎ ((hit ≡ true) × (id2 ≡ k) × (id1 ≡ j))))
        marked_iff after before hit id1 id2 k j h = ground arith

    pub Redundant-Round : Round c ffi laws req_envs redundant_view Redundant
    Redundant-Round permit permit p1 p2 svr tvr f f' h1 h2 z1 z2 (results, e, u, k, m) =
        Adds-redundant p1 p2 results f f' f.permit_shadowed_by_permit f'.permit_shadowed_by_permit
          (cc)
          (Ensures-ok (HasShadowings p1 p2) _
            (compute_permit_shadowing_result-HasShadowing laws p1 p2 svr tvr req_envs z1 z2 h1 h2)
            e)
          u
    Redundant-Round permit forbid p1 p2 svr tvr f f' h1 h2 z1 z2 (results, e, u, same, k, m) =
        Adds-none c ffi laws req_envs redundant_view Redundant p1 p2 f f' same
          (λ e d. let h = d.same_effect in cc) (λ e d. let h = d.same_effect in cc)
    Redundant-Round forbid permit p1 p2 svr tvr f f' h1 h2 z1 z2 (results, e, u, same, k, m) =
        Adds-none c ffi laws req_envs redundant_view Redundant p1 p2 f f' same
          (λ e d. let h = d.same_effect in cc) (λ e d. let h = d.same_effect in cc)
    Redundant-Round forbid forbid p1 p2 svr tvr f f' h1 h2 z1 z2 (results, e, u, k, m) =
        Adds-redundant p1 p2 results f f' f.forbid_shadowed_by_forbid f'.forbid_shadowed_by_forbid
          (cc)
          (Ensures-ok (HasShadowings p1 p2) _
            (compute_forbid_shadowing_result-HasShadowing laws p1 p2 svr tvr req_envs z1 z2) e)
          u
