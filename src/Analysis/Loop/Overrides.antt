-- ===== src/Analysis/Loop/Overrides.antt =====
-- cedar-lean-cli/src/analysis.rs: what a round of the loop over pairs adds to the permit policies that are
-- overridden.
use cedar_spec.Base.{
  Bool, ◌||◌, ◌&&◌, test, ℕ, ◌≡◌, ◌↔◌, ◌⊎◌, inl, inr, true, List, get_elem?, some, Ensures-ok, Zip,
  arith,
}
use cedar_spec.Cedar.{Cedar, LeanFfi, permit, forbid}
use cedar_spec.Analysis.Vacuity.{matches_some}
use cedar_spec.Analysis.Shadowing.{OverrideResult, OverrideResult-discrete, overrides}
use cedar_spec.Analysis.Update.{FindingsMap}
use cedar_spec.Analysis.Marks.{reported, IsUpdated}
use cedar_spec.Analysis.Pairs.{Findings}
use cedar_spec.Analysis.Verdicts.{SolverLaws, HasVacuity, HasOverride, Within}
use cedar_spec.Analysis.Meaning.{compute_forbid_overrides_shadow_result-HasOverride}
use cedar_spec.Analysis.Overridden.{below, hit-HasOverride}
use cedar_spec.Analysis.Loop.{Adds, Adds-pair, Adds-none, IsPairOf, Round, Holds}

module _ (c : Cedar) (ffi : LeanFfi c) (laws : SolverLaws c ffi) where
  open c use {Policy, PolicyId, RequestEnv}

  -- A permit and a forbid policy, where each matches some request but not all and the second all
  -- that the first does.
  pub record IsOverridden (p q : Policy) (e : RequestEnv) : Type 0 where
    pub permits : c.effect p ≡ permit
    pub forbids : c.effect q ≡ forbid
    pub overriding :
        HasVacuity (laws.matches q e) matches_some
        × HasVacuity (laws.matches p e) matches_some
        × Within (laws.matches p e) (laws.matches q e)

  module _ (req_envs : List RequestEnv) where
    abbrev pub overridden_view : Findings PolicyId → FindingsMap PolicyId
    overridden_view f = f.permit_overridden_by_forbid

    abbrev AddsTo : Policy × Policy → Findings PolicyId → Findings PolicyId → Type 0
    AddsTo x = Adds c ffi laws req_envs overridden_view IsOverridden (IsPairOf c x)

    -- Two policies of one effect.
    adds_none :
        (p1 p2 : Policy) (f f' : Findings PolicyId)
        → c.effect p1 ≡ c.effect p2
        → f'.permit_overridden_by_forbid ≡ f.permit_overridden_by_forbid
        → AddsTo (p1, p2) f f'
    adds_none p1 p2 f f' h same =
        Adds-none c ffi laws req_envs overridden_view IsOverridden p1 p2 f f' same
          (λ e d. let hp = d.permits in let hq = d.forbids in cc)
          (λ e d. let hp = d.permits in let hq = d.forbids in cc)

    -- A permit policy `a` and a forbid policy `b`.
    override_iff :
        (a b : Policy) (results : List OverrideResult) (f f' : Findings PolicyId)
        → c.effect a ≡ permit
        → c.effect b ≡ forbid
        → Zip (λ e. HasOverride (laws.matches b e) (laws.matches a e)) req_envs results
        → IsUpdated c.policy_id_discrete OverrideResult-discrete results overrides
            (c.id a)
            (c.id b)
            f.permit_overridden_by_forbid
            f'.permit_overridden_by_forbid
        → (k j : PolicyId) (i : ℕ) (e : RequestEnv) → get_elem? req_envs i ≡ some e
        → (reported c.policy_id_discrete f'.permit_overridden_by_forbid k i j ≡ true) ↔ (
            (reported c.policy_id_discrete f.permit_overridden_by_forbid k i j ≡ true)
            ⊎ Holds c ffi laws req_envs overridden_view IsOverridden k j e a b)
    override_iff a b results f f' ha hb z u k j i e at =
        let found =
          hit-HasOverride c ffi laws req_envs a b results z i e at (below req_envs i at) in
        let marks = marked_iff _ _ _ (c.id a) (c.id b) k j (u.reports k i j) in
        (
          λ r. elim (marks.0 r) [
            | inl r' ↦ inl r'
            | inr (m, ea, eb) ↦ inr (record {
              first = ea;
              second = eb;
              means = record { permits = ha; forbids = hb; overriding = found.0 m };
            })
          ],
          λ r. elim r [
            | inl r' ↦ marks.1 (inl r')
            | inr d ↦ marks.1 (inr (found.1 d.means.overriding, d.first, d.second))
          ],
        )
      where
        marked_iff :
            (after before hit : Bool) (id1 id2 k j : PolicyId)
            → after ≡ (
                before
                || (test (c.policy_id_discrete id1 k)
                    && (hit && test (c.policy_id_discrete id2 j))))
            → (after ≡ true) ↔ ((before ≡ true) ⊎ ((hit ≡ true) × (id1 ≡ k) × (id2 ≡ j)))
        marked_iff after before hit id1 id2 k j h = ground arith

    -- The second order of the pair is excluded by the effects.
    adds_first :
        (p1 p2 : Policy) (f f' : Findings PolicyId)
        → c.effect p1 ≡ permit
        → c.effect p2 ≡ forbid
        → ((k j : PolicyId) (i : ℕ) (e : RequestEnv)
            → get_elem? req_envs i ≡ some e
            → (reported c.policy_id_discrete f'.permit_overridden_by_forbid k i j ≡ true) ↔ (
                (reported c.policy_id_discrete f.permit_overridden_by_forbid k i j ≡ true)
                ⊎ Holds c ffi laws req_envs overridden_view IsOverridden k j e p1 p2))
        → AddsTo (p1, p2) f f' × AddsTo (p2, p1) f f'
    adds_first p1 p2 f f' h1 h2 marks = (
      Adds-pair c ffi laws req_envs overridden_view IsOverridden p1 p2 f f' (λ k j i e at. (
        λ r. elim ((marks k j i e at).0 r) [ inl r' ↦ inl r' | inr d ↦ inr (inl d) ],
        λ r. elim r [
          | inl r' ↦ (marks k j i e at).1 (inl r')
          | inr (inl d) ↦ (marks k j i e at).1 (inr d)
          | inr (inr d) ↦ let h = d.means.permits in cc
        ],
      )),
      Adds-pair c ffi laws req_envs overridden_view IsOverridden p2 p1 f f' (λ k j i e at. (
        λ r. elim ((marks k j i e at).0 r) [ inl r' ↦ inl r' | inr d ↦ inr (inr d) ],
        λ r. elim r [
          | inl r' ↦ (marks k j i e at).1 (inl r')
          | inr (inl d) ↦ let h = d.means.permits in cc
          | inr (inr d) ↦ (marks k j i e at).1 (inr d)
        ],
      )),
    )

    pub overrides-Round : Round c ffi laws req_envs overridden_view IsOverridden
    overrides-Round permit permit p1 p2 svr tvr f f' h1 h2 z1 z2 (results, e, u, same, k) =
        adds_none p1 p2 f f' (cc) same
    overrides-Round permit forbid p1 p2 svr tvr f f' h1 h2 z1 z2 (results, e, u, r, s, k) =
        (adds_first p1 p2 f f' h1 h2 (
          override_iff p1 p2 results f f' h1 h2
            (Ensures-ok (Zip (λ e. HasOverride (laws.matches p2 e) (laws.matches p1 e)) req_envs) _
              (compute_forbid_overrides_shadow_result-HasOverride laws p2 p1 tvr svr req_envs z2 z1)
              e)
            u)).0
    overrides-Round forbid permit p1 p2 svr tvr f f' h1 h2 z1 z2 (results, e, u, r, s, k) =
        (adds_first p2 p1 f f' h2 h1 (
          override_iff p2 p1 results f f' h2 h1
            (Ensures-ok (Zip (λ e. HasOverride (laws.matches p1 e) (laws.matches p2 e)) req_envs) _
              (compute_forbid_overrides_shadow_result-HasOverride laws p1 p2 svr tvr req_envs z1 z2)
              e)
            u)).1
    overrides-Round forbid forbid p1 p2 svr tvr f f' h1 h2 z1 z2 (results, e, u, same, k) =
        adds_none p1 p2 f f' (cc) same
