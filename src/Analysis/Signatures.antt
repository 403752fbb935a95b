-- ===== src/Analysis/Signatures.antt =====
-- cedar-lean-cli/src/analysis.rs: what `AnalyzePolicyFindings::new` reads of the maps of findings at a
-- request environment.
use cedar_spec.Base.{
  Exec, ◌>>=◌, ℕ, ◌<◌, ◌≡◌, refl, Bool, true, false, List, [], ◌∷◌, none, some, length,
  get_elem?-some, All, Ensures, Ensures-bind, Ensures-mono, arith, expect, get_elem?, subst, sym,
  ◌⊎◌, inl, inr, ◌≢◌,
}
use cedar_spec.Base.Assoc.{contains, lookup, insert, lookup-insert, Distinct}
use cedar_spec.Analysis.Update.{FindingsMap}
use cedar_spec.Analysis.Marks.{reported, IsSized}
use cedar_spec.Analysis.Classes.{IsEquivalence, related, related_in}
use cedar_spec.Analysis.Report.{SetMap, at_signature}

module _ {PolicyId : Type 0} (dec : Discrete PolicyId) where
  -- `q` stands in the set of `p`.
  unfoldable pub listed : SetMap PolicyId → PolicyId → PolicyId → Bool
  listed m p q = elim (lookup dec p m) [ none ↦ false | some s ↦ contains dec q s ]

  -- The entries of `m` are the sets at a place of `f`, over those of `sig`.
  abbrev Reads : ℕ → FindingsMap PolicyId → SetMap PolicyId → SetMap PolicyId → Type 0
  Reads ind f sig m =
      (p : PolicyId)
      → lookup dec p m
        ≡ elim (lookup dec p f) [ none ↦ lookup dec p sig | some sets ↦ get_elem? sets ind ]

  at_signature-lookup :
      (E : Type 0) (n ind : ℕ) (f : FindingsMap PolicyId) (sig : SetMap PolicyId)
      → All (λ e. length e.1 ≡ n) f
      → Distinct dec f
      → ind < n
      → Ensures {E = E} (Reads ind f sig) (at_signature dec ind f sig)
  unfolding at_signature lookup
  at_signature-lookup E n ind [] sig a d h = λ p. refl
  at_signature-lookup E n ind ((pid, sets) ∷ f) sig a d h =
      Ensures-bind (λ s. get_elem? sets ind ≡ some s) _ _ _ (present sets (omega (arith, a.0)))
        (λ s _ e.
          Ensures-mono (Reads ind f (insert dec pid s sig)) _ _
            (λ m _ k p. ground (arith, k p, e, d.0, lookup-insert dec pid p s sig))
            (at_signature-lookup E n ind f (insert dec pid s sig) a.1 d.1 h))
    where
      present :
          (sets : List (List PolicyId))
          → ind < length sets
          → Ensures {E = E} (λ s. get_elem? sets ind ≡ some s) (expect (get_elem? sets ind))
      present sets l =
          let (s, e) = get_elem?-some sets ind l in
          subst (λ o. Ensures {E = E} (λ s. o ≡ some s) (expect o)) (sym e) refl

  -- The sets at a place of a sized map list what the map reports there.
  at_signature-listed :
      (E : Type 0) (n ind : ℕ) (f : FindingsMap PolicyId)
      → IsSized dec n f
      → ind < n
      → Ensures {E = E}
          (λ m. (p q : PolicyId) → listed m p q ≡ reported dec f p ind q)
          (at_signature dec ind f [])
  unfolding listed reported lookup
  at_signature-listed E n ind f z h =
      Ensures-mono (Reads ind f []) _ _ (λ m _ k p q. ground (arith, k p))
        (at_signature-lookup E n ind f [] z.sized z.distinct h)

  -- The rule for what follows the reading of a map.
  pub Ensures-signature :
      {E B : Type 0} (Q : B → Type 0) (n ind : ℕ) (f : FindingsMap PolicyId)
      (next : SetMap PolicyId → Exec E B)
      → IsSized dec n f
      → ind < n
      → ((m : SetMap PolicyId)
          → ((p q : PolicyId) → listed m p q ≡ reported dec f p ind q)
          → Ensures Q (next m))
      → Ensures Q (at_signature dec ind f [] >>= next)
  Ensures-signature {E} Q n ind f next z h k =
      Ensures-bind (λ m. (p q : PolicyId) → listed m p q ≡ reported dec f p ind q) Q
        (at_signature dec ind f []) next (at_signature-listed E n ind f z h) (λ m _ l. k m l)

  pub related_cases :
      (m : SetMap PolicyId) (p q : PolicyId)
      → related dec m p q ≡ true
      → (p ≡ q) ⊎ (listed m p q ≡ true)
  unfolding listed related related_in
  related_cases m p q h = ground arith

  related_self :
      (m : SetMap PolicyId) (p q : PolicyId) → related dec m p q ≡ true → related dec m p p ≡ true
  unfolding listed related related_in
  related_self m p q h = ground arith

  pub listed-related :
      (m : SetMap PolicyId) (p q : PolicyId) → listed m p q ≡ true → related dec m p q ≡ true
  unfolding listed related related_in
  listed-related m p q h = ground arith

  -- Where what is listed is an equivalence of different policies, so is the map.
  pub listed-IsEquivalence :
      (m : SetMap PolicyId)
      → ((p q : PolicyId) → p ≢ q → listed m p q ≡ true → listed m q p ≡ true)
      → ((p q r : PolicyId)
          → p ≢ r
          → listed m p q ≡ true
          → listed m q r ≡ true
          → listed m p r ≡ true)
      → IsEquivalence dec m
  listed-IsEquivalence m sym_listed trans_listed = record {
    symmetric = λ p q h. elim (dec p q) [
      | yes e ↦ subst (λ t. related dec m t p ≡ true) e (related_self m p q h)
      | no n ↦ elim (related_cases m p q h) [
        | inl e ↦ absurd (n e)
        | inr l ↦ listed-related m q p (sym_listed p q n l)
      ]
    ];
    transitive = λ p q r h k. elim (dec p r) [
      | yes e ↦ subst (λ t. related dec m p t ≡ true) e (related_self m p q h)
      | no n ↦ elim (related_cases m p q h) [
        | inl e ↦ subst (λ t. related dec m t r ≡ true) (sym e) k
        | inr l ↦ elim (related_cases m q r k) [
          | inl e ↦ subst (λ t. related dec m p t ≡ true) e h
          | inr l' ↦ listed-related m p r (trans_listed p q r n l l')
        ]
      ]
    ];
  }
