-- ===== src/Analysis/Classes.antt =====
-- cedar-lean-cli/src/analysis.rs: the loop of `PerSigFindings::new` cuts the redundant policies of a
-- request environment into their classes.
use cedar_spec.Base.{
  guard_cons-there, guard_cons-here, In-guard_cons, ℕ, zero, suc, ◌≤◌, ◌≡◌, ◌≢◌, refl, sym, subst,
  ◌∙◌, Bool, true, false, ◌||◌, List, [], ◌∷◌, Option, none, some, length, test, arith, inl, inr,
  In, Bool-cases, if◌then◌else◌, leb,
}
use cedar_spec.Base.Assoc.{
  contains, insert_elem, contains-insert_elem, lookup, remove, lookup-remove, length-remove-le,
}
use cedar_spec.Cedar.{Cedar}
use cedar_spec.Analysis.Report.{per_sig_findings_new, SetMap, remove_all, equiv_classes_loop}

module _ {PolicyId : Type 0} (dec : Discrete PolicyId) where
  -- `p` has an entry, and `q` is `p` or stands in the set of `p`.
  unfoldable pub related_in : Option (List PolicyId) → PolicyId → PolicyId → Bool
  related_in none p q = false
  related_in (some s) p q = test (dec p q) || contains dec q s

  unfoldable pub related : SetMap PolicyId → PolicyId → PolicyId → Bool
  unfolding related_in
  related m p q = related_in (lookup dec p m) p q

  pub record IsEquivalence (m : SetMap PolicyId) : Type 0 where
    pub symmetric : (p q : PolicyId) → related m p q ≡ true → related m q p ≡ true
    pub transitive :
        (p q r : PolicyId) → related m p q ≡ true → related m q r ≡ true → related m p r ≡ true

  related_if :
      (b : Bool) (o : Option (List PolicyId)) (p q : PolicyId)
      → related_in (if b then none else o) p q ≡ (if b then false else related_in o p q)
  unfolding related_in
  related_if true o p q = refl
  related_if false o p q = refl

  lookup-remove_all :
      (k : PolicyId) (pids : List PolicyId) (m : SetMap PolicyId)
      → lookup dec k (remove_all dec pids m)
        ≡ (if contains dec k pids then none else lookup dec k m)
  unfolding remove_all contains
  lookup-remove_all k [] m = refl
  lookup-remove_all k (pid ∷ pids) m =
      ground (arith, lookup-remove_all k pids (remove dec pid m), lookup-remove dec pid k m)

  length-remove_all-le :
      (pids : List PolicyId) (m : SetMap PolicyId) → length (remove_all dec pids m) ≤ length m
  unfolding remove_all
  length-remove_all-le [] m = omega arith
  length-remove_all-le (pid ∷ pids) m =
      omega (arith, length-remove_all-le pids (remove dec pid m), length-remove-le dec pid m)

  -- Removing the members of a class that holds the first key takes at least the first entry away.
  length-remove_all_head :
      (k : PolicyId) (s : List PolicyId) (pids : List PolicyId) (m : SetMap PolicyId)
      → contains dec k pids ≡ true
      → length (remove_all dec pids ((k, s) ∷ m)) ≤ length m
  unfolding remove_all contains remove
  length-remove_all_head k s [] m h = cc
  length-remove_all_head k s (pid ∷ pids) m h = ground (
    arith,
    length-remove_all_head k s pids (remove dec pid m),
    length-remove_all-le pids (remove dec pid m),
    length-remove-le dec pid m,
  )

  two_members :
      (p q : PolicyId) (xs : List PolicyId)
      → contains dec p xs ≡ true
      → contains dec q xs ≡ true
      → p ≢ q
      → 2 ≤ length xs
  unfolding contains
  two_members p q [] h k n = cc
  two_members p q (x ∷ []) h k n = ground arith
  two_members p q (x ∷ y ∷ xs) h k n = omega arith

  -- The class of the first entry, and what its removal leaves.
  module _ (pid : PolicyId) (redundants : List PolicyId) (m : SetMap PolicyId) where
    abbrev whole : SetMap PolicyId
    whole = (pid, redundants) ∷ m

    abbrev first_class : List PolicyId
    first_class = insert_elem dec pid redundants

    abbrev others : SetMap PolicyId
    others = remove_all dec first_class whole

    contains-first_class : (q : PolicyId) → contains dec q first_class ≡ related whole pid q
    unfolding related lookup
    contains-first_class q = ground (arith, contains-insert_elem dec pid q redundants)

    related-others :
        (p q : PolicyId)
        → related others p q ≡ (if related whole pid p then false else related whole p q)
    unfolding related
    related-others p q =
        rw (lookup-remove_all p first_class whole, contains-first_class p)
          (related_if (related whole pid p) (lookup dec p whole) p q)

    others-IsEquivalence : IsEquivalence whole → IsEquivalence others
    others-IsEquivalence e = record {
      symmetric = λ p q h.
          ground
            (arith, related-others p q, related-others q p, e.symmetric p q, e.transitive pid q p);
      transitive = λ p q r h k.
          ground
            (arith, related-others p q, related-others q r, related-others p r, e.transitive p q r);
    }

  abbrev Apart : List PolicyId → List PolicyId → Type 0
  Apart xs ys = (q : PolicyId) → contains dec q xs ≡ true → contains dec q ys ≡ true → ⊥

  abbrev pub Disjoint : List (List PolicyId) → Type 0
  Disjoint [] = Unit {0}
  Disjoint (xs ∷ classes) = ((ys : List PolicyId) → In ys classes → Apart xs ys) × Disjoint classes

  -- The class of `p`, with two members at least.
  pub record IsClass (m : SetMap PolicyId) (xs : List PolicyId) (p : PolicyId) : Type 0 where
    pub large : 2 ≤ length xs
    pub holds : contains dec p xs ≡ true
    pub members : (q : PolicyId) → contains dec q xs ≡ related m p q

  pub record IsPartition (m : SetMap PolicyId) (classes : List (List PolicyId)) : Type 0 where
    pub sound : (xs : List PolicyId) → In xs classes → (p : PolicyId) × IsClass m xs p
    pub complete :
        (p q : PolicyId)
        → related m p q ≡ true
        → p ≢ q
        → (xs : List PolicyId) × In xs classes
          × (contains dec p xs ≡ true)
          × (contains dec q xs ≡ true)
    pub disjoint : Disjoint classes

  module _ (pid : PolicyId) (redundants : List PolicyId) (m : SetMap PolicyId)
      (e : IsEquivalence (whole pid redundants m)) where
    IsClass-whole :
        (xs : List PolicyId) (p : PolicyId)
        → IsClass (others pid redundants m) xs p
        → (related (whole pid redundants m) pid p ≡ false) × IsClass (whole pid redundants m) xs p
    IsClass-whole xs p k =
        let apart : related (whole pid redundants m) pid p ≡ false =
          ground (arith, k.members p, k.holds, related-others pid redundants m p p) in
        (
          apart,
          record {
            large = k.large;
            holds = k.holds;
            members = λ q. ground (arith, k.members q, related-others pid redundants m p q);
          },
        )

    -- The first class, if it is large enough, beside a partition of what is left.
    IsPartition-cons :
        (rest : List (List PolicyId))
        → IsPartition (others pid redundants m) rest
        → IsPartition (whole pid redundants m) (
            if leb 2 (length (first_class pid redundants m))
            then first_class pid redundants m ∷ rest
            else rest)
    IsPartition-cons rest r = record {
      sound = λ xs i. elim (In-guard_cons large first xs rest i) [
        | inl (b, eq) ↦ (pid, subst (λ t. IsClass all t pid) (sym eq) (first-IsClass b))
        | inr j ↦ let (p, k) = r.sound xs j in (p, (IsClass-whole xs p k).1)
      ];
      complete = λ p q h n. elim (Bool-cases (related all pid p)) [
        | inl t ↦
            let in_p : contains dec p first ≡ true = contains-first_class pid redundants m p ∙ t in
            let in_q : contains dec q first ≡ true =
              contains-first_class pid redundants m q ∙ e.transitive pid p q t h in
            let two = two_members p q first in_p in_q n in
            (first, guard_cons-here large first first rest (ground arith) refl, in_p, in_q)
        | inr f ↦
            let (xs, i, in_p, in_q) =
              r.complete p q (ground (arith, related-others pid redundants m p q)) n in
            (xs, guard_cons-there large first xs rest i, in_p, in_q)
      ];
      disjoint = disjoint_guard large;
    }
      where
        all : SetMap PolicyId
        all = whole pid redundants m

        first : List PolicyId
        first = first_class pid redundants m

        large : Bool
        large = leb 2 (length first)

        first-IsClass : large ≡ true → IsClass all first pid
        first-IsClass b = record {
          large = ground arith;
          holds = ground (arith, contains-insert_elem dec pid pid redundants);
          members = contains-first_class pid redundants m;
        }

        apart : (ys : List PolicyId) → In ys rest → Apart first ys
        apart ys i q h k =
            let (p, cls) = r.sound ys i in
            let (far, cl) = IsClass-whole ys p cls in
            ground (
              arith,
              contains-first_class pid redundants m q,
              cl.members q,
              e.symmetric p q,
              e.transitive pid q p,
            )

        disjoint_guard : (b : Bool) → Disjoint (if b then first ∷ rest else rest)
        disjoint_guard true = (apart, r.disjoint)
        disjoint_guard false = r.disjoint

  related-nil : (p q : PolicyId) → ¬ (related [] p q ≡ true)
  unfolding related lookup
  related-nil p q h = cc

  equiv_classes_loop-IsPartition :
      (fuel : ℕ) (m : SetMap PolicyId)
      → length m ≤ fuel
      → IsEquivalence m
      → IsPartition m (equiv_classes_loop dec fuel m)
  unfolding equiv_classes_loop
  equiv_classes_loop-IsPartition fuel [] h e = record {
    sound = λ xs i. absurd i;
    complete = λ p q k n. absurd (related-nil p q k);
    disjoint = tt;
  }
  equiv_classes_loop-IsPartition zero (entry ∷ m) h e = absurd (omega arith)
  equiv_classes_loop-IsPartition (suc fuel) ((pid, redundants) ∷ m) h e =
      let left =
        length-remove_all_head pid redundants (first_class pid redundants m) m
          (ground (arith, contains-insert_elem dec pid pid redundants)) in
      IsPartition-cons pid redundants m e _ (
        equiv_classes_loop-IsPartition fuel (others pid redundants m) (omega (arith, left))
          (others-IsEquivalence pid redundants m e))

-- Where the redundancy at a request environment is symmetric and transitive, the loop of
-- `PerSigFindings::new` ends with its classes: each class kept has two members at least and is the
-- class of one of them, any two different redundant policies stand in a class together, and no
-- policy stands in two classes.
pub per_sig_findings_new-IsPartition :
    (c : Cedar) (e : c.RequestEnv) (equiv_results permits forbids overridden : SetMap c.PolicyId)
    → IsEquivalence c.policy_id_discrete equiv_results
    → IsPartition c.policy_id_discrete equiv_results
        (per_sig_findings_new c e equiv_results permits forbids overridden).equiv_classes
unfolding per_sig_findings_new
per_sig_findings_new-IsPartition c e equiv_results permits forbids overridden h =
    equiv_classes_loop-IsPartition c.policy_id_discrete (length equiv_results) equiv_results
      (omega arith) h
