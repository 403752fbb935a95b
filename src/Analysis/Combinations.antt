-- ===== src/Analysis/Combinations.antt =====
-- cedar-lean-cli/src/analysis.rs: the pairs of policies that the loop of `analyze_policyset` goes over.
use cedar_spec.Base.{◌≡◌, ◌⊎◌, inl, inr, List, [], ◌∷◌, map, In, In-append}
use cedar_spec.Cedar.{Cedar, CombinationLaws}

In-map : {A B : Type 0} (f : A → B) (x : A) (xs : List A) → In x xs → In (f x) (map f xs)
In-map f x [] h = absurd h
In-map f x (y ∷ xs) (inl e) = inl (cc)
In-map f x (y ∷ xs) (inr i) = inr (In-map f x xs i)

module _ {c : Cedar} (laws : CombinationLaws c) where
  first-or-later :
      (p : c.Policy) (ps : List c.Policy) (y : c.Policy × c.Policy)
      → In y (map (λ q. (p, q)) ps) ⊎ In y (c.combinations ps)
      → In y (c.combinations (p ∷ ps))
  first-or-later p ps y h =
      rw (laws.combinations-cons p ps)
        ((In-append y (map (λ q. (p, q)) ps) (c.combinations ps)).1 h)

  with_first :
      (x p q : c.Policy) (ps : List c.Policy)
      → p ≡ x
      → In q ps
      → In {A = c.Policy × c.Policy} (p, q) (c.combinations (x ∷ ps))
  with_first x p q ps e i = rw e (first-or-later x ps (x, q) (inl (In-map (λ y. (x, y)) q ps i)))

  -- Two different policies stand in a pair together, in one of the two orders.
  pub combinations-In :
      (ps : List c.Policy) (p q : c.Policy)
      → In p ps
      → In q ps
      → ¬ (p ≡ q)
      → In {A = c.Policy × c.Policy} (p, q) (c.combinations ps)
        ⊎ In {A = c.Policy × c.Policy} (q, p) (c.combinations ps)
  combinations-In [] p q i j n = absurd i
  combinations-In (x ∷ ps) p q (inl e) (inl d) n = absurd (n (cc))
  combinations-In (x ∷ ps) p q (inl e) (inr j) n = inl (with_first x p q ps e j)
  combinations-In (x ∷ ps) p q (inr i) (inl d) n = inr (with_first x q p ps d i)
  combinations-In (x ∷ ps) p q (inr i) (inr j) n = elim (combinations-In ps p q i j n) [
    | inl h ↦ inl (first-or-later x ps (p, q) (inr h))
    | inr h ↦ inr (first-or-later x ps (q, p) (inr h))
  ]
