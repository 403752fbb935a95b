-- ===== src/Base/Pigeonhole.antt =====
-- Lists without repetition, and the pigeonhole principle on them.
use Prim.Native.Nat.{suc, ◌≤◌}
use mathlib.Core.Bool.{true, false}
use mathlib.Core.List.{List, [], ◌∷◌}
use mathlib.Core.Logic.{◌↔◌, ◌≢◌, inl, inr, ite, if_pos, if_neg}
use mathlib.Core.Path.{◌≡◌, refl, subst, sym, ◌∙◌}
use native.Mathlib.Omega.{arith}
use cedar_spec.Base.Tests.{test}
use cedar_spec.Base.Lists.{length, In}
use cedar_spec.Base.Assoc.{contains}

module _ {A : Type 0} where
  abbrev pub IsRepeatFree : List A → Type 0
  IsRepeatFree [] = Unit
  IsRepeatFree (x ∷ xs) = (¬ In x xs) × IsRepeatFree xs

  abbrev pub IsSubset : List A → List A → Type 0
  IsSubset xs ys = (a : A) → In a xs → In a ys

  module _ (dec : Discrete A) where
    pub contains_iff : (a : A) (xs : List A) → (contains dec a xs ≡ true) ↔ In a xs
    unfolding contains
    contains_iff a [] = (λ h. cc, λ h. absurd h)
    contains_iff a (x ∷ xs) = elim (dec x a) [
      | yes e ↦ (λ h. inl (sym e), λ h. rw (test_yes (dec x a) e) refl)
      | no n ↦ rw (test_no (dec x a) n) (
          (
            λ h. inr ((contains_iff a xs).0 h),
            λ h. elim h [ inl e ↦ absurd (n (sym e)) | inr i ↦ (contains_iff a xs).1 i ],
          ))
    ]
      where
        test_yes : {P : Type 0} (d : Dec P) → P → test d ≡ true
        test_yes (yes _) p = refl
        test_yes (no n) p = absurd (n p)

        test_no : {P : Type 0} (d : Dec P) → (¬ P) → test d ≡ false
        test_no (yes p) n = absurd (n p)
        test_no (no _) n = refl

    erase : A → List A → List A
    erase a [] = []
    erase a (x ∷ xs) = ite (dec x a) xs (x ∷ erase a xs)

    length-erase : (a : A) (xs : List A) → In a xs → suc (length (erase a xs)) ≡ length xs
    unfolding erase
    length-erase a [] i = absurd i
    length-erase a (x ∷ xs) i = elim (dec x a) [
      | yes e ↦ rw (if_pos (dec x a) e) refl
      | no n ↦
          rw (if_neg (dec x a) n)
            (elim i [ inl e ↦ absurd (n (sym e)) | inr j ↦ omega (arith, length-erase a xs j) ])
    ]

    -- What is erased is one element.
    In-erase : (a b : A) (xs : List A) → In b xs → (a ≢ b) → In b (erase a xs)
    unfolding erase
    In-erase a b [] i n = absurd i
    In-erase a b (x ∷ xs) i n = elim (dec x a) [
      | yes e ↦ rw (if_pos (dec x a) e) (elim i [ inl p ↦ absurd (n (sym e ∙ sym p)) | inr j ↦ j ])
      | no m ↦
          rw (if_neg (dec x a) m) (elim i [ inl p ↦ inl p | inr j ↦ inr (In-erase a b xs j n) ])
    ]

    -- A list without repetition that another holds, of the same length, holds the other.
    pub pigeonhole :
        (xs ys : List A) → IsRepeatFree xs → IsSubset xs ys → length xs ≡ length ys → IsSubset ys xs
    pigeonhole [] [] u s e a i = i
    pigeonhole [] (y ∷ ys) u s e a i = absurd (omega arith)
    pigeonhole (x ∷ xs) ys u s e a i = elim (dec x a) [
      | yes p ↦ inl (sym p)
      | no n ↦ inr (
          pigeonhole xs (erase x ys) u.1
            (λ b j. In-erase x b ys (s b (inr j)) (λ p. u.0 (subst (λ z. In z xs) (sym p) j)))
            (omega (arith, length-erase x ys (s x (inl refl)))) a (In-erase x a ys i n))
    ]

    -- A list without repetition is no longer than a list that holds it.
    pub length-subset : (xs ys : List A) → IsRepeatFree xs → IsSubset xs ys → length xs ≤ length ys
    length-subset [] ys u s = omega arith
    length-subset (x ∷ xs) ys u s =
        let rest =
          length-subset xs (erase x ys) u.1
            (λ b j. In-erase x b ys (s b (inr j)) (λ p. u.0 (subst (λ z. In z xs) (sym p) j))) in
        omega (arith, length-erase x ys (s x (inl refl)), rest)
