-- ===== src/Datatypes/Sharing/Values.antt =====
-- Computations that return the same values, whatever errors they return.
use cedar_spec.Base.{
  ◌≡◌, refl, ap, Option, none, some, Exec, ok, err, panic, ◌>>=◌, lift_error, value_of,
}

-- The values of two computations together.
abbrev pub both : {A B C : Type 0} → (A → B → C) → Option A → Option B → Option C
both g (some a) (some b) = some (g a b)
both g (some a) none = none
both g none o = none

both-none : {A B C : Type 0} (g : A → B → C) (o : Option A) → both g o none ≡ none
both-none g none = refl
both-none g (some a) = refl

pub value_of-both :
    {E A B C : Type 0} (g : A → B → C) (m : Exec E A) (n : Exec E B)
    → value_of (m >>= λ a. n >>= λ b. ok (g a b)) ≡ both g (value_of m) (value_of n)
value_of-both g (ok a) (ok b) = refl
value_of-both g (ok a) _ = refl
value_of-both g (err e) n = refl
value_of-both g panic n = refl

pub value_of-lift_error :
    {E F A : Type 0} (wrap : F → E) (m : Exec F A) → value_of (lift_error wrap m) ≡ value_of m
value_of-lift_error wrap (ok a) = refl
value_of-lift_error wrap _ = refl

module _ {E A B : Type 0} where
  value_of-none :
      (m : Exec E A) (g : A → B) → value_of m ≡ none → value_of (m >>= λ a. ok (g a)) ≡ none
  value_of-none (ok a) g e = cc
  value_of-none (err x) g e = refl
  value_of-none panic g e = refl

module _ {E F A B : Type 0} (wrap : F → E) where
  pub value_of-map :
      (m : Exec E A) (n : Exec F A) (g : A → B)
      → value_of m ≡ value_of (lift_error wrap n)
      → value_of (m >>= λ a. ok (g a)) ≡ value_of (lift_error wrap (n >>= λ a. ok (g a)))
  value_of-map m (ok a) g e = returns m e
    where
      returns : (m : Exec E A) → value_of m ≡ some a → value_of (m >>= λ a. ok (g a)) ≡ some (g a)
      returns (ok b) d = ap (λ o. both (λ x y. g x) o (some a)) d
      returns (err x) d = cc
      returns panic d = cc
  value_of-map m (err x) g e = value_of-none m g e
  value_of-map m panic g e = value_of-none m g e

module _ {E F A B T U : Type 0} (wrap : F → E) where
  -- One step on both sides: `g` after the one conversion, `h` before the other.
  pub same-map :
      (m : Exec E A) (n : Exec E T) (f : T → Exec F A) (g : A → B) (h : T → U) (k : U → Exec F B)
      → ((t : T) → k (h t) ≡ (f t >>= λ a. ok (g a)))
      → value_of m ≡ value_of (n >>= λ t. lift_error wrap (f t))
      → value_of (m >>= λ a. ok (g a))
        ≡ value_of ((n >>= λ t. ok (h t)) >>= λ u. lift_error wrap (k u))
  same-map m (ok t) f g h k q e = rw (q t) (value_of-map wrap m (f t) g e)
  same-map m (err x) f g h k q e = value_of-none m g e
  same-map m panic f g h k q e = value_of-none m g e

module _ {E F A B C S T U : Type 0} (wrap : F → E) where
  -- Two computations one after the other, on both sides.
  pub same-both :
      (m1 : Exec E A) (m2 : Exec E B) (n1 : Exec E S) (n2 : Exec E T) (f1 : S → Exec F A)
      (f2 : T → Exec F B) (g : A → B → C) (h : S → T → U) (k : U → Exec F C)
      → ((s : S) (t : T) → k (h s t) ≡ (f1 s >>= λ a. f2 t >>= λ b. ok (g a b)))
      → value_of m1 ≡ value_of (n1 >>= λ s. lift_error wrap (f1 s))
      → value_of m2 ≡ value_of (n2 >>= λ t. lift_error wrap (f2 t))
      → value_of (m1 >>= λ a. m2 >>= λ b. ok (g a b))
        ≡ value_of ((n1 >>= λ s. n2 >>= λ t. ok (h s t)) >>= λ u. lift_error wrap (k u))
  same-both m1 m2 (ok s) (ok t) f1 f2 g h k q d e =
      rw
        (
          q s t,
          value_of-both g m1 m2,
          d,
          e,
          value_of-lift_error wrap (f1 s),
          value_of-lift_error wrap (f2 t),
          value_of-lift_error wrap (f1 s >>= λ a. f2 t >>= λ b. ok (g a b)),
          value_of-both g (f1 s) (f2 t),
        )
        refl
  same-both m1 m2 (ok s) (err x) f1 f2 g h k q d e =
      rw (value_of-both g m1 m2, e) (both-none g (value_of m1))
  same-both m1 m2 (ok s) panic f1 f2 g h k q d e =
      rw (value_of-both g m1 m2, e) (both-none g (value_of m1))
  same-both m1 m2 (err x) n2 f1 f2 g h k q d e = rw (value_of-both g m1 m2, d) refl
  same-both m1 m2 panic n2 f1 f2 g h k q d e = rw (value_of-both g m1 m2, d) refl

module _ {E F A B C T U : Type 0} (wrap : F → E) where
  -- The same, where the second computation is the first of the other side.
  pub same-flip :
      (m : Exec E A) (n : Exec E T) (f : T → Exec F A) (o : Exec F B) (g : A → B → C) (h : T → U)
      (k : U → Exec F C)
      → ((t : T) → k (h t) ≡ (o >>= λ b. f t >>= λ a. ok (g a b)))
      → value_of m ≡ value_of (n >>= λ t. lift_error wrap (f t))
      → value_of (m >>= λ a. lift_error wrap o >>= λ b. ok (g a b))
        ≡ value_of ((n >>= λ t. ok (h t)) >>= λ u. lift_error wrap (k u))
  same-flip m (ok t) f o g h k q e =
      rw
        (
          q t,
          value_of-both g m (lift_error wrap o),
          e,
          value_of-lift_error wrap (f t),
          value_of-lift_error wrap o,
          value_of-lift_error wrap (o >>= λ b. f t >>= λ a. ok (g a b)),
          value_of-both (λ b a. g a b) o (f t),
        )
        (both_flip (value_of (f t)) (value_of o))
    where
      both_flip : (x : Option A) (y : Option B) → both g x y ≡ both (λ b a. g a b) y x
      both_flip none none = refl
      both_flip none (some b) = refl
      both_flip (some a) none = refl
      both_flip (some a) (some b) = refl
  same-flip m (err x) f o g h k q e = rw (value_of-both g m (lift_error wrap o), e) refl
  same-flip m panic f o g h k q e = rw (value_of-both g m (lift_error wrap o), e) refl
