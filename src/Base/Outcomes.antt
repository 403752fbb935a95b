-- ===== src/Base/Outcomes.antt =====
-- Outcomes of fallible code: a value, an error that the code returns, or a panic
-- (`expect`, `unwrap`, an index out of bounds, a failed assertion).
use Prim.Native.Nat.{ℕ, zero, suc}
use mathlib.Core.List.{List, [], ◌∷◌}
use mathlib.Core.Logic.{◌≢◌, ◌⊎◌, inl, inr}
use mathlib.Core.Option.{Option, none, some}
use mathlib.Core.Path.{◌≡◌, refl, subst}
use native.Mathlib.Omega.{arith}
use cedar_spec.Base.Lists.{length, get_elem?}

pub data Exec (E A : Type 0) : Type 0 where
  ok : A → Exec E A
  err : E → Exec E A
  panic : Exec E A

-- `?`: a failure of either kind skips what follows.
infixl 5 ◌>>=◌ ◌>>◌
abbrev pub ◌>>=◌ : {E B C : Type 0} → Exec E B → (B → Exec E C) → Exec E C
panic >>= next = panic
err failure >>= next = err failure
ok value >>= next = next value

abbrev pub ◌>>◌ : {E C : Type 0} → Exec E (Unit {0}) → Exec E C → Exec E C
step >> next = step >>= λ done. next

-- `.expect(…)` and `.unwrap()` on an option.
abbrev pub expect : {E A : Type 0} → Option A → Exec E A
expect none = panic
expect (some a) = ok a

-- `.ok_or(e)?`
abbrev pub ok_or : {E A : Type 0} → E → Option A → Exec E A
ok_or e none = err e
ok_or e (some a) = ok a

-- `?` into an error type that wraps the other.
abbrev pub lift_error : {E F A : Type 0} → (E → F) → Exec E A → Exec F A
lift_error wrap (ok a) = ok a
lift_error wrap (err e) = err (wrap e)
lift_error wrap panic = panic

-- What was returned, where it is no error.
abbrev pub value_of : {E A : Type 0} → Exec E A → Option A
value_of (ok a) = some a
value_of (err e) = none
value_of panic = none

-- A predicate on the value, that a returned error meets and a panic does not.
abbrev pub Ensures : {E A : Type 0} → (A → Type 0) → Exec E A → Type 0
Ensures P (ok a) = P a
Ensures P (err e) = Unit {0}
Ensures P panic = ⊥

pub Ensures-bind :
    {E A B : Type 0} (P : A → Type 0) (Q : B → Type 0) (m : Exec E A) (f : A → Exec E B)
    → Ensures P m
    → ((a : A) → m ≡ ok a → P a → Ensures Q (f a))
    → Ensures Q (m >>= f)
Ensures-bind P Q (ok a) f p k = k a refl p
Ensures-bind P Q (err e) f p k = tt
Ensures-bind P Q panic f p k = absurd p

-- Where nothing has to be known of the value.
pub Ensures-then :
    {E A B : Type 0} (Q : B → Type 0) (m : Exec E A) (f : A → Exec E B)
    → Ensures (λ _. Unit {0}) m
    → ((a : A) → Ensures Q (f a))
    → Ensures Q (m >>= f)
Ensures-then Q m f h k = Ensures-bind (λ _. Unit {0}) Q m f h (λ a _ _. k a)

pub Ensures-both :
    {E A : Type 0} (P Q : A → Type 0) (m : Exec E A)
    → Ensures P m
    → Ensures Q m
    → Ensures (λ a. P a × Q a) m
Ensures-both P Q (ok a) p q = (p, q)
Ensures-both P Q (err e) p q = tt
Ensures-both P Q panic p q = absurd p

pub Ensures-mono :
    {E A : Type 0} (P Q : A → Type 0) (m : Exec E A)
    → ((a : A) → m ≡ ok a → P a → Q a)
    → Ensures P m
    → Ensures Q m
Ensures-mono P Q (ok a) k p = k a refl p
Ensures-mono P Q (err e) k p = tt
Ensures-mono P Q panic k p = absurd p

pub Ensures-ok :
    {E A : Type 0} (P : A → Type 0) (m : Exec E A) {a : A} → Ensures P m → m ≡ ok a → P a
Ensures-ok P (ok b) p e = subst P (cc) p
Ensures-ok P (err x) p e = cc
Ensures-ok P panic p e = cc

-- A value, a panic, or an error of which the predicate holds.
abbrev pub Fails : {E A : Type 0} → (E → Type 0) → Exec E A → Type 0
Fails P (ok a) = Unit {0}
Fails P (err e) = P e
Fails P panic = Unit {0}

pub Fails-bind :
    {E A B : Type 0} (P : E → Type 0) (m : Exec E A) (f : A → Exec E B)
    → Fails P m
    → ((a : A) → Fails P (f a))
    → Fails P (m >>= f)
Fails-bind P (ok a) f n k = k a
Fails-bind P (err e) f n k = n
Fails-bind P panic f n k = tt

-- Without a panic there is a value or such an error.
pub Ensures-total :
    {E A : Type 0} (P : A → Type 0) (Q : E → Type 0) (m : Exec E A)
    → Ensures P m
    → Fails Q m
    → ((a : A) × (m ≡ ok a) × P a) ⊎ ((e : E) × (m ≡ err e) × Q e)
Ensures-total P Q (ok a) p q = inl (a, refl, p)
Ensures-total P Q (err e) p q = inr (e, refl, q)
Ensures-total P Q panic p q = absurd p

pub Ensures-ne-panic : {E A : Type 0} (P : A → Type 0) (m : Exec E A) → Ensures P m → m ≢ panic
Ensures-ne-panic P (ok b) p e = cc
Ensures-ne-panic P (err x) p e = cc
Ensures-ne-panic P panic p e = absurd p

-- The outcome of a call that returns a `Result` and does not panic.
-- The first argument is the `map_err` that wraps the error.
abbrev pub attempt : {E F A : Type 0} → (E → F) → E ⊎ A → Exec F A
attempt wrap (inl e) = err (wrap e)
attempt wrap (inr a) = ok a

-- What a call that succeeds returned.
pub attempt-eq :
    {E F A : Type 0} (wrap : F → E) (m : F ⊎ A) → Ensures (λ a. m ≡ inr a) (attempt wrap m)
attempt-eq wrap (inl e) = tt
attempt-eq wrap (inr a) = refl

-- What a call that succeeds in a sequence returned, and what follows it.
pub after_call :
    {E F A B : Type 0} (wrap : E → F) (call : E ⊎ A) (next : A → Exec F B) {b : B}
    → (attempt wrap call >>= next) ≡ ok b
    → (a : A) × (call ≡ inr a) × (next a ≡ ok b)
after_call wrap (inl e) next h = cc
after_call wrap (inr a) next h = (a, refl, h)

pub after_step :
    {E A B : Type 0} (step : Exec E A) (next : A → Exec E B) {b : B}
    → (step >>= next) ≡ ok b
    → (a : A) × (step ≡ ok a) × (next a ≡ ok b)
after_step panic next h = cc
after_step (err failure) next h = cc
after_step (ok a) next h = (a, refl, h)

-- A loop that pushes one result for each element and stops at the first failure.
unfoldable pub for_each : {E A B : Type 0} → (A → Exec E B) → List A → Exec E (List B)
for_each f [] = ok []
for_each f (x ∷ xs) = do y ← f x; ys ← for_each f xs; ok (y ∷ ys)

-- Two lists of one length, related place by place.
abbrev pub Zip : {A B : Type 0} → (A → B → Type 0) → List A → List B → Type 0
Zip P [] [] = Unit {0}
Zip P [] (y ∷ ys) = ⊥
Zip P (x ∷ xs) [] = ⊥
Zip P (x ∷ xs) (y ∷ ys) = P x y × Zip P xs ys

pub Zip-length :
    {A B : Type 0} (P : A → B → Type 0) (xs : List A) (ys : List B)
    → Zip P xs ys
    → length ys ≡ length xs
Zip-length P [] [] z = refl
Zip-length P [] (y ∷ ys) z = absurd z
Zip-length P (x ∷ xs) [] z = absurd z
Zip-length P (x ∷ xs) (y ∷ ys) z = omega (arith, Zip-length P xs ys z.1)

pub Zip-mono :
    {A B : Type 0} (P Q : A → B → Type 0)
    → ((x : A) (y : B) → P x y → Q x y)
    → (xs : List A) (ys : List B) → Zip P xs ys
    → Zip Q xs ys
Zip-mono P Q f [] [] z = tt
Zip-mono P Q f [] (y ∷ ys) z = absurd z
Zip-mono P Q f (x ∷ xs) [] z = absurd z
Zip-mono P Q f (x ∷ xs) (y ∷ ys) z = (f x y z.0, Zip-mono P Q f xs ys z.1)

-- What stands at a place of the second list is related to what stands there in the first.
pub Zip-get_elem? :
    {A B : Type 0} (P : A → B → Type 0) (xs : List A) (ys : List B) (i : ℕ) {x : A} {y : B}
    → Zip P xs ys
    → get_elem? xs i ≡ some x
    → get_elem? ys i ≡ some y
    → P x y
Zip-get_elem? P [] ys i z e f = cc
Zip-get_elem? P (x ∷ xs) [] i z e f = absurd z
Zip-get_elem? P (x ∷ xs) (y ∷ ys) zero z e f = subst (P _) (cc) (subst (λ t. P t y) (cc) z.0)
Zip-get_elem? P (x ∷ xs) (y ∷ ys) (suc i) z e f = Zip-get_elem? P xs ys i z.1 e f

pub Fails-for_each :
    {E A B : Type 0} (P : E → Type 0) (f : A → Exec E B) (xs : List A)
    → ((x : A) → Fails P (f x))
    → Fails P (for_each f xs)
unfolding for_each
Fails-for_each P f [] h = tt
Fails-for_each P f (x ∷ xs) h =
    Fails-bind P (f x) _ (h x)
      (λ y. Fails-bind P (for_each f xs) _ (Fails-for_each P f xs h) (λ ys. tt))

-- Where each round ensures a relation, the loop ensures it place by place.
pub for_each-Zip :
    {E A B : Type 0} (P : A → B → Type 0) (f : A → Exec E B) (xs : List A)
    → ((x : A) → Ensures (P x) (f x))
    → Ensures (Zip P xs) (for_each f xs)
unfolding for_each
for_each-Zip P f [] h = tt
for_each-Zip P f (x ∷ xs) h = Ensures-bind (P x) (Zip P (x ∷ xs)) (f x) _ (h x) (λ y _ p.
    Ensures-bind (Zip P xs) (Zip P (x ∷ xs)) (for_each f xs) _ (for_each-Zip P f xs h)
      (λ ys _ q. (p, q)))

pub value_of-ok : {E A : Type 0} (m : Exec E A) {a : A} → value_of m ≡ some a → m ≡ ok a
value_of-ok (ok b) e = cc
value_of-ok (err x) e = cc
value_of-ok panic e = cc
