-- ===== src/Base/Returns.antt =====
-- Where a fallible computation returns a value.
use mathlib.Core.List.{List, [], ◌∷◌}
use mathlib.Core.Logic.{◌↔◌}
use mathlib.Core.Path.{◌≡◌, refl}
use cedar_spec.Base.Outcomes.{Exec, ok, err, panic, ◌>>=◌, for_each}
use cedar_spec.Base.Lists.{All}

abbrev pub Returns : {E A : Type 0} → Exec E A → Type 0
Returns {E} {A} m = (a : A) × (m ≡ ok a)

pub Returns-ok : {E A : Type 0} (a : A) → Returns {E = E} (ok a)
Returns-ok a = (a, refl)

-- A computation, and then one on its value.
pub Returns-bind :
    {E A B : Type 0} {P Q : Type 0} (m : Exec E A) (f : A → Exec E B)
    → Returns m ↔ P
    → ((a : A) → m ≡ ok a → Returns (f a) ↔ Q)
    → Returns (m >>= f) ↔ (P × Q)
Returns-bind (ok a) f h k = (λ r. (h.0 (a, refl), (k a refl).0 r), λ pq. (k a refl).1 pq.1)
Returns-bind (err e) f h k = (λ r. absurd (cc (r.1)), λ pq. absurd (cc ((h.1 pq.0).1)))
Returns-bind panic f h k = (λ r. absurd (cc (r.1)), λ pq. absurd (cc ((h.1 pq.0).1)))

pub Returns-map :
    {E A B : Type 0} {P : Type 0} (m : Exec E A) (f : A → Exec E B)
    → Returns m ↔ P
    → ((a : A) → Returns (f a))
    → Returns (m >>= f) ↔ P
Returns-map (ok a) f h k = (λ r. h.0 (a, refl), λ p. k a)
Returns-map (err e) f h k = (λ r. absurd (cc (r.1)), λ p. absurd (cc ((h.1 p).1)))
Returns-map panic f h k = (λ r. absurd (cc (r.1)), λ p. absurd (cc ((h.1 p).1)))

-- Two computations, whose values are put together.
pub Returns-pair :
    {E A B C : Type 0} {P Q : Type 0} (m : Exec E A) (k : Exec E B) (g : A → B → C)
    → Returns m ↔ P
    → Returns k ↔ Q
    → Returns (m >>= λ a. k >>= λ b. ok (g a b)) ↔ (P × Q)
Returns-pair m k g p q = Returns-bind m _ p (λ a _. Returns-map k _ q (λ b. Returns-ok (g a b)))

pub Returns-for_each :
    {E A B : Type 0} (P : A → Type 0) (f : A → Exec E B)
    → ((a : A) → Returns (f a) ↔ P a)
    → (xs : List A) → Returns (for_each f xs) ↔ All P xs
unfolding for_each
Returns-for_each P f h [] = (λ r. tt, λ p. Returns-ok [])
Returns-for_each P f h (x ∷ xs) =
    Returns-pair (f x) (for_each f xs) _ (h x) (Returns-for_each P f h xs)
