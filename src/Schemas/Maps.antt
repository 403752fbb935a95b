-- ===== src/Schemas/Maps.antt =====
-- The checks of sets and maps, as statements on their elements and entries, and in the other direction.
use Prim.Native.String.{String}
use mathlib.Core.Logic.{if_pos, if_neg}
use cedar_spec.Base.{
  ◌≡◌, refl, sym, ap, subst, ◌∙◌, ◌↔◌, inl, inr, Bool, true, false, not, ◌&&◌, List, [], ◌∷◌,
  Option, none, some, Exec, ok, err, panic, length, ◌==◌, ==_iff, arith, In, All, after_step,
  Bool-cases, length-map,
}
use cedar_spec.Base.Assoc.{lookup, lookup-All}
use cedar_spec.Base.Pigeonhole.{IsRepeatFree, IsSubset, contains_iff, pigeonhole}
use cedar_spec.Base.Texts.{string_discrete}
use cedar_spec.Schemas.{
  Checked, require, same_set, all_in, keys_of, is_failure, entry_fails, entries_equiv, map_equiv,
}

pub All-mono :
    {A : Type 0} (P Q : A → Type 0) → ((a : A) → P a → Q a) → (xs : List A) → All P xs → All Q xs
All-mono P Q f [] h = tt
All-mono P Q f (x ∷ xs) h = (f x h.0, All-mono P Q f xs h.1)

pub everywhere : {A : Type 0} (xs : List A) → All (λ _. Unit {0}) xs
everywhere [] = tt
everywhere (x ∷ xs) = (tt, everywhere xs)

pub require-ok : (b : Bool) (message : String) → require b message ≡ ok tt → b ≡ true
require-ok true m h = refl
require-ok false m h = cc

pub both_true : (a b : Bool) → (a && b) ≡ true → (a ≡ true) × (b ≡ true)
both_true true b h = (refl, h)
both_true false b h = cc

module _ {A : Type 0} (dec : Discrete A) where
  all_in_iff : (xs ys : List A) → (all_in dec xs ys ≡ true) ↔ IsSubset xs ys
  unfolding all_in
  all_in_iff [] ys = (λ h a i. absurd i, λ h. refl)
  all_in_iff (x ∷ xs) ys =
      let ih = all_in_iff xs ys in
      let c = contains_iff dec x ys in
      (
        λ h a i. elim i [
          | inl e ↦ subst (λ z. In z ys) (sym e) (c.0 (both_true _ _ h).0)
          | inr j ↦ ih.0 (both_true _ _ h).1 a j
        ],
        λ s. rw (c.1 (s x (inl refl)), ih.1 (λ a i. s a (inr i))) refl,
      )

  pub same_set_iff :
      (xs ys : List A) → (same_set dec xs ys ≡ true) ↔ ((length xs ≡ length ys) × IsSubset xs ys)
  unfolding same_set
  same_set_iff xs ys = (
    λ h. (ground arith, (all_in_iff xs ys).0 (ground arith)),
    λ p. rw ((all_in_iff xs ys).1 p.1) (ground arith),
  )

  pub same_set_sym :
      (xs ys : List A) → IsRepeatFree xs → same_set dec xs ys ≡ true → same_set dec ys xs ≡ true
  same_set_sym xs ys u h =
      let p = (same_set_iff xs ys).0 h in
      (same_set_iff ys xs).1 (sym p.0, pigeonhole dec xs ys u p.1 p.0)

module _ {K V : Type 0} (dec : Discrete K) where
  -- A key of the map has a value.
  pub keys_of-lookup :
      (k : K) (m : List (K × V)) → In k (keys_of m) → (v : V) × (lookup dec k m ≡ some v)
  unfolding lookup
  keys_of-lookup k [] i = absurd i
  keys_of-lookup k ((j, w) ∷ m) i = elim (dec j k) [
    | yes e ↦ (w, rw (if_pos (dec j k) e) refl)
    | no n ↦
        rw (if_neg (dec j k) n)
          (keys_of-lookup k m (elim i [ inl e ↦ absurd (n (sym e)) | inr r ↦ r ]))
  ]

  pub lookup-In : (k : K) (m : List (K × V)) {v : V} → lookup dec k m ≡ some v → In k (keys_of m)
  unfolding lookup
  lookup-In k [] e = cc
  lookup-In k ((j, w) ∷ m) e = elim (dec j k) [
    | yes p ↦ inl (sym p)
    | no n ↦ inr (lookup-In k m (rw (if_neg (dec j k) n) at e))
  ]

  In-keys_of : (p : K × V) (m : List (K × V)) → In p m → In p.0 (keys_of m)
  In-keys_of p [] i = absurd i
  In-keys_of p (q ∷ m) i = elim i [ inl e ↦ inl (ap (λ z. z.0) e) | inr j ↦ inr (In-keys_of p m j) ]

  -- An entry is found under its key, where no key is repeated.
  pub entry-lookup :
      (p : K × V) (m : List (K × V))
      → IsRepeatFree (keys_of m)
      → In p m
      → lookup dec p.0 m ≡ some p.1
  unfolding lookup
  entry-lookup p [] u i = absurd i
  entry-lookup p ((j, w) ∷ m) u i = elim i [
    | inl e ↦ rw (if_pos (dec j p.0) (sym (ap (λ z. z.0) e))) (ap (λ z. some z.1) (sym e))
    | inr h ↦
        rw
          (if_neg (dec j p.0) (λ e. u.0 (subst (λ z. In z (keys_of m)) (sym e) (In-keys_of p m h))))
          (entry-lookup p m u.1 h)
  ]

  pub All-In : (P : K × V → Type 0) (m : List (K × V)) → ((p : K × V) → In p m → P p) → All P m
  All-In P [] f = tt
  All-In P (p ∷ m) f = (f p (inl refl), All-In P m (λ q i. f q (inr i)))

  -- Each entry of the one map has a related value under its key in the other.
  abbrev pub Matches : (V → V → Type 0) → List (K × V) → List (K × V) → Type 0
  Matches R l r = All (λ p. (w : V) × (lookup dec p.0 r ≡ some w) × R p.1 w) l

  pub Matches-sym :
      (R : V → V → Type 0) (W : V → Type 0) (l r : List (K × V))
      → IsRepeatFree (keys_of l)
      → IsRepeatFree (keys_of r)
      → length l ≡ length r
      → All (λ p. W p.1) r
      → All (λ p. (w : V) → W w → R p.1 w → R w p.1) l
      → Matches R l r
      → Matches R r l
  Matches-sym R W l r ul ur e ws s m = All-In _ r entry
    where
      subset : IsSubset (keys_of l) (keys_of r)
      subset k i =
          let f = keys_of-lookup k l i in
          let x = lookup-All dec (λ p. (w : V) × (lookup dec p.0 r ≡ some w) × R p.1 w) k l m f.1 in
          lookup-In k r x.1

      entry : (q : K × V) → In q r → (v : V) × (lookup dec q.0 l ≡ some v) × R q.1 v
      entry q i =
          let back =
            pigeonhole dec (keys_of l) (keys_of r) ul subset
              (length-map _ l ∙ e ∙ sym (length-map _ r)) in
          let f = keys_of-lookup q.0 l (back q.0 (In-keys_of q r i)) in
          let x =
            lookup-All dec (λ p. (w : V) × (lookup dec p.0 r ≡ some w) × R p.1 w) q.0 l m f.1 in
          let h = lookup-All dec (λ p. (w : V) → W w → R p.1 w → R w p.1) q.0 l s f.1 in
          let c = entry-lookup q r ur i in
          let v = lookup-All dec (λ p. W p.1) q.0 r ws c in
          (f.0, f.1, h q.1 v (subst (R f.0) (cc (x.1, c)) x.2))

  -- A map related to itself, where each of its values is.
  pub Matches-refl :
      (R : V → V → Type 0) (m : List (K × V))
      → IsRepeatFree (keys_of m)
      → All (λ p. R p.1 p.1) m
      → Matches R m m
  Matches-refl R m u h = All-In _ m (λ p i.
      (p.1, entry-lookup p m u i, lookup-All dec (λ q. R q.1 q.1) p.0 m h (entry-lookup p m u i)))

is_failure-ok : (m : Checked) → is_failure m ≡ ok false → m ≡ ok tt
is_failure-ok (ok u) h = refl
is_failure-ok (err e) h = cc
is_failure-ok panic h = cc

not-true :
    (fails rest : Bool)
    → ◌≡◌ {A = Exec String Bool} (ok (not fails && rest)) (ok true)
    → (fails ≡ false) × (rest ≡ true)
not-true false rest h = (refl, cc)
not-true true rest h = cc

module _ {V : Type 0} (equiv : V → V → Checked) where
  entry_fails_iff :
      (o : Option V) (v : V)
      → (entry_fails equiv o v ≡ ok false) ↔ ((w : V) × (o ≡ some w) × (equiv v w ≡ ok tt))
  unfolding entry_fails
  entry_fails_iff none v = (λ h. cc, λ p. cc (p.1))
  entry_fails_iff (some w) v = (
    λ h. (w, refl, is_failure-ok (equiv v w) h),
    λ p.
        subst (λ x. is_failure x ≡ ok false) (sym (subst (λ x. equiv v x ≡ ok tt) (cc (p.1)) p.2))
          refl,
  )

  entries_equiv_iff :
      (l r : List (String × V))
      → (entries_equiv equiv l r ≡ ok true) ↔ Matches string_discrete (λ v w. equiv v w ≡ ok tt) l r
  unfolding entries_equiv
  entries_equiv_iff [] r = (λ h. tt, λ p. refl)
  entries_equiv_iff ((k, v) ∷ l) r =
      let one = entry_fails_iff (lookup string_discrete k r) v in
      let more = entries_equiv_iff l r in
      (
        λ h.
            let x = after_step (entry_fails equiv (lookup string_discrete k r) v) _ h in
            let y = after_step (entries_equiv equiv l r) _ x.2 in
            let b = not-true x.0 y.0 y.2 in (one.0 (x.1 ∙ ap ok b.0), more.0 (y.1 ∙ ap ok b.1)),
        λ p. rw (one.1 p.0, more.1 p.1) refl,
      )

  pub map_equiv_iff :
      (l r : List (String × V))
      → (map_equiv equiv l r ≡ ok tt)
        ↔ ((length l ≡ length r) × Matches string_discrete (λ v w. equiv v w ≡ ok tt) l r)
  unfolding map_equiv
  map_equiv_iff l r = elim (Bool-cases (length l == length r)) [
    | inl e ↦ rw e (
      λ h.
          let x = after_step (entries_equiv equiv l r) _ h in
          (
            (==_iff (length l) (length r)).0 e,
            (entries_equiv_iff l r).0 (x.1 ∙ ap ok (require-ok x.0 _ x.2)),
          ),
      λ p. rw ((entries_equiv_iff l r).1 p.1) refl,
    )
    | inr e ↦ rw e (λ h. cc, λ p. cc ((==_iff (length l) (length r)).1 p.0))
  ]

  -- The check of two maps in the other direction, where it is so of their values.
  pub map_equiv_sym :
      (W : V → Type 0) (l r : List (String × V))
      → IsRepeatFree (keys_of l)
      → IsRepeatFree (keys_of r)
      → All (λ p. W p.1) r
      → All (λ p. (w : V) → W w → equiv p.1 w ≡ ok tt → equiv w p.1 ≡ ok tt) l
      → map_equiv equiv l r ≡ ok tt
      → map_equiv equiv r l ≡ ok tt
  map_equiv_sym W l r ul ur ws s h =
      let p = (map_equiv_iff l r).0 h in
      (map_equiv_iff r l).1
        (sym p.0, Matches-sym string_discrete (λ v w. equiv v w ≡ ok tt) W l r ul ur p.0 ws s p.1)

  -- Where the check of two values that are well formed can be turned round.
  pub map_equiv_sym_of_values :
      (W : V → Type 0) (turn : (v w : V) → W v → W w → equiv v w ≡ ok tt → equiv w v ≡ ok tt)
      → (l r : List (String × V)) → IsRepeatFree (keys_of l) × All (λ p. W p.1) l
      → IsRepeatFree (keys_of r) × All (λ p. W p.1) r
      → map_equiv equiv l r ≡ ok tt
      → map_equiv equiv r l ≡ ok tt
  map_equiv_sym_of_values W turn l r kl kr h =
      map_equiv_sym W l r kl.0 kr.0 kr.1 (All-mono _ _ (λ p kv w kw e. turn p.1 w kv kw e) l kl.1) h

  pub map_equiv_refl_of_values :
      (W : V → Type 0) (same : (v : V) → W v → equiv v v ≡ ok tt)
      → (m : List (String × V)) → IsRepeatFree (keys_of m) × All (λ p. W p.1) m
      → map_equiv equiv m m ≡ ok tt
  map_equiv_refl_of_values W same m k =
      (map_equiv_iff m m).1
        (refl, Matches-refl string_discrete _ m k.0 (All-mono _ _ (λ p w. same p.1 w) m k.1))
