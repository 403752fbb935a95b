-- ===== src/Datatypes/Panics.antt =====
-- The conversions to the Lean side, which return where every number fits a byte and panic elsewhere.
use Prim.Native.Nat.{Ordering}
use cedar_spec.Base.{
  ◌≡◌, refl, ◌↔◌, ◌⊎◌, inl, inr, ℕ, ◌<◌, ltb, Bool-cases, Option, none, some, Exec, ok, panic,
  ◌>>=◌, arith,
}
use cedar_spec.Datatypes.Crate.{Crate, RoundTrips}
use cedar_spec.Datatypes.Symcc.{
  SymccType, SymccTypeMap, SymccTerm, SymccTerms, SymccMap, SymccOp, SymccPrim, SymccExt, IpNet,
  SymccVar,
}
use cedar_spec.Datatypes.Ffi.{Term}
use cedar_spec.Datatypes.Types.{
  to_byte, type_into, type_fields_into, FitsByte, FieldsFitByte, var_into, uuf_into,
}
use cedar_spec.Datatypes.Ops.{op_into, OpFitsByte}
use cedar_spec.Datatypes.Prims.{
  bitvec_into, transpose, cidr_into, ip_into, ext_into, prim_into, PrimFitsByte,
}
use cedar_spec.Datatypes.Terms.{
  term_into, terms_into, map_into, TermFitsByte, TermsFitByte, MapFitsByte,
}

-- A computation that returns where the condition holds, and panics where it does not.
abbrev Guarded : {A : Type 0} → Type 0 → Exec ⊥ A → Type 0
Guarded {A} P m = (P × ((a : A) × (m ≡ ok a))) ⊎ ((¬ P) × (m ≡ panic))

returns : {A : Type 0} (a : A) → Guarded Unit (ok a)
returns a = inl (tt, (a, refl))

module _ {A B : Type 0} where
  Guarded-map :
      (P : Type 0) (m : Exec ⊥ A) (g : A → B) → Guarded P m → Guarded P (m >>= λ a. ok (g a))
  Guarded-map P m g h = elim h [
    | inl (p, (a, e)) ↦ inl (p, (g a, rw e refl))
    | inr (n, e) ↦ inr (n, rw e refl)
  ]

  Guarded-bind :
      (P Q : Type 0) (m : Exec ⊥ A) (k : A → Exec ⊥ B)
      → Guarded P m
      → ((a : A) → Guarded Q (k a))
      → Guarded (P × Q) (m >>= k)
  Guarded-bind P Q m k h f = elim h [
    | inl (p, (a, e)) ↦ elim (f a) [
      | inl (q, (b, d)) ↦ inl ((p, q), (b, rw e d))
      | inr (n, d) ↦ inr (λ r. n r.1, rw e d)
    ]
    | inr (n, e) ↦ inr (λ r. n r.0, rw e refl)
  ]

module _ {A B C : Type 0} where
  Guarded-bind3 :
      (P Q R : Type 0) (m : Exec ⊥ A) (n : Exec ⊥ B) (k : A → B → Exec ⊥ C)
      → Guarded P m
      → Guarded Q n
      → ((a : A) (b : B) → Guarded R (k a b))
      → Guarded (P × Q × R) (m >>= λ a. n >>= λ b. k a b)
  Guarded-bind3 P Q R m n k h i f =
      elim (Guarded-bind P (Q × R) m (λ a. n >>= λ b. k a b) h
        (λ a. Guarded-bind Q R n (k a) i (f a))) [
          | inl (p, r) ↦ inl ((p.0, p.1.0, p.1.1), r)
          | inr (x, e) ↦ inr (λ r. x (r.0, (r.1, r.2)), e)
        ]

Guarded-iff :
    {A : Type 0} (P : Type 0) (m : Exec ⊥ A)
    → Guarded P m
    → (((a : A) × (m ≡ ok a)) ↔ P) × ((m ≡ panic) ↔ (¬ P))
Guarded-iff P m h = elim h [
  | inl (p, (a, e)) ↦ ((λ x. p, λ x. (a, e)), (λ d. cc, λ n. absurd (n p)))
  | inr (n, e) ↦ ((λ x. cc (x.1), λ p. absurd (n p)), (λ d. n, λ x. e))
]

to_byte-Guarded : (n : ℕ) → Guarded (n < 256) (to_byte n)
unfolding to_byte
to_byte-Guarded n = elim (Bool-cases (ltb n 256)) [
  | inl e ↦ inl (ground arith, (n, rw e refl))
  | inr e ↦ inr (ground arith, rw e refl)
]

module _ (c : Crate) where
  mutual
    unfolding type_into FitsByte

    type_into-Guarded : (ty : SymccType c) → Guarded (FitsByte c ty) (type_into c ty)
    type_into-Guarded (SymccType.option ty) =
        Guarded-map _ (type_into c ty) _ (type_into-Guarded ty)
    type_into-Guarded (SymccType.set ty) = Guarded-map _ (type_into c ty) _ (type_into-Guarded ty)
    type_into-Guarded (SymccType.bitvec n) = Guarded-map _ (to_byte n) _ (to_byte-Guarded n)
    type_into-Guarded (SymccType.record_of rty) =
        Guarded-map _ (type_fields_into c rty) _ (type_fields_into-Guarded rty)
    type_into-Guarded SymccType.bool = returns _
    type_into-Guarded SymccType.string = returns _
    type_into-Guarded (SymccType.entity ety) = returns _
    type_into-Guarded (SymccType.ext xty) = returns _

    type_fields_into-Guarded :
        (m : SymccTypeMap c) → Guarded (FieldsFitByte c m) (type_fields_into c m)
    type_fields_into-Guarded SymccTypeMap.no_attrs = returns _
    type_fields_into-Guarded (SymccTypeMap.attr a ty rest) =
        Guarded-bind _ _ (type_into c ty) _ (type_into-Guarded ty)
          (λ u. Guarded-map _ (type_fields_into c rest) _ (type_fields_into-Guarded rest))

  var_into-Guarded : (v : SymccVar c) → Guarded (FitsByte c v.ty) (var_into c v)
  unfolding var_into
  var_into-Guarded v = Guarded-map _ (type_into c v.ty) _ (type_into-Guarded v.ty)

  op_into-Guarded : (op : SymccOp c) → Guarded (OpFitsByte c op) (op_into c op)
  unfolding op_into uuf_into
  op_into-Guarded (SymccOp.uuf u) = Guarded-map _ (uuf_into c u) _ (
      Guarded-bind _ _ (type_into c u.arg) _ (type_into-Guarded u.arg)
        (λ a. Guarded-map _ (type_into c u.out) _ (type_into-Guarded u.out)))
  op_into-Guarded (SymccOp.zero_extend n) = Guarded-map _ (to_byte n) _ (to_byte-Guarded n)
  op_into-Guarded SymccOp.not = returns _
  op_into-Guarded _ = returns _

  bitvec_into-Guarded : (b : c.BitVec) → Guarded (c.width b < 256) (bitvec_into c b)
  unfolding bitvec_into
  bitvec_into-Guarded b = Guarded-map _ (to_byte (c.width b)) _ (to_byte-Guarded (c.width b))

  -- What a guarded computation returns, where its guard holds.
  met : {A : Type 0} (P : Type 0) (m : Exec ⊥ A) → P → Guarded P m → Guarded Unit m
  met P m p h = elim h [ inl r ↦ inl (tt, r.1) | inr (n, e) ↦ absurd (n p) ]

  cidr_into-Guarded :
      (b : c.BitVec) (o : Option c.BitVec)
      → c.width b < 256
      → ((p : c.BitVec) → o ≡ some p → c.width p < 256)
      → Guarded Unit (cidr_into c b o)
  unfolding cidr_into
  cidr_into-Guarded b none h k =
      Guarded-map _ (bitvec_into c b) _ (met _ (bitvec_into c b) h (bitvec_into-Guarded b))
  cidr_into-Guarded b (some p) h k =
      met (Unit × Unit) (cidr_into c b (some p)) (tt, tt)
        (Guarded-bind _ _ (bitvec_into c b) _ (met _ (bitvec_into c b) h (bitvec_into-Guarded b))
          (λ a. Guarded-map _ (transpose (bitvec_into c) (some p)) _ (
            Guarded-map _ (bitvec_into c p) _
              (met _ (bitvec_into c p) (k p refl) (bitvec_into-Guarded p)))))

  module _ (laws : RoundTrips c) where
    ip_into-Guarded : (ip : IpNet c) → Guarded Unit (ip_into c ip)
    unfolding ip_into
    ip_into-Guarded (IpNet.v4 addr prefix) =
        Guarded-map _ (cidr_into c _ _) _
          (cidr_into-Guarded _ _ (laws.v4_addr_fits addr) (laws.v4_prefix_fits prefix))
    ip_into-Guarded (IpNet.v6 addr prefix) =
        Guarded-map _ (cidr_into c _ _) _
          (cidr_into-Guarded _ _ (laws.v6_addr_fits addr) (laws.v6_prefix_fits prefix))

    ext_into-Guarded : (x : SymccExt c) → Guarded Unit (ext_into c x)
    unfolding ext_into
    ext_into-Guarded (SymccExt.ipaddr ip) = Guarded-map _ (ip_into c ip) _ (ip_into-Guarded ip)
    ext_into-Guarded (SymccExt.decimal d) = returns _
    ext_into-Guarded (SymccExt.datetime d) = returns _
    ext_into-Guarded (SymccExt.duration d) = returns _

    prim_into-Guarded : (p : SymccPrim c) → Guarded (PrimFitsByte c p) (prim_into c p)
    unfolding prim_into
    prim_into-Guarded (SymccPrim.bitvec bv) =
        Guarded-map _ (bitvec_into c bv) _ (bitvec_into-Guarded bv)
    prim_into-Guarded (SymccPrim.ext x) = Guarded-map _ (ext_into c x) _ (ext_into-Guarded x)
    prim_into-Guarded (SymccPrim.bool b) = returns _
    prim_into-Guarded (SymccPrim.entity e) = returns _
    prim_into-Guarded (SymccPrim.string s) = returns _

    module _ (term_cmp : SymccTerm c → SymccTerm c → Ordering) where
      mutual
        unfolding term_into TermFitsByte

        term_into-Guarded :
            (t : SymccTerm c) → Guarded (TermFitsByte c term_cmp t) (term_into c term_cmp t)
        term_into-Guarded (SymccTerm.app op args ret_ty) =
            Guarded-bind3 _ _ _ (op_into c op) (terms_into c term_cmp args) _ (op_into-Guarded op)
              (terms_into-Guarded args)
              (λ o ts. Guarded-map _ (type_into c ret_ty) _ (type_into-Guarded ret_ty))
        term_into-Guarded (SymccTerm.none_of ty) =
            Guarded-map _ (type_into c ty) _ (type_into-Guarded ty)
        term_into-Guarded (SymccTerm.prim p) = Guarded-map _ (prim_into c p) _ (prim_into-Guarded p)
        term_into-Guarded (SymccTerm.record_of r) =
            Guarded-map _ (map_into c term_cmp r) _ (map_into-Guarded r)
        term_into-Guarded (SymccTerm.set elts ty) =
            Guarded-bind _ _ (terms_into c term_cmp elts) _ (terms_into-Guarded elts)
              (λ ts. Guarded-map _ (type_into c ty) _ (type_into-Guarded ty))
        term_into-Guarded (SymccTerm.some_of t) =
            Guarded-map _ (term_into c term_cmp t) _ (term_into-Guarded t)
        term_into-Guarded (SymccTerm.var v) = Guarded-map _ (var_into c v) _ (var_into-Guarded v)

        terms_into-Guarded :
            (ts : SymccTerms c) → Guarded (TermsFitByte c term_cmp ts) (terms_into c term_cmp ts)
        terms_into-Guarded SymccTerms.no_elts = returns _
        terms_into-Guarded (SymccTerms.elt t ts) =
            Guarded-bind _ _ (term_into c term_cmp t) _ (term_into-Guarded t)
              (λ u. Guarded-map _ (terms_into c term_cmp ts) _ (terms_into-Guarded ts))

        map_into-Guarded :
            (m : SymccMap c) → Guarded (MapFitsByte c term_cmp m) (map_into c term_cmp m)
        map_into-Guarded SymccMap.no_attrs = returns _
        map_into-Guarded (SymccMap.attr a t m) =
            Guarded-bind _ _ (term_into c term_cmp t) _ (term_into-Guarded t)
              (λ u. Guarded-map _ (map_into c term_cmp m) _ (map_into-Guarded m))

      -- The conversion of a term to the Lean side returns exactly where every width in it, of
      -- types, bit vectors and extensions by zeros, is below 256, and panics exactly where one is
      -- not.
      pub term_into_iff :
          (t : SymccTerm c)
          → (((u : Term c) × (term_into c term_cmp t ≡ ok u)) ↔ TermFitsByte c term_cmp t)
            × ((term_into c term_cmp t ≡ panic) ↔ (¬ TermFitsByte c term_cmp t))
      term_into_iff t = Guarded-iff _ (term_into c term_cmp t) (term_into-Guarded t)
