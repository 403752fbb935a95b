-- ===== src/Datatypes/Prims/RoundTrip.antt =====
-- Primitive values converted to the Lean side and back.
use cedar_spec.Base.{
  ℕ, zero, suc, ◌<◌, ◌≤◌, ◌≡◌, refl, Option, none, some, ok, Ensures, Ensures-bind, arith,
}
use cedar_spec.Datatypes.Crate.{Crate, RoundTrips}
use cedar_spec.Datatypes.Symcc.{SymccPrim, SymccExt, IpNet}
use cedar_spec.Datatypes.Types.RoundTrip.{to_byte-fits}
use cedar_spec.Datatypes.Prims.{
  non_zero, transpose, bitvec_try_from, bitvec_into, ip_try_from, ext_try_from, cidr_into, ip_into,
  ext_into, prim_try_from, prim_into, PrimFitsByte,
}

non_zero-pos : (n : ℕ) → 1 ≤ n → non_zero n ≡ some n
non_zero-pos zero h = absurd (omega arith)
non_zero-pos (suc n) h = refl

module _ (c : Crate) (laws : RoundTrips c) where
  bitvec_into-Ensures :
      (b : c.BitVec) → c.width b < 256 → Ensures (λ v. bitvec_try_from c v ≡ ok b) (bitvec_into c b)
  unfolding bitvec_into bitvec_try_from
  bitvec_into-Ensures b h = rw (to_byte-fits (c.width b) h) (
      rw (non_zero-pos (c.width b) (laws.width_pos b), laws.numeral (c.to_nat b), laws.bitvec b)
        refl)

  transpose-bitvec_into :
      (o : Option c.BitVec)
      → ((b : c.BitVec) → o ≡ some b → c.width b < 256)
      → Ensures (λ v. transpose (bitvec_try_from c) v ≡ ok o) (transpose (bitvec_into c) o)
  transpose-bitvec_into none h = refl
  transpose-bitvec_into (some b) h =
      Ensures-bind _ _ (bitvec_into c b) _ (bitvec_into-Ensures b (h b refl)) (λ v _ e. rw e refl)

  cidr_into-Ensures :
      (b : c.BitVec) (o : Option c.BitVec)
      → c.width b < 256
      → ((p : c.BitVec) → o ≡ some p → c.width p < 256)
      → Ensures
          (λ cidr.
            (bitvec_try_from c cidr.addr ≡ ok b)
            × (transpose (bitvec_try_from c) cidr.prefix ≡ ok o))
          (cidr_into c b o)
  unfolding cidr_into
  cidr_into-Ensures b o h k =
      Ensures-bind _ _ (bitvec_into c b) _ (bitvec_into-Ensures b h) (λ a _ p.
        Ensures-bind _ _ (transpose (bitvec_into c) o) _ (transpose-bitvec_into o k)
          (λ v _ q. (p, q)))

  ip_into-Ensures : (ip : IpNet c) → Ensures (λ a. ip_try_from c a ≡ ok ip) (ip_into c ip)
  unfolding ip_into ip_try_from
  ip_into-Ensures (IpNet.v4 addr prefix) =
      Ensures-bind _ _ (cidr_into c (c.v4_addr_into_bitvec addr) (c.v4_prefix_into_bitvec prefix)) _
        (cidr_into-Ensures _ _ (laws.v4_addr_fits addr) (laws.v4_prefix_fits prefix))
        (λ cidr _ e. rw (e.0, laws.v4_addr addr, e.1, laws.v4_prefix prefix) refl)
  ip_into-Ensures (IpNet.v6 addr prefix) =
      Ensures-bind _ _ (cidr_into c (c.v6_addr_into_bitvec addr) (c.v6_prefix_into_bitvec prefix)) _
        (cidr_into-Ensures _ _ (laws.v6_addr_fits addr) (laws.v6_prefix_fits prefix))
        (λ cidr _ e. rw (e.0, laws.v6_addr addr, e.1, laws.v6_prefix prefix) refl)

  ext_into-Ensures : (x : SymccExt c) → Ensures (λ e. ext_try_from c e ≡ ok x) (ext_into c x)
  unfolding ext_into ext_try_from
  ext_into-Ensures (SymccExt.datetime dt) = rw (laws.datetime dt) refl
  ext_into-Ensures (SymccExt.duration d) = rw (laws.duration d) refl
  ext_into-Ensures (SymccExt.decimal d) = refl
  ext_into-Ensures (SymccExt.ipaddr ip) =
      Ensures-bind _ _ (ip_into c ip) _ (ip_into-Ensures ip) (λ a _ e. rw e refl)

  pub prim_into-Ensures :
      (p : SymccPrim c) → PrimFitsByte c p → Ensures (λ v. prim_try_from c v ≡ ok p) (prim_into c p)
  unfolding prim_into prim_try_from
  prim_into-Ensures (SymccPrim.bitvec bv) h =
      Ensures-bind _ _ (bitvec_into c bv) _ (bitvec_into-Ensures bv h) (λ b _ e. rw e refl)
  prim_into-Ensures (SymccPrim.bool b) h = refl
  prim_into-Ensures (SymccPrim.entity uid) h = rw (laws.euid uid) refl
  prim_into-Ensures (SymccPrim.ext x) h =
      Ensures-bind _ _ (ext_into c x) _ (ext_into-Ensures x) (λ e _ q. rw q refl)
  prim_into-Ensures (SymccPrim.string s) h = refl
