-- ===== src/Datatypes/Ops.antt =====
-- cedar-lean-ffi/src/datatypes.rs: the conversions of operators, in both directions.
pub mod RoundTrip
use cedar_spec.Base.{
  ℕ, zero, suc, ◌<◌, ◌≤◌, ◌≡◌, List, [], ◌∷◌, map, Bool, ◌&&◌, ◌||◌, Exec, ok, err, panic, ◌>>=◌,
  ltb, leb, if◌then◌else◌, for_each, true, All,
}
use cedar_spec.Datatypes.Crate.{Crate, PatternElem}
use cedar_spec.Datatypes.Symcc.{SymccOp, SymccExtOp}
use cedar_spec.Datatypes.Ffi.{Op, ExtOp, PatElem, TermConversionError, char_conversion}
use cedar_spec.Datatypes.Types.{to_byte, uuf_from, uuf_into, FitsByte, IsOrdered}

unfoldable pub ext_op_from : ExtOp → SymccExtOp
ext_op_from ExtOp.decimal_val = SymccExtOp.decimal_val
ext_op_from ExtOp.ipaddr_is_v4 = SymccExtOp.ipaddr_is_v4
ext_op_from ExtOp.ipaddr_addr_v4 = SymccExtOp.ipaddr_addr_v4
ext_op_from ExtOp.ipaddr_prefix_v4 = SymccExtOp.ipaddr_prefix_v4
ext_op_from ExtOp.ipaddr_addr_v6 = SymccExtOp.ipaddr_addr_v6
ext_op_from ExtOp.ipaddr_prefix_v6 = SymccExtOp.ipaddr_prefix_v6
ext_op_from ExtOp.datetime_val = SymccExtOp.datetime_val
ext_op_from ExtOp.datetime_of_bitvec = SymccExtOp.datetime_of_bitvec
ext_op_from ExtOp.duration_val = SymccExtOp.duration_val
ext_op_from ExtOp.duration_of_bitvec = SymccExtOp.duration_of_bitvec

unfoldable pub ext_op_into : SymccExtOp → ExtOp
ext_op_into SymccExtOp.datetime_of_bitvec = ExtOp.datetime_of_bitvec
ext_op_into SymccExtOp.datetime_val = ExtOp.datetime_val
ext_op_into SymccExtOp.decimal_val = ExtOp.decimal_val
ext_op_into SymccExtOp.duration_of_bitvec = ExtOp.duration_of_bitvec
ext_op_into SymccExtOp.duration_val = ExtOp.duration_val
ext_op_into SymccExtOp.ipaddr_addr_v4 = ExtOp.ipaddr_addr_v4
ext_op_into SymccExtOp.ipaddr_addr_v6 = ExtOp.ipaddr_addr_v6
ext_op_into SymccExtOp.ipaddr_is_v4 = ExtOp.ipaddr_is_v4
ext_op_into SymccExtOp.ipaddr_prefix_v4 = ExtOp.ipaddr_prefix_v4
ext_op_into SymccExtOp.ipaddr_prefix_v6 = ExtOp.ipaddr_prefix_v6

-- A code point that is a `char`: no surrogate, and at most U+10FFFF.
abbrev pub is_scalar : ℕ → Bool
is_scalar n = ltb n 55296 || (leb 57344 n && ltb n 1114112)

-- `impl From<ast::PatternElem> for PatElem`
unfoldable pub pat_elem_into : PatternElem → PatElem
pat_elem_into (PatternElem.char n) = PatElem.char n
pat_elem_into PatternElem.wildcard = PatElem.star

-- What every element of a pattern is: its character is one.
abbrev pub IsElem : PatternElem → Type 0
IsElem (PatternElem.char n) = is_scalar n ≡ true
IsElem PatternElem.wildcard = Unit

module _ (c : Crate) where
  -- `impl TryFrom<PatElem> for ast::PatternElem`
  unfoldable pub pat_elem_try_from : PatElem → Exec (TermConversionError c) PatternElem
  pat_elem_try_from (PatElem.char n) =
      if is_scalar n then ok (PatternElem.char n) else err char_conversion
  pat_elem_try_from PatElem.star = ok PatternElem.wildcard

  -- `impl TryFrom<Op> for cedar_policy_symcc::op::Op`
  unfoldable pub op_try_from : Op c → Exec (TermConversionError c) (SymccOp c)
  op_try_from Op.not = ok SymccOp.not
  op_try_from Op.and = ok SymccOp.and
  op_try_from Op.or = ok SymccOp.or
  op_try_from Op.eq = ok SymccOp.eq
  op_try_from Op.ite = ok SymccOp.ite
  op_try_from (Op.uuf u) = ok (SymccOp.uuf (uuf_from c u))
  op_try_from Op.bvneg = ok SymccOp.bvneg
  op_try_from Op.bvadd = ok SymccOp.bvadd
  op_try_from Op.bvsub = ok SymccOp.bvsub
  op_try_from Op.bvmul = ok SymccOp.bvmul
  op_try_from Op.bvsdiv = ok SymccOp.bvsdiv
  op_try_from Op.bvudiv = ok SymccOp.bvudiv
  op_try_from Op.bvsrem = ok SymccOp.bvsrem
  op_try_from Op.bvsmod = ok SymccOp.bvsmod
  op_try_from Op.bvurem = ok SymccOp.bvurem
  op_try_from Op.bvshl = ok SymccOp.bvshl
  op_try_from Op.bvlshr = ok SymccOp.bvlshr
  op_try_from Op.bvslt = ok SymccOp.bvslt
  op_try_from Op.bvsle = ok SymccOp.bvsle
  op_try_from Op.bvult = ok SymccOp.bvult
  op_try_from Op.bvule = ok SymccOp.bvule
  op_try_from Op.bvnego = ok SymccOp.bvnego
  op_try_from Op.bvsaddo = ok SymccOp.bvsaddo
  op_try_from Op.bvssubo = ok SymccOp.bvssubo
  op_try_from Op.bvsmulo = ok SymccOp.bvsmulo
  op_try_from (Op.zero_extend u) = ok (SymccOp.zero_extend u)
  op_try_from Op.set_member = ok SymccOp.set_member
  op_try_from Op.set_subset = ok SymccOp.set_subset
  op_try_from Op.set_inter = ok SymccOp.set_inter
  op_try_from Op.option_get = ok SymccOp.option_get
  op_try_from (Op.record_get a) = ok (SymccOp.record_get a)
  op_try_from (Op.string_like pats) = do
    elems ← for_each pat_elem_try_from pats
    ok (SymccOp.string_like (c.pattern_from_iter elems))
  op_try_from (Op.ext op) = ok (SymccOp.ext (ext_op_from op))

  -- `impl From<cedar_policy_symcc::op::Op> for Op`
  unfoldable pub op_into : SymccOp c → Exec ⊥ (Op c)
  op_into SymccOp.and = ok Op.and
  op_into SymccOp.or = ok Op.or
  op_into SymccOp.not = ok Op.not
  op_into SymccOp.eq = ok Op.eq
  op_into SymccOp.ite = ok Op.ite
  op_into SymccOp.bvadd = ok Op.bvadd
  op_into SymccOp.bvsaddo = ok Op.bvsaddo
  op_into SymccOp.bvlshr = ok Op.bvlshr
  op_into SymccOp.bvmul = ok Op.bvmul
  op_into SymccOp.bvneg = ok Op.bvneg
  op_into SymccOp.bvnego = ok Op.bvnego
  op_into SymccOp.bvsdiv = ok Op.bvsdiv
  op_into SymccOp.bvshl = ok Op.bvshl
  op_into SymccOp.bvsle = ok Op.bvsle
  op_into SymccOp.bvsmod = ok Op.bvsmod
  op_into SymccOp.bvslt = ok Op.bvslt
  op_into SymccOp.bvsub = ok Op.bvsub
  op_into SymccOp.bvsmulo = ok Op.bvsmulo
  op_into SymccOp.bvsrem = ok Op.bvsrem
  op_into SymccOp.bvssubo = ok Op.bvssubo
  op_into SymccOp.bvudiv = ok Op.bvudiv
  op_into SymccOp.bvule = ok Op.bvule
  op_into SymccOp.bvult = ok Op.bvult
  op_into SymccOp.bvurem = ok Op.bvurem
  op_into (SymccOp.uuf u) = do v ← uuf_into c u; ok (Op.uuf v)
  op_into SymccOp.option_get = ok Op.option_get
  op_into (SymccOp.record_get a) = ok (Op.record_get a)
  op_into SymccOp.set_inter = ok Op.set_inter
  op_into SymccOp.set_member = ok Op.set_member
  op_into SymccOp.set_subset = ok Op.set_subset
  op_into (SymccOp.zero_extend u) = do n ← to_byte u; ok (Op.zero_extend n)
  op_into (SymccOp.string_like pat) = ok (Op.string_like (map pat_elem_into (c.get_elems pat)))
  op_into (SymccOp.ext op) = ok (Op.ext (ext_op_into op))

  -- The numbers in the operator fit a byte.
  abbrev pub OpFitsByte : SymccOp c → Type 0
  OpFitsByte (SymccOp.uuf u) = FitsByte c u.arg × FitsByte c u.out
  OpFitsByte (SymccOp.zero_extend u) = u < 256
  OpFitsByte _ = Unit

  -- The keys of its record types ascend, and the characters of its pattern are characters.
  abbrev pub OpIsOrdered : SymccOp c → Type 0
  OpIsOrdered (SymccOp.uuf u) = IsOrdered c u.arg × IsOrdered c u.out
  OpIsOrdered (SymccOp.string_like pat) = All IsElem (c.get_elems pat)
  OpIsOrdered _ = Unit
