-- ===== src/Tests/Shared.antt =====
-- The theorems on the terms of the Lean side, at texts for what other crates provide.
use Prim.Native.Nat.{Ordering, compare as compare_ℕ}
use Prim.Native.String.{String, compare}
use mathlib.Core.Path.{◌≡◌, refl, ap}
use cedar_spec.Base.{
  ℕ, zero, suc, ◌<◌, ◌↔◌, List, [], ◌∷◌, Option, none, some, map, inr, Exec, ok, panic, arith, true,
  false,
}
use cedar_spec.Datatypes.Crate.{Crate, RoundTrips, PatternElem, ℤ}
use cedar_spec.Datatypes.Symcc.{SymccTerm, SymccTerms, SymccType, SymccTypeMap, SymccOp, SymccPrim}
use cedar_spec.Datatypes.Ffi.{Term, TermDefBody, CseTerm, TermPrim}
use cedar_spec.Datatypes.Types.{IsOrdered, FitsByte}
use cedar_spec.Datatypes.Terms.{term_try_from, term_into, TermIsOrdered, TermFitsByte}
use cedar_spec.Datatypes.Terms.RoundTrip.{term_try_from-term_into}
use cedar_spec.Datatypes.Sharing.{cse_try_from, embed}
use cedar_spec.Datatypes.Sharing.Correct.{StandsFor, cse_try_from_iff, cse_try_from-embed}
use cedar_spec.Datatypes.Panics.{term_into_iff}

abbrev bits : ℕ → String → ℕ × String
bits zero s = (0, s)
bits (suc w) s = (w, s)

abbrev value : Option (ℕ × String) → Option String
value none = none
value (some b) = some b.1

abbrev sized : ℕ → Option String → Option (ℕ × String)
sized w none = none
sized w (some s) = some (w, s)

value-sized : (w : ℕ) (o : Option String) → value (sized w o) ≡ o
value-sized w none = refl
value-sized w (some s) = refl

sized-width :
    (w : ℕ) (o : Option String) (b : ℕ × String) → w < 255 → sized w o ≡ some b → suc b.0 < 256
sized-width w none b h e = cc
sized-width w (some s) b h e = ground (arith, ap (λ o. width_in o) e)
  where
    width_in : Option (ℕ × String) → ℕ
    width_in none = 0
    width_in (some p) = p.0

-- A bit vector is the predecessor of its width, and its value.
abbrev pub crate : Crate
crate = record {
  EntityTypeName = String;
  EntityUid = String;
  CoreEntityUid = String;
  euid_into_core = λ e. e;
  euid_from_core = λ e. e;
  key_cmp = compare;
  Natural = String;
  ParseBigIntError = ℕ;
  BitVecError = ℕ;
  parse_natural = λ s. inr s;
  natural_to_string = λ n. n;
  BitVec = ℕ × String;
  of_nat = bits;
  width = λ b. suc b.0;
  to_nat = λ b. b.1;
  Pattern = List PatternElem;
  pattern_from_iter = λ p. p;
  get_elems = λ p. p;
  SymccDatetime = ℤ;
  datetime_from = λ d. d;
  datetime_into = λ d. d;
  SymccDuration = ℤ;
  duration_from = λ d. d;
  duration_into = λ d. d;
  Ipv4Addr = String;
  v4_addr_try_from_bitvec = λ b. some b.1;
  v4_addr_into_bitvec = λ a. (31, a);
  Ipv4Prefix = Option String;
  v4_prefix_try_from_bitvec = λ o. some (value o);
  v4_prefix_into_bitvec = λ p. sized 4 p;
  Ipv6Addr = String;
  v6_addr_try_from_bitvec = λ b. some b.1;
  v6_addr_into_bitvec = λ a. (127, a);
  Ipv6Prefix = Option String;
  v6_prefix_try_from_bitvec = λ o. some (value o);
  v6_prefix_into_bitvec = λ p. sized 6 p;
}

crate_laws : RoundTrips crate
crate_laws = record {
  euid = λ e. refl;
  numeral = λ n. refl;
  bitvec = λ b. refl;
  width_pos = λ b. omega arith;
  pattern = λ p. refl;
  datetime = λ d. refl;
  duration = λ d. refl;
  v4_addr = λ a. refl;
  v4_prefix = λ p. ap some (value-sized 4 p);
  v6_addr = λ a. refl;
  v6_prefix = λ p. ap some (value-sized 6 p);
  v4_addr_fits = λ a. omega arith;
  v4_prefix_fits = λ p b e. sized-width 4 p b (omega arith) e;
  v6_addr_fits = λ a. omega arith;
  v6_prefix_fits = λ p b e. sized-width 6 p b (omega arith) e;
}

-- Terms by their constructor.
abbrev rank : SymccTerm crate → ℕ
rank (SymccTerm.prim p) = 0
rank (SymccTerm.var v) = 1
rank _ = 2

abbrev term_cmp : SymccTerm crate → SymccTerm crate → Ordering
term_cmp s t = compare_ℕ (rank s) (rank t)

-- A record type with two fields, of widths 64 and 8.
abbrev sizes : SymccType crate
sizes = SymccType.record_of (
    SymccTypeMap.attr "a" (SymccType.bitvec 64)
      (SymccTypeMap.attr "bc" (SymccType.set (SymccType.bitvec 8)) SymccTypeMap.no_attrs))

sizes-IsOrdered : IsOrdered crate sizes
unfolding IsOrdered
sizes-IsOrdered = ((refl, (tt, tt)), (tt, (tt, tt)))

sizes-FitsByte : FitsByte crate sizes
unfolding FitsByte
sizes-FitsByte = (omega arith, (omega arith, tt))

-- `{"yes", x} like "a*"` over a set of a primitive value and a variable.
abbrev sample : SymccTerm crate
sample =
    SymccTerm.app (SymccOp.string_like (PatternElem.char 97 ∷ PatternElem.wildcard ∷ []))
      (SymccTerms.elt
        (SymccTerm.set
          (SymccTerms.elt (SymccTerm.prim (SymccPrim.string "yes"))
            (SymccTerms.elt (SymccTerm.var (record { id = "x"; ty = sizes })) SymccTerms.no_elts))
          SymccType.string)
        SymccTerms.no_elts)
      SymccType.bool

sample-TermIsOrdered : TermIsOrdered crate term_cmp sample
unfolding TermIsOrdered IsOrdered
sample-TermIsOrdered =
    ((refl, (tt, tt)), (((refl, (tt, tt)), (tt, (sizes-IsOrdered, tt)), tt), tt), tt)

sample-TermFitsByte : TermFitsByte crate term_cmp sample
unfolding TermFitsByte FitsByte
sample-TermFitsByte = (tt, (((tt, (sizes-FitsByte, tt)), tt), tt), tt)

term_try_from-term_into_example :
    (u : Term crate) × (term_into crate term_cmp sample ≡ ok u)
    × (term_try_from crate term_cmp u ≡ ok sample)
term_try_from-term_into_example =
    term_try_from-term_into crate term_cmp crate_laws sample sample-TermIsOrdered
      sample-TermFitsByte

abbrev wide : SymccTerm crate
wide = SymccTerm.none_of (SymccType.bitvec 256)

term_into_iff_example :
    (((u : Term crate) × (term_into crate term_cmp wide ≡ ok u)) ↔ TermFitsByte crate term_cmp wide)
    × ((term_into crate term_cmp wide ≡ panic) ↔ (¬ TermFitsByte crate term_cmp wide))
term_into_iff_example = term_into_iff crate crate_laws term_cmp wide

-- The term `some (some true)`, shared.
abbrev truth : Term crate
truth = Term.prim (TermPrim.bool true)

abbrev converted : SymccTerm crate
converted = SymccTerm.some_of (SymccTerm.some_of (SymccTerm.prim (SymccPrim.bool true)))

abbrev shared : CseTerm crate
shared = record {
  defs =
      record { id = "t0"; body = TermDefBody.prim (TermPrim.bool true) }
      ∷ record { id = "t1"; body = TermDefBody.some_of (TermDefBody.ref "t0") }
      ∷ [];
  root = TermDefBody.some_of (TermDefBody.ref "t1");
}

shared_converts : cse_try_from crate term_cmp shared ≡ ok converted
unfolding cse_try_from cedar_spec.Datatypes.Sharing.resolve_defs
    cedar_spec.Datatypes.Sharing.resolve cedar_spec.Datatypes.Prims.prim_try_from
    cedar_spec.Base.Assoc.lookup cedar_spec.Base.Assoc.insert cedar_spec.Base.Texts.string_discrete
shared_converts = refl

cse_try_from_iff_example : (cse_try_from crate term_cmp shared ≡ ok converted) ↔ (
    (t : Term crate) × StandsFor crate term_cmp shared t
    × (term_try_from crate term_cmp t ≡ ok converted))
cse_try_from_iff_example = cse_try_from_iff crate term_cmp shared converted

cse_try_from-embed_example :
    (cse_try_from crate term_cmp
        (record { defs = []; root = embed crate (Term.some_of (Term.some_of truth)) })
      ≡ ok converted)
    ↔ (term_try_from crate term_cmp (Term.some_of (Term.some_of truth)) ≡ ok converted)
cse_try_from-embed_example =
    cse_try_from-embed crate term_cmp (Term.some_of (Term.some_of truth)) converted
