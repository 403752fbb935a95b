-- ===== src/Datatypes/Convert/Converts.antt =====
-- Which residuals are converted.
use Prim.Native.String.{String}
use cedar_spec.Base.{
  ℕ, suc, ◌≡◌, refl, sym, ◌∙◌, ap, ◌↔◌, List, [], ◌∷◌, Option, none, some, ◌⊎◌, inl, inr, true, ok,
  err, expect, for_each, length, arith, All, Bool-cases, Option-cases, ◌≤◌, after_step,
}
use cedar_spec.Base.Returns.{
  Returns, Returns-ok, Returns-bind, Returns-map, Returns-pair, Returns-for_each,
}
use cedar_spec.Datatypes.Crate.{Crate}
use cedar_spec.Datatypes.Ffi.{PatElem}
use cedar_spec.Datatypes.Ops.{is_scalar}
use cedar_spec.Datatypes.Values.{Expressions}
use cedar_spec.Datatypes.Residuals.{UnaryOp, ExtFun, Residual, Residuals, ResidualFields}
use cedar_spec.Datatypes.Pst.{Syntax, Pst, PstUnaryOp, PstBinaryOp}
use cedar_spec.Datatypes.Convert.{
  Conversion, ResidualConversionError, convert_elem, convert_pattern, unary_ext, binary_ext,
  entity_type_name_to_pst_name, convert_value, convert_ext_fun, convert_unary, convert_residual,
  convert_residuals, convert_fields,
}

-- How many arguments a function of the extensions takes, its receiver included.
unfoldable pub arity : ExtFun → ℕ
arity ExtFun.less_than = 2
arity ExtFun.less_than_or_equal = 2
arity ExtFun.greater_than = 2
arity ExtFun.greater_than_or_equal = 2
arity ExtFun.is_in_range = 2
arity ExtFun.offset = 2
arity ExtFun.duration_since = 2
arity _ = 1

abbrev pub IsChar : PatElem → Type 0
IsChar PatElem.star = Unit
IsChar (PatElem.char c) = is_scalar c ≡ true

convert_elem_iff : (e : PatElem) → Returns (convert_elem e) ↔ IsChar e
convert_elem_iff PatElem.star = (λ r. tt, λ p. Returns-ok _)
convert_elem_iff (PatElem.char c) = elim (Bool-cases (is_scalar c)) [
  | inl e ↦ rw e (λ r. refl, λ p. Returns-ok _)
  | inr e ↦ rw e (λ r. absurd (cc (r.1)), λ p. absurd (cc p))
]

unary_ext_iff : (f : ExtFun) → ((op : PstUnaryOp) × (unary_ext f ≡ some op)) ↔ (1 ≡ arity f)
unfolding unary_ext arity
unary_ext_iff ExtFun.less_than = (λ r. absurd (cc (r.1)), λ h. absurd (omega arith))
unary_ext_iff ExtFun.less_than_or_equal = (λ r. absurd (cc (r.1)), λ h. absurd (omega arith))
unary_ext_iff ExtFun.greater_than = (λ r. absurd (cc (r.1)), λ h. absurd (omega arith))
unary_ext_iff ExtFun.greater_than_or_equal = (λ r. absurd (cc (r.1)), λ h. absurd (omega arith))
unary_ext_iff ExtFun.is_in_range = (λ r. absurd (cc (r.1)), λ h. absurd (omega arith))
unary_ext_iff ExtFun.offset = (λ r. absurd (cc (r.1)), λ h. absurd (omega arith))
unary_ext_iff ExtFun.duration_since = (λ r. absurd (cc (r.1)), λ h. absurd (omega arith))
unary_ext_iff _ = (λ r. refl, λ h. (_, refl))

binary_ext_iff : (f : ExtFun) → ((op : PstBinaryOp) × (binary_ext f ≡ some op)) ↔ (2 ≡ arity f)
unfolding binary_ext arity
binary_ext_iff ExtFun.less_than = (λ r. refl, λ h. (_, refl))
binary_ext_iff ExtFun.less_than_or_equal = (λ r. refl, λ h. (_, refl))
binary_ext_iff ExtFun.greater_than = (λ r. refl, λ h. (_, refl))
binary_ext_iff ExtFun.greater_than_or_equal = (λ r. refl, λ h. (_, refl))
binary_ext_iff ExtFun.is_in_range = (λ r. refl, λ h. (_, refl))
binary_ext_iff ExtFun.offset = (λ r. refl, λ h. (_, refl))
binary_ext_iff ExtFun.duration_since = (λ r. refl, λ h. (_, refl))
binary_ext_iff _ = (λ r. absurd (cc (r.1)), λ h. absurd (omega arith))

arity-bounds : (f : ExtFun) → (1 ≤ arity f) × (arity f ≤ 2)
unfolding arity
arity-bounds f = grind arith

-- What is made of an operator that is found.
found :
    {E A B : Type 0} {P : Type 0} (o : Option A) (e : E) (g : A → B)
    → ((a : A) × (o ≡ some a)) ↔ P
    → Returns {E = E} (elim o [ none ↦ err e | some a ↦ ok (g a) ]) ↔ P
found none e g h = (λ r. absurd (cc (r.1)), λ p. absurd (cc ((h.1 p).1)))
found (some a) e g h = (λ r. h.0 (a, refl), λ p. Returns-ok (g a))

module _ {c : Crate} {x : Expressions c} (n : Syntax x)
    (try_from : x.RestrictedExpression → String ⊎ Pst n) where
  abbrev pub UnaryConverts : UnaryOp c → Type 0
  UnaryConverts (UnaryOp.like p) = All IsChar p
  UnaryConverts _ = Unit

  abbrev pub count : Residuals c → ℕ
  count Residuals.no_residuals = 0
  count (Residuals.residual r rest) = suc (count rest)

  abbrev mutual
    -- Every value in the residual converts, every pattern holds characters, and every function of the
    -- extensions has the arguments it takes.
    pub Converts : Residual c → Type 0
    Converts (Residual.val v ty) = Returns (convert_value n try_from v)
    Converts (Residual.var v ty) = Unit
    Converts (Residual.error ty) = Unit
    Converts (Residual.ite i t e ty) = Converts i × (Converts t × Converts e)
    Converts (Residual.and a b ty) = Converts a × Converts b
    Converts (Residual.or a b ty) = Converts a × Converts b
    Converts (Residual.unary_app op r ty) = Converts r × UnaryConverts op
    Converts (Residual.binary_app op a b ty) = Converts a × Converts b
    Converts (Residual.get_attr r attr ty) = Converts r
    Converts (Residual.has_attr r attr ty) = Converts r
    Converts (Residual.ext_has_attr r attr attrs ty) = Converts r
    Converts (Residual.set ls ty) = AllConvert ls
    Converts (Residual.record_of m ty) = FieldsConvert m
    Converts (Residual.call f args ty) = AllConvert args × (count args ≡ arity f)

    pub AllConvert : Residuals c → Type 0
    AllConvert Residuals.no_residuals = Unit
    AllConvert (Residuals.residual r rest) = Converts r × AllConvert rest

    pub FieldsConvert : ResidualFields c → Type 0
    FieldsConvert ResidualFields.no_fields = Unit
    FieldsConvert (ResidualFields.field k r rest) = Converts r × FieldsConvert rest

  -- The parts of a name are identifiers.
  abbrev pub IsIdent : String → Type 0
  IsIdent s = (i : n.Ident) × (n.ident_new s ≡ some i)

  abbrev pub NamesAreIdents : Type 0
  NamesAreIdents =
      (t : c.EntityTypeName) → IsIdent (n.basename t) × All IsIdent (n.namespace_components t)

  convert_ext_fun_iff :
      (f : ExtFun) (args : List (Pst n))
      → Returns (convert_ext_fun n try_from f args) ↔ (length args ≡ arity f)
  unfolding convert_ext_fun
  convert_ext_fun_iff f [] = (λ r. absurd (cc (r.1)), λ h. absurd (omega (arith, arity-bounds f)))
  convert_ext_fun_iff f (e ∷ []) = found (unary_ext f) _ _ (unary_ext_iff f)
  convert_ext_fun_iff f (l ∷ r ∷ []) = found (binary_ext f) _ _ (binary_ext_iff f)
  convert_ext_fun_iff f (a ∷ b ∷ d ∷ es) =
      (λ r. absurd (cc (r.1)), λ h. absurd (omega (arith, arity-bounds f)))

  IsIdent-iff :
      (s : String) → Returns {E = ResidualConversionError} (expect (n.ident_new s)) ↔ IsIdent s
  IsIdent-iff s = elim (Option-cases (n.ident_new s)) [
    | inl e ↦ rw e (λ r. absurd (cc (r.1)), λ p. absurd (cc (p.1)))
    | inr e ↦ rw e.1 (λ r. (e.0, refl), λ p. Returns-ok _)
  ]

  module _ (names : NamesAreIdents) where
    name-Returns : (t : c.EntityTypeName) → Returns (entity_type_name_to_pst_name n try_from t)
    unfolding entity_type_name_to_pst_name
    name-Returns t =
        (Returns-pair (expect (n.ident_new (n.basename t))) _ _ (IsIdent-iff _)
            (Returns-for_each IsIdent _ IsIdent-iff _)).1
          (names t)

    convert_unary_iff :
        (op : UnaryOp c) (e : Pst n) → Returns (convert_unary n try_from op e) ↔ UnaryConverts op
    unfolding convert_unary convert_pattern
    convert_unary_iff UnaryOp.not e = (λ r. tt, λ p. Returns-ok _)
    convert_unary_iff UnaryOp.neg e = (λ r. tt, λ p. Returns-ok _)
    convert_unary_iff UnaryOp.is_empty e = (λ r. tt, λ p. Returns-ok _)
    convert_unary_iff (UnaryOp.like p) e =
        Returns-map (for_each convert_elem p) _
          (Returns-for_each IsChar convert_elem convert_elem_iff p) (λ a. Returns-ok _)
    convert_unary_iff (UnaryOp.is_in_type t) e =
        Returns-map (entity_type_name_to_pst_name n try_from t) _ (λ r. tt, λ p. name-Returns t)
          (λ a. Returns-ok _)

    abbrev converted : Conversion (List (Pst n)) → ℕ
    converted (ok es) = length es
    converted _ = 0

    length-convert_residuals :
        (rs : Residuals c) {es : List (Pst n)}
        → convert_residuals n try_from rs ≡ ok es
        → length es ≡ count rs
    unfolding convert_residual
    length-convert_residuals Residuals.no_residuals e = sym (ap converted e)
    length-convert_residuals (Residuals.residual r rest) e =
        let first = after_step (convert_residual n try_from r) _ e in
        let more = after_step (convert_residuals n try_from rest) _ first.2 in
        sym (ap converted more.2) ∙ ap suc (length-convert_residuals rest more.1)

    mutual
      unfolding convert_residual

      residual_iff : (r : Residual c) → Returns (convert_residual n try_from r) ↔ Converts r
      residual_iff (Residual.val v ty) = (λ r. r, λ p. p)
      residual_iff (Residual.var v ty) = (λ r. tt, λ p. Returns-ok _)
      residual_iff (Residual.error ty) = (λ r. tt, λ p. Returns-ok _)
      residual_iff (Residual.ite i t e ty) =
          Returns-bind (convert_residual n try_from i) _ (residual_iff i) (λ a _.
            Returns-pair (convert_residual n try_from t) (convert_residual n try_from e) _
              (residual_iff t) (residual_iff e))
      residual_iff (Residual.and a b ty) =
          Returns-pair (convert_residual n try_from a) (convert_residual n try_from b) _
            (residual_iff a) (residual_iff b)
      residual_iff (Residual.or a b ty) =
          Returns-pair (convert_residual n try_from a) (convert_residual n try_from b) _
            (residual_iff a) (residual_iff b)
      residual_iff (Residual.unary_app op r ty) =
          Returns-bind (convert_residual n try_from r) _ (residual_iff r)
            (λ e _. convert_unary_iff op e)
      residual_iff (Residual.binary_app op a b ty) =
          Returns-pair (convert_residual n try_from a) (convert_residual n try_from b) _
            (residual_iff a) (residual_iff b)
      residual_iff (Residual.get_attr r attr ty) =
          Returns-map (convert_residual n try_from r) _ (residual_iff r) (λ e. Returns-ok _)
      residual_iff (Residual.has_attr r attr ty) =
          Returns-map (convert_residual n try_from r) _ (residual_iff r) (λ e. Returns-ok _)
      residual_iff (Residual.ext_has_attr r attr attrs ty) =
          Returns-map (convert_residual n try_from r) _ (residual_iff r) (λ e. Returns-ok _)
      residual_iff (Residual.set ls ty) =
          Returns-map (convert_residuals n try_from ls) _ (residuals_iff ls) (λ e. Returns-ok _)
      residual_iff (Residual.record_of m ty) =
          Returns-map (convert_fields n try_from m) _ (fields_iff m) (λ e. Returns-ok _)
      residual_iff (Residual.call f args ty) =
          Returns-bind (convert_residuals n try_from args) _ (residuals_iff args)
            (λ es e. rw (sym (length-convert_residuals args e)) (convert_ext_fun_iff f es))

      residuals_iff : (rs : Residuals c) → Returns (convert_residuals n try_from rs) ↔ AllConvert rs
      residuals_iff Residuals.no_residuals = (λ r. tt, λ p. Returns-ok _)
      residuals_iff (Residuals.residual r rest) =
          Returns-pair (convert_residual n try_from r) (convert_residuals n try_from rest) _
            (residual_iff r) (residuals_iff rest)

      fields_iff :
          (rs : ResidualFields c) → Returns (convert_fields n try_from rs) ↔ FieldsConvert rs
      fields_iff ResidualFields.no_fields = (λ r. tt, λ p. Returns-ok _)
      fields_iff (ResidualFields.field k r rest) =
          Returns-pair (convert_residual n try_from r) (convert_fields n try_from rest) _
            (residual_iff r) (fields_iff rest)

    -- Where the parts of a name are identifiers: a residual is converted exactly where every value in it
    -- converts, every pattern in it holds characters, and every function of the extensions is called with the
    -- number of arguments that it takes.
    pub convert_residual_iff :
        (r : Residual c) → Returns (convert_residual n try_from r) ↔ Converts r
    convert_residual_iff r = residual_iff r
