-- ===== src/Tests/Answers.antt =====
-- The theorems on values and residuals, where an expression is a text.
use Prim.Native.String.{String}
use Prim.Native.Nat.{◌%◌}
use cedar_spec.Base.{ℕ, ◌≡◌, refl, ◌↔◌, inl, inr, List, [], ◌∷◌, some, ok}
use cedar_spec.Base.Returns.{Returns}
use cedar_spec.Datatypes.Crate.{ℤ}
use cedar_spec.Datatypes.Ffi.{Ext, PatElem}
use cedar_spec.Datatypes.Values.{Expressions, Value, decimal_text, millis_text, v4_text}
use cedar_spec.Datatypes.Values.Texts.{read_decimal, read_millis, read_v4, read-decimal_text}
use cedar_spec.Datatypes.Residuals.{RequestVar, UnaryOp, ExtFun, CedarType, Residual, Residuals}
use cedar_spec.Datatypes.Pst.{Syntax, Pst}
use cedar_spec.Datatypes.Convert.{convert_residual}
use cedar_spec.Datatypes.Convert.Converts.{Converts, NamesAreIdents, convert_residual_iff}
use cedar_spec.Tests.Shared.{crate}

read-decimal_text_example :
    (read_decimal (decimal_text (record { val = ℤ.negsuc 15 })) ≡ ok (ℤ.negsuc 15))
    × (read_millis (millis_text (ℤ.pos 90)) ≡ ok (ℤ.pos 90))
    × (read_v4 (v4_text 4294967297 8) ≡ ok (4294967297 % 4294967296, 8))
read-decimal_text_example = read-decimal_text (record { val = ℤ.negsuc 15 }) (ℤ.pos 90) 4294967297 8

abbrev expressions : Expressions crate
expressions = record {
  Diagnostic = String;
  RestrictedExpression = List ℕ;
  EntityUid = String;
  euid_from = λ e. e;
  new_bool = λ b. [];
  new_long = λ i. [];
  new_string = λ s. [];
  new_entity_uid = λ e. [];
  new_set = λ es. [];
  new_record = λ es. inl "duplicate key";
  new_decimal = λ text. text;
  new_ip = λ text. text;
  new_duration = λ text. text;
  v6_display = λ n. n ∷ [];
  CoreExpr = List ℕ;
  Name = String;
  parse_unqualified_name = λ s. inr s;
  core_string = λ text. text;
  call_extension_fn = λ n es. [];
  from_core = λ e. e;
  Context = Unit;
  context_from_pairs = λ es. inr tt;
  Request = Unit;
  request_new = λ p a r c. inr tt;
  Entity = Unit;
  new_with_tags = λ e ats es ts. inr tt;
  Entities = Unit;
  from_entities = λ es. inr tt;
}

abbrev syntax : Syntax expressions
syntax = record {
  Ident = String;
  ident_new = λ s. some s;
  basename = λ s. s;
  namespace_components = λ s. [];
  display = λ s. s;
  Other = List ℕ;
}

names : NamesAreIdents syntax (λ e. inr (Pst.other e))
names t = ((t, refl), tt)

-- `context like "*"`, offset by a duration.
abbrev sample_residual : Residual crate
sample_residual =
    Residual.call ExtFun.offset
      (Residuals.residual
        (Residual.unary_app (UnaryOp.like (PatElem.star ∷ PatElem.char 97 ∷ []))
          (Residual.var RequestVar.context CedarType.string) CedarType.string)
        (Residuals.residual
          (Residual.val (Value.ext (Ext.duration (record { val = ℤ.pos 7 }))) CedarType.int)
          Residuals.no_residuals))
      CedarType.int

convert_residual_iff_example :
    Returns (convert_residual syntax (λ e. inr (Pst.other e)) sample_residual)
    ↔ Converts syntax (λ e. inr (Pst.other e)) sample_residual
convert_residual_iff_example =
    convert_residual_iff syntax (λ e. inr (Pst.other e)) names sample_residual
