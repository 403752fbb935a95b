-- ===== src/LeanObject.antt =====
-- cedar-lean-ffi/src/lean_object.rs: views of the objects that the Lean runtime returns, and the count of
-- references to them that Rust owns. The runtime's accessors are parameters; a pointer is an element
-- of a type of the runtime's.
pub mod Views
pub mod Counts
use cedar_spec.Base.{
  ℕ, zero, suc, ◌+◌, ◌-◌, ◌⊎◌, inl, inr, Bool, List, [], ◌∷◌, Option, none, some, Exec, ok, err,
  ◌>>=◌, attempt, ltb, if◌then◌else◌, test,
}

pub record Runtime : Type 1 where
  pub Pointer : Type 0
  pub pointer_discrete : Discrete Pointer
  pub Text : Type 0
  pub Utf8Error : Type 0
  -- `lean_ctor_num_objs`, `lean_ctor_get`, `lean_is_ctor`, `lean_is_string` and `lean_ptr_tag`
  pub ctor_num_objs : Pointer → ℕ
  pub ctor_get : Pointer → ℕ → Pointer
  pub is_ctor : Pointer → Bool
  pub is_string : Pointer → Bool
  pub ptr_tag : Pointer → ℕ
  -- `lean_string_cstr` and `CStr::to_str`
  pub string_cstr : Pointer → Utf8Error ⊎ Text

pub data LeanObjectError (Utf8Error : Type 0) : Type 0 where
  unexpected_constructor_tag : List ℕ → ℕ → LeanObjectError Utf8Error
  expected_constructor : ℕ → LeanObjectError Utf8Error
  expected_string : ℕ → LeanObjectError Utf8Error
  utf8_error : Utf8Error → LeanObjectError Utf8Error
  constructor_index_out_of_bounds : ℕ → ℕ → LeanObjectError Utf8Error

module _ (t : Runtime) where
  open t use {Pointer, Text, Utf8Error}

  -- `LeanCtorObject::get`
  unfoldable pub get : Pointer → ℕ → Exec (LeanObjectError Utf8Error) Pointer
  get p idx =
      let num_objs = t.ctor_num_objs p in
      if ltb idx num_objs
      then ok (t.ctor_get p idx)
      else err (constructor_index_out_of_bounds 0 num_objs)

  -- `match self.as_object().tag()`
  unfoldable pub by_tag : Pointer → ℕ → Exec (LeanObjectError Utf8Error) (Pointer ⊎ Pointer)
  by_tag p zero = do e ← get p 0; ok (inl e)
  by_tag p (suc zero) = do a ← get p 0; ok (inr a)
  by_tag p (suc (suc n)) = err (unexpected_constructor_tag (0 ∷ 1 ∷ []) (suc (suc n)))

  -- `LeanCtorObject::as_result`: an `Except` of Lean, as an error or a value.
  unfoldable pub ctor_as_result : Pointer → Exec (LeanObjectError Utf8Error) (Pointer ⊎ Pointer)
  ctor_as_result p = by_tag p (t.ptr_tag p)

  -- `LeanObject::as_ctor`
  unfoldable pub as_ctor : Pointer → Option Pointer
  as_ctor p = if t.is_ctor p then some p else none

  -- `LeanObject::as_result`
  unfoldable pub as_result : Pointer → Exec (LeanObjectError Utf8Error) (Pointer ⊎ Pointer)
  as_result p = elim (as_ctor p) [
    | none ↦ err (expected_constructor (t.ptr_tag p))
    | some q ↦ ctor_as_result q
  ]

  -- `LeanObject::as_rust_str`
  unfoldable pub as_rust_str : Pointer → Exec (LeanObjectError Utf8Error) Text
  as_rust_str p =
      let text = attempt utf8_error (t.string_cstr p) in
      if t.is_string p then text else err (expected_string (t.ptr_tag p))

  -- The references that the runtime counts for Rust, and the live `OwnedLeanObject` values.
  pub record Owned : Type 0 where
    pub refs : Pointer → ℕ
    pub live : List Pointer

  -- `lean_inc` and `lean_dec`
  abbrev pub lean_inc : Pointer → (Pointer → ℕ) → Pointer → ℕ
  lean_inc p refs q = if test (t.pointer_discrete p q) then refs q + 1 else refs q

  abbrev pub lean_dec : Pointer → (Pointer → ℕ) → Pointer → ℕ
  lean_dec p refs q = if test (t.pointer_discrete p q) then refs q - 1 else refs q

  -- One value is no longer live.
  unfoldable pub forget : Pointer → List Pointer → List Pointer
  forget p [] = []
  forget p (q ∷ live) =
      let rest = forget p live in if test (t.pointer_discrete p q) then live else q ∷ rest

  unfoldable pub forget_all : List Pointer → List Pointer → List Pointer
  forget_all [] live = live
  forget_all (p ∷ ps) live = forget_all ps (forget p live)

  -- `LeanObject::to_owned`
  unfoldable pub to_owned : Pointer → Owned → Owned
  to_owned p s = record { refs = lean_inc p s.refs; live = p ∷ s.live }

  -- `OwnedLeanObject::clone`
  unfoldable pub clone : Pointer → Owned → Owned
  clone p s = record { refs = lean_inc p s.refs; live = p ∷ s.live }

  -- `OwnedLeanObject::drop`
  unfoldable pub drop_owned : Pointer → Owned → Owned
  drop_owned p s = record { refs = lean_dec p s.refs; live = forget p s.live }

  -- `call_lean_ffi_function`, `call_lean_ffi_bi_function` and `call_lean_ffi_tri_function`: the callee
  -- returns an object, which is owned, and the arguments are forgotten.
  unfoldable pub call_lean_ffi :
      (List Pointer → (Pointer → ℕ) → Pointer × (Pointer → ℕ)) → List Pointer → Owned → Owned
  call_lean_ffi func args s =
      let returned = func args s.refs in
      record { refs = returned.1; live = forget_all args (returned.0 ∷ s.live) }
