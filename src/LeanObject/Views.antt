-- ===== src/LeanObject/Views.antt =====
-- cedar-lean-ffi/src/lean_object.rs: when an object is seen as an `Except`, and which fields are read.
use cedar_spec.Base.{ℕ, zero, suc, ◌≤◌, ◌<◌, ◌≡◌, ◌↔◌, inl, inr, true, ok, err, arith, Bool-cases}
use cedar_spec.LeanObject.{
  Runtime, by_tag, LeanObjectError, constructor_index_out_of_bounds, get, ctor_as_result, as_ctor,
  as_result,
}

module _ (t : Runtime) where
  open t use {Pointer, Utf8Error}

  by_tag_iff :
      (p q : Pointer) (n : ℕ)
      → ((by_tag t p n ≡ ok (inr q)) ↔ ((n ≡ 1) × (0 < t.ctor_num_objs p) × (t.ctor_get p 0 ≡ q)))
        × ((by_tag t p n ≡ ok (inl q)) ↔ ((n ≡ 0) × (0 < t.ctor_num_objs p) × (t.ctor_get p 0 ≡ q)))
  unfolding by_tag get
  by_tag_iff p q zero = ground arith
  by_tag_iff p q (suc zero) = ground arith
  by_tag_iff p q (suc (suc n)) = ground arith

  -- An object is seen as a value or an error exactly where it is a constructor object with tag 1 or
  -- 0 and at least one field, and then it is the first field.
  pub as_result_iff :
      (p q : Pointer)
      → ((as_result t p ≡ ok (inr q)) ↔ (
          (t.is_ctor p ≡ true)
          × (t.ptr_tag p ≡ 1)
          × (0 < t.ctor_num_objs p)
          × (t.ctor_get p 0 ≡ q)))
        × ((as_result t p ≡ ok (inl q)) ↔ (
            (t.is_ctor p ≡ true)
            × (t.ptr_tag p ≡ 0)
            × (0 < t.ctor_num_objs p)
            × (t.ctor_get p 0 ≡ q)))
  unfolding as_result as_ctor ctor_as_result
  as_result_iff p q = elim (Bool-cases (t.is_ctor p)) [
    | inl e ↦ let (v, x) = by_tag_iff p q (t.ptr_tag p) in ground (arith, e, v, x)
    | inr e ↦ ground (arith, e)
  ]

  -- A field is read exactly where the index is in bounds, and otherwise the error names the index 0,
  -- whatever index was asked for.
  pub get_iff :
      (p : Pointer) (idx : ℕ)
      → (((q : Pointer)
          → (get t p idx ≡ ok q) ↔ ((idx < t.ctor_num_objs p) × (t.ctor_get p idx ≡ q))))
        × ((e : LeanObjectError Utf8Error)
            → (get t p idx ≡ err e) ↔ (
                (t.ctor_num_objs p ≤ idx)
                × (constructor_index_out_of_bounds 0 (t.ctor_num_objs p) ≡ e)))
  unfolding get
  get_iff p idx = ((λ q. ground arith), (λ e. ground arith))
