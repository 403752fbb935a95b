-- ===== src/Tests/Objects.antt =====
-- The theorems on Lean objects, at objects that are numbers.
use Prim.Native.String.{String}
use cedar_spec.Base.{
  ℕ, suc, ◌+◌, ◌≤◌, ◌<◌, ◌≡◌, refl, ◌↔◌, inr, true, List, [], ◌∷◌, ok, err, leb, if◌then◌else◌,
  test, arith, ℕ_discrete, ◌-◌,
}
use cedar_spec.LeanObject.{
  Runtime, Owned, LeanObjectError, constructor_index_out_of_bounds, get, to_owned, drop_owned,
}
use cedar_spec.LeanObject.Views.{get_iff}
use cedar_spec.LeanObject.Counts.{
  count_of, IsBalanced, TakesOwnership, Steps, Step, Steps-IsBalanced,
}

-- Objects 0 and 1 are the two constructors of an `Except`, with one field.
abbrev pub runtime : Runtime
runtime = record {
  Pointer = ℕ;
  pointer_discrete = ℕ_discrete;
  Text = String;
  Utf8Error = ℕ;
  ctor_num_objs = λ p. 1;
  ctor_get = λ p i. 5;
  is_ctor = λ p. leb p 1;
  is_string = λ p. true;
  ptr_tag = λ p. p;
  string_cstr = λ p. inr "text";
}

get_iff_example :
    (((q : ℕ) → (get runtime 1 3 ≡ ok q) ↔ ((3 < 1) × (5 ≡ q))))
    × ((e : LeanObjectError ℕ)
        → (get runtime 1 3 ≡ err e) ↔ ((1 ≤ 3) × (constructor_index_out_of_bounds 0 1 ≡ e)))
get_iff_example = get_iff runtime 1 3

-- A call that returns the object 5.
abbrev references : List ℕ → ℕ → ℕ
references [] q = 0
references (p ∷ ps) q = if test (ℕ_discrete p q) then suc (references ps q) else references ps q

abbrev lean_function : List ℕ → (ℕ → ℕ) → ℕ × (ℕ → ℕ)
lean_function args refs =
    (5, λ q. (refs q + (if test (ℕ_discrete 5 q) then 1 else 0)) - references args q)

references-count_of : (args : List ℕ) (q : ℕ) → references args q ≡ count_of runtime q args
unfolding count_of
references-count_of [] q = refl
references-count_of (p ∷ ps) q = ground (arith, references-count_of ps q)

lean_function-TakesOwnership : TakesOwnership runtime lean_function
unfolding count_of
lean_function-TakesOwnership args refs q h = ground (arith, references-count_of args q)

abbrev nothing : Owned runtime
nothing = record { refs = λ q. 0; live = [] }

nothing-IsBalanced : IsBalanced runtime nothing
unfolding count_of
nothing-IsBalanced q = refl

one_live : 1 ≤ count_of runtime 3 (to_owned runtime 3 nothing).live
unfolding count_of to_owned ℕ_discrete
one_live = omega arith

drop_owned-Steps :
    Steps runtime lean_function nothing (drop_owned runtime 3 (to_owned runtime 3 nothing))
drop_owned-Steps = Steps.next (Step.borrowed 3) (Steps.next (Step.dropped 3 one_live) Steps.done)

Steps-IsBalanced_example : IsBalanced runtime (drop_owned runtime 3 (to_owned runtime 3 nothing))
Steps-IsBalanced_example =
    Steps-IsBalanced runtime lean_function lean_function-TakesOwnership drop_owned-Steps
      nothing-IsBalanced
