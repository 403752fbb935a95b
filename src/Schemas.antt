-- ===== src/Schemas.antt =====
-- cedar-drt/fuzz/src/schemas.rs: the check that two schema fragments are equivalent. The types of the crate
-- cedar_policy_core are those that the checks take apart. A message is its fixed part.
pub mod Types
pub mod Maps
pub mod Declarations
use Prim.Native.Nat.{Ordering}
use Prim.Native.String.{String}
use cedar_spec.Base.{
  ℕ, Bool, true, false, not, ◌&&◌, ◌||◌, List, [], ◌∷◌, map, Option, none, some, Exec, ok, err,
  panic, ◌>>=◌, ◌>>◌, expect, length, ◌==◌, if◌then◌else◌, test,
}
use cedar_spec.Base.Assoc.{contains, insert_elem, lookup}
use cedar_spec.Base.Texts.{string_discrete}

-- Names of types, as written and qualified, and what a schema holds of other types of the crate.
pub record Names : Type 1 where
  pub Name : Type 0
  pub name_discrete : Discrete Name
  pub InternalName : Type 0
  pub internal_discrete : Discrete InternalName
  -- `TypeName::qualify`
  pub qualify : Name → InternalName
  pub basename : InternalName → String
  pub namespace_components : InternalName → List String
  -- `InternalName::from_str`
  pub parse_internal : String → Option InternalName
  pub Choices : Type 0
  pub choices_discrete : Discrete Choices
  pub Value : Type 0
  pub value_discrete : Discrete Value

-- The result of a check.
abbrev pub Checked : Type 0
Checked = Exec String (Unit {0})

abbrev pub require : Bool → String → Checked
require true message = ok tt
require false message = err message

module _ {A : Type 0} (dec : Discrete A) where
  -- `iter().collect::<HashSet<_>>()`, of which a `BTreeSet` differs by the order of its elements.
  unfoldable pub set_of : List A → List A
  set_of [] = []
  set_of (a ∷ xs) = insert_elem dec a (set_of xs)

  unfoldable pub all_in : List A → List A → Bool
  all_in [] ys = true
  all_in (x ∷ xs) ys = contains dec x ys && all_in xs ys

  -- `==` of two sets.
  unfoldable pub same_set : List A → List A → Bool
  same_set xs ys = (length xs == length ys) && all_in xs ys

  -- `impl Equiv for HashSet<V>` and `impl Equiv for BTreeSet<V>`
  unfoldable pub set_equiv : List A → List A → Checked
  set_equiv xs ys = require (same_set xs ys) "missing set elements"

-- `.err()` is some error.
abbrev pub is_failure : Checked → Exec String Bool
is_failure (ok done) = ok false
is_failure (err e) = ok true
is_failure panic = panic

-- `keys()`
abbrev pub keys_of : {K V : Type 0} → List (K × V) → List K
keys_of m = map (λ p. p.0) m

module _ {V : Type 0} (equiv : V → V → Checked) where
  -- The check of one entry of the left map: whether it is an error.
  unfoldable pub entry_fails : Option V → V → Exec String Bool
  entry_fails none v = ok true
  entry_fails (some w) v = is_failure (equiv v w)

  -- Whether the errors of the entries are none.
  unfoldable pub entries_equiv : List (String × V) → List (String × V) → Exec String Bool
  entries_equiv [] r = ok true
  entries_equiv ((k, v) ∷ l) r = do
    fails ← entry_fails (lookup string_discrete k r) v
    rest ← entries_equiv l r
    ok (not fails && rest)

  -- `impl Equiv for HashMap<K, V>` and `impl Equiv for BTreeMap<K, V>`
  unfoldable pub map_equiv : List (String × V) → List (String × V) → Checked
  map_equiv l r =
      let all_equiv = entries_equiv l r in
      if length l == length r
      then (do same ← all_equiv; require same "Found the following mismatches")
      else err "Missing keys"

-- `cedar_policy_core::ast::Annotation`, whose value is compared.
pub record Annotation : Type 0 where
  pub val : String

-- `impl Equiv for Option<Annotation>`
unfoldable pub annotation_equiv : Option Annotation → Option Annotation → Checked
annotation_equiv (some a) (some b) =
    require (test (string_discrete a.val b.val)) "annotations are not equivalent"
annotation_equiv (some a) none =
    require (test (string_discrete a.val "")) "annotations are not equivalent"
annotation_equiv none (some a) =
    require (test (string_discrete a.val "")) "annotations are not equivalent"
annotation_equiv none none = ok tt

abbrev pub Annotations : Type 0
Annotations = List (String × Option Annotation)

-- `impl Equiv for Annotations`
unfoldable pub annotations_equiv : Annotations → Annotations → Checked
annotations_equiv l r = map_equiv annotation_equiv l r
