-- ===== src/Hierarchy.antt =====
-- cedar-policy-generators/src/hierarchy.rs: `Hierarchy`, a pool of entities in an arbitrary order with
-- an index by type, and the choice of parents in `HierarchyGenerator::generate`.
pub mod Index
pub mod Shuffle
pub mod Acyclic
use cedar_spec.Base.{
  ℕ, zero, suc, ◌+◌, ◌-◌, ◌⊎◌, inl, inr, Bool, true, false, List, [], ◌∷◌, ◌++◌, map, Option, none,
  some, Exec, ok, err, panic, ◌>>=◌, expect, length, get_elem?, leb, if◌then◌else◌, test,
}
use cedar_spec.Base.Assoc.{lookup, insert, insert_elem, contains}
use mathlib.Core.Logic.{ite}

-- Entity types and entities' identifiers, with what the crate `cedar_policy_core` gives of them, and
-- the source of random choices of the crate `arbitrary`: its state, an index below a bound and a
-- coin of a given ratio.
pub record Pool : Type 1 where
  pub EntityType : Type 0
  pub EntityUid : Type 0
  pub Entity : Type 0
  pub Error : Type 0
  pub Unstructured : Type 0
  pub type_discrete : Discrete EntityType
  pub uid_discrete : Discrete EntityUid
  pub entity_type : EntityUid → EntityType
  pub with_uid : EntityUid → Entity
  pub choose_index : ℕ → Unstructured → Error ⊎ (ℕ × Unstructured)
  pub ratio : ℕ → ℕ → Unstructured → Error ⊎ (Bool × Unstructured)

pub record Hierarchy (c : Pool) : Type 0 where
  pub entities : List (c.EntityUid × c.Entity)
  pub uids_by_type : List (c.EntityType × List c.EntityUid)

module _ {ℓ} {A : Type ℓ} where
  abbrev pub drop : ℕ → List A → List A
  drop zero xs = xs
  drop (suc n) [] = []
  drop (suc n) (x ∷ xs) = drop n xs

  abbrev pub set : List A → ℕ → A → List A
  set [] i v = []
  set (x ∷ xs) zero v = v ∷ xs
  set (x ∷ xs) (suc i) v = x ∷ set xs i v

-- The place of the first element that is `a`.
unfoldable pub position : {A : Type 0} → Discrete A → A → List A → Option ℕ
position dec a [] = none
position dec a (x ∷ xs) =
    let rest : Option ℕ = elim (position dec a xs) [ none ↦ none | some i ↦ some (suc i) ] in
    ite (dec x a) (some 0) rest

-- `xs.swap(i, j)`, which panics out of bounds
unfoldable pub swap : {E A : Type 0} → List A → ℕ → ℕ → Exec E (List A)
swap xs i j = do x ← expect (get_elem? xs i); y ← expect (get_elem? xs j); ok (set (set xs i y) j x)

abbrev pub attempt' : {E A : Type 0} → E ⊎ A → Exec E A
attempt' (inl e) = err e
attempt' (inr a) = ok a

module _ (c : Pool) where
  open c use {EntityType, EntityUid, Entity, Error, Unstructured}

  -- `map.entry(ty).or_default().push(uid)`
  unfoldable pub push_entry :
      EntityType
      → EntityUid
      → List (EntityType × List EntityUid)
      → List (EntityType × List EntityUid)
  push_entry ty uid [] = (ty, uid ∷ []) ∷ []
  push_entry ty uid ((t, uids) ∷ m) =
      ite (c.type_discrete t ty) ((t, uids ++ (uid ∷ [])) ∷ m) ((t, uids) ∷ push_entry ty uid m)

  unfoldable pub declare_types :
      List EntityType → List (EntityType × List EntityUid) → List (EntityType × List EntityUid)
  declare_types [] m = m
  declare_types (ty ∷ tys) m = declare_types tys (insert c.type_discrete ty [] m)

  unfoldable pub index_uids :
      List EntityUid → List (EntityType × List EntityUid) → List (EntityType × List EntityUid)
  index_uids [] m = m
  index_uids (uid ∷ uids) m = index_uids uids (push_entry (c.entity_type uid) uid m)

  abbrev pub uids_of : List (EntityUid × Entity) → List EntityUid
  uids_of = map (λ e. e.0)

  -- `Hierarchy::new`
  unfoldable pub hierarchy_new : List (EntityUid × Entity) → List EntityType → Hierarchy c
  hierarchy_new entities declared_entity_types = record {
    entities = entities;
    uids_by_type = index_uids (uids_of entities) (declare_types declared_entity_types []);
  }

  -- `Hierarchy::uids`
  abbrev pub uids : Hierarchy c → List EntityUid
  uids h = uids_of h.entities

  -- `Hierarchy::index_of`, which panics on a uid that is not there
  unfoldable pub index_of : Hierarchy c → EntityUid → Exec Error ℕ
  index_of h uid = expect (position c.uid_discrete uid (uids h))

  -- `Hierarchy::replace_entities`
  unfoldable pub replace_entities : Hierarchy c → List (EntityUid × Entity) → Hierarchy c
  replace_entities h new_entities = record h { entities = new_entities }

  -- `Hierarchy::uids_after`
  unfoldable pub uids_after : Hierarchy c → EntityUid → Exec Error (List EntityUid)
  uids_after h entity = do idx ← index_of h entity; ok (drop (idx + 1) (uids h))

  -- The slice from the partition point of `|uid| self.index_of(uid) <= idx`.
  unfoldable pub skip_until : Hierarchy c → ℕ → List EntityUid → Exec Error (List EntityUid)
  skip_until h idx [] = ok []
  skip_until h idx (uid ∷ uids') =
      let rest = skip_until h idx uids' in
      index_of h uid >>= λ i. if leb i idx then rest else ok (uid ∷ uids')

  -- `Hierarchy::uids_for_type`
  unfoldable pub uids_for_type : Hierarchy c → EntityType → EntityUid → Exec Error (List EntityUid)
  uids_for_type h dst_ty entity = do
    idx ← index_of h entity
    elim (lookup c.type_discrete dst_ty h.uids_by_type) [
      | none ↦ ok []
      | some found ↦ skip_until h idx found
    ]

  -- The loop of the shuffle in `from_uids_by_type`: `rounds` are left, the first at index `i`.
  unfoldable pub shuffle :
      ℕ → ℕ → List EntityUid → Unstructured → Exec Error (List EntityUid × Unstructured)
  shuffle zero i pool u = ok (pool, u)
  shuffle (suc rounds) i pool u = do
    (k, u') ← attempt' (c.choose_index (length pool - i) u)
    pool' ← swap pool i (i + k)
    shuffle rounds (suc i) pool' u'

  -- `uids_by_type.values().flat_map(…)`
  unfoldable pub pool_of : List (EntityType × List EntityUid) → List EntityUid
  pool_of [] = []
  pool_of ((ty, found) ∷ m) = found ++ pool_of m

  -- `uids.iter().map(|uid| (uid.clone(), Entity::with_uid(uid.clone()))).collect()`
  unfoldable pub collect_uids :
      List EntityUid → List (EntityUid × Entity) → List (EntityUid × Entity)
  collect_uids [] m = m
  collect_uids (uid ∷ uids') m = collect_uids uids' (insert c.uid_discrete uid (c.with_uid uid) m)

  -- `Hierarchy::from_uids_by_type`
  unfoldable pub from_uids_by_type :
      List (EntityType × List EntityUid) → Unstructured → Exec Error (Hierarchy c × Unstructured)
  from_uids_by_type m u = do
    (pool, u') ← shuffle (length (pool_of m)) 0 (pool_of m) u
    ok (hierarchy_new (collect_uids pool []) (map (λ e. e.0) m), u')

  -- A coin for each candidate; the heads become parents.
  unfoldable pub flip_each :
      ℕ
      → ℕ
      → List EntityUid
      → List EntityUid
      → Unstructured
      → Exec Error (List EntityUid × Unstructured)
  flip_each a b [] parents u = ok (parents, u)
  flip_each a b (candidate ∷ candidates) parents u = do
    (heads, u') ← attempt' (c.ratio a b u)
    flip_each a b candidates
        (if heads then insert_elem c.uid_discrete candidate parents else parents) u'

  -- The loop over the parent types that a schema allows.
  unfoldable pub schema_parents :
      Hierarchy c
      → EntityUid
      → List EntityType
      → List EntityUid
      → Unstructured
      → Exec Error (List EntityUid × Unstructured)
  schema_parents h uid [] parents u = ok (parents, u)
  schema_parents h uid (ty ∷ tys) parents u = do
    candidates ← uids_for_type h ty uid
    (parents', u') ← flip_each 1 2 candidates parents u
    schema_parents h uid tys parents' u'

  -- `HierarchyGeneratorMode`, with the schema seen through `allowed_parent_typenames`
  pub data Mode : Type 0 where
    schema_based : (EntityType → Option (List EntityType)) → Mode
    arbitrary : Mode

  unfoldable pub choose_parents :
      Mode → Hierarchy c → EntityUid → Unstructured → Exec Error (List EntityUid × Unstructured)
  choose_parents (schema_based allowed) h uid u = do
    tys ← expect (allowed (c.entity_type uid))
    schema_parents h uid tys [] u
  choose_parents arbitrary h uid u = do
    candidates ← uids_after h uid
    (parents, u') ← flip_each 1 3 candidates [] u
    if contains c.uid_discrete uid parents then panic else ok (parents, u')

  -- The parents that `generate` chooses, for each entity of the pool in turn. What it generates
  -- besides, the attributes and tags of the entity, is the step `rest`.
  unfoldable pub generate_parents :
      (EntityUid → List EntityUid → Unstructured → Exec Error Unstructured)
      → Mode
      → Hierarchy c
      → List EntityUid
      → Unstructured
      → Exec Error (List (EntityUid × List EntityUid) × Unstructured)
  generate_parents rest mode h [] u = ok ([], u)
  generate_parents rest mode h (uid ∷ todo) u = do
    (parents, u1) ← choose_parents mode h uid u
    u2 ← rest uid parents u1
    (edges, u3) ← generate_parents rest mode h todo u2
    ok ((uid, parents) ∷ edges, u3)
