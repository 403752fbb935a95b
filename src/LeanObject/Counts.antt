-- ===== src/LeanObject/Counts.antt =====
-- cedar-lean-ffi/src/lean_object.rs: each reference that Rust owns belongs to one live value.
use cedar_spec.Base.{ℕ, suc, ◌+◌, ◌≤◌, ◌≡◌, sym, ap, List, [], ◌∷◌, if◌then◌else◌, test, arith}
use cedar_spec.LeanObject.{
  Runtime, Owned, forget, forget_all, to_owned, clone, drop_owned, call_lean_ffi,
}

module _ (t : Runtime) where
  open t use {Pointer}

  -- How many values of a list are the object `q`.
  unfoldable pub count_of : Pointer → List Pointer → ℕ
  count_of q [] = 0
  count_of q (p ∷ ps) =
      let rest = count_of q ps in if test (t.pointer_discrete p q) then suc rest else rest

  -- The references counted are those of the live values.
  abbrev pub IsBalanced : Owned t → Type 0
  IsBalanced s = (q : Pointer) → s.refs q ≡ count_of q s.live

  -- Lean takes the references of the arguments and gives one of the object that it returns.
  abbrev pub TakesOwnership : (List Pointer → (Pointer → ℕ) → Pointer × (Pointer → ℕ)) → Type 0
  TakesOwnership func =
      (args : List Pointer) (refs : Pointer → ℕ) (q : Pointer)
      → count_of q args ≤ refs q
      → (func args refs).1 q + count_of q args ≡ refs q + count_of q ((func args refs).0 ∷ [])

  count_of-forget :
      (p q : Pointer) (live : List Pointer)
      → 1 ≤ count_of p live
      → count_of q (forget t p live) + count_of q (p ∷ []) ≡ count_of q live
  unfolding count_of forget
  count_of-forget p q [] h = absurd (omega arith)
  count_of-forget p q (x ∷ live) h = elim (t.pointer_discrete p x) [
    | yes e ↦ ground (arith, e, ap (λ z. test (t.pointer_discrete z q)) e)
    | no n ↦
        let other : ¬ (x ≡ p) = λ s. n (sym s) in
        let found : 1 ≤ count_of p live = ground (arith, other) in
        ground (arith, count_of-forget p q live found, n)
  ]

  -- Every argument is live, as often as it is passed.
  abbrev pub AreLive : List Pointer → List Pointer → Type 0
  AreLive ps live = (q : Pointer) → count_of q ps ≤ count_of q live

  count_of-forget_all :
      (q : Pointer) (ps live : List Pointer)
      → AreLive ps live
      → count_of q (forget_all t ps live) + count_of q ps ≡ count_of q live
  unfolding count_of forget_all
  count_of-forget_all q [] live h = omega arith
  count_of-forget_all q (p ∷ ps) live h =
      let mine : 1 ≤ count_of p live = ground (arith, h p) in
      let one = λ (r : Pointer). count_of-forget p r live mine in
      let fewer : (r : Pointer) → count_of r ps ≤ count_of r (forget t p live) =
        λ r. ground (arith, h r, one r) in
      ground (arith, count_of-forget_all q ps (forget t p live) fewer, one q)

  -- One operation on the values that Rust owns.
  pub data Step (func : List Pointer → (Pointer → ℕ) → Pointer × (Pointer → ℕ))
      : Owned t → Owned t → Type 0 where
    borrowed : {s : Owned t} (p : Pointer) → Step func s (to_owned t p s)
    cloned : {s : Owned t} (p : Pointer) → 1 ≤ count_of p s.live → Step func s (clone t p s)
    dropped : {s : Owned t} (p : Pointer) → 1 ≤ count_of p s.live → Step func s (drop_owned t p s)
    called :
        {s : Owned t} (args : List Pointer)
        → AreLive args s.live
        → Step func s (call_lean_ffi t func args s)

  pub Step-IsBalanced :
      (func : List Pointer → (Pointer → ℕ) → Pointer × (Pointer → ℕ)) (takes : TakesOwnership func)
      {s s' : Owned t}
      → Step func s s'
      → IsBalanced s
      → IsBalanced s'
  unfolding to_owned clone drop_owned call_lean_ffi count_of
  Step-IsBalanced func takes (borrowed {s = s} p) b = λ q. ground (arith, b q)
  Step-IsBalanced func takes (cloned {s = s} p h) b = λ q. ground (arith, b q)
  Step-IsBalanced func takes (dropped {s = s} p h) b =
      λ q. ground (arith, b q, count_of-forget p q s.live h)
  Step-IsBalanced func takes (called {s = s} args h) b = λ q.
      let ret = (func args s.refs).0 in
      let more : (r : Pointer) → count_of r args ≤ count_of r (ret ∷ s.live) =
        λ r. ground (arith, h r) in
      ground (
        arith,
        count_of-forget_all q args (ret ∷ s.live) more,
        takes args s.refs q (ground (arith, h q, b q)),
        b q,
      )

  -- A run of such operations.
  pub data Steps (func : List Pointer → (Pointer → ℕ) → Pointer × (Pointer → ℕ))
      : Owned t → Owned t → Type 0 where
    done : {s : Owned t} → Steps func s s
    next : {s s1 s' : Owned t} → Step func s s1 → Steps func s1 s' → Steps func s s'

  -- Over every run of operations, the references that the runtime counts for Rust stay those of the
  -- live values, so that none leaks and none is given back twice, where the functions called take
  -- ownership of their arguments.
  pub Steps-IsBalanced :
      (func : List Pointer → (Pointer → ℕ) → Pointer × (Pointer → ℕ)) (takes : TakesOwnership func)
      {s s' : Owned t}
      → Steps func s s'
      → IsBalanced s
      → IsBalanced s'
  Steps-IsBalanced func takes done b = b
  Steps-IsBalanced func takes (next st rest) b =
      Steps-IsBalanced func takes rest (Step-IsBalanced func takes st b)
