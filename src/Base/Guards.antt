-- ===== src/Base/Guards.antt =====
-- Lists that a loop builds with `if test { push }`: what stands in them.
use mathlib.Core.Bool.{Bool, true, false}
use mathlib.Core.List.{List, ◌∷◌, ◌++◌}
use mathlib.Core.Logic.{◌⊎◌, inl, inr}
use mathlib.Core.Path.{◌≡◌}
use native.Mathlib.Omega.{arith}
use cedar_spec.Base.Tests.{if◌then◌else◌}
use cedar_spec.Base.Lists.{In, In-append}

-- What a round of a guarded loop adds.
pub In-guard_cons :
    {A : Type 0} (b : Bool) (x e : A) (rest : List A)
    → In e (if b then x ∷ rest else rest)
    → ((b ≡ true) × (e ≡ x)) ⊎ In e rest
In-guard_cons true x e rest h = ground arith
In-guard_cons false x e rest h = inr h

pub In-guard_append :
    {A : Type 0} (b : Bool) (xs : List A) (e : A) (rest : List A)
    → In e (if b then xs ++ rest else rest)
    → ((b ≡ true) × In e xs) ⊎ In e rest
In-guard_append true xs e rest h = ground (arith, In-append e xs rest)
In-guard_append false xs e rest h = inr h

pub guard_append-here :
    {A : Type 0} (b : Bool) (xs : List A) (e : A) (rest : List A)
    → b ≡ true
    → In e xs
    → In e (if b then xs ++ rest else rest)
guard_append-here true xs e rest t i = (In-append e xs rest).1 (inl i)
guard_append-here false xs e rest t i = cc

pub guard_append-there :
    {A : Type 0} (b : Bool) (xs : List A) (e : A) (rest : List A)
    → In e rest
    → In e (if b then xs ++ rest else rest)
guard_append-there true xs e rest i = (In-append e xs rest).1 (inr i)
guard_append-there false xs e rest i = i

pub guard_cons-here :
    {A : Type 0} (b : Bool) (x e : A) (rest : List A)
    → b ≡ true
    → e ≡ x
    → In e (if b then x ∷ rest else rest)
guard_cons-here true x e rest t i = inl i
guard_cons-here false x e rest t i = cc

pub guard_cons-there :
    {A : Type 0} (b : Bool) (x e : A) (rest : List A)
    → In e rest
    → In e (if b then x ∷ rest else rest)
guard_cons-there true x e rest i = inr i
guard_cons-there false x e rest i = i
