-- ===== src/Datatypes/Sharing/Correct.antt =====
-- The terms that a shared term stands for, as the theorems on it state them.
use Prim.Native.Nat.{Ordering}
use Prim.Native.String.{String}
use mathlib.Core.Logic.{if_pos, if_neg}
use cedar_spec.Base.{
  ◌≡◌, ◌≢◌, refl, ap, sym, subst, ◌∙◌, ◌↔◌, List, [], ◌∷◌, Option, none, some, Exec, ok, err, panic,
  ◌>>=◌, lift_error, value_of, value_of-ok, Zip, after_step, All,
}
use cedar_spec.Base.Assoc.{lookup, insert, lookup-insert}
use cedar_spec.Base.Texts.{string_discrete}
use cedar_spec.Datatypes.Crate.{Crate}
use cedar_spec.Datatypes.Symcc.{SymccTerm}
use cedar_spec.Datatypes.Ffi.{Term, Terms, Fields, TermDefBody, TermDef, CseTerm, conversion}
use cedar_spec.Datatypes.Terms.{term_try_from}
use cedar_spec.Datatypes.Sharing.{
  resolve, resolve_defs, cse_try_from, expand, expand_all, expand_entries, expand_defs, define,
  vacant, embed, embed_all, embed_fields,
}
use cedar_spec.Datatypes.Sharing.Meaning.{Converts, resolve-expand, define-Zip, lookup-none}

lift_error-ok :
    {E F A : Type 0} (wrap : E → F) (m : Exec E A) {a : A} → lift_error wrap m ≡ ok a → m ≡ ok a
lift_error-ok wrap (ok a) e = cc
lift_error-ok wrap (err x) e = cc
lift_error-ok wrap panic e = cc

vacant-ok :
    {c : Crate} {A M : Type 0} (id : String) (o : Option A) {m n : M}
    → vacant {c = c} id o m ≡ ok n
    → (o ≡ none) × (m ≡ n)
vacant-ok id none h = (refl, cc)
vacant-ok id (some old) h = cc

module _ (c : Crate) {A : Type 0} (id : String) (a : A) (m : List (String × A)) where
  define-ok :
      {n : List (String × A)}
      → define {c = c} id a m ≡ ok n
      → (lookup string_discrete id m ≡ none) × (insert string_discrete id a m ≡ n)
  define-ok h = vacant-ok id (lookup string_discrete id m) h

  define-fresh :
      lookup string_discrete id m ≡ none
      → define {c = c} id a m ≡ ok (insert string_discrete id a m)
  define-fresh e = ap (λ o. vacant id o (insert string_discrete id a m)) e

insert-All_fresh :
    {A : Type 0} (P : String × A → Type 0) (k : String) (v : A) (m : List (String × A))
    → lookup string_discrete k m ≡ none
    → All P (insert string_discrete k v m)
    → P (k, v) × All P m
unfolding lookup insert
insert-All_fresh P k v [] e a = a
insert-All_fresh P k v ((j, w) ∷ m) e a = elim (string_discrete j k) [
  | yes h ↦ cc (rw (if_pos (string_discrete j k) h) at e)
  | no n ↦
      let b = rw (if_neg (string_discrete j k) n) at a in
      let d = rw (if_neg (string_discrete j k) n) at e in
      let r = insert-All_fresh P k v m d b.1 in (r.0, (b.0, r.1))
]

module _ (c : Crate) (term_cmp : SymccTerm c → SymccTerm c → Ordering) where
  -- A definition whose term converts.
  abbrev pub IsConvertible : String × Term c → Type 0
  IsConvertible p = (s : SymccTerm c) × (term_try_from c term_cmp p.1 ≡ ok s)

  resolve_iff :
      (env : List (String × Term c)) (m : List (String × SymccTerm c))
      → Zip (Converts c term_cmp) env m
      → (b : TermDefBody c) (s : SymccTerm c)
      → (resolve c term_cmp m b ≡ ok s)
        ↔ ((t : Term c) × (expand c env b ≡ ok t) × (term_try_from c term_cmp t ≡ ok s))
  resolve_iff env m z b s = (forth, back)
    where
      forth :
          resolve c term_cmp m b ≡ ok s
          → (t : Term c) × (expand c env b ≡ ok t) × (term_try_from c term_cmp t ≡ ok s)
      forth h =
          let both =
            value_of-ok (expand c env b >>= λ t. lift_error conversion (term_try_from c term_cmp t))
              (sym (resolve-expand c term_cmp env m z b) ∙ ap value_of h) in
          let r = after_step (expand c env b) _ both in
          (r.0, r.1, lift_error-ok conversion (term_try_from c term_cmp r.0) r.2)

      back :
          ((t : Term c) × (expand c env b ≡ ok t) × (term_try_from c term_cmp t ≡ ok s))
          → resolve c term_cmp m b ≡ ok s
      back (t, e, f) =
          value_of-ok (resolve c term_cmp m b)
            (resolve-expand c term_cmp env m z b ∙ rw (e, f) refl)

  Zip-IsConvertible :
      (env : List (String × Term c)) (m : List (String × SymccTerm c))
      → Zip (Converts c term_cmp) env m
      → All IsConvertible env
  Zip-IsConvertible [] m z = tt
  Zip-IsConvertible (p ∷ env) [] z = absurd z
  Zip-IsConvertible (p ∷ env) (q ∷ m) z = ((q.1, z.0.1), Zip-IsConvertible env m z.1)

  expand_defs-All :
      (P : String × Term c → Type 0) (ds : List (TermDef c)) (env : List (String × Term c))
      {out : List (String × Term c)}
      → expand_defs c ds env ≡ ok out
      → All P out
      → All P env
  unfolding expand_defs
  expand_defs-All P [] env h a = subst (All P) (cc) a
  expand_defs-All P (d ∷ ds) env h a =
      let r = after_step (expand c env d.body) _ h in
      let q = after_step (define {c = c} d.id r.0 env) _ r.2 in
      let f = define-ok c d.id r.0 env q.1 in
      (insert-All_fresh P d.id r.0 env f.0
        (subst (All P) (sym f.1) (expand_defs-All P ds q.0 q.2 a))).1

  resolve_defs-ok :
      (ds : List (TermDef c)) (env : List (String × Term c)) (m : List (String × SymccTerm c))
      {out : List (String × SymccTerm c)}
      → Zip (Converts c term_cmp) env m
      → resolve_defs c term_cmp ds m ≡ ok out
      → (final : List (String × Term c)) × (expand_defs c ds env ≡ ok final)
        × Zip (Converts c term_cmp) final out
  unfolding resolve_defs expand_defs
  resolve_defs-ok [] env m z h = (env, refl, subst (Zip (Converts c term_cmp) env) (cc) z)
  resolve_defs-ok (d ∷ ds) env m z h =
      let r = after_step (resolve c term_cmp m d.body) _ h in
      let q = after_step (define {c = c} d.id r.0 m) _ r.2 in
      let f = define-ok c d.id r.0 m q.1 in
      let x = (resolve_iff env m z d.body r.0).0 r.1 in
      let z' =
        subst (Zip (Converts c term_cmp) (insert string_discrete d.id x.0 env)) f.1
          (define-Zip c term_cmp d.id x.0 r.0 env m z x.2) in
      let rest = resolve_defs-ok ds (insert string_discrete d.id x.0 env) q.0 z' q.2 in
      (
        rest.0,
        rw (x.1, define-fresh c d.id x.0 env ((lookup-none c term_cmp d.id env m z).1 f.0)) rest.1,
        rest.2,
      )

  expand_defs-ok :
      (ds : List (TermDef c)) (env : List (String × Term c)) (m : List (String × SymccTerm c))
      {final : List (String × Term c)}
      → Zip (Converts c term_cmp) env m
      → expand_defs c ds env ≡ ok final
      → All IsConvertible final
      → (out : List (String × SymccTerm c)) × (resolve_defs c term_cmp ds m ≡ ok out)
        × Zip (Converts c term_cmp) final out
  unfolding resolve_defs expand_defs
  expand_defs-ok [] env m z h a = (m, refl, subst (λ e. Zip (Converts c term_cmp) e m) (cc) z)
  expand_defs-ok (d ∷ ds) env m z h a =
      let r = after_step (expand c env d.body) _ h in
      let q = after_step (define {c = c} d.id r.0 env) _ r.2 in
      let f = define-ok c d.id r.0 env q.1 in
      let s =
        (insert-All_fresh IsConvertible d.id r.0 env f.0
          (subst (All IsConvertible) (sym f.1) (expand_defs-All IsConvertible ds q.0 q.2 a))).0 in
      let x = (resolve_iff env m z d.body s.0).1 (r.0, r.1, s.1) in
      let z' =
        subst (λ e. Zip (Converts c term_cmp) e (insert string_discrete d.id s.0 m)) f.1
          (define-Zip c term_cmp d.id r.0 s.0 env m z s.1) in
      let rest = expand_defs-ok ds q.0 (insert string_discrete d.id s.0 m) z' q.2 a in
      (
        rest.0,
        rw (x, define-fresh c d.id s.0 m ((lookup-none c term_cmp d.id env m z).0 f.0)) rest.1,
        rest.2,
      )

  -- The term that a shared term stands for.
  abbrev pub StandsFor : CseTerm c → Term c → Type 0
  StandsFor v t =
      (env : List (String × Term c)) × (expand_defs c v.defs [] ≡ ok env)
      × (expand c env v.root ≡ ok t)
      × All IsConvertible env

  -- A shared term is reconstructed as `s` exactly where there is a term that it stands for and that
  -- `term_try_from` converts to `s`: its definitions, each expanded by those before it and each
  -- with an identifier of its own, all expand to terms that convert, and the term is its root with
  -- every reference replaced.
  pub cse_try_from_iff :
      (v : CseTerm c) (s : SymccTerm c)
      → (cse_try_from c term_cmp v ≡ ok s)
        ↔ ((t : Term c) × StandsFor v t × (term_try_from c term_cmp t ≡ ok s))
  unfolding cse_try_from
  cse_try_from_iff v s = (forth, back)
    where
      forth :
          cse_try_from c term_cmp v ≡ ok s
          → (t : Term c) × StandsFor v t × (term_try_from c term_cmp t ≡ ok s)
      forth h =
          let r = after_step (resolve_defs c term_cmp v.defs []) _ h in
          let d = resolve_defs-ok v.defs [] [] tt r.1 in
          let x = (resolve_iff d.0 r.0 d.2 v.root s).0 r.2 in
          (x.0, (d.0, d.1, x.1, Zip-IsConvertible d.0 r.0 d.2), x.2)

      back :
          ((t : Term c) × StandsFor v t × (term_try_from c term_cmp t ≡ ok s))
          → cse_try_from c term_cmp v ≡ ok s
      back (t, (env, e, f, a), g) =
          let d = expand_defs-ok v.defs [] [] tt e a in
          rw d.1 ((resolve_iff env d.0 d.2 v.root s).1 (t, f, g))

module _ (c : Crate) where
  mutual
    unfolding expand embed

    expand-embed : (env : List (String × Term c)) (t : Term c) → expand c env (embed c t) ≡ ok t
    expand-embed env (Term.prim p) = refl
    expand-embed env (Term.var v) = refl
    expand-embed env (Term.none_of ty) = refl
    expand-embed env (Term.some_of t) = rw (expand-embed env t) refl
    expand-embed env (Term.set ts ty) = rw (expand_all-embed env ts) refl
    expand-embed env (Term.record_of fs) = rw (expand_entries-embed env fs) refl
    expand-embed env (Term.app op ts ty) = rw (expand_all-embed env ts) refl

    expand_all-embed :
        (env : List (String × Term c)) (ts : Terms c) → expand_all c env (embed_all c ts) ≡ ok ts
    expand_all-embed env Terms.no_terms = refl
    expand_all-embed env (Terms.term t ts) = rw (expand-embed env t, expand_all-embed env ts) refl

    expand_entries-embed :
        (env : List (String × Term c)) (fs : Fields c)
        → expand_entries c env (embed_fields c fs) ≡ ok fs
    expand_entries-embed env Fields.no_fields = refl
    expand_entries-embed env (Fields.field a t fs) =
        rw (expand-embed env t, expand_entries-embed env fs) refl

  module _ (term_cmp : SymccTerm c → SymccTerm c → Ordering) where
    -- A shared term without definitions and references is reconstructed as what the plain
    -- conversion of the term gives.
    pub cse_try_from-embed :
        (t : Term c) (s : SymccTerm c)
        → (cse_try_from c term_cmp (record { defs = []; root = embed c t }) ≡ ok s)
          ↔ (term_try_from c term_cmp t ≡ ok s)
    unfolding expand_defs
    cse_try_from-embed t s = (forth, λ h. whole.1 (t, ([], refl, expand-embed [] t, tt), h))
      where
        whole : (cse_try_from c term_cmp (record { defs = []; root = embed c t }) ≡ ok s) ↔ (
            (u : Term c) × StandsFor c term_cmp (record { defs = []; root = embed c t }) u
            × (term_try_from c term_cmp u ≡ ok s))
        whole = cse_try_from_iff c term_cmp (record { defs = []; root = embed c t }) s

        forth :
            cse_try_from c term_cmp (record { defs = []; root = embed c t }) ≡ ok s
            → term_try_from c term_cmp t ≡ ok s
        forth h =
            let r = whole.0 h in
            let e = expand-embed r.1.0 t in
            subst (λ u. term_try_from c term_cmp u ≡ ok s) (cc (r.1.2)) r.2

    -- No identifier is defined twice.
    abbrev pub IdsDiffer : List (TermDef c) → Type 0
    IdsDiffer [] = Unit
    IdsDiffer (d ∷ ds) = All (λ e. d.id ≢ e.id) ds × IdsDiffer ds

    not_defined :
        (id : String) (a : SymccTerm c) (ds : List (TermDef c)) (m : List (String × SymccTerm c))
        → All (λ d. lookup string_discrete d.id (insert string_discrete id a m) ≡ none) ds
        → All (λ d. lookup string_discrete d.id m ≡ none) ds × All (λ d. id ≢ d.id) ds
    not_defined id a [] m h = (tt, tt)
    not_defined id a (d ∷ ds) m h =
        let rest = not_defined id a ds m h.1 in
        elim (string_discrete id d.id) [
          | yes e ↦ cc (
              rw (lookup-insert string_discrete id d.id a m, if_pos (string_discrete id d.id) e) at
                h.0)
          | no n ↦ (
            (
              rw (lookup-insert string_discrete id d.id a m, if_neg (string_discrete id d.id) n) at
                  h.0,
              rest.0,
            ),
            (n, rest.1),
          )
        ]

    resolve_defs-IdsDiffer :
        (ds : List (TermDef c)) (m : List (String × SymccTerm c))
        {out : List (String × SymccTerm c)}
        → resolve_defs c term_cmp ds m ≡ ok out
        → All (λ d. lookup string_discrete d.id m ≡ none) ds × IdsDiffer ds
    unfolding resolve_defs
    resolve_defs-IdsDiffer [] m h = (tt, tt)
    resolve_defs-IdsDiffer (d ∷ ds) m h =
        let r = after_step (resolve c term_cmp m d.body) _ h in
        let q = after_step (define {c = c} d.id r.0 m) _ r.2 in
        let f = define-ok c d.id r.0 m q.1 in
        let rest = resolve_defs-IdsDiffer ds q.0 q.2 in
        let n =
          not_defined d.id r.0 ds m
            (subst (λ x. All (λ e. lookup string_discrete e.id x ≡ none) ds) (sym f.1) rest.0) in
        ((f.0, n.0), (n.1, rest.1))

    -- Where a shared term is reconstructed, no two of its definitions have one identifier.
    pub cse_try_from-IdsDiffer :
        (v : CseTerm c) (s : SymccTerm c) → cse_try_from c term_cmp v ≡ ok s → IdsDiffer v.defs
    unfolding cse_try_from
    cse_try_from-IdsDiffer v s h =
        (resolve_defs-IdsDiffer v.defs [] (after_step (resolve_defs c term_cmp v.defs []) _ h).1).1
