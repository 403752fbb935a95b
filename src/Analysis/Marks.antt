-- ===== src/Analysis/Marks.antt =====
-- cedar-lean-cli/src/analysis.rs: what `update_findings` leaves in a map of findings.
use cedar_spec.Base.{
  Exec, ℕ, zero, suc, ◌≡◌, refl, ◌∙◌, Bool, false, ◌&&◌, ◌||◌, List, [], ◌∷◌, none, some, ok, ◌>>=◌,
  length, get_elem?, replicate, if◌then◌else◌, test, All, Ensures, Ensures-bind, arith,
  length-replicate, Option-cases, inl, inr,
}
use cedar_spec.Base.Assoc.{
  contains, contains-insert_elem, insert_elem, lookup, insert, lookup-insert, insert-All,
  lookup-All, Distinct, insert-Distinct,
}
use cedar_spec.Analysis.Update.{FindingsMap, mark_results, update_findings}

module _ {PolicyId : Type 0} (dec : Discrete PolicyId) where
  -- Whether `q` stands in the set at place `i`.
  abbrev pub marked : List (List PolicyId) → ℕ → PolicyId → Bool
  marked sets i q = elim (get_elem? sets i) [ none ↦ false | some s ↦ contains dec q s ]

  -- Whether `q` is reported for `p` at the request environment `i`.
  unfoldable pub reported : FindingsMap PolicyId → PolicyId → ℕ → PolicyId → Bool
  reported f p i q = elim (lookup dec p f) [ none ↦ false | some sets ↦ marked sets i q ]

  -- One set for each of the `n` request environments, for every policy with an entry; no policy has
  -- two entries.
  pub record IsSized (n : ℕ) (f : FindingsMap PolicyId) : Type 0 where
    pub sized : All (λ e. length e.1 ≡ n) f
    pub distinct : Distinct dec f

  pub no_findings-IsSized : (n : ℕ) → IsSized n []
  no_findings-IsSized n = record { sized = tt; distinct = tt }

  marked-replicate : (n i : ℕ) (q : PolicyId) → marked (replicate n []) i q ≡ false
  unfolding contains
  marked-replicate zero i q = refl
  marked-replicate (suc n) zero q = refl
  marked-replicate (suc n) (suc i) q = marked-replicate n i q

  module _ {T : Type 0} (eq : Discrete T) where
    -- Whether the result at place `i` is the one looked for.
    abbrev pub hit : List T → T → ℕ → Bool
    hit results wanted i = elim (get_elem? results i) [ none ↦ false | some r ↦ test (eq r wanted) ]

    pub record IsMarked (results : List T) (wanted : T) (pid2 : PolicyId)
        (sets sets' : List (List PolicyId)) : Type 0 where
      pub same_length : length sets' ≡ length sets
      pub marks :
          (i : ℕ) (q : PolicyId)
          → marked sets' i q ≡ (marked sets i q || (hit results wanted i && test (dec pid2 q)))

    IsMarked-cons :
        (results : List T) (wanted : T) (pid2 : PolicyId) (result : T) (s : List PolicyId)
        (sets sets' : List (List PolicyId))
        → IsMarked results wanted pid2 sets sets'
        → IsMarked
            (result ∷ results)
            wanted
            pid2
            (s ∷ sets)
            ((if test (eq result wanted) then insert_elem dec pid2 s else s) ∷ sets')
    IsMarked-cons results wanted pid2 result s sets sets' m = record {
      same_length = omega (arith, m.same_length);
      marks = go;
    }
      where
        go :
            (i : ℕ) (q : PolicyId)
            → marked ((if test (eq result wanted) then insert_elem dec pid2 s else s) ∷ sets') i q
              ≡ (marked (s ∷ sets) i q || (hit (result ∷ results) wanted i && test (dec pid2 q)))
        go zero q = ground (arith, contains-insert_elem dec pid2 q s)
        go (suc i) q = m.marks i q

    mark_results-IsMarked :
        (E : Type 0) (pid2 : PolicyId) (wanted : T) (results : List T) (sets : List (List PolicyId))
        → length sets ≡ length results
        → Ensures {E = E}
            (IsMarked results wanted pid2 sets)
            (mark_results dec eq pid2 wanted results sets)
    unfolding mark_results
    mark_results-IsMarked E pid2 wanted [] sets h = record {
      same_length = refl;
      marks = λ i q. ground arith;
    }
    mark_results-IsMarked E pid2 wanted (result ∷ results) [] h = absurd (omega arith)
    mark_results-IsMarked E pid2 wanted (result ∷ results) (s ∷ sets) h =
        Ensures-bind (IsMarked results wanted pid2 sets) _
          (mark_results dec eq pid2 wanted results sets) _
          (mark_results-IsMarked E pid2 wanted results sets (omega arith))
          (λ sets' _ m. IsMarked-cons results wanted pid2 result s sets sets' m)

    -- The map after an update: as many sets for each policy, and one more mark at each place where
    -- the result is the one looked for.
    pub record IsUpdated (results : List T) (wanted : T) (pid1 pid2 : PolicyId)
        (f f' : FindingsMap PolicyId) : Type 0 where
      pub still_sized : IsSized (length results) f'
      pub reports :
          (p : PolicyId) (i : ℕ) (q : PolicyId)
          → reported f' p i q ≡ (
              reported f p i q
              || (test (dec pid1 p) && (hit results wanted i && test (dec pid2 q))))

    -- The update of an entry that is there, in a map that reports what `f` does.
    update_ready :
        (E : Type 0) (pid1 pid2 : PolicyId) (results : List T) (f : FindingsMap PolicyId)
        (wanted : T) (ready : FindingsMap PolicyId) (sets : List (List PolicyId))
        → IsSized (length results) ready
        → lookup dec pid1 ready ≡ some sets
        → ((p : PolicyId) (i : ℕ) (q : PolicyId) → reported ready p i q ≡ reported f p i q)
        → Ensures {E = E} (IsUpdated results wanted pid1 pid2 f) (
            mark_results dec eq pid2 wanted results sets >>= λ sets'.
            ok (insert dec pid1 sets' ready))
    unfolding reported
    update_ready E pid1 pid2 results f wanted ready sets z e same =
        Ensures-bind (IsMarked results wanted pid2 sets) _
          (mark_results dec eq pid2 wanted results sets) _
          (mark_results-IsMarked E pid2 wanted results sets (lookup-All dec _ pid1 ready z.sized e))
          (λ sets' _ m. record {
            still_sized = record {
              sized =
                  insert-All dec _ pid1 sets' ready
                    (m.same_length ∙ lookup-All dec _ pid1 ready z.sized e) z.sized;
              distinct = insert-Distinct dec pid1 sets' ready z.distinct;
            };
            reports = λ p i q.
                ground (arith, same p i q, lookup-insert dec pid1 p sets' ready, m.marks i q);
          })

    -- In a map with one set for each result under every key, and no key twice, `update_findings`
    -- does not panic and keeps the map so; it reports `pid2` for `pid1` at the places where the
    -- result is the one looked for, keeps all that was reported before, and reports nothing else.
    pub update_findings-IsUpdated :
        (E : Type 0) (pid1 pid2 : PolicyId) (results : List T) (f : FindingsMap PolicyId)
        (wanted : T)
        → IsSized (length results) f
        → Ensures {E = E}
            (IsUpdated results wanted pid1 pid2 f)
            (update_findings dec eq pid1 pid2 results f wanted)
    unfolding update_findings reported
    update_findings-IsUpdated E pid1 pid2 results f wanted z =
        elim (Option-cases (lookup dec pid1 f)) [
          | inl e ↦
              let fresh = insert dec pid1 (replicate (length results) []) f in
              let found : lookup dec pid1 fresh ≡ some (replicate (length results) []) =
                ground (arith, lookup-insert dec pid1 pid1 (replicate (length results) []) f) in
              rw (e, found)
                (update_ready E pid1 pid2 results f wanted fresh (replicate (length results) [])
                  (record {
                    sized =
                        insert-All dec _ pid1 _ f (length-replicate (length results) []) z.sized;
                    distinct = insert-Distinct dec pid1 _ f z.distinct;
                  })
                  found
                  (λ p i q. ground (
                    arith,
                    lookup-insert dec pid1 p (replicate (length results) []) f,
                    marked-replicate (length results) i q,
                  )))
          | inr (sets, e) ↦
              rw (e, e) (update_ready E pid1 pid2 results f wanted f sets z e (λ p i q. refl))
        ]

    -- The rule for what follows an update.
    pub Ensures-update :
        {E B : Type 0} (Q : B → Type 0) (pid1 pid2 : PolicyId) (results : List T)
        (f : FindingsMap PolicyId) (wanted : T) (next : FindingsMap PolicyId → Exec E B)
        → IsSized (length results) f
        → ((f' : FindingsMap PolicyId)
            → IsUpdated results wanted pid1 pid2 f f'
            → Ensures Q (next f'))
        → Ensures Q (update_findings dec eq pid1 pid2 results f wanted >>= next)
    Ensures-update {E} Q pid1 pid2 results f wanted next z k =
        Ensures-bind (IsUpdated results wanted pid1 pid2 f) Q
          (update_findings dec eq pid1 pid2 results f wanted) next
          (update_findings-IsUpdated E pid1 pid2 results f wanted z) (λ f' _ u. k f' u)
