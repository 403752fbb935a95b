-- ===== src/Cli/Checks/Reports.antt =====
-- What the commands report.
use Prim.Native.String.{len}
use cedar_spec.Base.{
  ◌≤◌, ◌≡◌, refl, sym, subst, ap, ◌↔◌, ◌⊎◌, inl, inr, Bool, true, false, List, [], ◌∷◌, map, ok,
  attempt, attempt-eq, for_each, for_each-Zip, Zip, Ensures, Ensures-bind, All, arith, Bool-cases,
}
use cedar_spec.Base.Returns.{Returns, Returns-ok, Returns-map, Returns-for_each}
use cedar_spec.Cedar.{Cedar}
use cedar_spec.Cli.Err.{lean_ffi_error}
use cedar_spec.Cli.RequestEnvs.{OpenRequestEnv, to_request_envs}
use cedar_spec.Cli.Checks.{
  CheckCalls, all_true, all_false, Headline, headline, zip, SigWidths, CheckReport, widen,
  widen_all, from_req_envs, report_results, run_checks,
}

abbrev AllAre : Bool → List Bool → Type 0
AllAre b rs = All (λ r. r ≡ b) rs

-- The headline says whether all results are positive, or else all negative, or else neither.
abbrev pub IsHeadline : Headline → List Bool → Type 0
IsHeadline Headline.for_all rs = AllAre true rs
IsHeadline Headline.for_none rs = (¬ AllAre true rs) × AllAre false rs
IsHeadline Headline.for_some rs = (¬ AllAre true rs) × (¬ AllAre false rs)

all_true_iff : (rs : List Bool) → (all_true rs ≡ true) ↔ AllAre true rs
all_true_iff [] = (λ h. tt, λ a. refl)
all_true_iff (true ∷ rs) = let ih = all_true_iff rs in (λ h. (refl, ih.0 h), λ a. ih.1 a.1)
all_true_iff (false ∷ rs) = (λ h. absurd (cc h), λ a. absurd (cc (a.0)))

all_false_iff : (rs : List Bool) → (all_false rs ≡ true) ↔ AllAre false rs
all_false_iff [] = (λ h. tt, λ a. refl)
all_false_iff (true ∷ rs) = (λ h. absurd (cc h), λ a. absurd (cc (a.0)))
all_false_iff (false ∷ rs) = let ih = all_false_iff rs in (λ h. (refl, ih.0 h), λ a. ih.1 a.1)

headline-IsHeadline : (rs : List Bool) → IsHeadline (headline rs) rs
unfolding headline
headline-IsHeadline rs = elim (Bool-cases (all_true rs)) [
  | inl t ↦ rw t ((all_true_iff rs).0 t)
  | inr f ↦ elim (Bool-cases (all_false rs)) [
    | inl t ↦ rw (f, t) (λ a. cc (f, (all_true_iff rs).1 a), (all_false_iff rs).0 t)
    | inr g ↦ rw (f, g) (λ a. cc (f, (all_true_iff rs).1 a), λ a. cc (g, (all_false_iff rs).1 a))
  ]
]

module _ {A B : Type 0} (P : A → B → Type 0) where
  zip-answers : (xs : List A) (ys : List B) → Zip P xs ys → map (λ row. row.1) (zip xs ys) ≡ ys
  zip-answers [] [] z = refl
  zip-answers [] (y ∷ ys) z = absurd z
  zip-answers (x ∷ xs) [] z = absurd z
  zip-answers (x ∷ xs) (y ∷ ys) z = ap (λ t. y ∷ t) (zip-answers xs ys z.1)

  zip-rows :
      (xs : List A) (ys : List B)
      → Zip P xs ys
      → Zip (λ x row. (row.0 ≡ x) × P x row.1) xs (zip xs ys)
  zip-rows [] [] z = tt
  zip-rows [] (y ∷ ys) z = absurd z
  zip-rows (x ∷ xs) [] z = absurd z
  zip-rows (x ∷ xs) (y ∷ ys) z = ((refl, z.0), zip-rows xs ys z.1)

attempt_iff :
    {E F A : Type 0} (wrap : F → E) (m : F ⊎ A) → Returns (attempt wrap m) ↔ ((a : A) × (m ≡ inr a))
attempt_iff wrap (inl e) = (λ r. absurd (cc (r.1)), λ r. absurd (cc (r.1)))
attempt_iff wrap (inr a) = (λ r. (a, refl), λ r. Returns-ok a)

module _ (c : Cedar) where
  -- The names of a request environment fit the columns.
  abbrev pub Fits : SigWidths → c.RequestEnv → Type 0
  Fits w env =
      (len (c.basename (c.principal env)) ≤ w.principal_width)
      × (len (c.escaped (c.entity_id (c.action env))) ≤ w.action_width)
      × (len (c.basename (c.resource env)) ≤ w.resource_width)

  abbrev Wider : SigWidths → SigWidths → Type 0
  Wider v w =
      (v.principal_width ≤ w.principal_width)
      × (v.action_width ≤ w.action_width)
      × (v.resource_width ≤ w.resource_width)

  widen_all-Wider : (w : SigWidths) (envs : List c.RequestEnv) → Wider w (widen_all c w envs)
  unfolding widen_all
  widen_all-Wider w [] = omega arith
  widen_all-Wider w (env ∷ envs) = omega (arith, widen_all-Wider (widen c w env) envs)

  widen_all-Fits : (w : SigWidths) (envs : List c.RequestEnv) → All (Fits (widen_all c w envs)) envs
  unfolding widen_all
  widen_all-Fits w [] = tt
  widen_all-Fits w (env ∷ envs) =
      (omega (arith, widen_all-Wider (widen c w env) envs), widen_all-Fits (widen c w env) envs)

  module _ (calls : CheckCalls c) (schema : c.Schema) (open_env : OpenRequestEnv c) where
    -- A row for each request environment with the answer of the solver.
    pub record IsReport (es : List c.RequestEnv) (answers : c.RequestEnv → c.FfiError ⊎ Bool)
        (report : CheckReport c) : Type 0 where
      pub rows : Zip (λ env row. (row.0 ≡ env) × (answers env ≡ inr row.1)) es report.rows
      pub headline : IsHeadline report.headline (map (λ row. row.1) report.rows)
      pub widths : All (Fits report.widths) es

    -- Where the request environments are es and the schema is loaded: the commands return a report exactly where
    -- the solver answers for each of es, and then it has a row for each of them with that answer, the headline
    -- that the answers call for, and columns that all names fit; they do not panic.
    pub run_checks-IsReport :
        (es : List c.RequestEnv) (lean_schema : calls.LeanSchema)
        → (call : calls.LeanSchema → c.RequestEnv → c.FfiError ⊎ Bool)
        → to_request_envs c open_env schema ≡ ok es
        → calls.load_lean_schema_object schema ≡ inr lean_schema
        → (Returns (run_checks c calls schema open_env call)
            ↔ All (λ env. (b : Bool) × (call lean_schema env ≡ inr b)) es)
          × Ensures (IsReport es (call lean_schema)) (run_checks c calls schema open_env call)
    unfolding run_checks report_results from_req_envs
    run_checks-IsReport es s call e l =
        rw (e, l)
          (
            Returns-map (for_each (λ env. attempt lean_ffi_error (call s env)) es) _
                (Returns-for_each _ _ (λ env. attempt_iff lean_ffi_error (call s env)) es)
                (λ rs. Returns-ok _),
            Ensures-bind (Zip (λ env b. call s env ≡ inr b) es) (IsReport es (call s))
                (for_each (λ env. attempt lean_ffi_error (call s env)) es) _
                (for_each-Zip _ _ es (λ env. attempt-eq lean_ffi_error (call s env)))
                (λ rs _ z. record {
                  rows = zip-rows _ es rs z;
                  headline =
                      subst (IsHeadline (headline rs)) (sym (zip-answers _ es rs z))
                        (headline-IsHeadline rs);
                  widths = widen_all-Fits _ es;
                }),
          )
