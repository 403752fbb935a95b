-- ===== src/Analysis/Update.antt =====
-- cedar-lean-cli/src/analysis.rs: the maps of findings and `update_findings`.
use cedar_spec.Base.{
  List, [], ◌∷◌, Exec, ok, panic, ◌>>=◌, expect, length, replicate, if◌then◌else◌, test,
}
use cedar_spec.Base.Assoc.{insert_elem, lookup, insert}
use cedar_spec.Cli.RequestEnvs.{is_some}

-- For each policy, one set of policies for each request environment.
abbrev pub FindingsMap : Type 0 → Type 0
FindingsMap PolicyId = List (PolicyId × List (List PolicyId))

module _ {PolicyId T : Type 0} (dec : Discrete PolicyId) (eq : Discrete T) where
  -- The loop over `results`: an index past the end of the findings panics where it is used.
  unfoldable pub mark_results :
      {E : Type 0} → PolicyId → T → List T → List (List PolicyId) → Exec E (List (List PolicyId))
  mark_results pid2 result_filter [] findings1 = ok findings1
  mark_results pid2 result_filter (result ∷ results) [] =
      let rest = mark_results pid2 result_filter results [] in
      if test (eq result result_filter) then panic else rest
  mark_results pid2 result_filter (result ∷ results) (found ∷ findings1) = do
    rest ← mark_results pid2 result_filter results findings1
    ok ((if test (eq result result_filter) then insert_elem dec pid2 found else found) ∷ rest)

  unfoldable pub update_findings :
      {E : Type 0}
      → PolicyId
      → PolicyId
      → List T
      → FindingsMap PolicyId
      → T
      → Exec E (FindingsMap PolicyId)
  update_findings pid1 pid2 results findings result_filter = do
    let ready =
        if is_some (lookup dec pid1 findings)
        then findings
        else insert dec pid1 (replicate (length results) []) findings
    findings1 ← expect (lookup dec pid1 ready)
    marked ← mark_results pid2 result_filter results findings1
    ok (insert dec pid1 marked ready)
