-- ===== src/Tests/Analyses.antt =====
-- The theorems on a whole run of the policy analysis, at the sample policies.
use cedar_spec.Base.{List, [], ◌∷◌}
use cedar_spec.Tests.Samples.{SamplePolicy, narrow, narrow_again, wide, block}

abbrev four_policies : List SamplePolicy
four_policies = narrow ∷ narrow_again ∷ wide ∷ block ∷ []
