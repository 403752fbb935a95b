-- ===== src/Base/Texts.antt =====
-- Texts as keys.
use Prim.Native.String.{String}
use mathlib.Core.Bool.{Bool-discrete, true}
use mathlib.Core.Logic.{dite}
use text.Mathlib.Text.{◌==◌}
use text.Mathlib.TextEquality.{eq_iff}

unfoldable pub string_discrete : Discrete String
string_discrete s t =
    dite (Bool-discrete (s == t) true) (λ same. yes ((eq_iff s t).0 same))
      (λ differ. no (λ p. differ ((eq_iff s t).1 p)))
