-- ===== src/Datatypes/Numerals.antt =====
-- Decimal numerals, as `Display` and `FromStr` of integers write and read them. A text is the list of its
-- code points.
pub mod Reading
use Prim.Native.Char.{code}
use Prim.Native.String.{String}
use Prim.Native.Nat.{◌%◌}
use cedar_spec.Base.{
  ℕ, zero, suc, ◌+◌, ◌-◌, ◌*◌, ◌/◌, ◌≤◌, ◌<◌, ◌≡◌, refl, Bool, ◌&&◌, List, [], ◌∷◌, Option, none,
  some, ltb, leb, ◌==◌, if◌then◌else◌, length,
}

-- The code points of a text.
abbrev pub codes : String → List ℕ
codes String.[] = []
codes (String.◌∷◌ c s) = code c ∷ codes s

abbrev pub is_digit : ℕ → Bool
is_digit c = leb b'0' c && leb c b'9'

-- The digits of a number, before a text. The fuel bounds the digits.
unfoldable pub show_onto : ℕ → ℕ → List ℕ → List ℕ
show_onto zero n rest = rest
show_onto (suc fuel) n rest =
    let last = (b'0' + n % 10) ∷ rest in
    let more = show_onto fuel (n / 10) last in if ltb n 10 then last else more

-- `format!("{n}")`, before a text.
unfoldable pub show : ℕ → List ℕ → List ℕ
show n rest = show_onto (suc n) n rest

abbrev pub zeros : ℕ → List ℕ → List ℕ
zeros zero rest = rest
zeros (suc k) rest = b'0' ∷ zeros k rest

-- `format!("{n:04}")`
unfoldable pub show_padded : ℕ → List ℕ
show_padded n = zeros (4 - length (show n [])) (show n [])

-- The digits of a text as a number, after those read so far.
unfoldable pub parse_digits : ℕ → List ℕ → Option ℕ
parse_digits acc [] = some acc
parse_digits acc (c ∷ cs) =
    let more = parse_digits (acc * 10 + (c - b'0')) cs in if is_digit c then more else none

abbrev pub below : ℕ → Option ℕ → Option ℕ
below bound none = none
below bound (some n) = if ltb n bound then some n else none

unfoldable pub unsigned : List ℕ → Option ℕ
unsigned [] = none
unsigned (c ∷ cs) = parse_digits 0 (c ∷ cs)

-- `str::parse` at an unsigned type below a bound; a plus sign may come first.
unfoldable pub parse_uint : ℕ → List ℕ → Option ℕ
parse_uint bound [] = none
parse_uint bound (c ∷ cs) =
    let plain = below bound (unsigned (c ∷ cs)) in
    let signed = below bound (unsigned cs) in if c == b'+' then signed else plain
