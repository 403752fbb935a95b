-- ===== src/Datatypes/Numerals/Reading.antt =====
-- A reader of decimal numerals, and what it reads of those that are written.
use Prim.Native.String.{String}
use Prim.Native.Nat.{◌%◌}
use cedar_spec.Base.{
  ℕ, zero, suc, ◌+◌, ◌-◌, ◌*◌, ◌/◌, ◌≤◌, ◌<◌, ◌≡◌, refl, ◌∙◌, ap, List, [], ◌∷◌, ltb, ◌==◌,
  if◌then◌else◌, length, arith, true, false, Bool, Bool-cases, inl, inr, subst, sym, Exec, ok, err,
}
use cedar_spec.Datatypes.Numerals.{is_digit, show_onto, show, zeros, show_padded}

-- The number at the start of a text, after the digits read so far, and what follows it.
pub read_number : ℕ → List ℕ → ℕ × List ℕ
read_number acc [] = (acc, [])
read_number acc (c ∷ cs) =
    let more = read_number (acc * 10 + (c - b'0')) cs in if is_digit c then more else (acc, c ∷ cs)

read_number-digit :
    (acc d : ℕ) (cs : List ℕ)
    → d < 10
    → read_number acc ((b'0' + d) ∷ cs) ≡ read_number (acc * 10 + d) cs
unfolding read_number
read_number-digit acc d cs h = ground arith

last_digit :
    (n : ℕ) (rest : List ℕ) → read_number (n / 10) ((b'0' + n % 10) ∷ rest) ≡ read_number n rest
last_digit n rest =
    read_number-digit (n / 10) (n % 10) rest (omega arith)
    ∙ ap (λ m. read_number m rest) (omega arith)

only_digit :
    (n : ℕ) (rest : List ℕ) → n < 10 → read_number 0 ((b'0' + n % 10) ∷ rest) ≡ read_number n rest
only_digit n rest h =
    read_number-digit 0 (n % 10) rest (omega arith) ∙ ap (λ m. read_number m rest) (omega arith)

by_size : (P : Bool → Type 0) (n : ℕ) → (n < 10 → P true) → (10 ≤ n → P false) → P (ltb n 10)
by_size P n small large = elim (Bool-cases (ltb n 10)) [
  | inl e ↦ subst P (sym e) (small (ground arith))
  | inr e ↦ subst P (sym e) (large (ground arith))
]

read_number-show_onto :
    (fuel n : ℕ) (rest : List ℕ)
    → n < fuel
    → read_number 0 (show_onto fuel n rest) ≡ read_number n rest
unfolding show_onto
read_number-show_onto zero n rest h = absurd (omega arith)
read_number-show_onto (suc fuel) n rest h =
    by_size
      (λ b.
        read_number 0
          (if b then (b'0' + n % 10) ∷ rest else show_onto fuel (n / 10) ((b'0' + n % 10) ∷ rest))
        ≡ read_number n rest)
      n (λ small. only_digit n rest small)
      (λ large. read_number-show_onto fuel (n / 10) _ (omega arith) ∙ last_digit n rest)

-- A text that does not start with a digit.
abbrev pub Ends : List ℕ → Type 0
Ends [] = Unit
Ends (c ∷ cs) = is_digit c ≡ false

read_number-Ends : (n : ℕ) (rest : List ℕ) → Ends rest → read_number n rest ≡ (n, rest)
unfolding read_number
read_number-Ends n [] e = refl
read_number-Ends n (c ∷ cs) e = rw e refl

pub read_number-show : (n : ℕ) (rest : List ℕ) → Ends rest → read_number 0 (show n rest) ≡ (n, rest)
unfolding show
read_number-show n rest e =
    read_number-show_onto (suc n) n rest (omega arith) ∙ read_number-Ends n rest e

-- A number and the character after it.
abbrev pub after_field : ℕ → ℕ × List ℕ → Exec String (ℕ × List ℕ)
after_field sep (n, []) = err "end"
after_field sep (n, c ∷ cs) = if c == sep then ok (n, cs) else err "separator"

pub read_field : ℕ → List ℕ → Exec String (ℕ × List ℕ)
read_field sep text = after_field sep (read_number 0 text)

pub read_field-show :
    (sep n : ℕ) (rest : List ℕ)
    → is_digit sep ≡ false
    → read_field sep (show n (sep ∷ rest)) ≡ ok (n, rest)
unfolding read_field
read_field-show sep n rest e = rw (read_number-show n (sep ∷ rest) e) ground arith

-- A number that ends the text.
abbrev pub at_end : ℕ × List ℕ → Exec String ℕ
at_end (n, []) = ok n
at_end (n, c ∷ cs) = err "more"

pub read_last : List ℕ → Exec String ℕ
read_last text = at_end (read_number 0 text)

pub read_last-show : (n : ℕ) → read_last (show n []) ≡ ok n
unfolding read_last
read_last-show n = rw (read_number-show n [] tt) refl

read_number-zeros : (k : ℕ) (text : List ℕ) → read_number 0 (zeros k text) ≡ read_number 0 text
unfolding read_number
read_number-zeros zero text = refl
read_number-zeros (suc k) text = read_number-zeros k text

pub read_last-show_padded : (n : ℕ) → read_last (show_padded n) ≡ ok n
unfolding read_last show_padded
read_last-show_padded n =
    rw (read_number-zeros (4 - length (show n [])) (show n []), read_number-show n [] tt) refl

-- The sign of a text, and the text without it.
abbrev pub read_sign : List ℕ → Bool × List ℕ
read_sign [] = (false, [])
read_sign (c ∷ cs) = if c == b'-' then (true, cs) else (false, c ∷ cs)

digit-read_sign :
    (d : ℕ) (rest : List ℕ) → read_sign ((b'0' + d) ∷ rest) ≡ (false, (b'0' + d) ∷ rest)
digit-read_sign d rest = ground arith

read_sign-show_onto :
    (fuel n : ℕ) (rest : List ℕ)
    → read_sign rest ≡ (false, rest)
    → read_sign (show_onto fuel n rest) ≡ (false, show_onto fuel n rest)
unfolding show_onto
read_sign-show_onto zero n rest e = e
read_sign-show_onto (suc fuel) n rest e =
    by_size
      (λ b.
        let text =
          if b then (b'0' + n % 10) ∷ rest else show_onto fuel (n / 10) ((b'0' + n % 10) ∷ rest) in
        read_sign text ≡ (false, text))
      n (λ small. digit-read_sign (n % 10) rest)
      (λ large. read_sign-show_onto fuel (n / 10) _ (digit-read_sign (n % 10) rest))

pub read_sign-show : (n : ℕ) (rest : List ℕ) → read_sign (show n rest) ≡ (false, show n rest)
unfolding show show_onto
read_sign-show n rest =
    by_size
      (λ b.
        let text =
          if b then (b'0' + n % 10) ∷ rest else show_onto n (n / 10) ((b'0' + n % 10) ∷ rest) in
        read_sign text ≡ (false, text))
      n (λ small. digit-read_sign (n % 10) rest)
      (λ large. read_sign-show_onto n (n / 10) _ (digit-read_sign (n % 10) rest))

-- Ten to a power.
abbrev ten_to : ℕ → ℕ
ten_to zero = 1
ten_to (suc k) = 10 * ten_to k

length-show_onto :
    (k fuel n : ℕ) (rest : List ℕ)
    → n < ten_to (suc k)
    → length (show_onto fuel n rest) ≤ suc k + length rest
unfolding show_onto
length-show_onto k zero n rest h = omega arith
length-show_onto zero (suc fuel) n rest h =
    by_size
      (λ b.
        length
          (if b then (b'0' + n % 10) ∷ rest else show_onto fuel (n / 10) ((b'0' + n % 10) ∷ rest))
        ≤ 1 + length rest)
      n (λ small. omega arith) (λ large. absurd (omega arith))
length-show_onto (suc k) (suc fuel) n rest h =
    by_size
      (λ b.
        length
          (if b then (b'0' + n % 10) ∷ rest else show_onto fuel (n / 10) ((b'0' + n % 10) ∷ rest))
        ≤ suc (suc k) + length rest)
      n (λ small. omega arith)
      (λ large.
        omega (arith, length-show_onto k fuel (n / 10) ((b'0' + n % 10) ∷ rest) (omega arith)))

length-zeros : (k : ℕ) (text : List ℕ) → length (zeros k text) ≡ k + length text
length-zeros zero text = omega arith
length-zeros (suc k) text = omega (arith, length-zeros k text)

pub length-show_padded : (n : ℕ) → n < 10000 → length (show_padded n) ≡ 4
unfolding show_padded show
length-show_padded n h =
    ground
      (arith, length-zeros (4 - length (show n [])) (show n []), length-show_onto 3 (suc n) n [] h)
