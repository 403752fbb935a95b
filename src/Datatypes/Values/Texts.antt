-- ===== src/Datatypes/Values/Texts.antt =====
-- Readers of the texts that extension values are made of.
use Prim.Native.String.{String}
use Prim.Native.Nat.{◌%◌}
use cedar_spec.Base.{
  ℕ, zero, suc, ◌+◌, ◌*◌, ◌/◌, ◌≡◌, refl, ap, Bool, true, false, ◌&&◌, List, [], ◌∷◌, Exec, ok, err,
  ◌>>=◌, ◌==◌, if◌then◌else◌, length, arith,
}
use cedar_spec.Datatypes.Crate.{ℤ}
use cedar_spec.Datatypes.Ffi.{Decimal}
use cedar_spec.Datatypes.Numerals.{codes, show, show_padded}
use cedar_spec.Datatypes.Numerals.Reading.{
  read_number, read_number-show, read_field, read_field-show, read_last, read_last-show,
  read_last-show_padded, read_sign, read_sign-show, length-show_padded,
}
use cedar_spec.Datatypes.Values.{signed, abs, decimal_text, millis_text, v4_text}

abbrev to_int : Bool → ℕ → ℤ
to_int false n = ℤ.pos n
to_int true zero = ℤ.pos 0
to_int true (suc n) = ℤ.negsuc n

-- A sign, a number, a point, and a number of four digits: ten-thousandths.
pub read_decimal : List ℕ → Exec String ℤ
read_decimal text =
    let negative = (read_sign text).0 in
    do
      left ← read_field b'.' (read_sign text).1
      right ← read_last left.1
      if length left.1 == 4 then ok (to_int negative (left.0 * 10000 + right)) else err "digits"

abbrev is_ms : List ℕ → Bool
is_ms (c ∷ d ∷ []) = (c == b'm') && (d == b's')
is_ms _ = false

-- A sign, a number and the unit of milliseconds.
pub read_millis : List ℕ → Exec String ℤ
read_millis text =
    let n = read_number 0 (read_sign text).1 in
    if is_ms n.1 then ok (to_int (read_sign text).0 n.0) else err "unit"

-- Four numbers, and a prefix.
pub read_v4 : List ℕ → Exec String (ℕ × ℕ)
read_v4 text = do
  a0 ← read_field b'.' text
  a1 ← read_field b'.' a0.1
  a2 ← read_field b'.' a1.1
  a3 ← read_field b'/' a2.1
  prefix ← read_last a3.1
  ok (a0.0 * 16777216 + a1.0 * 65536 + a2.0 * 256 + a3.0, prefix)

abbrev is_negative : ℤ → Bool
is_negative (ℤ.pos n) = false
is_negative (ℤ.negsuc n) = true

read_sign-signed :
    (z : ℤ) (n : ℕ) (rest : List ℕ)
    → read_sign (signed z (show n rest)) ≡ (is_negative z, show n rest)
read_sign-signed (ℤ.pos m) n rest = read_sign-show n rest
read_sign-signed (ℤ.negsuc m) n rest = refl

to_int-abs : (z : ℤ) (n : ℕ) → n ≡ abs z → to_int (is_negative z) n ≡ z
to_int-abs (ℤ.pos m) n e = cc
to_int-abs (ℤ.negsuc m) n e = rw e refl

read_decimal-text : (d : Decimal) → read_decimal (decimal_text d) ≡ ok d.val
unfolding read_decimal decimal_text
read_decimal-text d =
    let n = abs d.val in
    rw
      (
        read_sign-signed d.val (n / 10000) (b'.' ∷ show_padded (n % 10000)),
        read_field-show b'.' (n / 10000) (show_padded (n % 10000)) refl,
        read_last-show_padded (n % 10000),
        length-show_padded (n % 10000) (omega arith),
      )
      (ap ok (to_int-abs d.val (n / 10000 * 10000 + n % 10000) (omega arith)))

read_millis-text : (z : ℤ) → read_millis (millis_text z) ≡ ok z
unfolding read_millis millis_text
read_millis-text z =
    rw (read_sign-signed z (abs z) (codes "ms"), read_number-show (abs z) (codes "ms") refl)
      (ap ok (to_int-abs z (abs z) refl))

read_v4-text : (addr prefix : ℕ) → read_v4 (v4_text addr prefix) ≡ ok (addr % 4294967296, prefix)
unfolding read_v4 v4_text
read_v4-text addr prefix =
    rw
      (
        read_field-show b'.' ((addr / 16777216) % 256) _ refl,
        read_field-show b'.' ((addr / 65536) % 256) _ refl,
        read_field-show b'.' ((addr / 256) % 256) _ refl,
        read_field-show b'/' (addr % 256) _ refl,
        read_last-show prefix,
      )
      (ap (λ a. ok (a, prefix)) (omega arith))

-- The text that a decimal is made of is read as the decimal, that of a number of milliseconds as the number,
-- and that of an address of version 4 and a prefix as the lowest 32 bits of the address, and the prefix.
pub read-decimal_text :
    (d : Decimal) (z : ℤ) (addr prefix : ℕ)
    → (read_decimal (decimal_text d) ≡ ok d.val)
      × (read_millis (millis_text z) ≡ ok z)
      × (read_v4 (v4_text addr prefix) ≡ ok (addr % 4294967296, prefix))
read-decimal_text d z addr prefix =
    (read_decimal-text d, read_millis-text z, read_v4-text addr prefix)
