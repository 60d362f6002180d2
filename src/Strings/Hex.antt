-- ===== src/Strings/Hex.antt =====
-- Bytes written as hexadecimal text are read back.
use pkt.Common.{
  ℕ, suc, ◌+◌, ◌*◌, ◌/◌, ◌%◌, ◌<◌, ◌≡◌, refl, ap, ap₂, ◌∙◌, false, ◌||◌, some, List, [], ◌∷◌, ◌++◌,
  append_assoc, All, ◌==◌, length, replicate, arith,
}
use pkt.Common.Bytes.{overwrite}
use pkt.Strings.{
  hex_digit, digit_value, is_space, strtol_byte, hex_string, hex2string, from_hex_loop,
  string_from_hex,
}

digit_value-hex_digit : (n : ℕ) → n < 16 → digit_value (hex_digit n) ≡ some n
unfolding digit_value hex_digit
digit_value-hex_digit n h = ground arith

is_space-hex_digit : (n : ℕ) → n < 16 → (is_space (hex_digit n) || (hex_digit n == 43)) ≡ false
unfolding is_space hex_digit
is_space-hex_digit n h = ground arith

no_sign : (n : ℕ) → n < 16 → (hex_digit n == 45) ≡ false
unfolding hex_digit
no_sign n h = ground arith

strtol_byte-hex_digit :
    (h l : ℕ) → h < 16 → l < 16 → strtol_byte (hex_digit h) (hex_digit l) ≡ 16 * h + l
unfolding strtol_byte
strtol_byte-hex_digit h l hh hl =
    rw
      (
        is_space-hex_digit h hh,
        no_sign h hh,
        digit_value-hex_digit h hh,
        digit_value-hex_digit l hl,
      )
      refl

hex2string_lem : (bytes : List ℕ) → All (λ x. x < 256) bytes → hex2string (hex_string bytes) ≡ bytes
unfolding hex2string hex_string
hex2string_lem [] small = refl
hex2string_lem (x ∷ bytes) (small, rest) =
    ap₂ (λ (y : ℕ) (t : List ℕ). y ∷ t)
      (strtol_byte-hex_digit (x / 16) (x % 16) (omega arith) (omega arith) ∙ omega arith)
      (hex2string_lem bytes rest)

overwrite_next :
    (front zeroes : List ℕ) (x : ℕ)
    → overwrite (front ++ 0 ∷ zeroes) (length front) (x ∷ []) ≡ (front ++ x ∷ []) ++ zeroes
overwrite_next [] [] x = refl
overwrite_next [] (z ∷ zeroes) x = refl
overwrite_next (y ∷ front) zeroes x = ap (λ (t : List ℕ). y ∷ t) (overwrite_next front zeroes x)

length-snoc : (front : List ℕ) (x : ℕ) → length front + 1 ≡ length (front ++ x ∷ [])
length-snoc [] x = refl
length-snoc (y ∷ front) x = omega (arith, length-snoc front x)

from_hex_loop_lem :
    (hex front : List ℕ)
    → from_hex_loop (front ++ replicate (length hex / 2) 0) (length front) hex
      ≡ front ++ hex2string hex
unfolding from_hex_loop hex2string
from_hex_loop_lem [] front = refl
from_hex_loop_lem (c0 ∷ []) front = refl
from_hex_loop_lem (c0 ∷ c1 ∷ hex) front =
    let x = strtol_byte c0 c1 in
    let half : suc (suc (length hex)) / 2 ≡ suc (length hex / 2) = omega arith in
    let next = overwrite_next front (replicate (length hex / 2) 0) x in
    rw (half, next, length-snoc front x)
      (from_hex_loop_lem hex (front ++ x ∷ []) ∙ append_assoc front (x ∷ []) (hex2string hex))

-- `stringFromHex` and `hex2string` give the same bytes for every text, whatever characters it has.
pub string_from_hex-eq-hex2string : (hex : List ℕ) → string_from_hex hex ≡ hex2string hex
unfolding string_from_hex
string_from_hex-eq-hex2string hex = from_hex_loop_lem hex []

-- The hexadecimal text of any bytes is read back as those bytes, by `hex2string` and by
-- `stringFromHex`.
pub hex2string-hex_string :
    (bytes : List ℕ)
    → All (λ x. x < 256) bytes
    → (hex2string (hex_string bytes) ≡ bytes) × (string_from_hex (hex_string bytes) ≡ bytes)
hex2string-hex_string bytes small =
    let read = hex2string_lem bytes small in
    (read, string_from_hex-eq-hex2string (hex_string bytes) ∙ read)
