-- ===== src/Strings.antt =====
-- Strings of utilstring.cpp: trim, split, and bytes as hexadecimal text. A string is the list of its
-- bytes. (isNumber and replace are in Rows.antt.)
pub mod Hex
pub mod Parts
pub mod Trim
mod Runs
use pkt.Common.{
  ℕ, zero, suc, ◌+◌, ◌-◌, ◌*◌, ◌/◌, ◌%◌, Bool, true, false, ◌&&◌, ◌||◌, Option, none, some, List,
  [], ◌∷◌, ◌++◌, ◌==◌, leb, if◌then◌else◌, length, replicate,
}
use mathlib.Core.List.{reverse}
use pkt.Common.Bytes.{overwrite}

-- isspace in the C locale
pub is_space : ℕ → Bool
is_space c = (leb 9 c && leb c 13) || (c == 32)

-- ltrim: what std::find_if finds, on to the end
unfoldable pub ltrim : List ℕ → List ℕ
ltrim [] = []
ltrim (c ∷ s) = let rest = ltrim s in if is_space c then rest else c ∷ s

unfoldable pub rtrim : List ℕ → List ℕ
rtrim s = reverse (ltrim (reverse s))

unfoldable pub trim : List ℕ → List ℕ
unfolding rtrim
trim s = ltrim (rtrim s)

-- A character in front of the first element; there is none yet at the end of the string.
abbrev pub put_char : ℕ → List (List ℕ) → List (List ℕ)
put_char c [] = (c ∷ []) ∷ []
put_char c (item ∷ items) = (c ∷ item) ∷ items

-- split: std::getline as long as there are characters. Behind a delimiter at the end it finds no
-- further element.
unfoldable pub split : ℕ → List ℕ → List (List ℕ)
split delim [] = []
split delim (c ∷ s) =
    let items = split delim s in if c == delim then [] ∷ items else put_char c items

-- one digit of std::hex
pub hex_digit : ℕ → ℕ
hex_digit n = if leb n 9 then n + 48 else n + 87

-- hexString, with bufferPrintHex and HexCharStruct
unfoldable pub hex_string : List ℕ → List ℕ
unfolding hex_digit
hex_string [] = []
hex_string (x ∷ bytes) = hex_digit (x / 16) ∷ hex_digit (x % 16) ∷ hex_string bytes

-- The value of a digit for strtol with base 16.
pub digit_value : ℕ → Option ℕ
digit_value c =
    if leb 48 c && leb c 57
    then some (c - 48)
    else if leb 65 c && leb c 70
    then some (c - 55)
    else if leb 97 c && leb c 102
    then some (c - 87)
    else none

abbrev pub value_or_zero : Option ℕ → ℕ
value_or_zero none = 0
value_or_zero (some v) = v

abbrev pub two_digits : Option ℕ → Option ℕ → ℕ
two_digits none low = 0
two_digits (some h) none = h
two_digits (some h) (some l) = 16 * h + l

-- (unsigned char) strtol(c, NULL, 16) of two characters: the first can be a space or a sign. "0x" is 0.
unfoldable pub strtol_byte : ℕ → ℕ → ℕ
unfolding digit_value is_space
strtol_byte c0 c1 =
    if is_space c0 || (c0 == 43)
    then value_or_zero (digit_value c1)
    else if c0 == 45
    then (256 - value_or_zero (digit_value c1)) % 256
    else two_digits (digit_value c0) (digit_value c1)

-- hex2string, with readHex
unfoldable pub hex2string : List ℕ → List ℕ
unfolding strtol_byte
hex2string [] = []
hex2string (c0 ∷ []) = []
hex2string (c0 ∷ c1 ∷ hex) = strtol_byte c0 c1 ∷ hex2string hex

-- The loop of stringFromHex from `i` on.
unfoldable pub from_hex_loop : List ℕ → ℕ → List ℕ → List ℕ
unfolding strtol_byte
from_hex_loop r i [] = r
from_hex_loop r i (c0 ∷ []) = r
from_hex_loop r i (c0 ∷ c1 ∷ hex) =
    from_hex_loop (overwrite r i (strtol_byte c0 c1 ∷ [])) (i + 1) hex

unfoldable pub string_from_hex : List ℕ → List ℕ
unfolding from_hex_loop
string_from_hex hex = from_hex_loop (replicate (length hex / 2) 0) 0 hex
