-- ===== src/Strings/Runs.antt =====
-- Tests of the strings, and the theorems at concrete inputs.
use pkt.Common.{ℕ, ◌≡◌, refl, List, [], ◌∷◌, ◌++◌, All, arith}
use pkt.Strings.{
  trim, rtrim, ltrim, is_space, split, hex_string, hex2string, string_from_hex, hex_digit,
  strtol_byte, digit_value,
}
use pkt.Strings.Hex.{hex2string-hex_string}
use pkt.Strings.Parts.{IsOther, joined, last_delim, split_lem}

-- "a,,b,"
abbrev listed : List ℕ
listed = 97 ∷ 44 ∷ 44 ∷ 98 ∷ 44 ∷ []

test_split : split 44 listed ≡ (97 ∷ []) ∷ [] ∷ (98 ∷ []) ∷ []
unfolding split
test_split = refl

-- " ab c\n"
abbrev spaced : List ℕ
spaced = 32 ∷ 97 ∷ 98 ∷ 32 ∷ 99 ∷ 10 ∷ []

test_trim : trim spaced ≡ 97 ∷ 98 ∷ 32 ∷ 99 ∷ []
unfolding trim rtrim ltrim is_space
test_trim = refl

-- "0aFF-1 7xz9" is 0a, ff, -1, a space and a digit, no number, and half a pair.
test_hex2string :
    hex2string (48 ∷ 97 ∷ 70 ∷ 70 ∷ 45 ∷ 49 ∷ 32 ∷ 55 ∷ 120 ∷ 122 ∷ 57 ∷ [])
    ≡ 10 ∷ 255 ∷ 255 ∷ 7 ∷ 0 ∷ []
unfolding hex2string strtol_byte digit_value is_space
test_hex2string = refl

test_hex_string : hex_string (10 ∷ 255 ∷ []) ≡ 48 ∷ 97 ∷ 102 ∷ 102 ∷ []
unfolding hex_string hex_digit
test_hex_string = refl

hex2string-hex_string_example :
    (hex2string (hex_string (0 ∷ 175 ∷ 255 ∷ [])) ≡ 0 ∷ 175 ∷ 255 ∷ [])
    × (string_from_hex (hex_string (0 ∷ 175 ∷ 255 ∷ [])) ≡ 0 ∷ 175 ∷ 255 ∷ [])
hex2string-hex_string_example =
    hex2string-hex_string (0 ∷ 175 ∷ 255 ∷ []) (omega arith, (omega arith, (omega arith, tt)))

split_lem_example :
    All (All (IsOther 44)) (split 44 listed)
    × (joined 44 (split 44 listed) ++ last_delim 44 listed ≡ listed)
split_lem_example = split_lem 44 listed
