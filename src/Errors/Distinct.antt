-- ===== src/Errors/Distinct.antt =====
-- Which error codes have the same description.
use pkt.Common.{ℕ, ◌<◌, ◌≡◌, refl, Bool, true, not, ◌&&◌, ◌||◌, ◌==◌, arith, ◌⊎◌}
use pkt.Common.Table.{table, table-entry}
use text.Mathlib.Text.{◌==◌ as same_text}
use text.Mathlib.TextEquality.{eq_iff}
use pkt.Errors.{get_error_description}

-- The pairs of codes that are described alike: ERRCODE_LMDB_OPEN and ERRCODE_LMDB_CLOSE, and
-- ERRCODE_PACKET_PARSE and ERRCODE_PARSE_PACKET.
abbrev pub alike : ℕ → ℕ → Bool
alike a b = (a == 12 && b == 13) || (a == 25 && b == 50)

abbrev tells_apart : ℕ → ℕ → Bool
tells_apart a b =
    (a == b)
    || alike a b
    || alike b a
    || same_text (get_error_description a) ""
    || not (same_text (get_error_description a) (get_error_description b))

all_pairs : table (λ a. table (λ b. tells_apart a b) 66) 66 ≡ true
unfolding table get_error_description
all_pairs = refl

-- Two codes of errorcodes.h with the same description are the same code, or have none, or are one of
-- two pairs: those of opening and closing a database, and the two of a packet that can not be parsed.
pub get_error_description-distinct :
    (a b : ℕ)
    → a < 66
    → b < 66
    → get_error_description a ≡ get_error_description b
    → (a ≡ b) ⊎ ((alike a b ≡ true) ⊎ ((alike b a ≡ true) ⊎ (get_error_description a ≡ "")))
get_error_description-distinct a b small_a small_b same =
    let row = table-entry (λ a. table (λ b. tells_apart a b) 66) 66 a small_a all_pairs in
    let entry = table-entry (λ b. tells_apart a b) 66 b small_b row in
    ground (
      arith,
      entry,
      same,
      eq_iff (get_error_description a) "",
      eq_iff (get_error_description a) (get_error_description b),
    )
