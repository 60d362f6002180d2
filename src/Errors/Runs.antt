-- ===== src/Errors/Runs.antt =====
-- Tests of the error codes, and their theorem at concrete codes.
use pkt.Common.{ℕ, ◌≡◌, refl, true, ◌⊎◌, arith}
use pkt.Errors.{get_error_description}
use pkt.Errors.Distinct.{alike, get_error_description-distinct}

closing : get_error_description 13 ≡ "Can not open database file "
unfolding get_error_description
closing = refl

get_error_description-distinct_example :
    ◌≡◌ {A = ℕ} 12 13
    ⊎ ((alike 12 13 ≡ true) ⊎ ((alike 13 12 ≡ true) ⊎ (get_error_description 12 ≡ "")))
unfolding get_error_description
get_error_description-distinct_example =
    get_error_description-distinct 12 13 (omega arith) (omega arith) refl
