-- ===== src/Cache/Keys/Slots.antt =====
-- Which key indexes a message gets.
use pkt.Common.{ℕ, zero, suc, ◌+◌, ◌≤◌, ◌≡◌, List, [], ◌∷◌, length}
use pkt.Cache.{find_number}
use pkt.Cache.Keys.Counts.{above}
use pkt.Cache.Keys.{or_zero}

-- The state of the loop in the round for `i`, with the map of the fields in `start`: the keys from `i`
-- on are those of the fields, and there is an entry for each index below `i`.
record At (start m : List (ℕ × ℕ)) (i : ℕ) : Type 0 where
  same : (k : ℕ) → i ≤ k → find_number m k ≡ find_number start k
  filled : length m + 1 ≡ i + above i start

-- The values of the keys from `i` on.
abbrev values : List (ℕ × ℕ) → ℕ → ℕ → List ℕ
values start i zero = []
values start i (suc rounds) = or_zero (find_number start i) ∷ values start (i + 1) rounds
