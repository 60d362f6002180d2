-- ===== src/Cache/Keys/Counts.antt =====
-- How many entries of the map of indexes there are from some index on.
use pkt.Common.{
  ℕ, ◌+◌, ◌≤◌, ◌<◌, ◌≡◌, refl, Option, none, some, List, [], ◌∷◌, All, leb, ◌==◌, if◌then◌else◌,
  length, arith, Bool-cases, inl, inr,
}
use pkt.Cache.{find_number}
use pkt.Cache.Keys.{FieldOptions, assign, index_variables}

-- How many keys are `i`, and how many are at least `i`.
abbrev pub occurs : ℕ → List (ℕ × ℕ) → ℕ
occurs i [] = 0
occurs i ((k, f) ∷ m) = (if k == i then 1 else 0) + occurs i m

abbrev pub above : ℕ → List (ℕ × ℕ) → ℕ
above i [] = 0
above i ((k, f) ∷ m) = (if leb i k then 1 else 0) + above i m

pub above-suc : (i : ℕ) (m : List (ℕ × ℕ)) → above i m ≡ occurs i m + above (i + 1) m
above-suc i [] = refl
above-suc i ((k, f) ∷ m) = ground (arith, above-suc i m)

abbrev pub present : Option ℕ → ℕ
present none = 0
present (some f) = 1

occurs-assign :
    (m : List (ℕ × ℕ)) (index f i : ℕ)
    → occurs i m ≤ 1
    → occurs i (assign m index f) ≤ (if index == i then 1 else occurs i m)
unfolding assign
occurs-assign [] index f i h = ground arith
occurs-assign ((j, old) ∷ m) index f i h = elim (Bool-cases (j == index)) [
  | inl same ↦ rw same (ground arith)
  | inr other ↦ rw other (ground (arith, occurs-assign m index f i))
]

pub occurs-index_variables :
    (fields : List FieldOptions) (f i : ℕ) (m : List (ℕ × ℕ))
    → occurs i m ≤ 1
    → occurs i (index_variables fields f m) ≤ 1
unfolding index_variables
occurs-index_variables [] f i m h = h
occurs-index_variables (field ∷ fields) f i m h =
    occurs-index_variables fields (f + 1) i (if field.index == 0 then m else assign m field.index f)
      (ground (arith, occurs-assign m field.index f i))

pub occurs_lem :
    (m : List (ℕ × ℕ)) (i : ℕ) → occurs i m ≤ 1 → occurs i m ≡ present (find_number m i)
unfolding find_number
occurs_lem [] i h = refl
occurs_lem ((k, f) ∷ m) i h = ground (arith, occurs_lem m i)

above-le : (m : List (ℕ × ℕ)) → above 1 m ≤ length m
above-le [] = omega arith
above-le ((k, f) ∷ m) = ground (arith, above-le m)

above-assign :
    (m : List (ℕ × ℕ)) (index f i : ℕ) → index < i → above i m ≡ 0 → above i (assign m index f) ≡ 0
unfolding assign
above-assign [] index f i h k = ground arith
above-assign ((j, old) ∷ m) index f i h k = elim (Bool-cases (j == index)) [
  | inl same ↦ rw same k
  | inr other ↦ rw other (ground (arith, above-assign m index f i))
]

pub above-index_variables :
    (fields : List FieldOptions) (f n : ℕ) (m : List (ℕ × ℕ))
    → All (λ field. field.index ≤ n) fields
    → above (1 + n) m ≡ 0
    → above (1 + n) (index_variables fields f m) ≡ 0
unfolding index_variables
above-index_variables [] f n m h k = k
above-index_variables (field ∷ fields) f n m (h, hs) k = elim (Bool-cases (field.index == 0)) [
  | inl no_index ↦ rw no_index (above-index_variables fields (f + 1) n m hs k)
  | inr index ↦ rw index (
      above-index_variables fields (f + 1) n (assign m field.index f) hs
        (above-assign m field.index f (1 + n) (omega arith) k))
]

-- All keys are at least 1.
length-assign :
    (m : List (ℕ × ℕ)) (index f : ℕ)
    → 0 < index
    → above 1 m ≡ length m
    → above 1 (assign m index f) ≡ length (assign m index f)
unfolding assign
length-assign [] index f h k = ground arith
length-assign ((j, old) ∷ m) index f h k = elim (Bool-cases (j == index)) [
  | inl same ↦ rw same k
  | inr other ↦ rw other (ground (arith, length-assign m index f, above-le m))
]

pub length-index_variables :
    (fields : List FieldOptions) (f : ℕ) (m : List (ℕ × ℕ))
    → above 1 m ≡ length m
    → above 1 (index_variables fields f m) ≡ length (index_variables fields f m)
unfolding index_variables
length-index_variables [] f m k = k
length-index_variables (field ∷ fields) f m k = elim (Bool-cases (field.index == 0)) [
  | inl no_index ↦ rw no_index (length-index_variables fields (f + 1) m k)
  | inr index ↦ rw index (
      length-index_variables fields (f + 1) (assign m field.index f)
        (length-assign m field.index f (ground arith) k))
]

pub occurs-le-above : (m : List (ℕ × ℕ)) (k n : ℕ) → k ≤ n → occurs n m ≤ above k m
occurs-le-above [] k n h = omega arith
occurs-le-above ((j, f) ∷ m) k n h = ground (arith, occurs-le-above m k n)
