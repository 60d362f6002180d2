-- ===== src/Cache/Keys.antt =====
-- The key indexes that the constructor of Pkt2PacketVariable (pkt2packetvariable.cpp) makes of the
-- options of the fields of a message. `std::map<int, int>` is an association list; an index is taken
-- to fit an int.
pub mod Counts
pub mod Slots
use pkt.Common.{
  ℕ, zero, suc, ◌+◌, ◌-◌, ◌≤◌, ◌<◌, ◌≡◌, refl, sym, ap, ◌∙◌, Bool, true, false, Option, none, some,
  List, [], ◌∷◌, All, ltb, leb, ◌==◌, ==_iff, ==_refl, if◌then◌else◌, length, arith, Bool-cases,
  inl, inr,
}
use pkt.Cache.{FieldNameVariable, find_number}

-- What the constructor reads of a field: its number, and its name with the options of its variable.
pub record FieldOptions : Type 0 where
  pub number : ℕ
  pub fieldname_variable : FieldNameVariable
  pub index : ℕ

-- indexVariable[index] = f
unfoldable pub assign : List (ℕ × ℕ) → ℕ → ℕ → List (ℕ × ℕ)
assign [] index f = (index, f) ∷ []
assign ((k, old) ∷ m) index f = if k == index then (k, f) ∷ m else (k, old) ∷ assign m index f

-- The loop over the fields, from the field `f` on.
unfoldable pub index_variables : List FieldOptions → ℕ → List (ℕ × ℕ) → List (ℕ × ℕ)
unfolding assign
index_variables [] f m = m
index_variables (field ∷ fields) f m =
    index_variables fields (f + 1) (if field.index == 0 then m else assign m field.index f)

-- indexVariable[i], which puts 0 into the map for a missing key: the map afterwards, and the value.
value_at : List (ℕ × ℕ) → ℕ → Option ℕ → List (ℕ × ℕ) × ℕ
value_at m i none = ((i, 0) ∷ m, 0)
value_at m i (some f) = (m, f)

put_front : ℕ → Option (List ℕ) → Option (List ℕ)
put_front f none = none
put_front f (some fs) = some (f ∷ fs)

-- for (int i = 1; i <= indexVariable.size(); i++), on fuel: the size grows while the loop runs.
keys_loop : ℕ → ℕ → List (ℕ × ℕ) → Option (List ℕ)
unfolding value_at put_front
keys_loop zero i m = none
keys_loop (suc fuel) i m =
    let (m', f) = value_at m i (find_number m i) in
    let rest = put_front f (keys_loop fuel (i + 1) m') in if leb i (length m) then rest else some []

-- `keyIndexes` of a packet with the identifier `id`.
unfoldable pub key_indexes : ℕ → ℕ → List FieldOptions → Option (List ℕ)
unfolding keys_loop index_variables put_front
key_indexes fuel id fields = put_front id (keys_loop fuel 1 (index_variables fields 0 []))

abbrev pub or_else : Option ℕ → Option ℕ → Option ℕ
or_else none b = b
or_else (some a) b = some a

-- The position of the last field with the index `i`, from the field `f` on.
abbrev pub last_with : ℕ → List FieldOptions → ℕ → Option ℕ
last_with i [] f = none
last_with i (field ∷ fields) f =
    or_else (last_with i fields (f + 1)) (if field.index == i then some f else none)

abbrev pub or_zero : Option ℕ → ℕ
or_zero none = 0
or_zero (some f) = f

-- For each index from `i` on the last field that has it, or 0 if there is none.
abbrev pub slots : List FieldOptions → ℕ → ℕ → List ℕ
slots fields i zero = []
slots fields i (suc rounds) = or_zero (last_with i fields 0) ∷ slots fields (i + 1) rounds
