-- ===== src/Delimited/Runs.antt =====
-- The theorem on delimited messages at a concrete input.
use pkt.Common.{
  ℕ, ◌≡◌, refl, true, false, Option, none, some, List, [], ◌∷◌, ◌++◌, map, length, arith,
}
use pkt.Delimited.{Wire, MessageTypeNAddress, write_delimited_message}
use pkt.Delimited.Each.{Item, with_size, write_each, read_each, read_each-write_each}

abbrev read_number : List ℕ → Option (ℕ × List ℕ)
read_number [] = none
read_number (n ∷ rest) = some (n, rest)

-- A message is its bytes, a number one element, and every type is known.
abbrev plain : Wire
plain = record {
  Message = List ℕ;
  known = λ message_type. true;
  parse = λ message_type bytes. some (bytes, length bytes);
  serialize = λ m. m;
  write_varint = λ n. n ∷ [];
  read_varint = read_number;
  read_varint-write_varint = λ n rest small. refl;
}

abbrev address : ℕ → List ℕ
address n = n ∷ 0 ∷ 0 ∷ 0 ∷ 0 ∷ 0 ∷ 0 ∷ 0 ∷ 0 ∷ 0 ∷ 0 ∷ 0 ∷ 0 ∷ 0 ∷ 0 ∷ 0 ∷ []

abbrev typed : List ℕ → MessageTypeNAddress
typed message_type = record {
  socket_address_src = address 1;
  socket_address_dst = address 2;
  message_type = message_type;
  message_size = 0;
}

-- The first message fits in a buffer of the stream, the second does not.
abbrev two : List (Item plain)
two = (typed (97 ∷ 98 ∷ []), 5 ∷ 6 ∷ 7 ∷ [], true, none) ∷ (typed (99 ∷ []), [], false, none) ∷ []

-- Two bytes of a third message that could not be written.
abbrev cut : List ℕ
cut = 1 ∷ 0 ∷ []

test_cut : write_delimited_message plain false (some 2) (typed (99 ∷ [])) (4 ∷ []) ≡ (cut, none)
unfolding write_delimited_message
test_cut = refl

read_each-write_each_example :
    read_each plain 2 (write_each plain two ++ cut)
    ≡ some (map (λ item. (some item.1, with_size plain item.0 item.1)) two, cut)
unfolding write_delimited_message
read_each-write_each_example = read_each-write_each plain two cut (
  (refl, refl, omega arith, omega arith, refl, refl, λ e. cc e),
  ((refl, refl, omega arith, omega arith, refl, refl, λ e. cc e), tt),
)
