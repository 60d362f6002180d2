-- ===== src/Huff/Samples.antt =====
-- Test data for the Huffman coder: a bit stream, a tree, escape codes and a priority queue.
use pkt.Common.{
  ℕ, zero, suc, ◌+◌, ◌*◌, ◌/◌, ◌%◌, ◌^◌, ◌≤◌, ◌<◌, ◌≡◌, refl, ap, Bool, true, false, List, [], ◌∷◌,
  ◌++◌, map, length, All, leb, ◌==◌, if◌then◌else◌, arith, append-nil, inl, inr, Bool-cases,
}
use native.Mathlib.Nat.{pow-suc}
use pkt.Huff.Node.{HuffCode, Node, leaf, internal, weight, leaf_at, count}
use pkt.Huff.Build.{int_order, PriorityQueue, total}
use pkt.Huff.Stream.{BitStream}
use pkt.Huff.Compress.{HuffCodeNSizes}
use pkt.Huff.Decompress.Symbols.{Fits}

-- A bit stream that spends a number on each bit, with the lowest bit of a value first.
abbrev pub int_bits : ℕ → ℕ → List Bool
int_bits value zero = []
int_bits value (suc n) = (value % 2 == 1) ∷ int_bits (value / 2) n

abbrev pub read_int : ℕ → List Bool → ℕ × List Bool
read_int zero bits = (0, bits)
read_int (suc n) [] = (0, [])
read_int (suc n) (bit ∷ bits) =
    let (value, rest) = read_int n bits in ((if bit then 1 else 0) + 2 * value, rest)

abbrev pub bit_number : Bool → ℕ
bit_number bit = if bit then 1 else 0

pub length-int_bits : (value n : ℕ) → length (int_bits value n) ≡ n
length-int_bits value zero = refl
length-int_bits value (suc n) = ap suc (length-int_bits (value / 2) n)

pub read_int-int_bits :
    (n value : ℕ) (rest : List Bool)
    → value < 2 ^ n
    → read_int n (int_bits value n ++ rest) ≡ (value, rest)
read_int-int_bits zero value rest h = ground arith
read_int-int_bits (suc n) value rest h =
    ground (arith, read_int-int_bits n (value / 2) rest (omega (arith, pow-suc 2 n)))

pub length-read_int : (n : ℕ) (bits : List Bool) → length (read_int n bits).1 ≤ length bits
length-read_int zero bits = omega arith
length-read_int (suc n) [] = omega arith
length-read_int (suc n) (bit ∷ bits) = omega (arith, length-read_int n bits)

abbrev pub number_bit : ℕ → Bool
number_bit n = n == 1

pub map-number_bit : (bits : List Bool) → map number_bit (map bit_number bits) ≡ bits
map-number_bit [] = refl
map-number_bit (true ∷ bits) = ap (λ (t : List Bool). true ∷ t) (map-number_bit bits)
map-number_bit (false ∷ bits) = ap (λ (t : List Bool). false ∷ t) (map-number_bit bits)

abbrev pub first_number : List ℕ → ℕ × ℕ
first_number [] = (0, 0)
first_number (n ∷ ns) = (n, 1)

abbrev pub wide_stream : BitStream
wide_stream = record {
  write_int = int_bits;
  read8 = read_int 8;
  flush = map bit_number;
  drained_bits = false ∷ false ∷ false ∷ false ∷ false ∷ false ∷ false ∷ false ∷ [];
  read_bits = map number_bit;
  write_varint = λ n. n ∷ [];
  get_varint = first_number;
  length-write_int = length-int_bits;
  read8-write_int = λ value rest h. read_int-int_bits 8 value rest h;
  length-read8 = length-read_int 8;
  read_bits-flush = λ bits. ([], rw append-nil (map-number_bit bits));
  get_varint-write_varint = λ value rest h. refl;
}

-- A tree of four symbols: 'a' is 0, 'b' is 10, 'c' is 110 and 'd' is 111.
abbrev pub leaf_of : ℕ → ℕ → Node
leaf_of f c = leaf (record { f = f; c = c; flags = 0 })

abbrev pub right_of : Node
right_of = internal 6 (leaf_of 3 b'b') (internal 3 (leaf_of 2 b'c') (leaf_of 1 b'd'))

abbrev pub tree_abcd : Node
tree_abcd = internal 11 (leaf_of 5 b'a') right_of

abbrev pub end_d : HuffCode
end_d = true ∷ true ∷ true ∷ []

abbrev pub escape_c : HuffCodeNSizes
escape_c = (true ∷ true ∷ false ∷ [], 8) ∷ []

one_each : (c : ℕ) → count c tree_abcd ≤ 1
unfolding count
one_each c = ground arith

pub Fits-abcd : Fits tree_abcd escape_c
Fits-abcd = record {
  distinct = one_each;
  fresh = (refl, (refl, (refl, refl)));
  paths = ((record { f = 2; c = b'c'; flags = 0 }, unfold leaf_at in refl), tt);
  byte_escapes = (refl, tt);
}

-- `std::priority_queue` by a scan for the lightest node.
abbrev pub order : Node → ℕ
order n = int_order (weight n)

abbrev pub lightest : Node → List Node → Node × List Node
lightest x [] = (x, [])
lightest x (y ∷ q) =
    let (m, rest) = lightest y q in if leb (order x) (order m) then (x, m ∷ rest) else (m, x ∷ rest)

pub lightest-total :
    (p : Node → ℕ) (x : Node) (q : List Node)
    → p (lightest x q).0 + total p (lightest x q).1 ≡ p x + total p q
lightest-total p x [] = refl
lightest-total p x (y ∷ q) = ground (arith, lightest-total p y q)

All-le : (k m : ℕ) (q : List Node) → k ≤ m → All (λ n. m ≤ order n) q → All (λ n. k ≤ order n) q
All-le k m [] h all = tt
All-le k m (x ∷ q) h (hx, all) = (omega arith, All-le k m q h all)

pub lightest-first :
    (x : Node) (q : List Node) → All (λ n. order (lightest x q).0 ≤ order n) (lightest x q).1
lightest-first x [] = tt
lightest-first x (y ∷ q) = elim (Bool-cases (leb (order x) (order (lightest y q).0))) [
  | inl less ↦ rw less (
    ground arith,
    All-le (order x) (order (lightest y q).0) (lightest y q).1 (ground arith) (lightest-first y q),
  )
  | inr more ↦ rw more (ground arith, lightest-first y q)
]

abbrev pub scan_queue : PriorityQueue
scan_queue = record { pop = lightest; pop-total = lightest-total; pop-lightest = lightest-first }
