-- ===== src/Huff/Coder/Runs.antt =====
-- Tests of the encoder and the decoder, and their theorems at concrete inputs.
use pkt.Common.{
  ℕ, zero, suc, ◌+◌, ◌-◌, ◌*◌, ◌/◌, ◌%◌, ◌≤◌, ◌≡◌, refl, ap, ap₂, ◌∙◌, Bool, true, false, none,
  some, List, [], ◌∷◌, ◌++◌, map, append-nil, append_assoc, replicate, length, length-append, ◌==◌,
  if◌then◌else◌, arith, Bool-cases, inl, inr,
}
use pkt.Huff.Node.{find, generate_codes, leaf_at, code_eq}
use pkt.Huff.Build.{build_tree}
use pkt.Huff.Coder.{eof_code_of}
use pkt.Huff.Coder.Encoder
use pkt.Huff.Coder.Encoder.{Encoder, pack, encode_buffer2buffer}
use pkt.Huff.Coder.Decoder
use pkt.Huff.Coder.Decoder.{Decoder, decoded, decode_buffer2buffer, is_listed}
use pkt.Huff.Coder.Trip.{pack_each, unpack_each, whole, unpack_each-pack_each}
use pkt.Huff.Coder.Buffer.{decode_buffer2buffer-pack}
use pkt.Huff.Coder.Overread.{encode_buffer2buffer-beyond}
use pkt.Huff.Node.{Node, internal, weight, count}
use pkt.Huff.Compress.{
  compress_buffer, write_bytes, write_byte, find_huff_code_n_size, put_written, finish,
}
use pkt.Huff.Decompress.Symbols.{codes_of}
use pkt.Huff.Stream.{BitStream}
use pkt.Huff.Samples.{
  int_bits, read_int, length-int_bits, read_int-int_bits, length-read_int, first_number, bit_number,
  leaf_of, scan_queue,
}

-- The number of some bits, the lowest first, and all bits of a list of bytes.
abbrev number : List Bool → ℕ
number [] = 0
number (bit ∷ bits) = bit_number bit + 2 * number bits

abbrev byte_bits : List ℕ → List Bool
byte_bits [] = []
byte_bits (byte ∷ bytes) = int_bits byte 8 ++ byte_bits bytes

-- Eight bits to a byte; the second list are the bits of a byte that is not full yet.
abbrev pack_bits : List Bool → List Bool → List ℕ
pack_bits [] [] = []
pack_bits [] (p ∷ pending) = number (p ∷ pending) ∷ []
pack_bits (bit ∷ bits) pending =
    let full : List ℕ = number (pending ++ bit ∷ []) ∷ pack_bits bits [] in
    let more : List ℕ = pack_bits bits (pending ++ bit ∷ []) in
    if length pending == 7 then full else more

int_bits_zero : (n : ℕ) → int_bits 0 n ≡ replicate n false
int_bits_zero zero = refl
int_bits_zero (suc n) = ap (λ (t : List Bool). false ∷ t) (int_bits_zero n)

int_bits-number :
    (bits : List Bool) (n : ℕ)
    → length bits ≤ n
    → int_bits (number bits) n ≡ bits ++ replicate (n - length bits) false
int_bits-number [] zero h = refl
int_bits-number [] (suc n) h =
    let all : suc n - 0 ≡ suc n = omega arith in rw all (int_bits_zero (suc n))
int_bits-number (bit ∷ bits) zero h = absurd (omega arith)
int_bits-number (true ∷ bits) (suc n) h =
    let half : (1 + 2 * number bits) / 2 ≡ number bits = omega arith in
    let odd : ((1 + 2 * number bits) % 2 == 1) ≡ true = ground arith in
    let less : suc n - suc (length bits) ≡ n - length bits = omega arith in
    rw (half, odd, less) (ap (λ (t : List Bool). true ∷ t) (int_bits-number bits n (omega arith)))
int_bits-number (false ∷ bits) (suc n) h =
    let half : (0 + 2 * number bits) / 2 ≡ number bits = omega arith in
    let even : ((0 + 2 * number bits) % 2 == 1) ≡ false = ground arith in
    let less : suc n - suc (length bits) ≡ n - length bits = omega arith in
    rw (half, even, less) (ap (λ (t : List Bool). false ∷ t) (int_bits-number bits n (omega arith)))

full_bits : (bits : List Bool) (n : ℕ) → length bits ≡ n → int_bits (number bits) n ≡ bits
full_bits bits n h =
    let none_left : n - length bits ≡ 0 = omega arith in
    int_bits-number bits n (omega arith) ∙ rw none_left (append-nil bits)

filled_bits :
    (bits : List Bool) (n : ℕ)
    → length bits ≤ n
    → int_bits (number bits) n ++ [] ≡ bits ++ replicate (n - length bits) false
filled_bits bits n h = append-nil (int_bits (number bits) n) ∙ int_bits-number bits n h

byte_bits-pack_bits :
    (bits pending : List Bool)
    → length pending ≤ 7
    → (tail : List Bool) × (byte_bits (pack_bits bits pending) ≡ pending ++ (bits ++ tail))
byte_bits-pack_bits [] [] h = ([], refl)
byte_bits-pack_bits [] (p ∷ pending) h =
    (replicate (8 - suc (length pending)) false, filled_bits (p ∷ pending) 8 (omega arith))
byte_bits-pack_bits (bit ∷ bits) pending h =
    let len = length-append {0} pending (bit ∷ []) in
    elim (Bool-cases (length pending == 7)) [
      | inl full ↦
          let (tail, e) = byte_bits-pack_bits bits [] (omega arith) in
          (
            tail,
            rw full (
                ap₂ (λ (x y : List Bool). x ++ y)
                  (full_bits (pending ++ bit ∷ []) 8 (ground (arith, len))) e
                ∙ append_assoc pending (bit ∷ []) (bits ++ tail)),
          )
      | inr other ↦
          let (tail, e) = byte_bits-pack_bits bits (pending ++ bit ∷ []) (ground (arith, len)) in
          (tail, rw other (e ∙ append_assoc pending (bit ∷ []) (bits ++ tail)))
    ]

length-pack_bits :
    (bits pending : List Bool)
    → length pending ≤ 7
    → 8 * length (pack_bits bits pending) ≤ length pending + length bits + 7
length-pack_bits [] [] h = omega arith
length-pack_bits [] (p ∷ pending) h = omega arith
length-pack_bits (bit ∷ bits) pending h =
    let len = length-append {0} pending (bit ∷ []) in
    elim (Bool-cases (length pending == 7)) [
      | inl full ↦ rw full (ground (arith, length-pack_bits bits []))
      | inr other ↦ rw other (ground (arith, len, length-pack_bits bits (pending ++ bit ∷ [])))
    ]

abbrev byte_stream : BitStream
byte_stream = record {
  write_int = int_bits;
  read8 = read_int 8;
  flush = λ bits. pack_bits bits [];
  drained_bits = [];
  read_bits = byte_bits;
  write_varint = λ n. n ∷ [];
  get_varint = first_number;
  length-write_int = length-int_bits;
  read8-write_int = λ value rest h. read_int-int_bits 8 value rest h;
  length-read8 = length-read_int 8;
  read_bits-flush = λ bits. byte_bits-pack_bits bits [] (omega arith);
  get_varint-write_varint = λ value rest h. refl;
}

-- 0 is 0, 1 is 11, 2 is 101 and 3 is 100: the escape code is that of 2, the end code that of 3.
abbrev frequencies : List ℕ
frequencies = 5 ∷ 3 ∷ 2 ∷ 1 ∷ []

abbrev right_part : Node
right_part = internal 6 (internal 3 (leaf_of 1 3) (leaf_of 2 2)) (leaf_of 3 1)

abbrev end_text : List ℕ
end_text = b'1' ∷ b'0' ∷ b'0' ∷ []

abbrev encoder : Encoder
encoder =
    Encoder.set_escape_code (b'1' ∷ b'0' ∷ b'1' ∷ []) 8
      (Encoder.create scan_queue (replicate 256 0) none)

abbrev decoder : Decoder
decoder =
    Decoder.set_escape_code (b'1' ∷ b'0' ∷ b'1' ∷ []) 8
      (Decoder.create scan_queue (replicate 256 0) none 0)

abbrev used_tree : Node
used_tree = internal 11 (leaf_of 5 0) right_part

abbrev packets : List (List ℕ)
packets = (9 ∷ 0 ∷ 2 ∷ []) ∷ (8 ∷ 1 ∷ []) ∷ []

unpack_each-pack_each_example :
    (packs : List (List ℕ)) × (pack_each byte_stream
        (Encoder.set_eof_code end_text
          (Encoder.set_code_map_from_frequencies scan_queue frequencies encoder))
        1
        packets
      ≡ some packs)
    × (unpack_each byte_stream
          (replicate 80 0)
          (Decoder.set_eof_code end_text
            (Decoder.set_tree_from_frequencies scan_queue frequencies decoder))
          1
          packs
        ≡ map whole packets)
unfolding build_tree generate_codes weight leaf_at find code_eq eof_code_of Encoder.set_escape_code
    Decoder.set_escape_code Encoder.create Decoder.create
unpack_each-pack_each_example =
    unpack_each-pack_each byte_stream (replicate 80 0) scan_queue frequencies end_text 11
      (leaf_of 5 0) right_part (true ∷ false ∷ false ∷ []) 1 encoder decoder packets (omega arith)
      refl (refl, refl) refl refl ((record { f = 2; c = 2; flags = 0 }, refl), tt) (refl, tt) refl
      (record { f = 1; c = 3; flags = 0 }, refl)
      (
        (
          omega arith,
          (
            (false ∷ [], refl, refl, omega arith),
            ((true ∷ false ∷ true ∷ [], refl, refl, omega arith), tt),
          ),
        ),
        ((omega arith, ((true ∷ true ∷ [], refl, refl, omega arith), tt)), tt),
      )

abbrev set_encoder : Encoder
set_encoder = record {
  mode = 1;
  code_map = codes_of used_tree;
  escape_code_sizes = [];
  eof_code = some (true ∷ false ∷ false ∷ []);
}

abbrev set_decoder : List ℕ → Decoder
set_decoder sizes = record {
  mode = 1;
  root = some used_tree;
  escape_code_sizes = [];
  eof_code = some (true ∷ false ∷ false ∷ []);
  force_size = 0;
  valid_packet_sizes = sizes;
}

one_leaf_each : (c : ℕ) → count c used_tree ≤ 1
unfolding count
one_leaf_each c = ground arith

decode_buffer2buffer-pack_example :
    (packed : List ℕ) × (r : ℕ) × (pack byte_stream set_encoder (9 ∷ 0 ∷ 1 ∷ []) 1
      ≡ some (packed, r))
    × ((decode_buffer2buffer byte_stream
          (replicate 80 0)
          (set_decoder (6 ∷ []))
          (some (replicate 6 7))
          6
          (4 ∷ packed)
          1).1
        ≡ some (decoded (some (7 ∷ 9 ∷ 0 ∷ 1 ∷ 0 ∷ 7 ∷ [])) 5))
unfolding leaf_at find generate_codes code_eq is_listed
decode_buffer2buffer-pack_example =
    decode_buffer2buffer-pack byte_stream (replicate 80 0) 11 (leaf_of 5 0) right_part []
      (true ∷ false ∷ false ∷ []) (4 ∷ []) (9 ∷ 0 ∷ 1 ∷ []) (replicate 6 7) 6 set_encoder
      (set_decoder (6 ∷ []))
      (record {
        distinct = one_leaf_each;
        fresh = (refl, ((refl, refl), refl));
        paths = tt;
        byte_escapes = tt;
      })
      (record { f = 1; c = 3; flags = 0 }, refl)
      (record {
        packs = refl;
        codes = refl;
        pack_escapes = refl;
        pack_eof = refl;
        unpacks = refl;
        root = refl;
        unpack_escapes = refl;
        unpack_eof = refl;
        unforced = refl;
      })
      (
        omega arith,
        ((false ∷ [], refl, refl, omega arith), ((true ∷ true ∷ [], refl, refl, omega arith), tt)),
      )
      (omega arith) (omega arith) (omega arith)

encode_buffer2buffer-beyond_example :
    encode_buffer2buffer byte_stream set_encoder (some (replicate 9 0)) 9 (some (1 ∷ 1 ∷ [])) 0
    ≡ none
unfolding find generate_codes compress_buffer write_bytes write_byte code_eq find_huff_code_n_size
    put_written finish
encode_buffer2buffer-beyond_example =
    encode_buffer2buffer-beyond byte_stream set_encoder (true ∷ false ∷ false ∷ []) (1 ∷ 1 ∷ [])
      (replicate 9 0) 9 0 (λ bits. omega (arith, length-pack_bits bits [] (omega arith))) refl refl
      (omega arith) (omega arith) (λ e. absurd (omega arith)) (omega arith) (omega arith)
