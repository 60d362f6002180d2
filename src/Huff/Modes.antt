-- ===== src/Huff/Modes.antt =====
-- The modes of `decompress`, and `decompress2`, of huff/huffcode.cpp. In mode 2 `decompress_stream`
-- first gives all that is in its input stream to the decoder of huff/devdecoder.cpp.
use pkt.Common.{
  ℕ, ◌+◌, ◌-◌, ◌%◌, ◌^◌, ◌≤◌, ◌≡◌, refl, true, false, Option, none, some, List, [], ◌∷◌, ◌++◌, inl,
  inr, ltb, ◌==◌, if◌then◌else◌, length, length-drop, take, drop, arith, Bool-cases,
}
use mathlib.Core.Option
use pkt.Huff.Device.{dec_hafman}
use pkt.Huff.Device.Outputs.{dec_hafman-le_2}
use pkt.Huff.Node.{HuffCode, HuffCodeMap, Node}
use pkt.Huff.Build.{PriorityQueue, build_tree_from_codes}
use pkt.Huff.Stream.{BitStream}
use pkt.Huff.Compress.{HuffCodeNSizes}
use pkt.Huff.Decompress.{
  Outcome, running, decompress_stream, decompress_buffer, behind, read_size, decompress,
}

-- if (sz > 2) retval->write(b_out, sz - 2)
write_output : Option (List ℕ × ℕ) → Option (List ℕ)
write_output none = none
write_output (some (out, sz)) = some (if ltb 2 sz then take (sz - 2) out else [])

-- The bytes that mode 2 writes to the output before the loop. `b_out` are the bytes that happen to be
-- on the stack; behind the bytes `s` of the input stands the NUL of `c_str`.
device_output : List ℕ → List ℕ → ℕ → Option (List ℕ)
unfolding write_output
device_output b_out s decompressed_size =
    write_output (dec_hafman b_out (b'1' ∷ b'2' ∷ (s ++ 0 ∷ [])) ((decompressed_size + 2) % 2 ^ 32))

output-le_2 :
    (x y byte0 byte1 sz : ℕ) (out s : List ℕ)
    → (r : ℕ) × (dec_hafman (x ∷ y ∷ out) (b'1' ∷ b'2' ∷ byte0 ∷ byte1 ∷ s) sz
        ≡ some (b'1' ∷ b'2' ∷ out, r))
      × (ltb 2 r ≡ false)
output-le_2 x y byte0 byte1 sz out s =
    let (r, e, small) = dec_hafman-le_2 x y b'1' b'2' byte0 byte1 sz out s in (r, e, ground arith)

-- It writes nothing, and needs one byte of input.
device_output-nothing :
    (b_out s : List ℕ) (sz : ℕ)
    → 2 ≤ length b_out
    → device_output b_out s sz ≡ (if ltb 0 (length s) then some [] else none)
unfolding device_output
device_output-nothing [] s sz room = absurd (omega arith)
device_output-nothing (x ∷ []) s sz room = absurd (omega arith)
device_output-nothing (x ∷ y ∷ out) [] sz room = unfold dec_hafman in refl
device_output-nothing (x ∷ y ∷ out) (z ∷ []) sz room =
    let (r, e, small) = output-le_2 x y z 0 ((sz + 2) % 2 ^ 32) out [] in
    rw (e, small) (ground arith)
device_output-nothing (x ∷ y ∷ out) (z ∷ w ∷ s) sz room =
    let (r, e, small) = output-le_2 x y z w ((sz + 2) % 2 ^ 32) out (s ++ 0 ∷ []) in
    rw (e, small) (ground arith)

module _ (b : BitStream) (b_out : List ℕ) (mode : ℕ) (root : Node) (es : HuffCodeNSizes)
    (eof_code : Option HuffCode) where
  -- `decompress_buffer` in each mode: the decoder of the device takes all that is in the stream, and
  -- the loop runs over what is read from the stream then.
  decompress_buffer_in : List ℕ → ℕ → Option Outcome
  unfolding device_output
  decompress_buffer_in bytes decompressed_size =
      if mode == 2
      then Option.map
          (λ written.
            behind written 0
              (decompress_stream b root es eof_code b.drained_bits decompressed_size))
          (device_output b_out bytes decompressed_size)
      else some (decompress_stream b root es eof_code (b.read_bits bytes) decompressed_size)

  -- `decompress` in each mode.
  unfoldable pub decompress_in : ℕ → ℕ → List ℕ → Option Outcome
  unfolding decompress_buffer_in
  decompress_in force_size compression_offset bytes =
      let (sz, descriptor) = read_size b eof_code force_size bytes in
      let p = drop descriptor bytes in
      let rest = decompress_buffer_in (drop compression_offset p) sz in
      if ltb (length bytes) (descriptor + compression_offset)
      then none
      else Option.map (behind (take compression_offset p) compression_offset) rest

  -- The decoder of the device writes nothing.
  drained :
      (p : List ℕ) (sz : ℕ)
      → mode ≡ 2
      → 2 ≤ length b_out
      → decompress_buffer_in p sz ≡ (
          if ltb 0 (length p)
          then some (behind [] 0 (decompress_stream b root es eof_code b.drained_bits sz))
          else none)
  unfolding decompress_buffer_in
  drained p sz e room =
      let is_two : (mode == 2) ≡ true = ground arith in
      rw (is_two, device_output-nothing b_out p sz room)
        (elim (Bool-cases (ltb 0 (length p))) [
          | inl full ↦ rw full refl
          | inr empty ↦ rw empty refl
        ])

  -- In mode 2 `decompress` decodes no byte of what is packed: where there is a byte behind the length
  -- descriptor and the offset, it writes the bytes in front of the offset as they are, and then what
  -- the loop makes of the bits that an `ibitstream` returns over a stream all of whose bytes have been
  -- taken, whatever was packed. Else it reads outside the buffer.
  pub decompress_in_mode2 :
      (force_size compression_offset : ℕ) (bytes : List ℕ)
      → mode ≡ 2
      → 2 ≤ length b_out
      → decompress_in force_size compression_offset bytes ≡ (
          if ltb ((read_size b eof_code force_size bytes).1 + compression_offset) (length bytes)
          then some (
              behind
                (take compression_offset (drop (read_size b eof_code force_size bytes).1 bytes))
                compression_offset
                (behind [] 0 (
                  decompress_stream b root es eof_code b.drained_bits
                    (read_size b eof_code force_size bytes).0)))
          else none)
  unfolding decompress_in
  decompress_in_mode2 force_size compression_offset bytes e room =
      let (sz, descriptor) = read_size b eof_code force_size bytes in
      let p = drop compression_offset (drop descriptor bytes) in
      let left : length p ≡ length bytes - descriptor - compression_offset = omega (
        arith,
        length-drop compression_offset (drop descriptor bytes),
        length-drop descriptor bytes,
      ) in
      rw (drained p sz e room) (ground arith)

  -- In the other modes it is the function that the round trips are about.
  pub decompress_in-eq-decompress :
      (force_size compression_offset : ℕ) (bytes : List ℕ)
      → (mode == 2) ≡ false
      → decompress_in force_size compression_offset bytes
        ≡ decompress b root es eof_code force_size compression_offset bytes
  unfolding decompress_in decompress decompress_buffer
  decompress_in-eq-decompress force_size compression_offset bytes e = rw e

-- `decompress` with a pointer to a tree. With a null pointer no node is ever found, and the loop is
-- endless.
unfoldable pub decompress_tree :
    BitStream
    → List ℕ
    → ℕ
    → Option Node
    → HuffCodeNSizes
    → Option HuffCode
    → ℕ
    → ℕ
    → List ℕ
    → Option Outcome
unfolding device_output
decompress_tree b b_out mode none es eof_code force_size compression_offset bytes =
    let (sz, descriptor) = read_size b eof_code force_size bytes in
    let p = drop compression_offset (drop descriptor bytes) in
    let rest =
      if mode == 2
      then Option.map (λ written. running) (device_output b_out p sz)
      else some running in
    if ltb (length bytes) (descriptor + compression_offset) then none else rest
decompress_tree b b_out mode (some root) es eof_code force_size compression_offset bytes =
    decompress_in b b_out mode root es eof_code force_size compression_offset bytes

pub decompress2 :
    BitStream
    → PriorityQueue
    → List ℕ
    → ℕ
    → HuffCodeMap
    → HuffCodeNSizes
    → Option HuffCode
    → ℕ
    → ℕ
    → List ℕ
    → Option Outcome
unfolding decompress_tree
decompress2 b queue b_out mode codes es eof_code force_size compression_offset bytes =
    decompress_tree b b_out mode (build_tree_from_codes queue codes) es eof_code force_size
      compression_offset bytes
