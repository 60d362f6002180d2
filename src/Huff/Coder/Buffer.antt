-- ===== src/Huff/Coder/Buffer.antt =====
-- `decode_buffer2buffer` of a packet that an encoder has packed.
use pkt.Common.{
  ℕ, ◌+◌, ◌%◌, ◌^◌, ◌≤◌, ◌<◌, ◌≡◌, refl, true, false, some, List, [], ◌∷◌, ◌++◌, ltb, leb, ◌==◌,
  if◌then◌else◌, length, length-append, drop-append_self, arith, Bool-cases, inl, inr,
}
use pkt.Common.Bytes.{overwrite, take_all}
use pkt.Huff.Node.{HuffCode, Node, internal}
use pkt.Huff.Stream.{BitStream}
use pkt.Huff.Compress.{HuffCodeNSizes, add64}
use pkt.Huff.Decompress.RoundTrip.{not_below}
use pkt.Huff.Decompress.Marks.{IsPath}
use pkt.Huff.Decompress.Symbols.{Fits}
use pkt.Huff.Coder.{move_if}
use pkt.Huff.Coder.Encoder.{Encoder, pack}
use pkt.Huff.Coder.Decoder.{Decoder, decoded, is_listed, store_unpacked, decode_buffer2buffer}
use pkt.Huff.Coder.Trip.{AreAlike, CanPack, whole, unpack-pack}

-- What the destination becomes of the unpacked bytes with room for one more: the NUL behind the
-- string is moved too.
store-whole :
    (valid dest bytes : List ℕ) (dest_size size offset : ℕ)
    → length bytes + 1 ≤ dest_size
    → length bytes + 1 + offset ≤ length dest
    → length dest < 2 ^ 64
    → store_unpacked valid (some dest) dest_size size offset (whole bytes)
      ≡ some (
          if is_listed (length bytes + 1 + offset) valid
          then decoded (some dest) size
          else decoded (some (overwrite dest offset (bytes ++ 0 ∷ []))) (length bytes + 1 + offset))
unfolding store_unpacked move_if
store-whole valid dest bytes dest_size size offset room fits small =
    let sz : (length bytes + 1) % 2 ^ 64 ≡ length bytes + 1 = omega arith in
    let fits_in : ltb dest_size (length bytes + 1) ≡ false = ground arith in
    let sum : add64 (length bytes + 1) offset ≡ length bytes + 1 + offset = omega arith in
    let some_bytes : (length bytes + 1 == 0) ≡ false = ground arith in
    let inside : leb (length bytes + 1) (length bytes + 1) ≡ true = ground arith in
    let inside' : leb (offset + (length bytes + 1)) (length dest) ≡ true = ground arith in
    let same =
      take_all (length bytes + 1) (bytes ++ 0 ∷ [])
        (omega (arith, length-append {0} bytes (0 ∷ []))) in
    rw (sz, fits_in, sum, some_bytes, inside, inside', same)
      (elim (Bool-cases (is_listed (length bytes + 1 + offset) valid)) [
        | inl listed ↦ rw listed refl
        | inr other ↦ rw other refl
      ])

-- An encoder and a decoder that use the same tree, escape codes and end code, in mode 1, with the
-- conditions of the round trip: of a packet that the encoder has packed, behind any `offset` bytes in
-- front of it, `decode_buffer2buffer` writes the bytes that were packed and a NUL into the destination,
-- behind its first `offset` bytes, and returns where they end, the NUL counted. If that number is in
-- the list of valid sizes, though, the destination is left as it is, and the result is the size of
-- the packet. There is room for the NUL too.
pub decode_buffer2buffer-pack :
    (b : BitStream) (b_out : List ℕ) (f : ℕ) (left right : Node) (es : HuffCodeNSizes)
    (code : HuffCode) (front bytes dest : List ℕ) (dest_size : ℕ) (e : Encoder) (d : Decoder)
    → Fits (internal f left right) es
    → IsPath (internal f left right) code
    → AreAlike (internal f left right) es code e d
    → CanPack (internal f left right) code (length front) bytes
    → length bytes + 1 ≤ dest_size
    → length bytes + 1 + length front ≤ length dest
    → length dest < 2 ^ 64
    → (packed : List ℕ) × (r : ℕ) × (pack b e bytes (length front) ≡ some (packed, r))
      × ((decode_buffer2buffer b b_out d (some dest) dest_size (front ++ packed) (length front)).1
          ≡ some (
              if is_listed (length bytes + 1 + length front) d.valid_packet_sizes
              then decoded (some dest) (length (front ++ packed))
              else decoded
                  (some (overwrite dest (length front) (bytes ++ 0 ∷ [])))
                  (length bytes + 1 + length front)))
unfolding decode_buffer2buffer
decode_buffer2buffer-pack b b_out f left right es code front bytes dest dest_size e d fits path
      alike can room long small =
    let offset : ℕ = length front in
    let (packed, r, p, u) =
      unpack-pack b b_out f left right es code offset fits path alike bytes can in
    let unzipped : (d.mode == 0) ≡ false = rw alike.unpacks refl in
    let reaches : ltb (length (front ++ packed)) (length front) ≡ false =
      not_below (length front) (length (front ++ packed))
        (omega (arith, length-append {0} front packed)) in
    (
      packed,
      r,
      p,
      rw (unzipped, reaches, drop-append_self front packed, rw unzipped at u)
          (store-whole d.valid_packet_sizes dest bytes dest_size (length (front ++ packed)) offset
            room long small),
    )
