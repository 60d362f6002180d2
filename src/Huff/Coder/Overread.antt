-- ===== src/Huff/Coder/Overread.antt =====
-- `encode_buffer2buffer` takes the number of bits that `compress` returns for a number of bytes.
use pkt.Common.{
  ℕ, ◌+◌, ◌*◌, ◌^◌, ◌≤◌, ◌<◌, ◌≡◌, ◌≢◌, refl, true, false, none, some, List, ◌++◌, Bool, ltb, leb,
  ◌==◌, length, length-append, length-take, length-drop, take, drop, arith, inl, inr,
}
use pkt.Huff.Node.{HuffCode}
use pkt.Huff.Stream.{BitStream}
use pkt.Huff.Compress.{Compressed, max64, add64, compress, compress_buffer}
use pkt.Huff.Compress.Size.{compress_buffer-r}
use pkt.Huff.Decompress.RoundTrip.{not_below}
use pkt.Huff.Coder.{move_if}
use pkt.Huff.Coder.Encoder.{Encoder, pack, store_packed, encode_buffer2buffer}

-- What `pack` hands to `compress_buffer`: the offset is skipped a second time.
abbrev pub body : BitStream → Encoder → HuffCode → List ℕ → ℕ → Compressed
body b e code bytes offset =
    compress_buffer b e.code_map e.escape_code_sizes (some code) (drop offset (drop offset bytes))

-- Moving more bytes than there are in the string and its NUL.
store_packed-beyond :
    (dest s : List ℕ) (dest_size offset sz : ℕ)
    → length s + 1 < sz
    → sz ≤ dest_size
    → store_packed (some dest) dest_size offset (some (s, sz)) ≡ none
unfolding store_packed move_if
store_packed-beyond dest s dest_size offset sz beyond room =
    let whole : ltb dest_size sz ≡ false = ground arith in
    let outside : leb sz (length s + 1) ≡ false = ground arith in rw (whole, outside) refl

bits_of :
    (b : BitStream) (e : Encoder) (code : HuffCode) (src : List ℕ) (offset : ℕ)
    → offset
        + length
            (compress_buffer b e.code_map e.escape_code_sizes (some code) (drop offset src)).bits
      < 2 ^ 64
    → (compress_buffer b e.code_map e.escape_code_sizes (some code) (drop offset src)).r ≢ max64
    → (compress_buffer b e.code_map e.escape_code_sizes (some code) (drop offset src)).r
      ≡ length (compress_buffer b e.code_map e.escape_code_sizes (some code) (drop offset src)).bits
bits_of b e code src offset small coded =
    elim (compress_buffer-r b e.code_map e.escape_code_sizes (some code) (drop offset src)) [
      | inl r ↦ omega arith
      | inr gave_up ↦ absurd (coded gave_up)
    ]

-- The bit stream packs eight bits into a byte, and the encoder has an end code and is in mode 1. If
-- the part of the packet behind twice the offset compresses to three bits or more, each byte of it has
-- a code or an escape code, and `dest_size` is no limit, then `encode_buffer2buffer` copies more bytes
-- than it has packed: it reads outside the string, whatever the packet is.
pub encode_buffer2buffer-beyond :
    (b : BitStream) (e : Encoder) (code : HuffCode) (bytes dest : List ℕ) (dest_size offset : ℕ)
    → ((bits : List Bool) → 8 * length (b.flush bits) ≤ length bits + 7)
    → e.mode ≡ 1
    → e.eof_code ≡ some code
    → offset + offset ≤ length bytes
    → 3 ≤ length (body b e code bytes offset).bits
    → (body b e code bytes offset).r ≢ max64
    → offset + length (body b e code bytes offset).bits < 2 ^ 64
    → offset + length (body b e code bytes offset).bits ≤ dest_size
    → encode_buffer2buffer b e (some dest) dest_size (some bytes) offset ≡ none
unfolding encode_buffer2buffer pack compress
encode_buffer2buffer-beyond b e code bytes dest dest_size offset eight one eof long three coded
      small room =
    let c = body b e code bytes offset in
    let src = drop offset bytes in
    let len = length-drop offset bytes in
    let front = length-take offset src in
    let s = take offset src ++ b.flush c.bits in
    let total = length-append {0} (take offset src) (b.flush c.bits) in
    let packed : (e.mode == 1) ≡ true = rw one refl in
    let unzipped : (e.mode == 0) ≡ false = rw one refl in
    let bits : c.r ≡ length c.bits = bits_of b e code src offset small coded in
    let sz : add64 0 (add64 offset c.r) ≡ offset + length c.bits = omega (arith, bits) in
    rw
      (
        unzipped,
        not_below offset (length bytes) (omega arith),
        packed,
        eof,
        not_below offset (length src) (omega (arith, len)),
        sz,
      )
      (store_packed-beyond dest s dest_size offset (offset + length c.bits)
        (omega (arith, total, front, len, eight c.bits)) room)
