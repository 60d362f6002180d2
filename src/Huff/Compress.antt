-- ===== src/Huff/Compress.antt =====
-- The compressor of huff/huffcode.cpp: `compress_buffer`, `compress_buffer_calc_only`, `compress`
-- and what they call. A buffer is a list of bytes. The sizes of escaped values, an `int` in the
-- source, are taken as numbers that are not negative.
pub mod Escape
pub mod Size
use pkt.Common.{
  ℕ, zero, suc, ◌+◌, ◌-◌, ◌/◌, ◌%◌, ◌^◌, Bool, true, false, Option, none, some, List, [], ◌∷◌, ◌++◌,
  ltb, ◌==◌, if◌then◌else◌, length, take, drop,
}
use pkt.Huff.Node.{HuffCode, HuffCodeMap, code_eq, find}
use pkt.Huff.Stream.{BitStream}

-- an escape code, and how many bits follow it
abbrev pub HuffCodeNSize : Type 0
HuffCodeNSize = HuffCode × ℕ

abbrev pub HuffCodeNSizes : Type 0
HuffCodeNSizes = List HuffCodeNSize

-- A sum of type `size_t`.
abbrev pub add64 : ℕ → ℕ → ℕ
add64 a b = (a + b) % 2 ^ 64

-- std::numeric_limits<uint64_t>::max()
abbrev pub max64 : ℕ
max64 = 2 ^ 64 - 1

-- The loop `while (*value >>= 1) r++;` on an `unsigned char`: eight rounds clear it.
bits_loop : ℕ → ℕ → ℕ → ℕ × ℕ
bits_loop zero value r = (r, value)
bits_loop (suc fuel) value r =
    let value' = value / 2 in
    let rest = bits_loop fuel value' (r + 1) in if value' == 0 then (r, value') else rest

-- The result, and what the byte behind the pointer is afterwards: the loop shifts it in place.
unfoldable pub bits_required : ℕ → ℕ × ℕ
unfolding bits_loop
bits_required value = bits_loop 8 value 0

unfoldable pub find_huff_code_n_size : HuffCodeNSizes → HuffCode → Option HuffCodeNSize
find_huff_code_n_size [] value = none
find_huff_code_n_size ((code, size) ∷ es) value =
    if code_eq code value then some (code, size) else find_huff_code_n_size es value

-- The loop over the escape codes, with `idx` as the element found and `dmin`.
shortest_loop : HuffCodeNSizes → ℕ → ℕ → Option HuffCodeNSize → Option HuffCodeNSize
shortest_loop [] sz dmin best = best
shortest_loop ((code, size) ∷ es) sz dmin best =
    let d = size - sz in
    if ltb size sz
    then shortest_loop es sz dmin best
    else shortest_loop es sz (if ltb d dmin then d else dmin)
        (if ltb d dmin then some (code, size) else best)

-- `dmin` starts as the size of a pointer, 8. The byte behind the pointer changes.
unfoldable pub find_shortest_huff_code_n_size : HuffCodeNSizes → ℕ → Option HuffCodeNSize × ℕ
unfolding shortest_loop
find_shortest_huff_code_n_size es value =
    let (sz, value') = bits_required value in (shortest_loop es sz 8 none, value')

-- What one byte of the input adds to the stream and to the result, and the byte of the input
-- buffer afterwards; `no_code` is the return with the error on `std::cerr`.
pub data Written : Type 0 where
  wrote : List Bool → ℕ → ℕ → Written
  no_code : ℕ → Written

-- The bits in the stream, the input buffer afterwards, and `r`, so far; `gave_up` has returned.
pub data Progress : Type 0 where
  all_written : List Bool → List ℕ → ℕ → Progress
  gave_up : List Bool → List ℕ → Progress

-- The same at the end, with the value that the function returns.
pub record Compressed : Type 0 where
  pub bits : List Bool
  pub buffer : List ℕ
  pub r : ℕ

unfoldable pub put_written : Written → List ℕ → Progress → Progress
put_written (no_code byte) data' rest = gave_up [] (byte ∷ data')
put_written (wrote bits size byte) data' (all_written bs buffer r) =
    all_written (bits ++ bs) (byte ∷ buffer) (add64 size r)
put_written (wrote bits size byte) data' (gave_up bs buffer) = gave_up (bits ++ bs) (byte ∷ buffer)

unfoldable pub finish : Option HuffCode → Progress → Compressed
finish eof_code (gave_up bits buffer) = record { bits = bits; buffer = buffer; r = max64 }
finish none (all_written bits buffer r) = record { bits = bits; buffer = buffer; r = r }
finish (some code) (all_written bits buffer r) = record {
  bits = bits ++ code;
  buffer = buffer;
  r = add64 r (length code);
}

module _ (b : BitStream) where
  -- strm.write(hcs->first); strm.write((int) data[i], hcs->second)
  unfoldable pub write_escaped : HuffCodeNSize → ℕ → Written
  write_escaped (code, size) byte = wrote (code ++ b.write_int byte size) (length code + size) byte

  -- The byte has no code, and `byte` is what `find_shortest_huff_code_n_size` left of it.
  unfoldable pub write_uncoded : Option HuffCodeNSize → ℕ → Written
  unfolding write_escaped
  write_uncoded none byte = no_code byte
  write_uncoded (some hcs) byte = write_escaped hcs byte

  unfoldable pub write_coded : Option HuffCodeNSize → HuffCode → ℕ → Written
  unfolding write_escaped
  write_coded (some hcs) code byte = write_escaped hcs byte
  write_coded none code byte = wrote code (length code) byte

  unfoldable pub write_found : HuffCodeNSizes → Option HuffCode → ℕ → Written
  unfolding write_uncoded write_coded
  write_found es none byte =
      let (hcs, byte') = find_shortest_huff_code_n_size es byte in write_uncoded hcs byte'
  write_found es (some code) byte = write_coded (find_huff_code_n_size es code) code byte

  -- one round of the loop of `compress_buffer`
  unfoldable pub write_byte : HuffCodeMap → HuffCodeNSizes → ℕ → Written
  unfolding write_found
  write_byte codes es byte = write_found es (find codes byte) byte

  unfoldable pub write_bytes : HuffCodeMap → HuffCodeNSizes → List ℕ → Progress
  unfolding put_written
  write_bytes codes es [] = all_written [] [] 0
  write_bytes codes es (byte ∷ rest) =
      put_written (write_byte codes es byte) rest (write_bytes codes es rest)

  unfoldable pub compress_buffer :
      HuffCodeMap → HuffCodeNSizes → Option HuffCode → List ℕ → Compressed
  unfolding finish
  compress_buffer codes es eof_code bytes = finish eof_code (write_bytes codes es bytes)

  -- `compress` with a stream to write to: the bytes in it, and the result. It is `none` where the
  -- offset lies behind the end of the buffer and the source reads outside it.
  unfoldable pub compress :
      HuffCodeMap → HuffCodeNSizes → Option HuffCode → ℕ → List ℕ → Option (List ℕ × ℕ)
  compress codes es eof_code compression_offset bytes =
      let header : List ℕ = elim eof_code [
        | none ↦ b.write_varint (length bytes)
        | some code ↦ []
      ] in
      let body = compress_buffer codes es eof_code (drop compression_offset bytes) in
      if ltb (length bytes) compression_offset
      then none
      else some (
        header ++ (take compression_offset bytes ++ b.flush body.bits),
        add64 (length header) (add64 compression_offset body.r),
      )

-- One round of the loop of `compress_buffer_calc_only`: what it adds to `r`, unless it returns.
calc_uncoded : Option HuffCodeNSize → Option ℕ
calc_uncoded none = none
calc_uncoded (some (code, size)) = some (length code + size)

calc_coded : Option HuffCodeNSize → HuffCode → ℕ
calc_coded (some (escape, size)) code = length escape + 8
calc_coded none code = length code

calc_found : HuffCodeNSizes → Option HuffCode → ℕ → Option ℕ
unfolding calc_uncoded calc_coded
calc_found es none byte = calc_uncoded (find_shortest_huff_code_n_size es byte).0
calc_found es (some code) byte = some (calc_coded (find_huff_code_n_size es code) code)

calc_byte : HuffCodeMap → HuffCodeNSizes → ℕ → Option ℕ
unfolding calc_found
calc_byte codes es byte = calc_found es (find codes byte) byte

calc_add : Option ℕ → Option ℕ → Option ℕ
calc_add none rest = none
calc_add (some size) none = none
calc_add (some size) (some r) = some (add64 size r)

calc_bytes : HuffCodeMap → HuffCodeNSizes → List ℕ → Option ℕ
unfolding calc_byte calc_add
calc_bytes codes es [] = some 0
calc_bytes codes es (byte ∷ rest) = calc_add (calc_byte codes es byte) (calc_bytes codes es rest)

calc_finish : Option HuffCode → Option ℕ → ℕ
calc_finish eof_code none = max64
calc_finish none (some r) = r
calc_finish (some code) (some r) = add64 r (length code)

unfoldable pub compress_buffer_calc_only :
    HuffCodeMap → HuffCodeNSizes → Option HuffCode → List ℕ → ℕ
unfolding calc_bytes calc_finish
compress_buffer_calc_only codes es eof_code bytes = calc_finish eof_code (calc_bytes codes es bytes)
