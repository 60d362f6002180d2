-- ===== src/Huff/Compress/Size.antt =====
-- The value that `compress_buffer` returns, and that `compress_buffer_calc_only` agrees with it.
use pkt.Common.{
  ℕ, ◌%◌, ◌^◌, ◌≡◌, refl, ap, Option, none, some, List, [], ◌∷◌, length, length-append, All, arith,
  inl, inr, ◌⊎◌,
}
use pkt.Huff.Node.{HuffCode, HuffCodeMap, find}
use pkt.Huff.Stream.{BitStream}
use pkt.Huff.Compress.{
  HuffCodeNSize, HuffCodeNSizes, max64, Written, wrote, no_code, Progress, all_written, gave_up,
  put_written, finish, write_escaped, write_uncoded, write_coded, write_found, write_byte,
  write_bytes, compress_buffer, calc_uncoded, calc_coded, calc_found, calc_byte, calc_add,
  calc_bytes, calc_finish, compress_buffer_calc_only, find_huff_code_n_size,
  find_shortest_huff_code_n_size,
}

-- The size that one round adds is the number of bits that it writes.
abbrev Sized : Written → Type 0
Sized (wrote bits size byte) = length bits ≡ size
Sized (no_code byte) = Unit

module _ (b : BitStream) where
  write_escaped-Sized : (hcs : HuffCodeNSize) (byte : ℕ) → Sized (write_escaped b hcs byte)
  unfolding write_escaped
  write_escaped-Sized (code, size) byte =
      omega (arith, length-append code (b.write_int byte size), b.length-write_int byte size)

  write_found-Sized :
      (es : HuffCodeNSizes) (code : Option HuffCode) (byte : ℕ) → Sized (write_found b es code byte)
  unfolding write_found
  write_found-Sized es none byte = uncoded (find_shortest_huff_code_n_size es byte).0 _
    where
      uncoded : (o : Option HuffCodeNSize) (x : ℕ) → Sized (write_uncoded b o x)
      uncoded none x = tt
      uncoded (some hcs) x = write_escaped-Sized hcs x
  write_found-Sized es (some code) byte = coded (find_huff_code_n_size es code)
    where
      coded : (o : Option HuffCodeNSize) → Sized (write_coded b o code byte)
      coded none = refl
      coded (some hcs) = write_escaped-Sized hcs byte

  abbrev SizedAll : Progress → Type 0
  SizedAll (all_written bits buffer r) = r ≡ length bits % 2 ^ 64
  SizedAll (gave_up bits buffer) = Unit

  put_written-Sized :
      (w : Written) (rest : List ℕ) (p : Progress)
      → Sized w
      → SizedAll p
      → SizedAll (put_written w rest p)
  unfolding put_written
  put_written-Sized (wrote bits size byte) rest (all_written bs buffer r) h k =
      omega (arith, length-append bits bs)
  put_written-Sized (wrote bits size byte) rest (gave_up bs buffer) h k = tt
  put_written-Sized (no_code byte) rest p h k = tt

  write_bytes-Sized :
      (codes : HuffCodeMap) (es : HuffCodeNSizes) (bytes : List ℕ)
      → SizedAll (write_bytes b codes es bytes)
  unfolding write_bytes
  write_bytes-Sized codes es [] = refl
  write_bytes-Sized codes es (byte ∷ rest) =
      put_written-Sized (write_byte b codes es byte) rest _
        (unfold write_byte in write_found-Sized es (find codes byte) byte)
        (write_bytes-Sized codes es rest)

  -- `compress_buffer` returns the number of bits that it has put into the stream, modulo 2^64, or
  -- the largest size_t for a byte that it can not write.
  pub compress_buffer-r :
      (codes : HuffCodeMap) (es : HuffCodeNSizes) (eof_code : Option HuffCode) (bytes : List ℕ)
      → ((compress_buffer b codes es eof_code bytes).r
          ≡ length (compress_buffer b codes es eof_code bytes).bits % 2 ^ 64)
        ⊎ ((compress_buffer b codes es eof_code bytes).r ≡ max64)
  unfolding compress_buffer
  compress_buffer-r codes es eof_code bytes =
      close eof_code (write_bytes b codes es bytes) (write_bytes-Sized codes es bytes)
    where
      close :
          (eof : Option HuffCode) (p : Progress)
          → SizedAll p
          → ((finish eof p).r ≡ length (finish eof p).bits % 2 ^ 64) ⊎ ((finish eof p).r ≡ max64)
      close none (all_written bits buffer r) h = inl h
      close (some code) (all_written bits buffer r) h = inl (omega (arith, length-append bits code))
      close none (gave_up bits buffer) h = inr refl
      close (some code) (gave_up bits buffer) h = inr refl

-- Where every escape code is followed by eight bits, a round of the two loops adds the same size.
abbrev Agree : Written → Option ℕ → Type 0
Agree (wrote bits size byte) o = o ≡ some size
Agree (no_code byte) o = o ≡ none

abbrev pub IsByteEscape : HuffCodeNSize → Type 0
IsByteEscape hcs = hcs.1 ≡ 8

find_huff_code_n_size-byte :
    (es : HuffCodeNSizes) (code escape : HuffCode) (size : ℕ)
    → All IsByteEscape es
    → find_huff_code_n_size es code ≡ some (escape, size)
    → size ≡ 8
unfolding find_huff_code_n_size
find_huff_code_n_size-byte [] code escape size h e = cc
find_huff_code_n_size-byte ((c, s) ∷ es) code escape size h e =
    ground (arith, find_huff_code_n_size-byte es code escape size)

module _ (b : BitStream) (es : HuffCodeNSizes) (bytes_only : All IsByteEscape es) where
  found-Agree :
      (code : Option HuffCode) (byte : ℕ)
      → Agree (write_found b es code byte) (calc_found es code byte)
  unfolding write_found calc_found write_escaped
  found-Agree none byte = uncoded (find_shortest_huff_code_n_size es byte).0 _
    where
      uncoded : (o : Option HuffCodeNSize) (x : ℕ) → Agree (write_uncoded b o x) (calc_uncoded o)
      uncoded none x = refl
      uncoded (some hcs) x = refl
  found-Agree (some code) byte =
      coded (find_huff_code_n_size es code)
        (λ c s. find_huff_code_n_size-byte es code c s bytes_only)
    where
      coded :
          (o : Option HuffCodeNSize)
          → ((c : HuffCode) (s : ℕ) → o ≡ some (c, s) → s ≡ 8)
          → Agree (write_coded b o code byte) (some (calc_coded o code))
      coded none h = refl
      coded (some (c, s)) h = ap some (omega (arith, h c s refl))

  abbrev AgreeAll : Progress → Option ℕ → Type 0
  AgreeAll (all_written bits buffer r) o = o ≡ some r
  AgreeAll (gave_up bits buffer) o = o ≡ none

  put-Agree :
      (w : Written) (rest : List ℕ) (p : Progress) (s t : Option ℕ)
      → Agree w s
      → AgreeAll p t
      → AgreeAll (put_written w rest p) (calc_add s t)
  unfolding put_written calc_add
  put-Agree (wrote bits size byte) rest (all_written bs buffer r) s t h k = rw (h, k)
  put-Agree (wrote bits size byte) rest (gave_up bs buffer) s t h k = rw (h, k)
  put-Agree (no_code byte) rest p s t h k = rw h

  bytes-Agree :
      (codes : HuffCodeMap) (bytes : List ℕ)
      → AgreeAll (write_bytes b codes es bytes) (calc_bytes codes es bytes)
  unfolding write_bytes calc_bytes
  bytes-Agree codes [] = refl
  bytes-Agree codes (byte ∷ rest) =
      put-Agree (write_byte b codes es byte) rest _ _ _
        (unfold write_byte calc_byte in found-Agree (find codes byte) byte) (bytes-Agree codes rest)

  -- If every escape code is followed by eight bits, `compress_buffer_calc_only` returns what
  -- `compress_buffer` returns, for every map, end code and buffer.
  pub calc_only-eq-compress_buffer :
      (codes : HuffCodeMap) (eof_code : Option HuffCode) (bytes : List ℕ)
      → compress_buffer_calc_only codes es eof_code bytes
        ≡ (compress_buffer b codes es eof_code bytes).r
  unfolding compress_buffer_calc_only compress_buffer
  calc_only-eq-compress_buffer codes eof_code bytes =
      close eof_code (write_bytes b codes es bytes) (calc_bytes codes es bytes)
        (bytes-Agree codes bytes)
    where
      close :
          (eof : Option HuffCode) (p : Progress) (o : Option ℕ)
          → AgreeAll p o
          → calc_finish eof o ≡ (finish eof p).r
      close none (all_written bits buffer r) o h = rw h
      close (some code) (all_written bits buffer r) o h = rw h
      close none (gave_up bits buffer) o h = rw h
      close (some code) (gave_up bits buffer) o h = rw h
