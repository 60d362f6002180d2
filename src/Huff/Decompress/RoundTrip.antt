-- ===== src/Huff/Decompress/RoundTrip.antt =====
-- Decompression of what was compressed, with an end code and with a length descriptor.
use pkt.Common.{
  ℕ, ◌+◌, ◌-◌, ◌%◌, ◌≤◌, ◌^◌, ◌≡◌, refl, sym, ap, ap₂, subst, ◌∙◌, Bool, false, Option, none, some,
  List, [], ◌∷◌, ◌++◌, All, length, length-append, take, drop, take-append-drop, take-append_self,
  drop-append_self, length-take, length-drop, append_assoc, append-nil, ltb, arith, inl,
}
use pkt.Huff.Node.{HuffCode, Node, internal, leaf_at}
use pkt.Huff.Node.Codes.{code_eq_iff}
use pkt.Huff.Stream.{BitStream}
use pkt.Huff.Compress.{HuffCodeNSizes, add64, all_written, compress_buffer, compress, write_bytes}
use pkt.Huff.Decompress.{
  returned, behind, no_eof, visit, decompress_stream, decompress_buffer, decompress,
}
use pkt.Huff.Decompress.Loop.{decode_loop-code}
use pkt.Huff.Decompress.Marks.{IsPath, Marked-leaf}
use pkt.Huff.Decompress.Symbols.{Fits, codes_of, Encodable, marked, Run, run, loop}

abbrev pub eof_bits : Option HuffCode → List Bool
eof_bits none = []
eof_bits (some code) = code

pub not_below : (k n : ℕ) → k ≤ n → ltb n k ≡ false
not_below k n h = ground arith

module _ (b : BitStream) (f : ℕ) (left right : Node) (es : HuffCodeNSizes)
    (fits : Fits (internal f left right) es) where
  abbrev tree : Node
  tree = internal f left right

  -- The end code ends the loop.
  eof_stops :
      (code : HuffCode) (path : IsPath tree code) (size total fuel : ℕ) (rest : List Bool) (r : ℕ)
      (out : List ℕ)
      → total ≡ length code + fuel
      → loop b f left right es
          (some code)
          fits
          path
          size
          total
          (code ++ rest)
          (some (marked b f left right es (some code) fits path size))
          r
          out
        ≡ returned out (r + 1)
  eof_stops [] (lf, at) size total fuel rest r out t = absurd (unfold leaf_at in cc at)
  eof_stops (bit ∷ p) (lf, at) size total fuel rest r out t =
      let (lf', at', m) =
        Marked-leaf tree es (some (bit ∷ p)) bit p lf fits.fresh fits.paths (lf, at) at in
      decode_loop-code b _ (some (bit ∷ p)) size _ bit p lf' total fuel rest r out at' t
      ∙ unfold visit in rw (m.eof_flag ∙ (code_eq_iff (bit ∷ p) (bit ∷ p)).1 refl)

  stream_eof :
      (code : HuffCode) (path : IsPath tree code) (size : ℕ) (bytes : List ℕ) (tail : List Bool)
      (r : Run b f left right es (some code) fits path size bytes)
      → decompress_stream b tree es (some code) (r.bits ++ (code ++ tail)) size
        ≡ returned bytes (length bytes + 1)
  unfolding decompress_stream no_eof
  stream_eof code path size bytes tail r =
      let all = r.bits ++ (code ++ tail) in
      let long = length-append {0} r.bits (code ++ tail) in
      let long' = length-append {0} code tail in
      let total : ℕ = length all + 1 in
      let fuel : ℕ = total - r.rounds in
      r.runs (code ++ tail) 0 [] total fuel (omega (arith, r.few)) (inl refl)
      ∙ eof_stops code path size fuel (fuel - length code) tail (0 + length bytes) bytes
          (omega (arith, r.few))
      ∙ ap (λ (n : ℕ). returned bytes (n + 1)) (omega arith)

  pub packed_bits :
      (eof_code : Option HuffCode) (bytes bs : List ℕ) (bits : List Bool) (r : ℕ)
      → write_bytes b (codes_of tree) es bytes ≡ all_written bits bs r
      → (compress_buffer b (codes_of tree) es eof_code bytes).bits ≡ bits ++ eof_bits eof_code
  unfolding compress_buffer
  packed_bits none bytes bs bits r h = rw h (sym (append-nil bits))
  packed_bits (some code) bytes bs bits r h = rw h

  unpack_eof :
      (code : HuffCode) (front packed : List ℕ)
      → decompress b tree es (some code) 0 (length front) (front ++ packed)
        ≡ some (behind front (length front) (decompress_buffer b tree es (some code) packed 0))
  unfolding decompress
  unpack_eof code front packed = rw (
    not_below (0 + length front) (length (front ++ packed))
        (omega (arith, length-append {0} front packed)),
    take-append_self front packed,
    drop-append_self front packed,
  )

  buffer_eof :
      (code : HuffCode) (path : IsPath tree code) (bytes : List ℕ)
      → All (Encodable tree (some code)) bytes
      → decompress_buffer b tree es
          (some code)
          (b.flush (compress_buffer b (codes_of tree) es (some code) bytes).bits)
          0
        ≡ returned bytes (length bytes + 1)
  unfolding decompress_buffer
  buffer_eof code path bytes codable =
      let r = run b f left right es (some code) fits path 0 bytes codable in
      let bits = packed_bits (some code) bytes bytes r.bits r.added r.written in
      let (tail, same) = b.read_bits-flush (r.bits ++ code) in
      rw (bits, same, append_assoc r.bits code tail) (stream_eof code path 0 bytes tail r)

  -- With an end code that is a code of the tree: of a buffer whose bytes behind the offset all have
  -- codes other than that one, `decompress` writes out exactly what `compress` was given, and
  -- returns the number of its bytes and one more. The tree has an inner node for its root, distinct
  -- characters and no flags, and each escape code is a code of the tree, followed by eight bits.
  pub decompress-compress_eof :
      (code : HuffCode) (compression_offset : ℕ) (bytes : List ℕ)
      → IsPath tree code
      → compression_offset ≤ length bytes
      → All (Encodable tree (some code)) (drop compression_offset bytes)
      → (packed : List ℕ) × (r : ℕ) × (compress b
            (codes_of tree)
            es
            (some code)
            compression_offset
            bytes
          ≡ some (packed, r))
        × (decompress b tree es (some code) 0 compression_offset packed
            ≡ some (returned bytes ((length bytes + 1) % 2 ^ 64)))
  unfolding behind
  decompress-compress_eof code offset bytes path fits_in codable =
      let front = take offset bytes in
      let body = drop offset bytes in
      let packed = b.flush (compress_buffer b (codes_of tree) es (some code) body).bits in
      let len : length front ≡ offset = omega (arith, length-take offset bytes) in
      (
        front ++ packed,
        add64 0 (add64 offset (compress_buffer b (codes_of tree) es (some code) body).r),
        unfold compress in rw (not_below offset (length bytes) fits_in),
        subst
            (λ k.
              decompress b tree es (some code) 0 k (front ++ packed)
              ≡ some (returned bytes ((length bytes + 1) % 2 ^ 64)))
            len
            (unpack_eof code front packed
              ∙ rw (buffer_eof code path body codable) (
                  ap₂ (λ (x : List ℕ) (y : ℕ). some (returned x y)) (take-append-drop offset bytes)
                    (omega (arith, len, length-drop offset bytes)))),
      )
