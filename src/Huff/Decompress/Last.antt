-- ===== src/Huff/Decompress/Last.antt =====
-- Decompression with a length descriptor: the last byte is not written.
use pkt.Common.{
  ℕ, suc, ◌+◌, ◌-◌, ◌≤◌, ◌<◌, ◌^◌, ◌≡◌, refl, sym, ap, ◌∙◌, Bool, none, some, List, [], ◌∷◌, ◌++◌,
  All, length, length-append, drop-append_self, append_assoc, append-nil, leb, arith, inl, inr,
  Bool-cases,
}
use pkt.Huff.Node.{Node, internal}
use pkt.Huff.Stream.{BitStream}
use pkt.Huff.Compress.{HuffCodeNSizes, add64, all_written, compress_buffer, compress, write_bytes}
use pkt.Huff.Decompress.{returned, behind, no_eof, decompress_stream, decompress_buffer, decompress}
use pkt.Huff.Decompress.Symbols.{
  Fits, codes_of, Encodable, marked, Step, step, loop, after, after_more,
}
use pkt.Huff.Decompress.RoundTrip.{packed_bits, not_below}

module _ (b : BitStream) (f : ℕ) (left right : Node) (es : HuffCodeNSizes)
    (fits : Fits (internal f left right) es) where
  abbrev tree : Node
  tree = internal f left right

  -- The bits of a buffer and of one byte more take the loop to its end, if that byte is the last
  -- that the length descriptor counts.
  record Last (size : ℕ) (bytes : List ℕ) (x : ℕ) : Type 0 where
    bits : List Bool
    added : ℕ
    written :
        write_bytes b (codes_of tree) es (bytes ++ x ∷ [])
        ≡ all_written bits (bytes ++ x ∷ []) added
    rounds : ℕ
    few : rounds ≤ length bits
    stops :
        (rest : List Bool) (r : ℕ) (out : List ℕ) (total fuel : ℕ)
        → total ≡ rounds + fuel
        → size ≡ r + suc (length bytes)
        → loop b f left right es none fits tt size total
            (bits ++ rest)
            (some (marked b f left right es none fits tt size))
            r
            out
          ≡ returned (out ++ bytes) size

  module _ (size : ℕ) where
    stop_here :
        (x : ℕ) (rest : List Bool) (r : ℕ) (out : List ℕ) (fuel : ℕ)
        → size ≡ r + 1
        → after b f left right es none fits tt size x rest r out fuel ≡ returned (out ++ []) size
    unfolding no_eof
    stop_here x rest r out fuel h = elim (Bool-cases (leb size (r + 1))) [
      | inl stop ↦ rw (stop, append-nil out) (ap (returned out) (sym h))
      | inr go ↦ absurd (ground arith)
    ]

    last :
        (bytes : List ℕ) (x : ℕ) → All (Encodable tree none) (bytes ++ x ∷ []) → Last size bytes x
    last [] x (hx, _) =
        let s = step b f left right es none fits tt size x hx in
        record {
          bits = s.bits ++ [];
          added = add64 s.added 0;
          written = unfold write_bytes in rw (s.written);
          rounds = s.rounds;
          few = omega (arith, s.few, length-append {0} s.bits []);
          stops = λ rest r out total fuel t e.
              rw (append_assoc s.bits [] rest)
                (s.runs rest r out total fuel t ∙ stop_here x rest r out fuel e);
        }
    last (y ∷ bytes) x (hy, hs) =
        let s = step b f left right es none fits tt size y hy in
        let others = last bytes x hs in
        record {
          bits = s.bits ++ others.bits;
          added = add64 s.added others.added;
          written = put s others;
          rounds = s.rounds + others.rounds;
          few = omega (arith, s.few, others.few, length-append {0} s.bits others.bits);
          stops = λ rest r out total fuel t e. rw (append_assoc s.bits others.bits rest) (
              s.runs (others.bits ++ rest) r out total (others.rounds + fuel) (omega arith)
              ∙ after_more b f left right es none fits tt size y (others.bits ++ rest) r 0 out
                  (others.rounds + fuel) (inr (omega arith))
              ∙ others.stops rest (r + 1) (out ++ y ∷ []) (others.rounds + fuel) fuel refl
                  (omega arith)
              ∙ ap (λ (o : List ℕ). returned o size) (append_assoc out (y ∷ []) bytes));
        }
      where
        put :
            (s : Step b f left right es none fits tt size y) (others : Last size bytes x)
            → write_bytes b (codes_of tree) es (y ∷ (bytes ++ x ∷ []))
              ≡ all_written
                  (s.bits ++ others.bits)
                  (y ∷ (bytes ++ x ∷ []))
                  (add64 s.added others.added)
        put s others = unfold write_bytes in rw (s.written, others.written)

  buffer_last :
      (bytes : List ℕ) (x : ℕ)
      → All (Encodable tree none) (bytes ++ x ∷ [])
      → decompress_buffer b tree es none
          (b.flush (compress_buffer b (codes_of tree) es none (bytes ++ x ∷ [])).bits)
          (length bytes + 1)
        ≡ returned bytes (length bytes + 1)
  unfolding decompress_buffer decompress_stream
  buffer_last bytes x codable =
      let l = last (length bytes + 1) bytes x codable in
      let bits =
        packed_bits b f left right es fits none (bytes ++ x ∷ []) (bytes ++ x ∷ []) l.bits l.added
          l.written in
      let (tail, same) = b.read_bits-flush (l.bits ++ []) in
      rw (bits, same, append_assoc l.bits [] tail)
        (l.stops tail 0 [] (length (l.bits ++ tail) + 1) (length (l.bits ++ tail) + 1 - l.rounds)
          (omega (arith, l.few, length-append {0} l.bits tail)) (omega arith))

  unpack_size :
      (packed : List ℕ) (size : ℕ)
      → size < 2 ^ 28
      → decompress b tree es none 0 0 (b.write_varint size ++ packed)
        ≡ some (behind [] 0 (decompress_buffer b tree es none packed size))
  unfolding decompress
  unpack_size packed size small = rw (
    b.get_varint-write_varint size packed small,
    drop-append_self (b.write_varint size) packed,
    not_below (length (b.write_varint size) + 0) (length (b.write_varint size ++ packed))
        (omega (arith, length-append {0} (b.write_varint size) packed)),
  )

  -- With a length descriptor, and no end code, the last byte of a buffer is lost: `decompress`
  -- writes out all that `compress` was given but the last byte, and returns the number of bytes
  -- with that one. (The buffer is shorter than 2^28, its bytes all have codes and nothing stands in
  -- front of the compressed part. The tree has an inner node for its root, distinct characters and
  -- no flags, and each escape code is a code of the tree, followed by eight bits.)
  pub decompress-compress_size :
      (bytes : List ℕ) (x : ℕ)
      → length bytes + 1 < 2 ^ 28
      → All (Encodable tree none) (bytes ++ x ∷ [])
      → (packed : List ℕ) × (r : ℕ) × (compress b (codes_of tree) es none 0 (bytes ++ x ∷ [])
          ≡ some (packed, r))
        × (decompress b tree es none 0 0 packed ≡ some (returned bytes (length bytes + 1)))
  unfolding behind
  decompress-compress_size bytes x small codable =
      let body = compress_buffer b (codes_of tree) es none (bytes ++ x ∷ []) in
      let n : ℕ = length (bytes ++ x ∷ []) in
      let len : n ≡ length bytes + 1 = length-append {0} bytes (x ∷ []) in
      (
        b.write_varint n ++ b.flush body.bits,
        add64 (length (b.write_varint n)) (add64 0 body.r),
        unfold compress in rw (not_below 0 n (omega arith)),
        unpack_size (b.flush body.bits) n (omega arith)
            ∙ rw (len, buffer_last bytes x codable)
                (ap (λ (k : ℕ). some (returned bytes k)) (omega arith)),
      )
