-- ===== src/Huff/Decompress/Symbols.antt =====
-- The bits that `compress_buffer` writes for a byte, and for a buffer, take the loop of
-- `decompress_stream` over that byte or buffer.
use pkt.Common.{
  ℕ, suc, ◌+◌, ◌≤◌, ◌<◌, ◌≡◌, refl, ◌∙◌, Bool, true, false, ◌&&◌, Option, some, List, [], ◌∷◌, ◌++◌,
  All, length, length-append, append_assoc, append-nil, leb, if◌then◌else◌, arith, ◌⊎◌,
  Option-cases, Bool-cases, inl, inr,
}
use pkt.Huff.Node.{
  HuffCode, HuffCodeMap, LeafNode, Node, leaf, internal, find, generate_codes, leaf_at, count,
  IsFresh, code_eq,
}
use pkt.Huff.Node.Codes.{leaf_at_of_find, code_eq_iff}
use pkt.Huff.Node.Flags.{is_eof, is_escape}
use pkt.Huff.Stream.{BitStream}
use pkt.Huff.Compress.{
  HuffCodeNSizes, add64, wrote, all_written, find_huff_code_n_size, write_byte, write_bytes,
}
use pkt.Huff.Compress.Size.{IsByteEscape}
use pkt.Huff.Decompress.{Outcome, returned, mark_escapes, mark_eof, no_eof, visit, decode_loop}
use pkt.Huff.Decompress.Loop.{decode_loop-code}
use pkt.Huff.Decompress.Marks.{ArePaths, EofPath, is_eof_code, listed, Marked, Marked-leaf}

-- What the round trip asks of a tree and its escape codes: the characters are distinct, no leaf has
-- a flag yet, and each escape code is a code of the tree, followed by eight bits.
pub record Fits (root : Node) (es : HuffCodeNSizes) : Type 0 where
  pub distinct : (c : ℕ) → count c root ≤ 1
  pub fresh : IsFresh root
  pub paths : ArePaths root es
  pub byte_escapes : All IsByteEscape es

abbrev pub codes_of : Node → HuffCodeMap
codes_of root = generate_codes [] root []

-- A byte that has a code in the tree, and not the end code.
abbrev pub Encodable : Node → Option HuffCode → ℕ → Type 0
Encodable root eof_code x =
    (code : HuffCode) × (find (codes_of root) x ≡ some code)
    × (is_eof_code eof_code code ≡ false)
    × (x < 256)

find_huff_code_n_size-found :
    (es : HuffCodeNSizes) (code escape : HuffCode) (size : ℕ)
    → All IsByteEscape es
    → find_huff_code_n_size es code ≡ some (escape, size)
    → (escape ≡ code) × (size ≡ 8)
unfolding find_huff_code_n_size
find_huff_code_n_size-found [] code escape size h e = cc
find_huff_code_n_size-found ((c, s) ∷ es) code escape size h e =
    elim (Bool-cases (code_eq c code)) [
      | inl same ↦
          let found : some (c, s) ≡ some (escape, size) = rw same at e in
          let eq : c ≡ code = (code_eq_iff c code).0 same in (cc (found, eq), cc (found, h.0))
      | inr other ↦ find_huff_code_n_size-found es code escape size h.1 (rw other at e)
    ]

module _ (b : BitStream) (f : ℕ) (left right : Node) (es : HuffCodeNSizes)
    (eof_code : Option HuffCode) (fits : Fits (internal f left right) es)
    (eof_path : EofPath (internal f left right) eof_code) (size : ℕ) where
  abbrev pub root : Node
  root = internal f left right

  abbrev pub marked : Node
  marked = mark_eof (mark_escapes root es) eof_code

  abbrev pub loop : ℕ → List Bool → Option Node → ℕ → List ℕ → Outcome
  loop = decode_loop b marked eof_code size

  -- The loop behind the symbol `x`, with `rest` left in the stream.
  abbrev pub after : ℕ → List Bool → ℕ → List ℕ → ℕ → Outcome
  after x rest r out fuel =
      if no_eof eof_code && leb size (r + 1)
      then returned out (r + 1)
      else loop fuel rest (some marked) (r + 1) (out ++ x ∷ [])

  -- The bits that `compress_buffer` writes for a byte take the loop to the next symbol.
  pub record Step (x : ℕ) : Type 0 where
    pub bits : List Bool
    pub added : ℕ
    pub written : write_byte b (codes_of root) es x ≡ wrote bits added x
    pub rounds : ℕ
    pub few : rounds ≤ length bits
    pub runs :
        (rest : List Bool) (r : ℕ) (out : List ℕ) (total fuel : ℕ)
        → total ≡ rounds + fuel
        → loop total (bits ++ rest) (some marked) r out ≡ after x rest r out fuel

  visit_plain :
      (x : ℕ) (lf : LeafNode) (rest : List Bool) (r : ℕ) (out : List ℕ) (fuel : ℕ)
      → lf.c ≡ x
      → is_eof lf ≡ false
      → is_escape lf ≡ false
      → visit b marked eof_code size (some (leaf lf)) rest r out (loop fuel)
        ≡ after x rest r out fuel
  unfolding visit
  visit_plain x lf rest r out fuel same no_end plain = rw (no_end, plain, same)

  visit_escape :
      (x : ℕ) (lf : LeafNode) (rest : List Bool) (r : ℕ) (out : List ℕ) (fuel : ℕ)
      → x < 256
      → is_eof lf ≡ false
      → is_escape lf ≡ true
      → visit b marked eof_code size (some (leaf lf)) (b.write_int x 8 ++ rest) r out (loop fuel)
        ≡ after x rest r out fuel
  unfolding visit
  visit_escape x lf rest r out fuel byte no_end escaped =
      rw (no_end, escaped, b.read8-write_int x rest byte)

  Step-at :
      (x : ℕ) (bit : Bool) (p : HuffCode) (lf lf' : LeafNode)
      → find (codes_of root) x ≡ some (bit ∷ p)
      → x < 256
      → lf.c ≡ x
      → leaf_at marked (bit ∷ p) ≡ some lf'
      → Marked lf false (listed es (bit ∷ p)) lf'
      → Step x
  Step-at x bit p lf lf' found byte same at m =
      elim (Option-cases (find_huff_code_n_size es (bit ∷ p))) [
        | inl plain ↦ record {
          bits = bit ∷ p;
          added = length (bit ∷ p);
          written = unfold write_byte in rw (found, plain);
          rounds = length (bit ∷ p);
          few = omega arith;
          runs = λ rest r out total fuel t.
              decode_loop-code b marked eof_code size marked bit p lf' total fuel rest r out at t
              ∙ visit_plain x lf' rest r out fuel (m.same_c ∙ same) m.eof_flag
                  (m.escape_flag ∙ rw plain);
        }
        | inr ((escape, bits), e) ↦
            let (same_code, eight) =
              find_huff_code_n_size-found es (bit ∷ p) escape bits fits.byte_escapes e in
            record {
              bits = (bit ∷ p) ++ b.write_int x 8;
              added = length (bit ∷ p) + 8;
              written = unfold write_byte in rw (found, e, same_code, eight);
              rounds = length (bit ∷ p);
              few = omega (arith, length-append {0} (bit ∷ p) (b.write_int x 8));
              runs = λ rest r out total fuel t. rw (append_assoc (bit ∷ p) (b.write_int x 8) rest) (
                  decode_loop-code b marked eof_code size marked bit p lf' total fuel
                    (b.write_int x 8 ++ rest) r out at t
                  ∙ visit_escape x lf' rest r out fuel byte m.eof_flag (m.escape_flag ∙ rw e));
            }
      ]

  pub step : (x : ℕ) → Encodable root eof_code x → Step x
  step x ([], found, no_end, byte) =
      absurd (no_empty (leaf_at_of_find root x [] fits.distinct found).1)
    where
      no_empty : {lf : LeafNode} → leaf_at root [] ≡ some lf → ⊥
      no_empty h = unfold leaf_at in cc
  step x (bit ∷ p, found, no_end, byte) =
      let (lf, at, same) = leaf_at_of_find root x (bit ∷ p) fits.distinct found in
      let (lf', at', m) = Marked-leaf root es eof_code bit p lf fits.fresh fits.paths eof_path at in
      Step-at x bit p lf lf' found byte same at' (rw no_end at m)

  -- The same for a whole buffer, unless the length descriptor ends the loop first.
  pub record Run (bytes : List ℕ) : Type 0 where
    pub bits : List Bool
    pub added : ℕ
    pub written : write_bytes b (codes_of root) es bytes ≡ all_written bits bytes added
    pub rounds : ℕ
    pub few : rounds ≤ length bits
    pub runs :
        (rest : List Bool) (r : ℕ) (out : List ℕ) (total fuel : ℕ)
        → total ≡ rounds + fuel
        → (no_eof eof_code ≡ false) ⊎ (r + length bytes < size)
        → loop total (bits ++ rest) (some marked) r out
          ≡ loop fuel rest (some marked) (r + length bytes) (out ++ bytes)

  pub after_more :
      (x : ℕ) (rest : List Bool) (r n : ℕ) (out : List ℕ) (fuel : ℕ)
      → (no_eof eof_code ≡ false) ⊎ (r + suc n < size)
      → after x rest r out fuel ≡ loop fuel rest (some marked) (r + 1) (out ++ x ∷ [])
  after_more x rest r n out fuel (inl h) = rw h
  after_more x rest r n out fuel (inr h) = elim (Bool-cases (leb size (r + 1))) [
    | inl stop ↦ absurd (ground arith)
    | inr go ↦ rw go (and_false (no_eof eof_code) _ _)
  ]
    where
      and_false : (t : Bool) (u v : Outcome) → (if t && false then u else v) ≡ v
      and_false true u v = refl
      and_false false u v = refl

  pub next_room :
      (r n : ℕ)
      → (no_eof eof_code ≡ false) ⊎ (r + suc n < size)
      → (no_eof eof_code ≡ false) ⊎ (r + 1 + n < size)
  next_room r n (inl h) = inl h
  next_room r n (inr h) = inr (omega arith)

  pub run : (bytes : List ℕ) → All (Encodable root eof_code) bytes → Run bytes
  run [] h = record {
    bits = [];
    added = 0;
    written = unfold write_bytes in refl;
    rounds = 0;
    few = omega arith;
    runs = λ rest r out total fuel t more.
        let same : total ≡ fuel = omega arith in
        let stay : r ≡ r + 0 = omega arith in rw (append-nil out, same, ← stay);
  }
  run (x ∷ bytes) (hx, hs) =
      let first = step x hx in
      let others = run bytes hs in
      record {
        bits = first.bits ++ others.bits;
        added = add64 first.added others.added;
        written = put first others;
        rounds = first.rounds + others.rounds;
        few = omega (arith, first.few, others.few, length-append {0} first.bits others.bits);
        runs = λ rest r out total fuel t more.
            let count : r + 1 + length bytes ≡ r + suc (length bytes) = omega arith in
            rw (append_assoc first.bits others.bits rest) (
              first.runs (others.bits ++ rest) r out total (others.rounds + fuel) (omega arith)
              ∙ after_more x (others.bits ++ rest) r (length bytes) out (others.rounds + fuel) more
              ∙ others.runs rest (r + 1) (out ++ x ∷ []) (others.rounds + fuel) fuel refl
                  (next_room r (length bytes) more)
              ∙ rw (append_assoc out (x ∷ []) bytes, count));
      }
    where
      put :
          (first : Step x) (others : Run bytes)
          → write_bytes b (codes_of root) es (x ∷ bytes)
            ≡ all_written (first.bits ++ others.bits) (x ∷ bytes) (add64 first.added others.added)
      put first others = unfold write_bytes in rw (first.written, others.written)
