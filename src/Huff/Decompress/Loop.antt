-- ===== src/Huff/Decompress/Loop.antt =====
-- The loop on a code of the tree, its termination, and the endless loop on a cut stream.
use pkt.Common.{
  ℕ, zero, suc, ◌+◌, ◌-◌, ◌≤◌, ◌<◌, ◌≡◌, refl, sym, ◌∙◌, Bool, true, false, Option, none, some,
  List, [], ◌∷◌, ◌++◌, length, arith,
}
use pkt.Huff.Node.{HuffCode, LeafNode, Node, leaf, internal, descend, leaf_at}
use pkt.Huff.Stream.{BitStream}
use pkt.Huff.Decompress.{Outcome, running, next_node, next_bits, visit, decode_loop}

module _ (b : BitStream) (root : Node) (eof_code : Option HuffCode) (decompressed_size : ℕ) where
  -- With a null `n` the loop never ends, whatever is left in the stream.
  pub decode_loop-null :
      (fuel : ℕ) (bits : List Bool) (r : ℕ) (out : List ℕ)
      → decode_loop b root eof_code decompressed_size fuel bits none r out ≡ running
  unfolding decode_loop
  decode_loop-null zero bits r out = refl
  decode_loop-null (suc fuel) bits r out = decode_loop-null fuel (next_bits bits) r out

  -- Once the stream has no bit left the loop never ends: however long it runs, it is still
  -- running.
  pub decode_loop-cut :
      (fuel : ℕ) (n : Node) (r : ℕ) (out : List ℕ)
      → decode_loop b root eof_code decompressed_size fuel [] (some n) r out ≡ running
  unfolding decode_loop
  decode_loop-cut zero n r out = refl
  decode_loop-cut (suc fuel) n r out = decode_loop-null fuel [] r out

  -- The loop reads a code of the tree bit by bit and arrives at its leaf.
  pub decode_loop-code :
      (n : Node) (bit : Bool) (code : HuffCode) (lf : LeafNode) (total fuel : ℕ) (rest : List Bool)
      (r : ℕ) (out : List ℕ)
      → leaf_at n (bit ∷ code) ≡ some lf
      → total ≡ suc (length code) + fuel
      → decode_loop b root eof_code decompressed_size total ((bit ∷ code) ++ rest) (some n) r out
        ≡ visit b root eof_code decompressed_size
            (some (leaf lf))
            rest
            r
            out
            (decode_loop b root eof_code decompressed_size fuel)
  unfolding decode_loop leaf_at descend
  decode_loop-code n bit code lf zero fuel rest r out h e = absurd (omega arith)
  decode_loop-code (leaf l) bit code lf (suc total) fuel rest r out h e = cc
  decode_loop-code (internal f (leaf l) rt) false [] lf (suc total) fuel rest r out h e =
      cc (h, same)
    where
      same : total ≡ fuel
      same = omega arith
  decode_loop-code (internal f (leaf l) rt) false (x ∷ code) lf (suc total) fuel rest r out h e = cc
  decode_loop-code (internal f (internal g ll lr) rt) false [] lf (suc total) fuel rest r out h e =
      cc
  decode_loop-code (internal f (internal g ll lr) rt) false (x ∷ code) lf (suc total) fuel rest r
        out h e =
      decode_loop-code (internal g ll lr) x code lf total fuel rest r out h (omega arith)
  decode_loop-code (internal f lt (leaf l)) true [] lf (suc total) fuel rest r out h e =
      cc (h, same)
    where
      same : total ≡ fuel
      same = omega arith
  decode_loop-code (internal f lt (leaf l)) true (x ∷ code) lf (suc total) fuel rest r out h e = cc
  decode_loop-code (internal f lt (internal g ll lr)) true [] lf (suc total) fuel rest r out h e =
      cc
  decode_loop-code (internal f lt (internal g ll lr)) true (x ∷ code) lf (suc total) fuel rest r out
        h e =
      decode_loop-code (internal g ll lr) x code lf total fuel rest r out h (omega arith)

  -- `visit` calls the rest of the loop on a stream that is no longer.
  visit_ext :
      (n : Option Node) (bits : List Bool) (r : ℕ) (out : List ℕ)
      (go go' : List Bool → Option Node → ℕ → List ℕ → Outcome)
      → ((bits' : List Bool) (n' : Option Node) (r' : ℕ) (out' : List ℕ)
          → length bits' ≤ length bits
          → go bits' n' r' out' ≡ go' bits' n' r' out')
      → visit b root eof_code decompressed_size n bits r out go
        ≡ visit b root eof_code decompressed_size n bits r out go'
  unfolding visit
  visit_ext none bits r out go go' h = h bits none r out (omega arith)
  visit_ext (some (internal f lt rt)) bits r out go go' h = h bits _ r out (omega arith)
  visit_ext (some (leaf lf)) bits r out go go' h = ground (
    arith,
    h (b.read8 bits).1 (some root) (r + 1) (out ++ (b.read8 bits).0 ∷ []) (b.length-read8 bits),
    h bits (some root) (r + 1) (out ++ lf.c ∷ []) (omega arith),
  )

  length-next_bits : (bits : List Bool) → length (next_bits bits) ≤ length bits - 1
  unfolding next_bits
  length-next_bits [] = omega arith
  length-next_bits (x ∷ bits) = omega arith

  -- One more round than there are bits decides: more rounds give the same outcome.
  pub decode_loop_fuel :
      (fuel total : ℕ) (bits : List Bool) (n : Option Node) (r : ℕ) (out : List ℕ)
      → length bits < fuel
      → fuel ≤ total
      → decode_loop b root eof_code decompressed_size total bits n r out
        ≡ decode_loop b root eof_code decompressed_size fuel bits n r out
  unfolding decode_loop
  decode_loop_fuel zero total bits n r out h k = absurd (omega arith)
  decode_loop_fuel (suc fuel) zero bits n r out h k = absurd (omega arith)
  decode_loop_fuel (suc fuel) (suc total) bits none r out h k =
      decode_loop-null (suc total) bits r out ∙ sym (decode_loop-null (suc fuel) bits r out)
  decode_loop_fuel (suc fuel) (suc total) [] (some n) r out h k =
      decode_loop-cut (suc total) n r out ∙ sym (decode_loop-cut (suc fuel) n r out)
  decode_loop_fuel (suc fuel) (suc total) (x ∷ bits) (some n) r out h k =
      visit_ext (next_node (some n) (x ∷ bits)) bits r out _ _ λ bits' n' r' out' le.
        decode_loop_fuel fuel total bits' n' r' out' (omega arith) (omega arith)
