-- ===== src/Huff/Decompress.antt =====
-- The decompressor of huff/huffcode.cpp: `decompress_stream`, `decompress_buffer` and `decompress`
-- in the modes 0 and 1, with a stream to write to. (Mode 2 is in Huff/Modes.antt.)
pub mod Loop
pub mod Marks
pub mod Symbols
pub mod RoundTrip
pub mod Last
pub mod Twice
use pkt.Common.{
  ℕ, zero, suc, ◌+◌, ◌-◌, Bool, true, false, not, ◌&&◌, Option, none, some, List, [], ◌∷◌, ◌++◌,
  leb, ltb, ◌==◌, if◌then◌else◌, length, take, drop, bit_and,
}
use pkt.Huff.Node.{HuffCode, LeafNode, Node, leaf, internal, descend, set_code_flag}
use pkt.Huff.Node.Flags.{is_eof, is_escape}
use pkt.Huff.Stream.{BitStream}
use pkt.Huff.Compress.{HuffCodeNSizes, add64}

-- What has been written and `r`, after the `break`; or the loop still runs.
pub data Outcome : Type 0 where
  returned : List ℕ → ℕ → Outcome
  running : Outcome

-- The flags set before the loop: 2 for each escape code that is not empty, 1 for the end code.
pub mark_escapes : Node → HuffCodeNSizes → Node
mark_escapes root [] = root
mark_escapes root (([], size) ∷ es) = mark_escapes root es
mark_escapes root ((bit ∷ code, size) ∷ es) = mark_escapes (set_code_flag root (bit ∷ code) 2).0 es

pub mark_eof : Node → Option HuffCode → Node
mark_eof root none = root
mark_eof root (some code) = (set_code_flag root code 1).0

-- `n` after a `read`, which is -1 where no bit is left.
next_node : Option Node → List Bool → Option Node
next_node none bits = none
next_node (some n) [] = none
next_node (some n) (bit ∷ bits) = some (descend n bit)

next_bits : List Bool → List Bool
next_bits [] = []
next_bits (bit ∷ bits) = bits

unfoldable pub no_eof : Option HuffCode → Bool
no_eof none = true
no_eof (some code) = false

module _ (b : BitStream) (root : Node) (eof_code : Option HuffCode) (decompressed_size : ℕ) where
  -- The part of the loop behind the switch; `go` is the rest of the loop.
  pub visit :
      Option Node
      → List Bool
      → ℕ
      → List ℕ
      → (List Bool → Option Node → ℕ → List ℕ → Outcome)
      → Outcome
  unfolding no_eof
  visit none bits r out go = go bits none r out
  visit (some (internal f left right)) bits r out go = go bits (some (internal f left right)) r out
  visit (some (leaf lf)) bits r out go =
      let (escaped_byte, bits') = b.read8 bits in
      if no_eof eof_code && leb decompressed_size (r + 1)
      then returned out (r + 1)
      else if is_eof lf
      then returned out (r + 1)
      else if is_escape lf
      then go bits' (some root) (r + 1) (out ++ escaped_byte ∷ [])
      else go bits (some root) (r + 1) (out ++ lf.c ∷ [])

  -- `while (true)` on fuel: `bits` are left in the stream, and `n` is null once it has ended.
  unfoldable pub decode_loop : ℕ → List Bool → Option Node → ℕ → List ℕ → Outcome
  unfolding next_node next_bits visit
  decode_loop zero bits n r out = running
  decode_loop (suc fuel) bits n r out =
      visit (next_node n bits) (next_bits bits) r out (decode_loop fuel)

-- Each round takes a bit or finds the end of the stream, so one more round than there are bits is
-- enough for every run that ends.
unfoldable pub decompress_stream :
    BitStream → Node → HuffCodeNSizes → Option HuffCode → List Bool → ℕ → Outcome
unfolding decode_loop mark_escapes mark_eof
decompress_stream b root es eof_code bits decompressed_size =
    let root' = mark_eof (mark_escapes root es) eof_code in
    decode_loop b root' eof_code decompressed_size (length bits + 1) bits (some root') 0 []

unfoldable pub decompress_buffer :
    BitStream → Node → HuffCodeNSizes → Option HuffCode → List ℕ → ℕ → Outcome
unfolding decompress_stream
decompress_buffer b root es eof_code bytes decompressed_size =
    decompress_stream b root es eof_code (b.read_bits bytes) decompressed_size

-- What `decompress` writes in front and adds to the result.
unfoldable pub behind : List ℕ → ℕ → Outcome → Outcome
behind out r running = running
behind out r (returned out' r') = returned (out ++ out') (add64 r r')

-- The original size, and the bytes that the length descriptor takes.
unfoldable pub read_size : BitStream → Option HuffCode → ℕ → List ℕ → ℕ × ℕ
read_size b eof_code zero bytes = elim eof_code [ none ↦ b.get_varint bytes | some code ↦ (0, 0) ]
read_size b eof_code (suc n) bytes = (suc n, 0)

-- It is `none` where the source reads outside the buffer.
unfoldable pub decompress :
    BitStream → Node → HuffCodeNSizes → Option HuffCode → ℕ → ℕ → List ℕ → Option Outcome
unfolding decompress_buffer behind read_size
decompress b root es eof_code force_size compression_offset bytes =
    let (sz, descriptor) = read_size b eof_code force_size bytes in
    let p = drop descriptor bytes in
    let rest = decompress_buffer b root es eof_code (drop compression_offset p) sz in
    if ltb (length bytes) (descriptor + compression_offset)
    then none
    else some (behind (take compression_offset p) compression_offset rest)
