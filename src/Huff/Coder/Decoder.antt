-- ===== src/Huff/Coder/Decoder.antt =====
-- HuffmanModifiedDecoder of huff/huffmanmodifieddecoder.cpp. A method returns the object afterwards:
-- `decompress` leaves its flags in the leaves of the tree.
use pkt.Common.{
  ℕ, Bool, false, Option, none, some, List, [], ◌∷◌, ◌++◌, ltb, ◌==◌, ◌||◌, if◌then◌else◌, length,
  drop,
}
use mathlib.Core.Option
use pkt.Huff.Node.{HuffCode, Node}
use pkt.Huff.Build.{PriorityQueue, build_tree}
use pkt.Huff.Stream.{BitStream}
use pkt.Huff.Compress.{HuffCodeNSizes, add64}
use pkt.Huff.Decompress.{Outcome, returned, running, mark_escapes, mark_eof}
use pkt.Huff.Modes.{decompress_tree}
use pkt.Huff.Coder.{get_huff_code, eof_code_of, move_if}

pub record Decoder : Type 0 where
  pub mode : ℕ
  pub root : Option Node
  pub escape_code_sizes : HuffCodeNSizes
  pub eof_code : Option HuffCode
  pub force_size : ℕ
  pub valid_packet_sizes : List ℕ

-- HuffmanModifiedDecoder(): the last three arguments are what was in memory.
unfoldable pub create : PriorityQueue → List ℕ → Option HuffCode → ℕ → Decoder
create queue frequencies eof_code force_size = record {
  mode = 1;
  root = build_tree queue frequencies;
  escape_code_sizes = [];
  eof_code = eof_code;
  force_size = force_size;
  valid_packet_sizes = [];
}

unfoldable pub set_mode : ℕ → Decoder → Decoder
set_mode value d = record d { mode = value }

unfoldable pub set_escape_code : List ℕ → ℕ → Decoder → Decoder
unfolding get_huff_code
set_escape_code escape_code bits d = record d {
  escape_code_sizes = d.escape_code_sizes ++ (get_huff_code escape_code, bits) ∷ [];
}

unfoldable pub set_eof_code : List ℕ → Decoder → Decoder
unfolding eof_code_of
set_eof_code escape_code d = record d { eof_code = eof_code_of escape_code }

unfoldable pub set_force_size : ℕ → Decoder → Decoder
set_force_size value d = record d { force_size = value }

unfoldable pub set_tree_from_frequencies : PriorityQueue → List ℕ → Decoder → Decoder
set_tree_from_frequencies queue frequencies d = record d { root = build_tree queue frequencies }

unfoldable pub set_valid_packet_sizes : List ℕ → Decoder → Decoder
set_valid_packet_sizes value d = record d { valid_packet_sizes = value }

-- The tree with the flags that a run of `decompress` leaves in it.
unfoldable pub marked_root : Decoder → Decoder
marked_root d = record d {
  root = Option.map (λ t. mark_eof (mark_escapes t d.escape_code_sizes) d.eof_code) d.root;
}

-- The object afterwards, and what `unpack` writes and returns; `b_out` is what is on the stack.
unfoldable pub unpack : BitStream → List ℕ → Decoder → List ℕ → ℕ → Decoder × Option Outcome
unfolding marked_root
unpack b b_out d src offset = if d.mode == 0 then (d, some (returned src (length src))) else (
  marked_root d,
  decompress_tree b b_out d.mode d.root d.escape_code_sizes d.eof_code d.force_size offset src,
)

-- std::find in the valid sizes
unfoldable pub is_listed : ℕ → List ℕ → Bool
is_listed size [] = false
is_listed size (x ∷ sizes) = x == size || is_listed size sizes

-- What becomes of the destination, and the result; or the call never returns.
pub data Decoded : Type 0 where
  decoded : Option (List ℕ) → ℕ → Decoded
  endless : Decoded

-- The part of `decode_buffer2buffer` behind `unpack`, for a packet of `size` bytes.
unfoldable pub store_unpacked :
    List ℕ → Option (List ℕ) → ℕ → ℕ → ℕ → Option Outcome → Option Decoded
unfolding is_listed move_if
store_unpacked valid dest dest_size size offset none = none
store_unpacked valid dest dest_size size offset (some running) = some endless
store_unpacked valid dest dest_size size offset (some (returned s sz)) =
    let sz' = if ltb dest_size sz then dest_size else sz in
    let stored =
      Option.map (λ dest'. decoded dest' (add64 sz' offset)) (move_if dest offset s sz') in
    if sz == 0
    then some (decoded dest (add64 0 offset))
    else if is_listed (add64 sz' offset) valid
    then some (decoded dest size)
    else stored

-- decode_buffer2buffer
unfoldable pub decode_buffer2buffer :
    BitStream → List ℕ → Decoder → Option (List ℕ) → ℕ → List ℕ → ℕ → Decoder × Option Decoded
unfolding unpack store_unpacked
decode_buffer2buffer b b_out d dest dest_size bytes offset =
    let (d', outcome) = unpack b b_out d (drop offset bytes) offset in
    let stored = store_unpacked d.valid_packet_sizes dest dest_size (length bytes) offset outcome in
    if d.mode == 0
    then (d, some (decoded dest (length bytes)))
    else if ltb (length bytes) offset
    then (d', none)
    else (d', stored)
