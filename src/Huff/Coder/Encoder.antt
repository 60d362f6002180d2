-- ===== src/Huff/Coder/Encoder.antt =====
-- HuffmanModifiedEncoder of huff/huffmanmodifiedencoder.cpp. A method returns the object afterwards.
use pkt.Common.{ℕ, Option, none, some, List, [], ◌∷◌, ◌++◌, ltb, ◌==◌, if◌then◌else◌, length, drop}
use mathlib.Core.Option
use pkt.Huff.Node.{HuffCode, HuffCodeMap}
use pkt.Huff.Build.{PriorityQueue, build_tree}
use pkt.Huff.Stream.{BitStream}
use pkt.Huff.Compress.{HuffCodeNSizes, add64, compress}
use pkt.Huff.Coder.{get_huff_code, eof_code_of, code_map_of, move_if}

-- `eof_code` is `mEOFCode` with the code that it points to.
pub record Encoder : Type 0 where
  pub mode : ℕ
  pub code_map : HuffCodeMap
  pub escape_code_sizes : HuffCodeNSizes
  pub eof_code : Option HuffCode

-- HuffmanModifiedEncoder(): `frequencies` and `eof_code` are what was in memory.
unfoldable pub create : PriorityQueue → List ℕ → Option HuffCode → Encoder
unfolding code_map_of
create queue frequencies eof_code = record {
  mode = 1;
  code_map = code_map_of (build_tree queue frequencies);
  escape_code_sizes = [];
  eof_code = eof_code;
}

unfoldable pub set_mode : ℕ → Encoder → Encoder
set_mode value e = record e { mode = value }

-- setCodeMapByMode: only the mode is set.
pub set_code_map_by_mode : ℕ → Encoder → Encoder
set_code_map_by_mode value e = record e { mode = value }

unfoldable pub set_escape_code : List ℕ → ℕ → Encoder → Encoder
unfolding get_huff_code
set_escape_code escape_code bits e = record e {
  escape_code_sizes = e.escape_code_sizes ++ (get_huff_code escape_code, bits) ∷ [];
}

unfoldable pub set_eof_code : List ℕ → Encoder → Encoder
unfolding eof_code_of
set_eof_code escape_code e = record e { eof_code = eof_code_of escape_code }

unfoldable pub set_code_map_from_frequencies : PriorityQueue → List ℕ → Encoder → Encoder
unfolding code_map_of
set_code_map_from_frequencies queue frequencies e = record e {
  code_map = code_map_of (build_tree queue frequencies);
}

-- What `pack` writes to its stream, and what it returns.
unfoldable pub pack : BitStream → Encoder → List ℕ → ℕ → Option (List ℕ × ℕ)
pack b e src offset =
    if e.mode == 1
    then compress b e.code_map e.escape_code_sizes e.eof_code offset src
    else some (src, length src)

-- min(size, dest_size)
unfoldable pub truncated : ℕ → ℕ → ℕ
truncated sz dest_size = if ltb dest_size sz then dest_size else sz

-- The part of `encode_buffer2buffer` behind `pack`: the destination afterwards, and the result.
unfoldable pub store_packed :
    Option (List ℕ) → ℕ → ℕ → Option (List ℕ × ℕ) → Option (Option (List ℕ) × ℕ)
unfolding move_if truncated
store_packed dest dest_size offset none = none
store_packed none dest_size offset (some (s, sz)) = some (none, add64 sz offset)
store_packed (some dest) dest_size offset (some (s, sz)) =
    let sz' = truncated sz dest_size in
    Option.map (λ dest'. (dest', add64 sz' offset)) (move_if (some dest) offset s sz')

-- The copy of mode 0.
store_plain : Option (List ℕ) → ℕ → ℕ → List ℕ → Option (Option (List ℕ) × ℕ)
unfolding move_if truncated
store_plain dest dest_size offset bytes =
    Option.map (λ dest'. (dest', length bytes))
      (move_if dest offset bytes (truncated (length bytes) dest_size))

-- encode_buffer2buffer
unfoldable pub encode_buffer2buffer :
    BitStream → Encoder → Option (List ℕ) → ℕ → Option (List ℕ) → ℕ → Option (Option (List ℕ) × ℕ)
unfolding pack store_packed store_plain
encode_buffer2buffer b e dest dest_size none offset = some (dest, 0)
encode_buffer2buffer b e dest dest_size (some bytes) offset =
    let packed = store_packed dest dest_size offset (pack b e (drop offset bytes) offset) in
    if e.mode == 0
    then store_plain dest dest_size offset bytes
    else if ltb (length bytes) offset
    then none
    else packed
