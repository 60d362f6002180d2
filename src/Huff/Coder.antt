-- ===== src/Huff/Coder.antt =====
-- The classes HuffmanModifiedEncoder and HuffmanModifiedDecoder of huff/huffmanmodifiedencoder.cpp
-- and huff/huffmanmodifieddecoder.cpp. `none` is what the source leaves undefined: a read or a write
-- outside a buffer. A null pointer to a buffer or a tree is `none` too. The constructors build a tree
-- of 256 frequencies that they never set, and leave the end code unset: what is there is an argument.
pub mod Encoder
pub mod Decoder
pub mod Marked
pub mod Trip
pub mod Buffer
pub mod Overread
mod Runs
use pkt.Common.{
  ℕ, ◌+◌, ◌≤◌, ◌==◌, ◌&&◌, Option, none, some, List, [], ◌∷◌, ◌++◌, leb, if◌then◌else◌, length,
  take,
}
use mathlib.Core.Option
use pkt.Common.Bytes.{overwrite}
use pkt.Huff.Node.{HuffCode, HuffCodeMap, Node, generate_codes}

-- getHuffCode of huff/huffcode.cpp
unfoldable pub get_huff_code : List ℕ → HuffCode
get_huff_code [] = []
get_huff_code (c ∷ t) = (c == b'1') ∷ get_huff_code t

-- setEOFCode of both classes: the code that the pointer then shows.
unfoldable pub eof_code_of : List ℕ → Option HuffCode
unfolding get_huff_code
eof_code_of [] = none
eof_code_of (c ∷ t) = some (get_huff_code (c ∷ t))

-- `generateCodes` into an empty map; a null pointer is neither kind of node.
unfoldable pub code_map_of : Option Node → HuffCodeMap
code_map_of none = []
code_map_of (some root) = generate_codes [] root []

-- memmove(dest + offset, s.c_str(), sz) of the string `s`, which a NUL follows: it is `none` where
-- one of the two buffers is too small.
unfoldable pub move_string : List ℕ → ℕ → List ℕ → ℕ → Option (List ℕ)
move_string dest offset s sz =
    if leb sz (length s + 1) && leb (offset + sz) (length dest)
    then some (overwrite dest offset (take sz (s ++ 0 ∷ [])))
    else none

-- The same with `if (dest)` in front.
unfoldable pub move_if : Option (List ℕ) → ℕ → List ℕ → ℕ → Option (Option (List ℕ))
unfolding move_string
move_if none offset s sz = some none
move_if (some dest) offset s sz = Option.map some (move_string dest offset s sz)
