-- ===== src/Huff/Node.antt =====
-- Huffman trees and code maps: huff/node.h, huff/leafnode.cpp, huff/internalnode.cpp and the
-- tree functions of huff/huffcode.cpp. A `std::vector<bool>` is a list of Booleans, a
-- `std::map<unsigned char, HuffCode>` an association list in the order of its keys.
pub mod Codes
pub mod Flags
use pkt.Common.{
  ℕ, suc, ◌+◌, ◌%◌, ◌^◌, Bool, true, false, Option, none, some, List, [], ◌∷◌, ◌++◌, ◌≡◌, ltb, ◌==◌,
  if◌then◌else◌, bit_or,
}

abbrev pub HuffCode : Type 0
HuffCode = List Bool

abbrev pub HuffCodeMap : Type 0
HuffCodeMap = List (ℕ × HuffCode)

-- `f`, an int, is the number below 2^32 that its 32 bits stand for without a sign.
pub record LeafNode : Type 0 where
  pub f : ℕ
  pub c : ℕ
  pub flags : ℕ

-- `f` of an internal node is the sum that its constructor computes.
pub data Node : Type 0 where
  leaf : LeafNode → Node
  internal : ℕ → Node → Node → Node

unfoldable pub weight : Node → ℕ
weight (leaf lf) = lf.f
weight (internal f l r) = f

-- InternalNode(c0, c1): the sum of two int. One that does not fit an int, which the language leaves
-- undefined, wraps around here.
unfoldable pub internal_node : Node → Node → Node
unfolding weight
internal_node c0 c1 = internal ((weight c0 + weight c1) % 2 ^ 32) c0 c1

-- `==` of two `std::vector<bool>`
unfoldable pub code_eq : HuffCode → HuffCode → Bool
code_eq [] [] = true
code_eq [] (b ∷ q) = false
code_eq (a ∷ p) [] = false
code_eq (true ∷ p) (true ∷ q) = code_eq p q
code_eq (true ∷ p) (false ∷ q) = false
code_eq (false ∷ p) (true ∷ q) = false
code_eq (false ∷ p) (false ∷ q) = code_eq p q

-- codes.find(key)
unfoldable pub find : HuffCodeMap → ℕ → Option HuffCode
find [] key = none
find ((k, code) ∷ m) key = if k == key then some code else find m key

-- codes[key] = code
pub assign : HuffCodeMap → ℕ → HuffCode → HuffCodeMap
assign [] key code = (key, code) ∷ []
assign ((k, old) ∷ m) key code =
    if k == key
    then (key, code) ∷ m
    else if ltb key k
    then (key, code) ∷ (k, old) ∷ m
    else (k, old) ∷ assign m key code

unfoldable pub generate_codes : HuffCodeMap → Node → HuffCode → HuffCodeMap
unfolding assign
generate_codes out_codes (leaf lf) prefix = assign out_codes lf.c prefix
generate_codes out_codes (internal f left right) prefix =
    let out' = generate_codes out_codes left (prefix ++ false ∷ []) in
    generate_codes out' right (prefix ++ true ∷ [])

-- max_depth0
max_depth0 : ℕ → Node → ℕ
max_depth0 depth (leaf lf) = depth + 1
max_depth0 depth (internal f left right) =
    let l = max_depth0 (depth + 1) left in
    let r = max_depth0 (depth + 1) right in if ltb r l then l else r

pub get_tree_max_depth : Node → ℕ
unfolding max_depth0
get_tree_max_depth node = max_depth0 0 node

-- One step of a walk: at an internal node the bit picks the child, at a leaf it is dropped.
unfoldable pub descend : Node → Bool → Node
descend (leaf lf) bit = leaf lf
descend (internal f left right) false = left
descend (internal f left right) true = right

walk : Node → HuffCode → Node
unfolding descend
walk n [] = n
walk n (bit ∷ code) = walk (descend n bit) code

pub as_leaf : Node → Option LeafNode
as_leaf (leaf lf) = some lf
as_leaf (internal f left right) = none

unfoldable pub find_code : Node → HuffCode → Option LeafNode
unfolding walk as_leaf
find_code root code = as_leaf (walk root code)

-- The tree after `r->flags |= value` at the leaf that `find_code` returns, and whether there is
-- such a leaf.
unfoldable pub set_code_flag : Node → HuffCode → ℕ → Node × Bool
set_code_flag (leaf lf) code value = (leaf (record lf { flags = bit_or lf.flags value }), true)
set_code_flag (internal f left right) [] value = (internal f left right, false)
set_code_flag (internal f left right) (false ∷ code) value =
    let (left', found) = set_code_flag left code value in (internal f left' right, found)
set_code_flag (internal f left right) (true ∷ code) value =
    let (right', found) = set_code_flag right code value in (internal f left right', found)

-- clear_code_flag: the same with `r->flags = 0`.
pub clear_code_flag : Node → HuffCode → Node × Bool
clear_code_flag (leaf lf) code = (leaf (record lf { flags = 0 }), true)
clear_code_flag (internal f left right) [] = (internal f left right, false)
clear_code_flag (internal f left right) (false ∷ code) =
    let (left', found) = clear_code_flag left code in (internal f left' right, found)
clear_code_flag (internal f left right) (true ∷ code) =
    let (right', found) = clear_code_flag right code in (internal f left right', found)

-- The leaf that a path of the tree ends at, with no bit left over: the codes of the tree.
unfoldable pub leaf_at : Node → HuffCode → Option LeafNode
leaf_at (leaf lf) [] = some lf
leaf_at (leaf lf) (bit ∷ code) = none
leaf_at (internal f left right) [] = none
leaf_at (internal f left right) (false ∷ code) = leaf_at left code
leaf_at (internal f left right) (true ∷ code) = leaf_at right code

-- How many leaves hold the character `c`.
unfoldable pub count : ℕ → Node → ℕ
count c (leaf lf) = if lf.c == c then 1 else 0
count c (internal f left right) = count c left + count c right

-- No leaf has a flag, as in a tree that has just been built.
abbrev pub IsFresh : Node → Type 0
IsFresh (leaf lf) = lf.flags ≡ 0
IsFresh (internal f left right) = IsFresh left × IsFresh right
