-- ===== src/Huff/Build.antt =====
-- The construction of Huffman trees: `buildFrequencies`, `buildTree` and `buildTreeFromCodes` of
-- huff/huffcode.cpp.
pub mod Leaves
pub mod Sample
pub mod Symbols
use pkt.Common.{
  ℕ, zero, suc, ◌+◌, ◌-◌, ◌%◌, ◌^◌, ◌≤◌, ◌≡◌, Option, none, some, List, [], ◌∷◌, All, length,
  replicate, ◌==◌, if◌then◌else◌,
}
use pkt.Huff.Node.{HuffCodeMap, Node, leaf, weight, internal_node}

-- The sum of `p` over a list.
abbrev pub total : (Node → ℕ) → List Node → ℕ
total p [] = 0
total p (n ∷ q) = p n + total p q

-- The order of two int: that of the numbers of their bits with the sign bit turned over.
abbrev pub int_order : ℕ → ℕ
int_order f = (f + 2 ^ 31) % 2 ^ 32

-- `std::priority_queue<Node*, std::vector<Node*>, NodeCmp>`: `pop x q` is what `top` and `pop` give
-- on the queue that holds `x` and `q`. It holds the same nodes before and after, the one given back
-- included, which is one of the lightest by NodeCmp, that is by the int `f`. Which of several it is the library leaves open.
pub record PriorityQueue : Type 0 where
  pub pop : Node → List Node → Node × List Node
  pub pop-total :
      (p : Node → ℕ) (x : Node) (q : List Node)
      → p (pop x q).0 + total p (pop x q).1 ≡ p x + total p q
  pub pop-lightest :
      (x : Node) (q : List Node)
      → All (λ n. int_order (weight (pop x q).0) ≤ int_order (weight n)) (pop x q).1

-- ++frequencies[byte]
bump : List ℕ → ℕ → List ℕ
bump [] byte = []
bump (n ∷ frequencies) zero = (n + 1) ∷ frequencies
bump (n ∷ frequencies) (suc byte) = n ∷ bump frequencies byte

frequencies_loop : List ℕ → List ℕ → List ℕ
unfolding bump
frequencies_loop frequencies [] = frequencies
frequencies_loop frequencies (byte ∷ bytes) = frequencies_loop (bump frequencies byte) bytes

unfoldable pub build_frequencies : ℕ → List ℕ → List ℕ
unfolding frequencies_loop
build_frequencies symbols_size bytes = frequencies_loop (replicate symbols_size 0) bytes

-- The leaves that are pushed, from the symbol `i` on: `(char) i` keeps the lowest byte of `i`, and the
-- int `f` the lowest 32 bits of the frequency.
leaves_from : ℕ → List ℕ → List Node
leaves_from i [] = []
leaves_from i (n ∷ frequencies) =
    let rest = leaves_from (i + 1) frequencies in
    if n == 0 then rest else leaf (record { f = n % 2 ^ 32; c = i % 256; flags = 0 }) ∷ rest

module _ (queue : PriorityQueue) (join : Node → Node → Node) where
  -- The second `top` and `pop`, where there is one, and the `push` of the new parent.
  join_next : Node → List Node → List Node
  join_next childR [] = childR ∷ []
  join_next childR (n ∷ q) = let (childL, q') = queue.pop n q in join childR childL ∷ q'

  -- The loop `while (trees.size() > 1)`: each round leaves one tree less.
  merge : ℕ → List Node → Option Node
  unfolding join_next
  merge fuel [] = none
  merge fuel (n ∷ []) = some n
  merge zero (n ∷ m ∷ q) = none
  merge (suc fuel) (n ∷ m ∷ q) =
      let (childR, q') = queue.pop n (m ∷ q) in merge fuel (join_next childR q')

unfoldable pub build_tree : PriorityQueue → List ℕ → Option Node
unfolding merge leaves_from internal_node
build_tree queue frequencies =
    let trees = leaves_from 0 frequencies in
    merge queue (λ childR childL. internal_node childR childL) (length trees) trees

-- The leaves of `buildTreeFromCodes`, with falling weights from the size of the map and one on.
leaves_of_codes : ℕ → HuffCodeMap → List Node
leaves_of_codes f [] = []
leaves_of_codes f ((c, code) ∷ codes) =
    leaf (record { f = f; c = c; flags = 0 }) ∷ leaves_of_codes (f - 1) codes

pub build_tree_from_codes : PriorityQueue → HuffCodeMap → Option Node
unfolding merge leaves_of_codes internal_node
build_tree_from_codes queue codes =
    merge queue (λ childR childL. internal_node childL childR) (length codes)
      (leaves_of_codes (length codes + 1) codes)
