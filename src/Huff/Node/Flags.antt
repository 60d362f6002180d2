-- ===== src/Huff/Node/Flags.antt =====
-- `set_code_flag` changes the flags of one leaf and nothing else.
use pkt.Common.{
  ℕ, zero, suc, ◌<◌, ◌≡◌, refl, Bool, true, false, some, [], ◌∷◌, ◌==◌, if◌then◌else◌, arith,
  bit_or, not, bit_and,
}
use pkt.Huff.Node.{HuffCode, LeafNode, Node, leaf, internal, code_eq, set_code_flag, leaf_at}

-- flags | value, on one leaf
abbrev pub flagged : LeafNode → ℕ → LeafNode
flagged lf value = record lf { flags = bit_or lf.flags value }

pub leaf_at-set_code_flag :
    (n : Node) (p q : HuffCode) (value : ℕ) (lf : LeafNode)
    → leaf_at n p ≡ some lf
    → leaf_at (set_code_flag n p value).0 q
      ≡ (if code_eq p q then some (flagged lf value) else leaf_at n q)
unfolding leaf_at set_code_flag code_eq
leaf_at-set_code_flag (leaf l) [] [] value lf h = ground arith
leaf_at-set_code_flag (leaf l) [] (x ∷ q) value lf h = refl
leaf_at-set_code_flag (leaf l) (x ∷ p) q value lf h = cc
leaf_at-set_code_flag (internal f l r) [] q value lf h = cc
leaf_at-set_code_flag (internal f l r) (false ∷ p) [] value lf h = refl
leaf_at-set_code_flag (internal f l r) (true ∷ p) [] value lf h = refl
leaf_at-set_code_flag (internal f l r) (false ∷ p) (false ∷ q) value lf h =
    leaf_at-set_code_flag l p q value lf h
leaf_at-set_code_flag (internal f l r) (false ∷ p) (true ∷ q) value lf h = refl
leaf_at-set_code_flag (internal f l r) (true ∷ p) (false ∷ q) value lf h = refl
leaf_at-set_code_flag (internal f l r) (true ∷ p) (true ∷ q) value lf h =
    leaf_at-set_code_flag r p q value lf h

-- `flags & 1` (end of data) and `flags & 2` (escape) as tests
abbrev pub is_eof : LeafNode → Bool
is_eof lf = not (bit_and lf.flags 1 == 0)

abbrev pub is_escape : LeafNode → Bool
is_escape lf = not (bit_and lf.flags 2 == 0)

-- Setting either flag on a leaf whose flags are among those two.
pub flag_two :
    (x : ℕ)
    → x < 4
    → (bit_or x 2 < 4) × (bit_and (bit_or x 2) 1 ≡ bit_and x 1) × (bit_and (bit_or x 2) 2 ≡ 2)
flag_two zero h = (omega arith, refl, refl)
flag_two (suc zero) h = (omega arith, refl, refl)
flag_two (suc (suc zero)) h = (omega arith, refl, refl)
flag_two (suc (suc (suc zero))) h = (omega arith, refl, refl)
flag_two (suc (suc (suc (suc x)))) h = absurd (omega arith)

pub flag_one :
    (x : ℕ)
    → x < 4
    → (bit_or x 1 < 4) × (bit_and (bit_or x 1) 1 ≡ 1) × (bit_and (bit_or x 1) 2 ≡ bit_and x 2)
flag_one zero h = (omega arith, refl, refl)
flag_one (suc zero) h = (omega arith, refl, refl)
flag_one (suc (suc zero)) h = (omega arith, refl, refl)
flag_one (suc (suc (suc zero))) h = (omega arith, refl, refl)
flag_one (suc (suc (suc (suc x)))) h = absurd (omega arith)
