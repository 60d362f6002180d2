-- ===== src/Huff/Node/Codes.antt =====
-- What `generate_codes` puts into the map, and what `find_code` finds.
use pkt.Common.{
  ℕ, ◌≤◌, ◌≡◌, ◌≢◌, refl, ap, ◌∙◌, true, false, none, some, [], ◌∷◌, ◌++◌, ◌==◌, ==_refl,
  if◌then◌else◌, inl, inr, ◌↔◌, Bool-cases, arith, append_assoc, append-nil,
}
use pkt.Huff.Node.{
  HuffCode, HuffCodeMap, LeafNode, Node, leaf, internal, code_eq, find, assign, generate_codes,
  descend, walk, find_code, leaf_at, count,
}

pub code_eq_iff : (p q : HuffCode) → (code_eq p q ≡ true) ↔ (p ≡ q)
unfolding code_eq
code_eq_iff [] [] = (λ _. refl, λ _. refl)
code_eq_iff [] (b ∷ q) = (λ e. cc, λ e. cc)
code_eq_iff (a ∷ p) [] = (λ e. cc, λ e. cc)
code_eq_iff (true ∷ p) (true ∷ q) = ground (arith, code_eq_iff p q)
code_eq_iff (true ∷ p) (false ∷ q) = (λ e. cc, λ e. cc)
code_eq_iff (false ∷ p) (true ∷ q) = (λ e. cc, λ e. cc)
code_eq_iff (false ∷ p) (false ∷ q) = ground (arith, code_eq_iff p q)

pub find-assign :
    (m : HuffCodeMap) (k key : ℕ) (code : HuffCode)
    → find (assign m k code) key ≡ (if k == key then some code else find m key)
unfolding find assign
find-assign [] k key code = refl
find-assign ((j, old) ∷ m) k key code = ground (arith, find-assign m k key code)

find_nil : (key : ℕ) → find [] key ≡ none
unfolding find
find_nil key = refl

-- A character that the tree does not hold keeps its entry.
pub find-generate_codes_absent :
    (n : Node) (m : HuffCodeMap) (prefix : HuffCode) (key : ℕ)
    → count key n ≡ 0
    → find (generate_codes m n prefix) key ≡ find m key
unfolding count generate_codes
find-generate_codes_absent (leaf lf) m prefix key h = ground (arith, find-assign m lf.c key prefix)
find-generate_codes_absent (internal f l r) m prefix key h =
    find-generate_codes_absent r (generate_codes m l (prefix ++ false ∷ [])) _ key (omega arith)
    ∙ find-generate_codes_absent l m _ key (omega arith)

-- A path of the tree shows that its character is there.
pub leaf_at-count :
    (n : Node) (p : HuffCode) (lf : LeafNode) → leaf_at n p ≡ some lf → 1 ≤ count lf.c n
unfolding leaf_at count
leaf_at-count (leaf l) [] lf h = ground (arith, ==_refl lf.c)
leaf_at-count (leaf l) (b ∷ p) lf h = cc
leaf_at-count (internal f l r) [] lf h = cc
leaf_at-count (internal f l r) (false ∷ p) lf h = omega (arith, leaf_at-count l p lf h)
leaf_at-count (internal f l r) (true ∷ p) lf h = omega (arith, leaf_at-count r p lf h)

-- In a tree whose characters are distinct, `generate_codes` maps a character to the path of its
-- leaf, behind the prefix.
pub find-generate_codes :
    (n : Node) (m : HuffCodeMap) (prefix p : HuffCode) (lf : LeafNode)
    → ((c : ℕ) → count c n ≤ 1)
    → leaf_at n p ≡ some lf
    → find (generate_codes m n prefix) lf.c ≡ some (prefix ++ p)
unfolding generate_codes leaf_at count
find-generate_codes (leaf l) m prefix [] lf h e =
    simp (append-nil) (ground (arith, find-assign m l.c lf.c prefix, ==_refl lf.c))
find-generate_codes (leaf l) m prefix (b ∷ p) lf h e = cc
find-generate_codes (internal f l r) m prefix [] lf h e = cc
find-generate_codes (internal f l r) m prefix (false ∷ p) lf h e =
    let inside : 1 ≤ count lf.c l = leaf_at-count l p lf e in
    find-generate_codes_absent r (generate_codes m l (prefix ++ false ∷ [])) _ lf.c
      (omega (arith, h lf.c))
    ∙ find-generate_codes l m (prefix ++ false ∷ []) p lf (λ c. omega (arith, h c)) e
    ∙ ap some (append_assoc prefix (false ∷ []) p)
find-generate_codes (internal f l r) m prefix (true ∷ p) lf h e =
    find-generate_codes r (generate_codes m l (prefix ++ false ∷ [])) (prefix ++ true ∷ []) p lf
      (λ c. omega (arith, h c)) e
    ∙ ap some (append_assoc prefix (true ∷ []) p)

-- Every character of the tree has a leaf.
pub leaf_of_count :
    (n : Node) (c : ℕ)
    → 1 ≤ count c n
    → (p : HuffCode) × (lf : LeafNode) × (leaf_at n p ≡ some lf) × (lf.c ≡ c)
unfolding leaf_at count
leaf_of_count (leaf l) c h = ([], l, refl, ground arith)
leaf_of_count (internal f l r) c h = elim (Bool-cases (count c l == 0)) [
  | inl e ↦ let (p, lf, at, same) = leaf_of_count r c (ground arith) in (true ∷ p, lf, at, same)
  | inr e ↦ let (p, lf, at, same) = leaf_of_count l c (ground arith) in (false ∷ p, lf, at, same)
]

-- `find_code` on a path of the tree is its leaf.
walk-leaf_at :
    (n : Node) (p : HuffCode) (lf : LeafNode) → leaf_at n p ≡ some lf → walk n p ≡ leaf lf
unfolding leaf_at walk descend
walk-leaf_at (leaf l) [] lf h = ground arith
walk-leaf_at (leaf l) (b ∷ p) lf h = cc
walk-leaf_at (internal f l r) [] lf h = cc
walk-leaf_at (internal f l r) (false ∷ p) lf h = walk-leaf_at l p lf h
walk-leaf_at (internal f l r) (true ∷ p) lf h = walk-leaf_at r p lf h

pub find_code-leaf_at :
    (n : Node) (p : HuffCode) (lf : LeafNode) → leaf_at n p ≡ some lf → find_code n p ≡ some lf
unfolding find_code
find_code-leaf_at n p lf h = rw (walk-leaf_at n p lf h)

-- The codes of a tree with distinct characters are those, and only those, that lead back to the
-- character: the map and the tree agree.
pub find_code-generate_codes :
    (n : Node) (c : ℕ)
    → ((k : ℕ) → count k n ≤ 1)
    → 1 ≤ count c n
    → (p : HuffCode) × (lf : LeafNode) × (find (generate_codes [] n []) c ≡ some p)
      × (find_code n p ≡ some lf)
      × (lf.c ≡ c)
find_code-generate_codes n c distinct there =
    let (p, lf, at, same) = leaf_of_count n c there in
    (
      p,
      lf,
      rw (← same) (find-generate_codes n [] [] p lf distinct at),
      find_code-leaf_at n p lf at,
      same,
    )

-- What the map holds is a path of the tree.
pub leaf_at_of_find :
    (n : Node) (c : ℕ) (p : HuffCode)
    → ((k : ℕ) → count k n ≤ 1)
    → find (generate_codes [] n []) c ≡ some p
    → (lf : LeafNode) × (leaf_at n p ≡ some lf) × (lf.c ≡ c)
leaf_at_of_find n c p distinct e = elim (Bool-cases (count c n == 0)) [
  | inl none_there ↦ cc (find-generate_codes_absent n [] [] c (ground arith), find_nil c, e)
  | inr there ↦
      let (q, lf, at, same) = leaf_of_count n c (ground arith) in
      let found : find (generate_codes [] n []) c ≡ some q =
        rw (← same) (find-generate_codes n [] [] q lf distinct at) in
      (lf, cc (at, found, e), same)
]

-- No path of a tree is a proper prefix of another.
pub codes_prefix_free :
    (n : Node) (p q : HuffCode) (a b : LeafNode)
    → leaf_at n p ≡ some a
    → leaf_at n (p ++ q) ≡ some b
    → q ≡ []
unfolding leaf_at
codes_prefix_free (leaf l) [] [] a b h k = refl
codes_prefix_free (leaf l) [] (x ∷ q) a b h k = cc
codes_prefix_free (leaf l) (x ∷ p) q a b h k = cc
codes_prefix_free (internal f l r) [] q a b h k = cc
codes_prefix_free (internal f l r) (false ∷ p) q a b h k = codes_prefix_free l p q a b h k
codes_prefix_free (internal f l r) (true ∷ p) q a b h k = codes_prefix_free r p q a b h k

-- The code map that `generateCodes` makes of a tree with distinct characters: no code is a prefix of
-- the code of another character.
pub generate_codes-prefix_free :
    (n : Node) (a b : ℕ) (p q rest : HuffCode)
    → ((k : ℕ) → count k n ≤ 1)
    → a ≢ b
    → find (generate_codes [] n []) a ≡ some p
    → find (generate_codes [] n []) b ≡ some q
    → q ≢ p ++ rest
generate_codes-prefix_free n a b p q rest distinct differ of_a of_b e =
    let (la, at_a, same_a) = leaf_at_of_find n a p distinct of_a in
    let (lb, at_b, same_b) = leaf_at_of_find n b (p ++ rest) distinct (of_b ∙ ap some e) in
    let nothing : rest ≡ [] = codes_prefix_free n p rest la lb at_a at_b in
    let same_code : p ++ rest ≡ p = ap (λ (t : HuffCode). p ++ t) nothing ∙ append-nil p in
    let same_leaf : la ≡ lb = cc (at_a, at_b, same_code) in differ (cc (same_a, same_b, same_leaf))
