-- ===== src/Huff/Decompress/Marks.antt =====
-- The flags of the leaves once the loop starts.
use pkt.Common.{
  ℕ, ◌<◌, ◌≡◌, refl, sym, ap, ◌∙◌, Bool, true, false, not, ◌||◌, Option, none, some, [], ◌∷◌, All,
  arith, ◌==◌, bit_and, Bool-cases, inl, inr,
}
use pkt.Huff.Node.{
  HuffCode, LeafNode, Node, code_eq, set_code_flag, leaf_at, leaf, internal, IsFresh,
}
use pkt.Huff.Node.Codes.{code_eq_iff}
use pkt.Huff.Node.Flags.{flagged, is_eof, is_escape, leaf_at-set_code_flag, flag_one, flag_two}
use pkt.Huff.Compress.{HuffCodeNSize, HuffCodeNSizes, find_huff_code_n_size}
use pkt.Huff.Decompress.{mark_escapes, mark_eof}

-- A code of the tree.
abbrev pub IsPath : Node → HuffCode → Type 0
IsPath n p = (lf : LeafNode) × (leaf_at n p ≡ some lf)

-- Every escape code is one.
abbrev pub ArePaths : Node → HuffCodeNSizes → Type 0
ArePaths n = All (λ hcs. IsPath n hcs.0)

abbrev pub is_some : Option HuffCodeNSize → Bool
is_some none = false
is_some (some hcs) = true

abbrev pub listed : HuffCodeNSizes → HuffCode → Bool
listed es code = is_some (find_huff_code_n_size es code)

pub leaf_at-IsFresh :
    (n : Node) (p : HuffCode) (lf : LeafNode) → IsFresh n → leaf_at n p ≡ some lf → lf.flags ≡ 0
unfolding leaf_at
leaf_at-IsFresh (leaf l) [] lf h e = ground arith
leaf_at-IsFresh (leaf l) (x ∷ p) lf h e = cc
leaf_at-IsFresh (internal f l r) [] lf h e = cc
leaf_at-IsFresh (internal f l r) (false ∷ p) lf h e = leaf_at-IsFresh l p lf h.0 e
leaf_at-IsFresh (internal f l r) (true ∷ p) lf h e = leaf_at-IsFresh r p lf h.1 e

-- Setting a flag keeps the codes of the tree.
set_code_flag-IsPath :
    (n : Node) (p q : HuffCode) (value : ℕ)
    → IsPath n p
    → IsPath n q
    → IsPath (set_code_flag n p value).0 q
set_code_flag-IsPath n p q value (a, ha) (c, hc) = elim (Bool-cases (code_eq p q)) [
  | inl same ↦ (flagged a value, leaf_at-set_code_flag n p q value a ha ∙ rw same)
  | inr other ↦ (c, leaf_at-set_code_flag n p q value a ha ∙ rw other hc)
]

set_code_flag-ArePaths :
    (n : Node) (p : HuffCode) (value : ℕ) (es : HuffCodeNSizes)
    → IsPath n p
    → ArePaths n es
    → ArePaths (set_code_flag n p value).0 es
set_code_flag-ArePaths n p value [] h hs = tt
set_code_flag-ArePaths n p value (e ∷ es) h (he, hs) =
    (set_code_flag-IsPath n p e.0 value h he, set_code_flag-ArePaths n p value es h hs)

-- What the marks make of a leaf: its character stays, and its flags say what its code is for.
pub record Marked (lf : LeafNode) (eof escape : Bool) (marked : LeafNode) : Type 0 where
  pub same_c : marked.c ≡ lf.c
  pub small : marked.flags < 4
  pub eof_flag : is_eof marked ≡ eof
  pub escape_flag : is_escape marked ≡ escape

or_true : (t u : Bool) → u ≡ true → (t || u) ≡ true
or_true true u h = refl
or_true false u h = h

or_false : (t : Bool) → (t || false) ≡ t
or_false true = refl
or_false false = refl

-- A leaf that has been given the escape flag, seen from the leaf as it was.
Marked-flagged :
    (lf lf' : LeafNode) (t : Bool)
    → lf.flags < 4
    → Marked (flagged lf 2) (is_eof (flagged lf 2)) (t || is_escape (flagged lf 2)) lf'
    → Marked lf (is_eof lf) true lf'
Marked-flagged lf lf' t small m =
    let (here, eof_kept, set) = flag_two lf.flags small in
    record {
      same_c = m.same_c;
      small = m.small;
      eof_flag = m.eof_flag ∙ ap (λ (x : ℕ). not (x == 0)) eof_kept;
      escape_flag = m.escape_flag ∙ or_true t _ (ap (λ (x : ℕ). not (x == 0)) set);
    }

-- The same for the flag of the end code.
Marked-eof :
    (lf lf' : LeafNode) (e : Bool) → Marked lf false e lf' → Marked lf true e (flagged lf' 1)
Marked-eof lf lf' e m =
    let (here, set, kept) = flag_one lf'.flags m.small in
    record {
      same_c = m.same_c;
      small = here;
      eof_flag = ap (λ (x : ℕ). not (x == 0)) set;
      escape_flag = ap (λ (x : ℕ). not (x == 0)) kept ∙ m.escape_flag;
    }

mark_escapes-leaf_at :
    (es : HuffCodeNSizes) (n : Node) (bit : Bool) (q : HuffCode) (lf : LeafNode)
    → leaf_at n (bit ∷ q) ≡ some lf
    → lf.flags < 4
    → ArePaths n es
    → (lf' : LeafNode) × (leaf_at (mark_escapes n es) (bit ∷ q) ≡ some lf')
      × Marked lf (is_eof lf) (listed es (bit ∷ q) || is_escape lf) lf'
unfolding mark_escapes find_huff_code_n_size code_eq
mark_escapes-leaf_at [] n bit q lf h small hs =
    (lf, h, record { same_c = refl; small = small; eof_flag = refl; escape_flag = refl })
mark_escapes-leaf_at (([], size) ∷ es) n bit q lf h small hs =
    mark_escapes-leaf_at es n bit q lf h small hs.1
mark_escapes-leaf_at ((x ∷ p, size) ∷ es) n bit q lf h small ((a, ha), hs) =
    elim (Bool-cases (code_eq (x ∷ p) (bit ∷ q))) [
      | inl same ↦
          let a_lf : some a ≡ some lf =
            sym ha ∙ ap (leaf_at n) ((code_eq_iff (x ∷ p) (bit ∷ q)).0 same) ∙ h in
          let at : leaf_at (set_code_flag n (x ∷ p) 2).0 (bit ∷ q) ≡ some (flagged lf 2) =
            leaf_at-set_code_flag n (x ∷ p) (bit ∷ q) 2 a ha ∙ rw same (cc a_lf) in
          let (lf', at', m) =
            mark_escapes-leaf_at es (set_code_flag n (x ∷ p) 2).0 bit q (flagged lf 2) at
              (flag_two lf.flags small).0 (set_code_flag-ArePaths n (x ∷ p) 2 es (a, ha) hs) in
          (lf', at', rw same (Marked-flagged lf lf' (listed es (bit ∷ q)) small m))
      | inr other ↦
          let at : leaf_at (set_code_flag n (x ∷ p) 2).0 (bit ∷ q) ≡ some lf =
            leaf_at-set_code_flag n (x ∷ p) (bit ∷ q) 2 a ha ∙ rw other h in
          let (lf', at', m) =
            mark_escapes-leaf_at es (set_code_flag n (x ∷ p) 2).0 bit q lf at small
              (set_code_flag-ArePaths n (x ∷ p) 2 es (a, ha) hs) in
          (lf', at', rw other m)
    ]

mark_escapes-ArePaths :
    (es more : HuffCodeNSizes) (n : Node)
    → ArePaths n es
    → ArePaths n more
    → ArePaths (mark_escapes n es) more
unfolding mark_escapes
mark_escapes-ArePaths [] more n h k = k
mark_escapes-ArePaths (([], size) ∷ es) more n (path, h) k = mark_escapes-ArePaths es more n h k
mark_escapes-ArePaths ((x ∷ p, size) ∷ es) more n (path, h) k =
    mark_escapes-ArePaths es more (set_code_flag n (x ∷ p) 2).0
      (set_code_flag-ArePaths n (x ∷ p) 2 es path h)
      (set_code_flag-ArePaths n (x ∷ p) 2 more path k)

-- The end code is a code of the tree, if there is one.
abbrev pub EofPath : Node → Option HuffCode → Type 0
EofPath n none = Unit
EofPath n (some code) = IsPath n code

abbrev pub is_eof_code : Option HuffCode → HuffCode → Bool
is_eof_code none p = false
is_eof_code (some code) p = code_eq code p

mark_eof-leaf_at :
    (eof_code : Option HuffCode) (n : Node) (p : HuffCode) (lf lf' : LeafNode) (e : Bool)
    → leaf_at n p ≡ some lf'
    → Marked lf false e lf'
    → EofPath n eof_code
    → (lf'' : LeafNode) × (leaf_at (mark_eof n eof_code) p ≡ some lf'')
      × Marked lf (is_eof_code eof_code p) e lf''
unfolding mark_eof
mark_eof-leaf_at none n p lf lf' e h m path = (lf', h, m)
mark_eof-leaf_at (some code) n p lf lf' e h m (a, ha) = elim (Bool-cases (code_eq code p)) [
  | inl same ↦
      let a_lf : some a ≡ some lf' = sym ha ∙ ap (leaf_at n) ((code_eq_iff code p).0 same) ∙ h in
      (
        flagged lf' 1,
        leaf_at-set_code_flag n code p 1 a ha ∙ rw same (cc a_lf),
        rw same (Marked-eof lf lf' e m),
      )
  | inr other ↦ (lf', leaf_at-set_code_flag n code p 1 a ha ∙ rw other h, rw other m)
]

-- In a tree that has just been built, the marks leave at each code a leaf with the character of
-- that code, with the end flag just if it is the end code, and the escape flag just if it is an
-- escape code.
pub Marked-leaf :
    (n : Node) (es : HuffCodeNSizes) (eof_code : Option HuffCode) (bit : Bool) (p : HuffCode)
    (lf : LeafNode)
    → IsFresh n
    → ArePaths n es
    → EofPath n eof_code
    → leaf_at n (bit ∷ p) ≡ some lf
    → (lf' : LeafNode) × (leaf_at (mark_eof (mark_escapes n es) eof_code) (bit ∷ p) ≡ some lf')
      × Marked lf (is_eof_code eof_code (bit ∷ p)) (listed es (bit ∷ p)) lf'
Marked-leaf n es eof_code bit p lf fresh paths eof_path h =
    let zero_flags = leaf_at-IsFresh n (bit ∷ p) lf fresh h in
    let (lf', at, m) = mark_escapes-leaf_at es n bit p lf h (omega arith) paths in
    mark_eof-leaf_at eof_code (mark_escapes n es) (bit ∷ p) lf lf' (listed es (bit ∷ p)) at
      (unflagged lf lf' (listed es (bit ∷ p)) zero_flags m) (escapes_keep eof_code eof_path)
  where
    escapes_keep : (eof : Option HuffCode) → EofPath n eof → EofPath (mark_escapes n es) eof
    escapes_keep none h = tt
    escapes_keep (some code) path = (mark_escapes-ArePaths es ((code, 0) ∷ []) n paths (path, tt)).0

    unflagged :
        (a a' : LeafNode) (t : Bool)
        → a.flags ≡ 0
        → Marked a (is_eof a) (t || is_escape a) a'
        → Marked a false t a'
    unflagged a a' t z k = record {
      same_c = k.same_c;
      small = k.small;
      eof_flag = k.eof_flag ∙ ap (λ (x : ℕ). not (bit_and x 1 == 0)) z;
      escape_flag = k.escape_flag ∙ ap (λ (x : ℕ). t || not (bit_and x 2 == 0)) z ∙ or_false t;
    }
