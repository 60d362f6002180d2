-- ===== src/Huff/Build/Symbols.antt =====
-- `buildTreeFromCodes` looks at the symbols of a code map, not at the codes.
use pkt.Common.{ℕ, ◌-◌, ◌+◌, ◌≡◌, refl, suc, ap, ap₂, ◌∙◌, List, [], ◌∷◌, map, length}
use pkt.Huff.Node.{HuffCodeMap, Node, leaf, internal_node}
use pkt.Huff.Build.{PriorityQueue, merge, leaves_of_codes, build_tree_from_codes}

-- the symbols of a map
abbrev pub symbols : HuffCodeMap → List ℕ
symbols codes = map (λ entry. entry.0) codes

leaves_of_codes-symbols :
    (f : ℕ) (codes codes' : HuffCodeMap)
    → symbols codes ≡ symbols codes'
    → leaves_of_codes f codes ≡ leaves_of_codes f codes'
unfolding leaves_of_codes
leaves_of_codes-symbols f [] [] e = refl
leaves_of_codes-symbols f [] (y ∷ codes') e = cc e
leaves_of_codes-symbols f (x ∷ codes) [] e = cc e
leaves_of_codes-symbols f ((c, p) ∷ codes) ((c', p') ∷ codes') e =
    ap₂ (λ (k : ℕ) (q : List Node). leaf (record { f = f; c = k; flags = 0 }) ∷ q) (cc e)
      (leaves_of_codes-symbols (f - 1) codes codes' (cc e))

length-symbols :
    (codes codes' : HuffCodeMap) → symbols codes ≡ symbols codes' → length codes ≡ length codes'
length-symbols [] [] e = refl
length-symbols [] (y ∷ codes') e = cc e
length-symbols (x ∷ codes) [] e = cc e
length-symbols (x ∷ codes) (y ∷ codes') e = ap suc (length-symbols codes codes' (cc e))

-- Two code maps with the same symbols in the same order make the same tree, whatever their codes are.
pub build_tree_from_codes-symbols :
    (queue : PriorityQueue) (codes codes' : HuffCodeMap)
    → symbols codes ≡ symbols codes'
    → build_tree_from_codes queue codes ≡ build_tree_from_codes queue codes'
unfolding build_tree_from_codes
build_tree_from_codes-symbols queue codes codes' e =
    let long = length-symbols codes codes' e in
    ap₂ (λ (n : ℕ) (q : List Node). merge queue (λ childR childL. internal_node childL childR) n q)
      long
      (ap (λ (n : ℕ). leaves_of_codes (n + 1) codes) long
        ∙ leaves_of_codes-symbols (length codes' + 1) codes codes' e)
