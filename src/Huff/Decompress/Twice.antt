-- ===== src/Huff/Decompress/Twice.antt =====
-- Setting the flags of a tree a second time changes nothing.
use pkt.Common.{
  ℕ, ◌<◌, ◌≡◌, refl, sym, ap, ◌∙◌, Bool, true, false, ◌&&◌, Option, none, some, List, [], ◌∷◌, All,
  ltb, ◌==◌, arith, bit_or,
}
use pkt.Common.Table.{table, table-entry}
use pkt.Huff.Node.{HuffCode, LeafNode, Node, leaf, internal, set_code_flag, IsFresh}
use pkt.Huff.Compress.{HuffCodeNSizes}
use pkt.Huff.Decompress.{mark_escapes, mark_eof}

abbrev set_flag : Node → HuffCode → ℕ → Node
set_flag n code value = (set_code_flag n code value).0

-- All flags are among the two.
abbrev pub IsSmall : Node → Type 0
IsSmall (leaf lf) = lf.flags < 4
IsSmall (internal f left right) = IsSmall left × IsSmall right

pub IsFresh-IsSmall : (n : Node) → IsFresh n → IsSmall n
IsFresh-IsSmall (leaf lf) h = omega arith
IsFresh-IsSmall (internal f left right) (hl, hr) =
    (IsFresh-IsSmall left hl, IsFresh-IsSmall right hr)

abbrev or_test : ℕ → ℕ → ℕ → Bool
or_test x v w =
    ltb (bit_or x v) 4
    && (bit_or (bit_or x v) w == bit_or (bit_or x w) v && bit_or (bit_or x v) v == bit_or x v)

or_table : table (λ x. table (λ v. table (or_test x v) 4) 4) 4 ≡ true
unfolding table
or_table = refl

or_laws :
    (x v w : ℕ)
    → x < 4
    → v < 4
    → w < 4
    → (bit_or x v < 4)
      × (bit_or (bit_or x v) w ≡ bit_or (bit_or x w) v)
      × (bit_or (bit_or x v) v ≡ bit_or x v)
or_laws x v w hx hv hw =
    let row = table-entry (λ x. table (λ v. table (or_test x v) 4) 4) 4 x hx or_table in
    let column = table-entry (λ v. table (or_test x v) 4) 4 v hv row in
    let entry = table-entry (or_test x v) 4 w hw column in
    (ground arith, ground arith, ground arith)

abbrev with_flags : LeafNode → ℕ → Node
with_flags lf flags = leaf (record lf { flags = flags })

module _ (v : ℕ) (hv : v < 4) where
  set_flag-IsSmall : (n : Node) (p : HuffCode) → IsSmall n → IsSmall (set_flag n p v)
  unfolding set_code_flag
  set_flag-IsSmall (leaf lf) p h = (or_laws lf.flags v v h hv hv).0
  set_flag-IsSmall (internal f l r) [] h = h
  set_flag-IsSmall (internal f l r) (false ∷ p) h = (set_flag-IsSmall l p h.0, h.1)
  set_flag-IsSmall (internal f l r) (true ∷ p) h = (h.0, set_flag-IsSmall r p h.1)

  set_flag_twice :
      (n : Node) (p : HuffCode) → IsSmall n → set_flag (set_flag n p v) p v ≡ set_flag n p v
  unfolding set_code_flag
  set_flag_twice (leaf lf) p h = ap (with_flags lf) (or_laws lf.flags v v h hv hv).2
  set_flag_twice (internal f l r) [] h = refl
  set_flag_twice (internal f l r) (false ∷ p) h = ap (λ t. internal f t r) (set_flag_twice l p h.0)
  set_flag_twice (internal f l r) (true ∷ p) h = ap (internal f l) (set_flag_twice r p h.1)

  set_flag_comm :
      (n : Node) (p q : HuffCode) (w : ℕ)
      → w < 4
      → IsSmall n
      → set_flag (set_flag n p v) q w ≡ set_flag (set_flag n q w) p v
  unfolding set_code_flag
  set_flag_comm (leaf lf) p q w hw h = ap (with_flags lf) (or_laws lf.flags v w h hv hw).1
  set_flag_comm (internal f l r) [] [] w hw h = refl
  set_flag_comm (internal f l r) [] (false ∷ q) w hw h = refl
  set_flag_comm (internal f l r) [] (true ∷ q) w hw h = refl
  set_flag_comm (internal f l r) (false ∷ p) [] w hw h = refl
  set_flag_comm (internal f l r) (true ∷ p) [] w hw h = refl
  set_flag_comm (internal f l r) (false ∷ p) (false ∷ q) w hw h =
      ap (λ t. internal f t r) (set_flag_comm l p q w hw h.0)
  set_flag_comm (internal f l r) (false ∷ p) (true ∷ q) w hw h = refl
  set_flag_comm (internal f l r) (true ∷ p) (false ∷ q) w hw h = refl
  set_flag_comm (internal f l r) (true ∷ p) (true ∷ q) w hw h =
      ap (internal f l) (set_flag_comm r p q w hw h.1)

-- A list of flags to set.
abbrev set_flags : Node → List (HuffCode × ℕ) → Node
set_flags n [] = n
set_flags n ((code, value) ∷ s) = set_flags (set_flag n code value) s

abbrev AreFlags : List (HuffCode × ℕ) → Type 0
AreFlags = All (λ m. m.1 < 4)

set_flags-set_flag :
    (s : List (HuffCode × ℕ)) (n : Node) (p : HuffCode) (v : ℕ)
    → v < 4
    → AreFlags s
    → IsSmall n
    → set_flags (set_flag n p v) s ≡ set_flag (set_flags n s) p v
set_flags-set_flag [] n p v hv hs h = refl
set_flags-set_flag ((q, w) ∷ s) n p v hv (hw, hs) h =
    ap (λ t. set_flags t s) (set_flag_comm v hv n p q w hw h)
    ∙ set_flags-set_flag s (set_flag n q w) p v hv hs (set_flag-IsSmall w hw n q h)

set_flags_twice :
    (s : List (HuffCode × ℕ)) (n : Node)
    → AreFlags s
    → IsSmall n
    → set_flags (set_flags n s) s ≡ set_flags n s
set_flags_twice [] n hs h = refl
set_flags_twice ((p, v) ∷ s) n (hv, hs) h =
    let m = set_flag n p v in
    let small = set_flag-IsSmall v hv n p h in
    ap (λ t. set_flags t s)
      (sym (set_flags-set_flag s m p v hv hs small)
        ∙ ap (λ t. set_flags t s) (set_flag_twice v hv n p h))
    ∙ set_flags_twice s m hs small

-- The flags of `decompress_stream` as such a list.
abbrev flags_of : HuffCodeNSizes → Option HuffCode → List (HuffCode × ℕ)
flags_of [] none = []
flags_of [] (some code) = (code, 1) ∷ []
flags_of (([], size) ∷ es) eof_code = flags_of es eof_code
flags_of ((bit ∷ code, size) ∷ es) eof_code = (bit ∷ code, 2) ∷ flags_of es eof_code

AreFlags-flags_of :
    (es : HuffCodeNSizes) (eof_code : Option HuffCode) → AreFlags (flags_of es eof_code)
AreFlags-flags_of [] none = tt
AreFlags-flags_of [] (some code) = (omega arith, tt)
AreFlags-flags_of (([], size) ∷ es) eof_code = AreFlags-flags_of es eof_code
AreFlags-flags_of ((bit ∷ code, size) ∷ es) eof_code = (omega arith, AreFlags-flags_of es eof_code)

mark-eq-set_flags :
    (es : HuffCodeNSizes) (eof_code : Option HuffCode) (n : Node)
    → mark_eof (mark_escapes n es) eof_code ≡ set_flags n (flags_of es eof_code)
unfolding mark_escapes mark_eof
mark-eq-set_flags [] none n = refl
mark-eq-set_flags [] (some code) n = refl
mark-eq-set_flags (([], size) ∷ es) eof_code n = mark-eq-set_flags es eof_code n
mark-eq-set_flags ((bit ∷ code, size) ∷ es) eof_code n =
    mark-eq-set_flags es eof_code (set_flag n (bit ∷ code) 2)

pub mark_twice :
    (es : HuffCodeNSizes) (eof_code : Option HuffCode) (n : Node)
    → IsSmall n
    → mark_eof (mark_escapes (mark_eof (mark_escapes n es) eof_code) es) eof_code
      ≡ mark_eof (mark_escapes n es) eof_code
mark_twice es eof_code n h = rw (mark-eq-set_flags es eof_code n) (
    mark-eq-set_flags es eof_code (set_flags n (flags_of es eof_code))
    ∙ set_flags_twice (flags_of es eof_code) n (AreFlags-flags_of es eof_code) h)
