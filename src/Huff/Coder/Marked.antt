-- ===== src/Huff/Coder/Marked.antt =====
-- The flags that `decompress` leaves in the tree of a decoder do not change what it does next.
use pkt.Common.{ℕ, ◌≡◌, refl, ap, Option, none, some, List, ◌==◌, Bool-cases, inl, inr}
use mathlib.Core.Option
use pkt.Huff.Node.{HuffCode, Node}
use pkt.Huff.Stream.{BitStream}
use pkt.Huff.Compress.{HuffCodeNSizes}
use pkt.Huff.Decompress.{mark_escapes, mark_eof, decompress_stream}
use pkt.Huff.Decompress.Twice.{IsSmall, mark_twice}
use pkt.Huff.Modes.{decompress_in, decompress_tree}
use pkt.Huff.Coder.Decoder.{Decoder, marked_root, unpack}

-- No pointer to a tree, or one to a tree with no other flags.
abbrev pub HasSmallRoot : Option Node → Type 0
HasSmallRoot none = Unit
HasSmallRoot (some n) = IsSmall n

module _ (b : BitStream) (b_out : List ℕ) where
  decompress_in-marked :
      (mode : ℕ) (n : Node) (es : HuffCodeNSizes) (eof_code : Option HuffCode)
      (force_size offset : ℕ) (src : List ℕ)
      → IsSmall n
      → decompress_in b b_out mode
          (mark_eof (mark_escapes n es) eof_code)
          es
          eof_code
          force_size
          offset
          src
        ≡ decompress_in b b_out mode n es eof_code force_size offset src
  unfolding decompress_in decompress_stream
  decompress_in-marked mode n es eof_code force_size offset src h = rw (mark_twice es eof_code n h)

  tree-marked :
      (d : Decoder) (offset : ℕ) (src : List ℕ)
      → HasSmallRoot d.root
      → decompress_tree b b_out d.mode
          (marked_root d).root
          d.escape_code_sizes
          d.eof_code
          d.force_size
          offset
          src
        ≡ decompress_tree b b_out d.mode d.root d.escape_code_sizes d.eof_code d.force_size offset
            src
  unfolding marked_root decompress_tree
  tree-marked d offset src h = by_root d.root h
    where
      by_root :
          (root : Option Node)
          → HasSmallRoot root
          → decompress_tree b b_out d.mode
              (Option.map (λ t. mark_eof (mark_escapes t d.escape_code_sizes) d.eof_code) root)
              d.escape_code_sizes
              d.eof_code
              d.force_size
              offset
              src
            ≡ decompress_tree b b_out d.mode root d.escape_code_sizes d.eof_code d.force_size offset
                src
      by_root none h = refl
      by_root (some n) h =
          unfold decompress_tree in
          decompress_in-marked d.mode n d.escape_code_sizes d.eof_code d.force_size offset src h

  marked_twice : (d : Decoder) → HasSmallRoot d.root → marked_root (marked_root d) ≡ marked_root d
  unfolding marked_root
  marked_twice d h = ap (λ (r : Option Node). record d { root = r }) (by_root d.root h)
    where
      by_root :
          (root : Option Node)
          → HasSmallRoot root
          → Option.map
              (λ t. mark_eof (mark_escapes t d.escape_code_sizes) d.eof_code)
              (Option.map (λ t. mark_eof (mark_escapes t d.escape_code_sizes) d.eof_code) root)
            ≡ Option.map (λ t. mark_eof (mark_escapes t d.escape_code_sizes) d.eof_code) root
      by_root none h = refl
      by_root (some n) h = ap some (mark_twice d.escape_code_sizes d.eof_code n h)

  -- A decoder that has unpacked a packet, in any mode, does with the next packet what it would have
  -- done without the first, and stays as it is: the tree had no flags but the two to begin with.
  pub unpack-unpack :
      (d : Decoder) (src0 src : List ℕ) (offset0 offset : ℕ)
      → HasSmallRoot d.root
      → unpack b b_out (unpack b b_out d src0 offset0).0 src offset
        ≡ ((unpack b b_out d src0 offset0).0, (unpack b b_out d src offset).1)
  unfolding unpack
  unpack-unpack d src0 src offset0 offset h = elim (Bool-cases (d.mode == 0)) [
    | inl plain ↦ rw (plain, plain) refl
    | inr packed ↦ rw (packed, packed, tree-marked d offset src h, marked_twice d h) refl
  ]
