-- ===== src/Huff/Coder/Trip.antt =====
-- What an encoder packs a decoder unpacks, where both were set up with the same frequencies, escape
-- codes and end code.
use pkt.Common.{
  ℕ, ◌+◌, ◌%◌, ◌^◌, ◌≤◌, ◌≡◌, refl, sym, ap, subst, ◌∙◌, Option, none, some, List, [], ◌∷◌, All,
  map, length, drop, get_elem?, inl, inr, arith,
}
use pkt.Huff.Node.{HuffCode, Node, internal, count, IsFresh}
use pkt.Huff.Build.{PriorityQueue, build_tree}
use pkt.Huff.Build.Leaves.{present, build_tree_wrap}
use pkt.Huff.Stream.{BitStream}
use pkt.Huff.Compress.{HuffCodeNSizes}
use pkt.Huff.Compress.Size.{IsByteEscape}
use pkt.Huff.Decompress.{Outcome, returned}
use pkt.Huff.Decompress.Marks.{IsPath, ArePaths}
use pkt.Huff.Decompress.Symbols.{Fits, codes_of, Encodable}
use pkt.Huff.Decompress.RoundTrip.{decompress-compress_eof}
use pkt.Huff.Decompress.Twice.{IsFresh-IsSmall}
use pkt.Huff.Modes.{decompress_in-eq-decompress, decompress_tree}
use pkt.Huff.Coder.{eof_code_of, code_map_of}
use pkt.Huff.Coder.Encoder
use pkt.Huff.Coder.Encoder.{Encoder, pack}
use pkt.Huff.Coder.Decoder
use pkt.Huff.Coder.Decoder.{Decoder, unpack}
use pkt.Huff.Coder.Marked.{HasSmallRoot, unpack-unpack}

present-le : (o : Option ℕ) → present o ≤ 1
present-le none = omega arith
present-le (some n) = ground arith

-- A tree that `buildTree` makes has distinct characters and no flags.
build_tree-Fits :
    (queue : PriorityQueue) (frequencies : List ℕ) (t : Node) (es : HuffCodeNSizes)
    → length frequencies ≤ 256
    → build_tree queue frequencies ≡ some t
    → ArePaths t es
    → All IsByteEscape es
    → Fits t es
build_tree-Fits queue frequencies t es short built paths escapes =
    elim (build_tree_wrap queue frequencies short) [
      | inl (empty, zeroes) ↦ absurd (cc (empty, built))
      | inr (t', built', counts, weights, fresh) ↦
          let same : t' ≡ t = cc (built, built') in
          record {
            distinct = λ c.
                let once : count c t' ≤ 1 =
                  omega (arith, counts c, present-le (get_elem? frequencies c)) in
                subst (λ n. count c n ≤ 1) same once;
            fresh = subst IsFresh same fresh;
            paths = paths;
            byte_escapes = escapes;
          }
    ]

join : Option (List ℕ × ℕ) → Option (List (List ℕ)) → Option (List (List ℕ))
join none rest = none
join (some p) none = none
join (some (packed, r)) (some rest) = some (packed ∷ rest)

-- The packets one after the other; `none` if one of them can not be packed.
unfoldable pub pack_each : BitStream → Encoder → ℕ → List (List ℕ) → Option (List (List ℕ))
unfolding join
pack_each b e offset [] = some []
pack_each b e offset (bytes ∷ packets) = join (pack b e bytes offset) (pack_each b e offset packets)

-- One decoder unpacks them in turn.
unfoldable pub unpack_each :
    BitStream → List ℕ → Decoder → ℕ → List (List ℕ) → List (Option Outcome)
unpack_each b b_out d offset [] = []
unpack_each b b_out d offset (packed ∷ packets) =
    let (d', outcome) = unpack b b_out d packed offset in
    outcome ∷ unpack_each b b_out d' offset packets

-- It does with each what it does with the first.
unpack_each-map :
    (b : BitStream) (b_out : List ℕ) (d : Decoder) (offset : ℕ) (packets : List (List ℕ))
    → HasSmallRoot d.root
    → unpack_each b b_out d offset packets ≡ map (λ p. (unpack b b_out d p offset).1) packets
unfolding unpack_each
unpack_each-map b b_out d offset [] h = refl
unpack_each-map b b_out d offset (packed ∷ packets) h =
    ap (λ (t : List (Option Outcome)). (unpack b b_out d packed offset).1 ∷ t)
      (later (unpack b b_out d packed offset).0 packets
        (λ src. unpack-unpack b b_out d packed src offset offset h))
  where
    later :
        (d' : Decoder) (packets : List (List ℕ))
        → ((src : List ℕ) → unpack b b_out d' src offset ≡ (d', (unpack b b_out d src offset).1))
        → unpack_each b b_out d' offset packets ≡ map (λ p. (unpack b b_out d p offset).1) packets
    later d' [] same = refl
    later d' (p ∷ packets) same = rw (same p) (
        ap (λ (t : List (Option Outcome)). (unpack b b_out d p offset).1 ∷ t)
          (later d' packets same))

-- A packet comes back whole, with one more than its length for the result.
abbrev pub whole : List ℕ → Option Outcome
whole bytes = some (returned bytes ((length bytes + 1) % 2 ^ 64))

-- Both objects use this tree, these escape codes and this end code.
pub record AreAlike (tree : Node) (es : HuffCodeNSizes) (code : HuffCode) (e : Encoder)
    (d : Decoder) : Type 0 where
  pub packs : e.mode ≡ 1
  pub codes : e.code_map ≡ codes_of tree
  pub pack_escapes : e.escape_code_sizes ≡ es
  pub pack_eof : e.eof_code ≡ some code
  pub unpacks : d.mode ≡ 1
  pub root : d.root ≡ some tree
  pub unpack_escapes : d.escape_code_sizes ≡ es
  pub unpack_eof : d.eof_code ≡ some code
  pub unforced : d.force_size ≡ 0

-- A packet that reaches behind the offset, with a code of the tree for each byte there.
abbrev pub CanPack : Node → HuffCode → ℕ → List ℕ → Type 0
CanPack tree code offset bytes =
    (offset ≤ length bytes) × All (Encodable tree (some code)) (drop offset bytes)

module _ (b : BitStream) (b_out : List ℕ) (f : ℕ) (left right : Node) (es : HuffCodeNSizes)
    (code : HuffCode) (offset : ℕ) where
  abbrev tree : Node
  tree = internal f left right

  module _ (fits : Fits tree es) (path : IsPath tree code) {e : Encoder} {d : Decoder}
      (alike : AreAlike tree es code e d) where
    pub unpack-pack :
        (bytes : List ℕ)
        → CanPack tree code offset bytes
        → (packed : List ℕ) × (r : ℕ) × (pack b e bytes offset ≡ some (packed, r))
          × ((unpack b b_out d packed offset).1 ≡ whole bytes)
    unfolding pack unpack decompress_tree
    unpack-pack bytes (long, codable) =
        let (packed, r, p, u) =
          decompress-compress_eof b f left right es fits code offset bytes path long codable in
        (
          packed,
          r,
          rw (alike.packs, alike.codes, alike.pack_escapes, alike.pack_eof) p,
          rw
              (
                alike.unpacks,
                alike.root,
                alike.unpack_escapes,
                alike.unpack_eof,
                alike.unforced,
                decompress_in-eq-decompress b b_out 1 tree es (some code) 0 offset packed refl,
              )
              u,
        )

    each :
        (packets : List (List ℕ))
        → All (CanPack tree code offset) packets
        → (packs : List (List ℕ)) × (pack_each b e offset packets ≡ some packs)
          × (map (λ p. (unpack b b_out d p offset).1) packs ≡ map whole packets)
    unfolding pack_each
    each [] h = ([], refl, refl)
    each (bytes ∷ packets) (h, hs) =
        let (packed, r, p, u) = unpack-pack bytes h in
        let (packs, ps, us) = each packets hs in (packed ∷ packs, rw (p, ps), rw (u, us))

module _ (b : BitStream) (b_out : List ℕ) (queue : PriorityQueue) (frequencies eof_text : List ℕ)
    (f : ℕ) (left right : Node) (code : HuffCode) (offset : ℕ) where
  set_up :
      (e : Encoder) (d : Decoder)
      → build_tree queue frequencies ≡ some (internal f left right)
      → (e.mode ≡ 1) × (d.mode ≡ 1)
      → d.force_size ≡ 0
      → e.escape_code_sizes ≡ d.escape_code_sizes
      → eof_code_of eof_text ≡ some code
      → AreAlike
          (internal f left right)
          d.escape_code_sizes
          code
          (Encoder.set_eof_code eof_text
            (Encoder.set_code_map_from_frequencies queue frequencies e))
          (Decoder.set_eof_code eof_text (Decoder.set_tree_from_frequencies queue frequencies d))
  unfolding Encoder.set_eof_code Encoder.set_code_map_from_frequencies Decoder.set_eof_code
      Decoder.set_tree_from_frequencies
  set_up e d built modes unforced same eof = record {
    packs = modes.0;
    codes = ap code_map_of built;
    pack_escapes = same;
    pack_eof = eof;
    unpacks = modes.1;
    root = built;
    unpack_escapes = refl;
    unpack_eof = eof;
    unforced = unforced;
  }

  -- The encoder and the decoder are given the same frequencies, of which `buildTree` makes a tree with
  -- an inner node for its root, and the same end code, a code of that tree. Both are in mode 1, with no
  -- forced size, and have the same escape codes, which are codes of the tree, each followed by eight
  -- bits. Then each packet that has codes other than the end code for all its bytes behind the offset
  -- can be packed, and the decoder unpacks one such packet after the other: it writes each of them
  -- out exactly as it was, and returns its length and one more.
  pub unpack_each-pack_each :
      (e : Encoder) (d : Decoder) (packets : List (List ℕ))
      → length frequencies ≤ 256
      → build_tree queue frequencies ≡ some (internal f left right)
      → (e.mode ≡ 1) × (d.mode ≡ 1)
      → d.force_size ≡ 0
      → e.escape_code_sizes ≡ d.escape_code_sizes
      → ArePaths (internal f left right) d.escape_code_sizes
      → All IsByteEscape d.escape_code_sizes
      → eof_code_of eof_text ≡ some code
      → IsPath (internal f left right) code
      → All (CanPack (internal f left right) code offset) packets
      → (packs : List (List ℕ)) × (pack_each b
            (Encoder.set_eof_code eof_text
              (Encoder.set_code_map_from_frequencies queue frequencies e))
            offset
            packets
          ≡ some packs)
        × (unpack_each b b_out
              (Decoder.set_eof_code eof_text
                (Decoder.set_tree_from_frequencies queue frequencies d))
              offset
              packs
            ≡ map whole packets)
  unpack_each-pack_each e d packets short built modes unforced same paths escapes eof path codable =
      let tree = internal f left right in
      let e' =
        Encoder.set_eof_code eof_text (Encoder.set_code_map_from_frequencies queue frequencies e) in
      let d' =
        Decoder.set_eof_code eof_text (Decoder.set_tree_from_frequencies queue frequencies d) in
      let fits =
        build_tree-Fits queue frequencies tree d.escape_code_sizes short built paths escapes in
      let alike : AreAlike tree d.escape_code_sizes code e' d' =
        set_up e d built modes unforced same eof in
      let (packs, ps, us) =
        each b b_out f left right d.escape_code_sizes code offset fits path alike packets codable in
      let small : HasSmallRoot d'.root =
        subst HasSmallRoot (sym alike.root) (IsFresh-IsSmall tree fits.fresh) in
      (packs, ps, unpack_each-map b b_out d' offset packs small ∙ us)
