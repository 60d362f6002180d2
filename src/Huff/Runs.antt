-- ===== src/Huff/Runs.antt =====
-- Tests of the Huffman functions, and their theorems at concrete inputs.
use pkt.Common.{
  ℕ, ◌≡◌, refl, true, false, none, some, List, [], ◌∷◌, ◌++◌, ◌≢◌, replicate, get_elem?, arith, ◌⊎◌,
}
use pkt.Huff.Node.{
  descend, set_code_flag, HuffCode, HuffCodeMap, LeafNode, Node, internal, weight, find,
  generate_codes, find_code, leaf_at, count, IsFresh, code_eq,
}
use pkt.Huff.Node.Codes.{generate_codes-prefix_free}
use pkt.Huff.Build.{build_tree, build_frequencies}
use pkt.Huff.Build.Leaves.{present, sum, build_tree_lem}
use pkt.Huff.Device.{dec_hafman}
use pkt.Huff.Device.Outputs.{dec_hafman_lem}
use pkt.Huff.Modes.{decompress_in, decompress_in_mode2}
use pkt.Huff.Build.Sample.{codes_of_sample}
use pkt.Huff.Samples.{
  wide_stream, leaf_of, right_of, tree_abcd, end_d, escape_c, Fits-abcd, scan_queue,
}
use pkt.Huff.Compress.{
  compress, compress_buffer, compress_buffer_calc_only, write_byte, write_bytes, put_written,
  finish, find_huff_code_n_size,
}
use pkt.Huff.Compress.Size.{calc_only-eq-compress_buffer}
use pkt.Huff.Decompress.{decompress_stream, behind, returned, decompress, read_size}
use pkt.Huff.Decompress.Symbols.{codes_of}
use pkt.Huff.Decompress.RoundTrip.{decompress-compress_eof}
use pkt.Huff.Decompress.Last.{decompress-compress_size}

packed_abac :
    compress wide_stream (codes_of tree_abcd) escape_c (some end_d) 1 (9 ∷ b'a' ∷ b'b' ∷ b'c' ∷ [])
    ≡ some (9 ∷ 0 ∷ 1 ∷ 0 ∷ 1 ∷ 1 ∷ 0 ∷ 1 ∷ 1 ∷ 0 ∷ 0 ∷ 0 ∷ 1 ∷ 1 ∷ 0 ∷ 1 ∷ 1 ∷ 1 ∷ [], 18)
unfolding compress compress_buffer write_bytes write_byte find generate_codes code_eq
    find_huff_code_n_size put_written finish
packed_abac = refl

-- Of 'b' and 'c' with one occurrence each the queue by a scan takes 'b' first.
built_abc :
    build_tree scan_queue (build_frequencies 100 (b'a' ∷ b'b' ∷ b'a' ∷ b'c' ∷ []))
    ≡ some (internal 4 (internal 2 (leaf_of 1 b'b') (leaf_of 1 b'c')) (leaf_of 2 b'a'))
unfolding build_tree build_frequencies weight
built_abc = refl

decompress-compress_eof_example :
    (packed : List ℕ) × (r : ℕ) × (compress wide_stream
        (codes_of tree_abcd)
        escape_c
        (some end_d)
        1
        (9 ∷ b'a' ∷ b'c' ∷ [])
      ≡ some (packed, r))
    × (decompress wide_stream tree_abcd escape_c (some end_d) 0 1 packed
        ≡ some (returned (9 ∷ b'a' ∷ b'c' ∷ []) 4))
unfolding find generate_codes code_eq leaf_at
decompress-compress_eof_example =
    decompress-compress_eof wide_stream 11 (leaf_of 5 b'a') right_of escape_c Fits-abcd end_d 1
      (9 ∷ b'a' ∷ b'c' ∷ []) (record { f = 1; c = b'd'; flags = 0 }, refl) (omega arith)
      (
        (false ∷ [], refl, refl, omega arith),
        ((true ∷ true ∷ false ∷ [], refl, refl, omega arith), tt),
      )

decompress-compress_size_example :
    (packed : List ℕ) × (r : ℕ) × (compress wide_stream
        (codes_of tree_abcd)
        escape_c
        none
        0
        (b'b' ∷ b'a' ∷ b'c' ∷ [])
      ≡ some (packed, r))
    × (decompress wide_stream tree_abcd escape_c none 0 0 packed
        ≡ some (returned (b'b' ∷ b'a' ∷ []) 3))
unfolding find generate_codes
decompress-compress_size_example =
    decompress-compress_size wide_stream 11 (leaf_of 5 b'a') right_of escape_c Fits-abcd
      (b'b' ∷ b'a' ∷ []) b'c' (omega arith)
      (
        (true ∷ false ∷ [], refl, refl, omega arith),
        (
          (false ∷ [], refl, refl, omega arith),
          ((true ∷ true ∷ false ∷ [], refl, refl, omega arith), tt),
        ),
      )

abbrev frequencies_abc : List ℕ
frequencies_abc = 2 ∷ 0 ∷ 1 ∷ []

build_tree_lem_example :
    ((build_tree scan_queue frequencies_abc ≡ none) × (sum frequencies_abc ≡ 0))
    ⊎ ((t : Node) × (build_tree scan_queue frequencies_abc ≡ some t)
        × ((c : ℕ) → count c t ≡ present (get_elem? frequencies_abc c))
        × (weight t ≡ sum frequencies_abc)
        × IsFresh t)
build_tree_lem_example = build_tree_lem scan_queue frequencies_abc (omega arith) (omega arith)

codes_of_sample_example :
    (t : Node) × (code : HuffCode) × (lf : LeafNode) × (build_tree scan_queue
        (build_frequencies 256 (b'a' ∷ b'b' ∷ []))
      ≡ some t)
    × (find (generate_codes [] t []) b'b' ≡ some code)
    × (find_code t code ≡ some lf)
    × (lf.c ≡ b'b')
codes_of_sample_example =
    codes_of_sample scan_queue (b'a' ∷ b'b' ∷ []) b'b' (omega arith) (omega arith)

calc_only-eq-compress_buffer_example :
    compress_buffer_calc_only (codes_of tree_abcd) escape_c none (b'a' ∷ b'c' ∷ [])
    ≡ (compress_buffer wide_stream (codes_of tree_abcd) escape_c none (b'a' ∷ b'c' ∷ [])).r
calc_only-eq-compress_buffer_example =
    calc_only-eq-compress_buffer wide_stream escape_c (refl, tt) (codes_of tree_abcd) none
      (b'a' ∷ b'c' ∷ [])

abbrev codes_ab : HuffCodeMap
codes_ab = (b'a', false ∷ []) ∷ (b'b', true ∷ []) ∷ []

abbrev codes_ba : HuffCodeMap
codes_ba = (b'a', true ∷ true ∷ []) ∷ (b'b', false ∷ []) ∷ []

-- With eight zeroes for the bits of the drained stream `tree_abcd` gives as many 'a', and no end.
decompress_in_mode2_example :
    decompress_in wide_stream (replicate 80 7) 2 tree_abcd escape_c none 3 1 (9 ∷ 0 ∷ 1 ∷ [])
    ≡ some (returned (9 ∷ b'a' ∷ b'a' ∷ []) 4)
unfolding read_size decompress_stream behind descend set_code_flag
decompress_in_mode2_example =
    decompress_in_mode2 wide_stream (replicate 80 7) 2 tree_abcd escape_c none 3 1 (9 ∷ 0 ∷ 1 ∷ [])
      refl (omega arith)

dec_hafman_lem_example :
    dec_hafman (0 ∷ 0 ∷ 0 ∷ []) (1 ∷ 2 ∷ 0x60 ∷ 5 ∷ 6 ∷ []) 12 ≡ some (1 ∷ 2 ∷ 0 ∷ [], 0)
dec_hafman_lem_example =
    dec_hafman_lem 0 0 1 2 0x60 5 12 (0 ∷ []) (6 ∷ []) (omega arith) (omega arith)

-- The codes 1100 and 110000 of the table are never found: 100 stands at their end.
shadowed_code : dec_hafman (0 ∷ 0 ∷ []) (1 ∷ 2 ∷ 0x0C ∷ 0 ∷ []) 10 ≡ some (1 ∷ 2 ∷ [], 1)
unfolding dec_hafman
shadowed_code = refl

generate_codes-prefix_free_example : end_d ≢ (false ∷ []) ++ (true ∷ true ∷ [])
unfolding find generate_codes
generate_codes-prefix_free_example =
    generate_codes-prefix_free tree_abcd b'a' b'd' (false ∷ []) end_d (true ∷ true ∷ [])
      Fits-abcd.distinct (λ e. omega (arith, e)) refl refl
