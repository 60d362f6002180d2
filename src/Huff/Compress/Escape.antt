-- ===== src/Huff/Compress/Escape.antt =====
-- The choice of an escape code, and what is written behind it.
use pkt.Common.{
  ℕ, ◌+◌, ◌-◌, ◌^◌, ◌≤◌, ◌<◌, ◌≡◌, refl, ap, true, Option, none, some, [], ◌∷◌, ◌⊎◌, inl, inr, All,
  arith, ltb, leb, ◌==◌, ◌&&◌, ◌||◌, Bool-cases,
}
use pkt.Common.Table.{table, table-entry}
use pkt.Huff.Node.{HuffCode, HuffCodeMap, find}
use pkt.Huff.Stream.{BitStream}
use pkt.Huff.Compress.{
  HuffCodeNSize, HuffCodeNSizes, bits_required, shortest_loop, find_shortest_huff_code_n_size,
  write_uncoded, write_found, write_byte,
}

byte_clears : table (λ byte. (bits_required byte).1 == 0) 256 ≡ true
unfolding table bits_required
byte_clears = refl

bits_required-clears : (x : ℕ) → x < 256 → (bits_required x).1 ≡ 0
bits_required-clears x small = let e = table-entry _ 256 x small byte_clears in ground arith

byte_logs :
    table
      (λ byte.
        (byte == 0)
        || (leb (2 ^ (bits_required byte).0) byte && ltb byte (2 ^ ((bits_required byte).0 + 1))))
      256
    ≡ true
unfolding table bits_required
byte_logs = refl

-- `bitsRequired` of a byte other than 0 is one less than the number of bits of that byte, and the
-- byte that it was given is 0 afterwards.
pub bits_required_lem :
    (x : ℕ)
    → 0 < x
    → x < 256
    → (2 ^ (bits_required x).0 ≤ x)
      × (x < 2 ^ ((bits_required x).0 + 1))
      × ((bits_required x).1 ≡ 0)
bits_required_lem x p h =
    let t = table-entry _ 256 x h byte_logs in
    (ground arith, ground arith, bits_required-clears x h)

-- A byte with no code is written as 0 behind its escape code, and is 0 in the caller's buffer too.
pub write_byte-uncoded :
    (b : BitStream) (codes : HuffCodeMap) (es : HuffCodeNSizes) (x : ℕ)
    → x < 256
    → find codes x ≡ none
    → write_byte b codes es x ≡ write_uncoded b (find_shortest_huff_code_n_size es x).0 0
unfolding write_byte
write_byte-uncoded b codes es x h e = rw e (
    unfold write_found find_shortest_huff_code_n_size in
    ap (write_uncoded b _) (bits_required-clears x h))

-- Two bytes with no code and with as many bits are compressed alike.
pub write_byte_collision :
    (b : BitStream) (codes : HuffCodeMap) (es : HuffCodeNSizes) (x y : ℕ)
    → x < 256
    → y < 256
    → find codes x ≡ none
    → find codes y ≡ none
    → (bits_required x).0 ≡ (bits_required y).0
    → write_byte b codes es x ≡ write_byte b codes es y
unfolding find_shortest_huff_code_n_size
write_byte_collision b codes es x y hx hy ex ey same =
    rw (write_byte-uncoded b codes es x hx ex, write_byte-uncoded b codes es y hy ey, same)

-- `best` is the escape code that `dmin` stands for.
abbrev IsBest : ℕ → ℕ → Option HuffCodeNSize → Type 0
IsBest sz dmin none = (dmin ≡ 8) × Unit {0}
IsBest sz dmin (some (code, size)) = (size ≡ sz + dmin) × (dmin < 8)

-- `size` is the least that is not below `sz`.
abbrev pub Least : ℕ → ℕ → HuffCodeNSize → Type 0
Least sz size hcs = (hcs.1 < sz) ⊎ (size ≤ hcs.1)

shortest_loop-Least :
    (es : HuffCodeNSizes) (sz dmin : ℕ) (best : Option HuffCodeNSize) (code : HuffCode) (size : ℕ)
    → IsBest sz dmin best
    → shortest_loop es sz dmin best ≡ some (code, size)
    → (sz ≤ size) × (size < sz + 8) × (size ≤ sz + dmin) × All (Least sz size) es
unfolding shortest_loop
shortest_loop-Least [] sz dmin none code size h e = cc
shortest_loop-Least [] sz dmin (some (c, s)) code size h e = ground arith
shortest_loop-Least ((c, s) ∷ es) sz dmin best code size h e = elim (Bool-cases (ltb s sz)) [
  | inl less ↦
      let (lo, hi, near_enough, all) =
        shortest_loop-Least es sz dmin best code size h (rw less at e) in
      (lo, hi, near_enough, (inl (ground arith), all))
  | inr more ↦ elim (Bool-cases (ltb (s - sz) dmin)) [
    | inl near ↦
        let (lo, hi, near_enough, all) =
          shortest_loop-Least es sz (s - sz) (some (c, s)) code size (ground arith)
            (rw (more, near) at e) in
        (lo, hi, ground arith, (inr (ground arith), all))
    | inr far ↦
        let (lo, hi, near_enough, all) =
          shortest_loop-Least es sz dmin best code size h (rw (more, far) at e) in
        (lo, hi, near_enough, (inr (ground arith), all))
  ]
]

-- The escape code that is chosen for a byte of `sz + 1` bits is followed by at least `sz` bits
-- and by no more than any other that is; at most `sz + 7`.
pub find_shortest-Least :
    (es : HuffCodeNSizes) (x : ℕ) (code : HuffCode) (size : ℕ)
    → (find_shortest_huff_code_n_size es x).0 ≡ some (code, size)
    → ((bits_required x).0 ≤ size)
      × (size < (bits_required x).0 + 8)
      × All (Least (bits_required x).0 size) es
unfolding find_shortest_huff_code_n_size
find_shortest-Least es x code size e =
    let (lo, hi, near_enough, all) =
      shortest_loop-Least es (bits_required x).0 8 none code size (refl, tt) e in
    (lo, hi, all)
