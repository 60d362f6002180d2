-- ===== src/Huff/Device/Outputs.antt =====
-- What `dec_hafman` leaves behind, for all inputs.
use pkt.Common.{
  ℕ, zero, suc, ◌+◌, ◌-◌, ◌*◌, ◌%◌, ◌^◌, ◌≤◌, ◌<◌, ◌≡◌, refl, Bool, true, ◌&&◌, ◌||◌, some, List,
  ◌∷◌, ltb, leb, ◌==◌, ==_iff, if◌then◌else◌, arith,
}
use pkt.Common.Table.{table, table-entry}
use pkt.Huff.Device.{search_symbol, dec_hafman}

-- No code of the table is found at the front of this byte: its lowest bit set is the sixth, or it is
-- the seventh.
abbrev pub no_symbol : ℕ → Bool
no_symbol byte = byte % 64 == 32 || byte % 128 == 64

search_table : table (λ x. search_symbol 8 0 x == (if no_symbol x then 0 else 1)) 256 ≡ true
unfolding table search_symbol
search_table = refl

search-same :
    (rounds j b c : ℕ)
    → b % 2 ^ (j + 1) ≡ c % 2 ^ (j + 1)
    → search_symbol rounds (j + 1) b ≡ search_symbol rounds (j + 1) c
    → search_symbol (suc rounds) j b ≡ search_symbol (suc rounds) j c
unfolding search_symbol
search-same rounds j b c low rest = rw (low, rest)

-- Only the first byte of the bit buffer is looked at.
search-low : (byte0 byte1 : ℕ) → search_symbol 8 0 (byte0 + byte1 * 0x100) ≡ search_symbol 8 0 byte0
search-low x y =
    let b : ℕ = x + y * 0x100 in
    search-same 7 0 b x (omega arith) (
      search-same 6 1 b x (omega arith) (
        search-same 5 2 b x (omega arith) (
          search-same 4 3 b x (omega arith) (
            search-same 3 4 b x (omega arith) (
              search-same 2 5 b x (omega arith) (
                search-same 1 6 b x (omega arith)
                  (search-same 0 7 b x (omega arith) (unfold search_symbol in refl))))))))

search-le : (rounds j b : ℕ) → search_symbol rounds j b ≤ 1
unfolding search_symbol
search-le zero j b = omega arith
search-le (suc rounds) j b = ground (arith, search-le rounds (j + 1) b)

-- When the loop is entered: `len - 4` is a large number for the lengths below 4.
loop_entered :
    (len r : ℕ)
    → len < 2 ^ 32
    → (if ltb 4 ((len + 2 ^ 32 - 4) % 2 ^ 32) then r else 2)
      ≡ (if leb 4 len && leb len 8 then 2 else r)
loop_entered len r short = ground arith

-- With room for two bytes of output and four bytes of input `dec_hafman` copies the first two bytes
-- of the input, and writes nothing else: it decodes no symbol at all. It returns 2 for a length of
-- four to eight bytes. For any other length it returns 0 if the third byte ends in a one and five
-- zeroes or in a one and six zeroes, and 1 for all other bytes.
pub dec_hafman_lem :
    (a b msb lsb byte0 byte1 len : ℕ) (buff_out buff_in : List ℕ)
    → byte0 < 256
    → len < 2 ^ 32
    → dec_hafman (a ∷ b ∷ buff_out) (msb ∷ lsb ∷ byte0 ∷ byte1 ∷ buff_in) len
      ≡ some (
        msb ∷ lsb ∷ buff_out,
        if leb 4 len && leb len 8 then 2 else if no_symbol byte0 then 0 else 1,
      )
unfolding dec_hafman
dec_hafman_lem a b msb lsb byte0 byte1 len buff_out buff_in small short =
    let entry =
      table-entry (λ x. search_symbol 8 0 x == (if no_symbol x then 0 else 1)) 256 byte0 small
        search_table in
    let found : search_symbol 8 0 byte0 ≡ (if no_symbol byte0 then 0 else 1) =
      (==_iff _ _).0 entry in
    rw (search-low byte0 byte1, found, loop_entered len (if no_symbol byte0 then 0 else 1) short)
      refl

-- There is never a byte behind the first two.
pub dec_hafman-le_2 :
    (a b msb lsb byte0 byte1 len : ℕ) (buff_out buff_in : List ℕ)
    → (r : ℕ) × (dec_hafman (a ∷ b ∷ buff_out) (msb ∷ lsb ∷ byte0 ∷ byte1 ∷ buff_in) len
        ≡ some (msb ∷ lsb ∷ buff_out, r))
      × (r ≤ 2)
unfolding dec_hafman
dec_hafman-le_2 a b msb lsb byte0 byte1 len buff_out buff_in = (
  if ltb 4 ((len + 2 ^ 32 - 4) % 2 ^ 32) then search_symbol 8 0 (byte0 + byte1 * 0x100) else 2,
  refl,
  ground (arith, search-le 8 0 (byte0 + byte1 * 0x100)),
)
