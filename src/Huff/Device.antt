-- ===== src/Huff/Device.antt =====
-- The decoder of a device, `dec_hafman` of huff/devdecoder.cpp, with its three tables. It returns in
-- the first round of its loop, on every path: what stands behind that `return` in the source is never
-- run, and is left out, as is the table of symbols, which only that part reads. The masks of
-- `tab_mask` are 2^(j + 1) - 1, and the two bytes of the bit buffer do not overlap.
pub mod Outputs
use pkt.Common.{
  ℕ, zero, suc, ◌+◌, ◌-◌, ◌*◌, ◌%◌, ◌^◌, Bool, not, ◌&&◌, Option, none, some, List, [], ◌∷◌, ltb,
  ◌==◌, if◌then◌else◌,
}

-- tabl_haf_revers[k] and tabl_len[k]
abbrev codes_with_length : List (ℕ × ℕ)
codes_with_length =
    (0x01, 0x01)
    ∷ (0x04, 0x04)
    ∷ (0x0C, 0x05)
    ∷ (0x30, 0x06)
    ∷ (0x10, 0x07)
    ∷ (0x50, 0x07)
    ∷ (0x00, 0x05)
    ∷ (0x1C, 0x05)
    ∷ (0x08, 0x04)
    ∷ (0x02, 0x02)
    ∷ []

-- The loop over `k`: the length of the symbol, or 0 where none is found.
symbol_length : List (ℕ × ℕ) → ℕ → ℕ → ℕ
symbol_length [] symbol j = 0
symbol_length ((code, len) ∷ rows) symbol j =
    let next = symbol_length rows symbol j in
    if symbol == code && not (symbol == 0)
    then len
    else if symbol == code && symbol == 0
    then (if j == 6 then len else next)
    else next

-- The loop over `j`, with as many rounds as are left: 1 for the `return` behind the search, 0 for
-- that behind the loop.
search_symbol : ℕ → ℕ → ℕ → ℕ
unfolding symbol_length
search_symbol zero j bitbuf = 0
search_symbol (suc rounds) j bitbuf =
    let next = search_symbol rounds (j + 1) bitbuf in
    if symbol_length codes_with_length (bitbuf % 2 ^ (j + 1)) j == 0 then next else 1

-- The output buffer afterwards, and the result; `none` where the source leaves one of the buffers.
-- `len - 4` is taken in 32 bits.
unfoldable pub dec_hafman : List ℕ → List ℕ → ℕ → Option (List ℕ × ℕ)
unfolding search_symbol
dec_hafman (a ∷ b ∷ buff_out) (msb ∷ lsb ∷ byte0 ∷ byte1 ∷ buff_in) len =
    let bitbuf = byte0 + byte1 * 0x100 in
    let result = if ltb 4 ((len + 2 ^ 32 - 4) % 2 ^ 32) then search_symbol 8 0 bitbuf else 2 in
    some (msb ∷ lsb ∷ buff_out, result)
dec_hafman buff_out buff_in len = none
