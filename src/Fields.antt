-- ===== src/Fields.antt =====
-- The fields of a packet: the functions on `pkt2::Field` of utilprotobuf.cpp. A packet is the list
-- of the bytes of a `std::string`. `none` stands for what the source leaves undefined, a read or a
-- write outside a string, and for the `std::out_of_range` of `substr`.
pub mod RoundTrip
pub mod Size
pub mod Signed
mod Runs
use pkt.Common.{
  ℕ, zero, suc, ◌+◌, ◌-◌, ◌%◌, ◌^◌, Bool, true, false, not, ◌&&◌, Option, none, some, List, [], ◌∷◌,
  ltb, leb, ◌==◌, if◌then◌else◌, length, take, drop, replicate, min,
}
use pkt.Common.Bytes.{to_le, from_le, overwrite}
use mathlib.Core.List.{reverse}
use Prim.Native.String.{String}

-- pkt2::Field, as far as it is used here; `endian` is a number of the enumeration pkt2::Endian
pub record Field : Type 0 where
  pub name : String
  pub endian : ℕ
  pub offset : ℕ
  pub size : ℕ
  pub tag : ℕ

abbrev pub endian_no_matter : ℕ
endian_no_matter = 0

abbrev pub endian_little_endian : ℕ
endian_little_endian = 1

abbrev pub endian_big_endian : ℕ
endian_big_endian = 2

-- ENDIAN_NEED_SWAP, on a little-endian host
abbrev pub need_swap : ℕ → Bool
need_swap endian = not (endian == endian_no_matter) && not (endian == endian_little_endian)

-- `field.offset() + field.size()`, of type uint32
abbrev pub field_end : Field → ℕ
field_end field = (field.offset + field.size) % 2 ^ 32

-- (field.size() > 1) && ENDIAN_NEED_SWAP(field.endian())
abbrev pub swaps : Field → Bool
swaps field = ltb 1 field.size && need_swap field.endian

-- The packet holds the field, by the sizes that are compared: `int sz = packet.size()` against an
-- unsigned sum. `std::reverse` runs over `field.size()` characters, so they must be there.
reversed : Field → List ℕ → Option (List ℕ)
reversed field r =
    if swaps field then if ltb (length r) field.size then none else some (reverse r) else some r

unfoldable pub extract_field : List ℕ → Field → Option (List ℕ)
unfolding reversed
extract_field packet field =
    if ltb (length packet % 2 ^ 32) (field_end field)
    then some (replicate field.size 0)
    else if ltb (length packet) field.offset
    then none
    else reversed field (take field.size (drop field.offset packet))

-- The first `n` bytes of a string, as the unsigned number that they are on this host.
abbrev pub word : ℕ → List ℕ → ℕ
word n r = from_le (take n r)

-- The switch of `extractFieldUInt`; the default copies at most eight bytes over a zero.
abbrev pub read_uint : ℕ → List ℕ → ℕ
read_uint sz r =
    if sz == 0
    then 0
    else if sz == 1
    then word 1 r
    else if sz == 2
    then word 2 r
    else if sz == 4
    then word 4 r
    else if sz == 8
    then word 8 r
    else word (if ltb sz 8 then sz else 8) r

-- A field that does not lie in the string that `extractField` returned is read outside it.
read_field : {A : Type 0} → (ℕ → List ℕ → A) → ℕ → Option (List ℕ) → Option A
read_field read sz none = none
read_field read sz (some r) = if ltb (length r) sz then none else some (read sz r)

unfoldable pub extract_field_uint : List ℕ → Field → Option ℕ
unfolding read_field
extract_field_uint packet field = read_field read_uint field.size (extract_field packet field)

-- std::reverse(p, p + field.size()) on the eight bytes of a value; past them it is undefined. The
-- test before it is on `int sz`, which is negative from 2^31 on.
pub value_bytes : Field → ℕ → Option (List ℕ)
value_bytes field value =
    let bytes = to_le 8 value in
    if ltb field.size (2 ^ 31) && swaps field
    then if ltb 8 field.size then none else some (reverse (take field.size bytes))
    else some (take (if ltb field.size 8 then field.size else 8) bytes)

move_bytes : List ℕ → ℕ → Option (List ℕ) → Option (List ℕ)
move_bytes packet offset none = none
move_bytes packet offset (some bytes) =
    if ltb (length packet) (offset + length bytes)
    then none
    else some (overwrite packet offset bytes)

-- Of the eight bytes the first min(sz, 8) go into the packet.
unfoldable pub set_field_uint : List ℕ → Field → ℕ → Option (List ℕ)
unfolding value_bytes move_bytes
set_field_uint packet field value =
    if field.size == 0
    then some packet
    else move_bytes packet field.offset (value_bytes field value)

-- The loop of `getPacketSize`, with `r` so far.
packet_size_loop : ℕ → List Field → ℕ
packet_size_loop r [] = r
packet_size_loop r (field ∷ fields) =
    packet_size_loop (if ltb r (field_end field) then field_end field else r) fields

unfoldable pub get_packet_size : List Field → ℕ
unfolding packet_size_loop
get_packet_size fields = packet_size_loop 0 fields
