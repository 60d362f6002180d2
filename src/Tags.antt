-- ===== src/Tags.antt =====
-- The tags of a packet: `validTags`, `setTags` and `getEmptyPacket` of pkt2packetvariable.cpp.
-- `none` stands for what the functions on fields leave undefined.
pub mod Empty
pub mod Valid
mod Runs
use pkt.Common.{
  ℕ, zero, suc, ◌-◌, ◌^◌, Bool, true, false, not, ◌||◌, Option, none, some, List, [], ◌∷◌, ltb,
  ◌==◌, if◌then◌else◌, length, replicate,
}
use pkt.Fields.{Field, extract_field_uint, set_field_uint, get_packet_size}

-- Pkt2PacketVariable, as far as its tags go
pub record PacketVariable : Type 0 where
  pub fields : List Field
  pub packet_size : ℕ

-- What the constructor sets `packet_size` to.
pub packet_variable : List Field → PacketVariable
packet_variable fields = record { fields = fields; packet_size = get_packet_size fields }

-- The tag that is asked for: 0xFFFFFFFFFFFFFFFF stands for 0.
abbrev pub special_tag : ℕ
special_tag = 2 ^ 64 - 1

abbrev pub tag_value : ℕ → ℕ
tag_value t = if t == special_tag then 0 else t

-- if (t) { … if (f != t) return false; }
check_value : Field → Option ℕ → Option Bool → Option Bool
check_value field none rest = none
check_value field (some f) rest = if f == tag_value field.tag then rest else some false

unfoldable pub check_fields : List ℕ → List Field → Option Bool
unfolding check_value
check_fields bytes [] = some true
check_fields bytes (field ∷ fields) =
    let rest = check_fields bytes fields in
    if field.tag == 0 then rest else check_value field (extract_field_uint bytes field) rest

unfoldable pub valid_tags : PacketVariable → List ℕ → Option Bool
unfolding check_fields
valid_tags var bytes =
    let sz = length bytes in
    if sz == 0 || not (sz == var.packet_size) then some false else check_fields bytes var.fields

set_field : List ℕ → Field → Option (List ℕ)
set_field bytes field =
    if field.tag == 0 then some bytes else set_field_uint bytes field (tag_value field.tag)

unfoldable pub set_fields : List ℕ → List Field → Option (List ℕ)
unfolding set_field
set_fields bytes [] = some bytes
set_fields bytes (field ∷ fields) = elim (set_field bytes field) [
  | none ↦ none
  | some bytes' ↦ set_fields bytes' fields
]

-- The packet afterwards, and the result.
with_result : Bool → Option (List ℕ) → Option (List ℕ × Bool)
with_result r none = none
with_result r (some bytes) = some (bytes, r)

unfoldable pub set_tags : PacketVariable → List ℕ → Option (List ℕ × Bool)
unfolding set_fields with_result
set_tags var bytes =
    if ltb (length bytes) var.packet_size
    then some (bytes, false)
    else with_result true (set_fields bytes var.fields)

-- `getEmptyPacket` drops the result of `setTags`.
packet_only : Option (List ℕ × Bool) → Option (List ℕ)
packet_only none = none
packet_only (some (bytes, r)) = some bytes

unfoldable pub get_empty_packet : PacketVariable → Option (List ℕ)
unfolding set_tags packet_only
get_empty_packet var = packet_only (set_tags var (replicate var.packet_size 0))
