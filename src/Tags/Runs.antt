-- ===== src/Tags/Runs.antt =====
-- Tests of the tags of a packet, and their theorems at concrete inputs.
use pkt.Common.{ℕ, ◌≡◌, ◌≢◌, ◌↔◌, length, refl, true, some, List, [], ◌∷◌, inl, inr, All, arith}
use pkt.Fields.{Field, endian_big_endian, endian_no_matter, set_field_uint, get_packet_size}
use pkt.Tags.{packet_variable, special_tag, valid_tags, set_fields, set_tags, get_empty_packet}
use pkt.Tags.Valid.{Holds, valid_tags_iff}
use pkt.Tags.Empty.{FitsTag, valid_tags-get_empty_packet}

abbrev start : Field
start = record { name = "start"; endian = endian_big_endian; offset = 0; size = 2; tag = 258 }

abbrev measured : Field
measured = record { name = "measured"; endian = endian_big_endian; offset = 2; size = 1; tag = 0 }

abbrev stop : Field
stop = record { name = "stop"; endian = endian_no_matter; offset = 3; size = 1; tag = special_tag }

abbrev fields : List Field
fields = start ∷ measured ∷ stop ∷ []

start_fits : FitsTag start
start_fits = record {
  tagged = refl;
  some_bytes = omega arith;
  word_size = omega arith;
  near = omega arith;
  value_fits = omega arith;
}

stop_fits : FitsTag stop
stop_fits = record {
  tagged = refl;
  some_bytes = omega arith;
  word_size = omega arith;
  near = omega arith;
  value_fits = omega arith;
}

made : get_empty_packet (packet_variable fields) ≡ some (1 ∷ 2 ∷ 0 ∷ 0 ∷ [])
unfolding get_empty_packet packet_variable get_packet_size set_tags set_fields set_field_uint
made = refl

abbrev received : List ℕ
received = 1 ∷ 2 ∷ 77 ∷ 0 ∷ []

valid_tags_iff_example : (valid_tags (packet_variable fields) received ≡ some true) ↔ (
    (length received ≢ 0)
    × (length received ≡ (packet_variable fields).packet_size)
    × All (Holds received) (packet_variable fields).fields)
valid_tags_iff_example = valid_tags_iff (packet_variable fields) received

valid_tags-get_empty_packet_example :
    (bytes : List ℕ) × (get_empty_packet (packet_variable fields) ≡ some bytes)
    × (valid_tags (packet_variable fields) bytes ≡ some true)
unfolding get_packet_size
valid_tags-get_empty_packet_example =
    valid_tags-get_empty_packet fields (inr start_fits, (inl refl, (inr stop_fits, tt)))
      ((inr (inl refl), (inr (inr (inl (omega arith))), tt)), ((inl refl, tt), (tt, tt)))
      (λ z. omega (arith, z)) (omega arith)
