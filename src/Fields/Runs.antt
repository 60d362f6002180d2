-- ===== src/Fields/Runs.antt =====
-- Tests of the functions on fields, and their theorems at concrete inputs.
use pkt.Common.{
  ℕ, ◌≤◌, ◌≡◌, refl, inl, inr, some, List, [], ◌∷◌, ◌⊎◌, length, replicate, All, arith,
}
use pkt.Fields.{
  Field, endian_big_endian, endian_little_endian, field_end, extract_field, extract_field_uint,
  set_field_uint, get_packet_size, value_bytes, move_bytes, reversed, read_field,
}
use pkt.Fields.RoundTrip.{Lies, Disjoint, extract-set_field_uint}
use pkt.Common.Int.{negsuc}
use pkt.Fields.Signed.{extract_field_int, set_field_int, extract-set_field_int}
use pkt.Fields.Size.{EndsAt, get_packet_size-largest}

abbrev height : Field
height = record { name = "height"; endian = endian_big_endian; offset = 1; size = 3; tag = 0 }

abbrev speed : Field
speed = record { name = "speed"; endian = endian_little_endian; offset = 4; size = 2; tag = 0 }

-- Three bytes in reverse order, and two as they are.
height_set : set_field_uint (replicate 6 0) height 66051 ≡ some (0 ∷ 1 ∷ 2 ∷ 3 ∷ 0 ∷ 0 ∷ [])
unfolding set_field_uint value_bytes move_bytes
height_set = refl

speed_read : extract_field_uint (0 ∷ 1 ∷ 2 ∷ 3 ∷ 4 ∷ 1 ∷ []) speed ≡ some 260
unfolding extract_field_uint extract_field read_field reversed
speed_read = refl

extract-set_field_uint_example :
    (packet' : List ℕ) × (set_field_uint (9 ∷ 9 ∷ 9 ∷ 9 ∷ 7 ∷ 7 ∷ []) height 66051 ≡ some packet')
    × (extract_field_uint packet' height ≡ some 66051)
    × (length packet' ≡ 6)
    × ((g : Field)
        → Lies g (9 ∷ 9 ∷ 9 ∷ 9 ∷ 7 ∷ 7 ∷ [])
        → Disjoint height g
        → extract_field packet' g ≡ extract_field (9 ∷ 9 ∷ 9 ∷ 9 ∷ 7 ∷ 7 ∷ []) g)
extract-set_field_uint_example =
    extract-set_field_uint (9 ∷ 9 ∷ 9 ∷ 9 ∷ 7 ∷ 7 ∷ []) height 66051
      (record {
        some_bytes = omega arith;
        word_size = omega arith;
        inside = omega arith;
        small = omega arith;
      })
      (omega arith)

get_packet_size-largest_example :
    All (λ field. field_end field ≤ get_packet_size (speed ∷ height ∷ [])) (speed ∷ height ∷ [])
    × ((get_packet_size (speed ∷ height ∷ []) ≡ 0)
        ⊎ EndsAt (get_packet_size (speed ∷ height ∷ [])) (speed ∷ height ∷ []))
get_packet_size-largest_example = get_packet_size-largest (speed ∷ height ∷ [])

speed-Lies : Lies speed (9 ∷ 9 ∷ 9 ∷ 9 ∷ 7 ∷ 7 ∷ [])
speed-Lies = record {
  some_bytes = omega arith;
  word_size = omega arith;
  inside = omega arith;
  small = omega arith;
}

height-Lies : Lies height (9 ∷ 9 ∷ 9 ∷ 9 ∷ 7 ∷ 7 ∷ [])
height-Lies = record {
  some_bytes = omega arith;
  word_size = omega arith;
  inside = omega arith;
  small = omega arith;
}

extract-set_field_int_example :
    (packet' : List ℕ) × (set_field_int (9 ∷ 9 ∷ 9 ∷ 9 ∷ 7 ∷ 7 ∷ []) speed (negsuc 299)
      ≡ some packet')
    × (extract_field_int packet' speed ≡ some (negsuc 299))
    × (length packet' ≡ 6)
    × ((g : Field)
        → Lies g (9 ∷ 9 ∷ 9 ∷ 9 ∷ 7 ∷ 7 ∷ [])
        → Disjoint speed g
        → extract_field packet' g ≡ extract_field (9 ∷ 9 ∷ 9 ∷ 9 ∷ 7 ∷ 7 ∷ []) g)
extract-set_field_int_example =
    extract-set_field_int (9 ∷ 9 ∷ 9 ∷ 9 ∷ 7 ∷ 7 ∷ []) speed (negsuc 299) speed-Lies
      (inr (inl refl)) (omega arith)
