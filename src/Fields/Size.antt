-- ===== src/Fields/Size.antt =====
-- `getPacketSize` and the fields that do not fit.
use pkt.Common.{
  ℕ, ◌%◌, ◌^◌, ◌≤◌, ◌<◌, ◌≡◌, refl, sym, true, some, List, [], ◌∷◌, ◌⊎◌, inl, inr, ltb,
  if◌then◌else◌, length, replicate, All, arith,
}
use pkt.Fields.{Field, field_end, packet_size_loop, get_packet_size, extract_field}

-- Some field ends at `n`.
abbrev pub EndsAt : ℕ → List Field → Type 0
EndsAt n [] = n ≡ 0
EndsAt n (field ∷ fields) = (field_end field ≡ n) ⊎ EndsAt n fields

packet_size_loop_lem :
    (r n : ℕ) (fields : List Field)
    → packet_size_loop r fields ≡ n
    → (r ≤ n) × All (λ field. field_end field ≤ n) fields × ((n ≡ r) ⊎ EndsAt n fields)
unfolding packet_size_loop
packet_size_loop_lem r n [] e = (omega arith, tt, inl (sym e))
packet_size_loop_lem r n (field ∷ fields) e =
    let (lo, all, which) =
      packet_size_loop_lem (if ltb r (field_end field) then field_end field else r) n fields e in
    (ground arith, (ground arith, all), came_from which)
  where
    came_from :
        (n ≡ (if ltb r (field_end field) then field_end field else r)) ⊎ EndsAt n fields
        → (n ≡ r) ⊎ ((field_end field ≡ n) ⊎ EndsAt n fields)
    came_from (inl e') = ground arith
    came_from (inr e') = inr (inr e')

-- `getPacketSize` is the largest end of a field, computed as the source computes it in 32 bits, and
-- 0 if there is no field: no field ends behind it, and it is 0 or the end of some field.
pub get_packet_size-largest :
    (fields : List Field)
    → All (λ field. field_end field ≤ get_packet_size fields) fields
      × ((get_packet_size fields ≡ 0) ⊎ EndsAt (get_packet_size fields) fields)
unfolding get_packet_size
get_packet_size-largest fields =
    let (lo, all, which) = packet_size_loop_lem 0 _ fields refl in (all, which)

-- A packet that is too small for a field yields zeroes, as many as the field has bytes.
pub extract_field_too_small :
    (packet : List ℕ) (field : Field)
    → length packet < 2 ^ 32
    → length packet < field_end field
    → extract_field packet field ≡ some (replicate field.size 0)
unfolding extract_field
extract_field_too_small packet field small short =
    let shorter : ltb (length packet % 2 ^ 32) (field_end field) ≡ true = ground arith in
    rw shorter refl
