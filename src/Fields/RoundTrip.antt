-- ===== src/Fields/RoundTrip.antt =====
-- A field that is written is read back, and no other field changes.
use pkt.Common.{
  ℕ, zero, suc, ◌+◌, ◌%◌, ◌^◌, ◌≤◌, ◌<◌, ◌≡◌, refl, sym, ap, ◌∙◌, true, false, some, List, ◌⊎◌, inl,
  inr, ltb, ◌==◌, if◌then◌else◌, length, take, drop, arith, Bool-cases,
}
use pkt.Common.Bytes.{
  to_le, from_le, overwrite, length-to_le, take-to_le, from_le-to_le, length-reverse, take_all,
  length-overwrite, slice-overwrite_self, drop-overwrite_after, slice-overwrite_before,
  length-slice,
}
use mathlib.Core.List.{reverse, reverse-reverse}
use pkt.Fields.{
  Field, field_end, swaps, extract_field, word, read_uint, extract_field_uint, value_bytes,
  set_field_uint,
}

-- A field of one to eight bytes that lies in the packet, whose size fits an `int`.
pub record Lies (field : Field) (packet : List ℕ) : Type 0 where
  pub some_bytes : 1 ≤ field.size
  pub word_size : field.size ≤ 8
  pub inside : field.offset + field.size ≤ length packet
  pub small : length packet < 2 ^ 31

-- Two fields have no byte in common.
abbrev pub Disjoint : Field → Field → Type 0
Disjoint a b = (a.offset + a.size ≤ b.offset) ⊎ (b.offset + b.size ≤ a.offset)

-- The order of the bytes of a field in the packet, from that in memory, and back.
abbrev pub orient : Field → List ℕ → List ℕ
orient field bytes = if swaps field then reverse bytes else bytes

abbrev pub slice : List ℕ → Field → List ℕ
slice packet field = take field.size (drop field.offset packet)

-- the bytes that `setFieldUInt` puts into the packet
abbrev pub field_bytes : Field → ℕ → List ℕ
field_bytes field value = orient field (to_le field.size value)

length-orient : (field : Field) (bytes : List ℕ) → length (orient field bytes) ≡ length bytes
length-orient field bytes = elim (Bool-cases (swaps field)) [
  | inl yes_ ↦ rw yes_ (length-reverse bytes)
  | inr no_ ↦ rw no_ refl
]

orient-orient : (field : Field) (bytes : List ℕ) → orient field (orient field bytes) ≡ bytes
orient-orient field bytes = elim (Bool-cases (swaps field)) [
  | inl yes_ ↦ rw yes_ (reverse-reverse bytes)
  | inr no_ ↦ rw no_ refl
]

-- A field that lies in the packet is extracted from its bytes.
extract_field_inside :
    (packet : List ℕ) (field : Field)
    → Lies field packet
    → extract_field packet field ≡ some (orient field (slice packet field))
unfolding extract_field
extract_field_inside packet field l =
    let long : length (slice packet field) ≡ field.size =
      length-slice field.offset field.size packet l.inside in
    elim (Bool-cases (swaps field)) [
      | inl yes_ ↦ rw (in_packet, behind, yes_, enough long) refl
      | inr no_ ↦ rw (in_packet, behind, no_) refl
    ]
  where
    in_packet : ltb (length packet % 2 ^ 32) (field_end field) ≡ false
    in_packet = ground arith

    behind : ltb (length packet) field.offset ≡ false
    behind = ground arith

    enough :
        length (slice packet field) ≡ field.size
        → ltb (length (slice packet field)) field.size ≡ false
    enough h = ground arith

read_uint-word : (sz : ℕ) (r : List ℕ) → sz ≤ 8 → read_uint sz r ≡ word sz r
read_uint-word zero r h = refl
read_uint-word (suc zero) r h = refl
read_uint-word (suc (suc zero)) r h = refl
read_uint-word (suc (suc (suc zero))) r h = refl
read_uint-word (suc (suc (suc (suc zero)))) r h = refl
read_uint-word (suc (suc (suc (suc (suc zero))))) r h = refl
read_uint-word (suc (suc (suc (suc (suc (suc zero)))))) r h = refl
read_uint-word (suc (suc (suc (suc (suc (suc (suc zero))))))) r h = refl
read_uint-word (suc (suc (suc (suc (suc (suc (suc (suc zero)))))))) r h = refl
read_uint-word (suc (suc (suc (suc (suc (suc (suc (suc (suc n))))))))) r h = absurd (omega arith)

-- The number that `extractFieldUInt` reads from a field in the packet.
pub extract_field_uint_inside :
    (packet : List ℕ) (field : Field)
    → Lies field packet
    → extract_field_uint packet field ≡ some (from_le (orient field (slice packet field)))
unfolding extract_field_uint
extract_field_uint_inside packet field l =
    let r = orient field (slice packet field) in
    let long : length r ≡ field.size =
      length-orient field (slice packet field)
      ∙ length-slice field.offset field.size packet l.inside in
    rw (extract_field_inside packet field l) (
      rw (enough long) (
        ap some (
          read_uint-word field.size r l.word_size
          ∙ ap from_le (take_all field.size r (omega (arith, long))))))
  where
    enough : {n : ℕ} → n ≡ field.size → ltb n field.size ≡ false
    enough h = ground arith

pub value_bytes-field_bytes :
    (field : Field) (value : ℕ)
    → 1 ≤ field.size
    → field.size ≤ 8
    → value_bytes field value ≡ some (field_bytes field value)
unfolding value_bytes
value_bytes-field_bytes field value some_bytes word_size = elim (Bool-cases (swaps field)) [
  | inl yes_ ↦ rw (small, yes_, fits, take-to_le field.size 8 value word_size) refl
  | inr no_ ↦ rw (small, no_, least, take-to_le field.size 8 value word_size) refl
]
  where
    small : ltb field.size (2 ^ 31) ≡ true
    small = ground arith

    fits : ltb 8 field.size ≡ false
    fits = ground arith

    least : (if ltb field.size 8 then field.size else 8) ≡ field.size
    least = ground arith

length-field_bytes : (field : Field) (value : ℕ) → length (field_bytes field value) ≡ field.size
length-field_bytes field value =
    length-orient field (to_le field.size value) ∙ length-to_le field.size value

set_field_uint_inside :
    (packet : List ℕ) (field : Field) (value : ℕ)
    → Lies field packet
    → set_field_uint packet field value
      ≡ some (overwrite packet field.offset (field_bytes field value))
unfolding set_field_uint
set_field_uint_inside packet field value l =
    rw (not_empty, value_bytes-field_bytes field value l.some_bytes l.word_size)
      (rw (room (length-field_bytes field value)) refl)
  where
    not_empty : (field.size == 0) ≡ false
    not_empty = let h = l.some_bytes in ground arith

    room : {n : ℕ} → n ≡ field.size → ltb (length packet) (field.offset + n) ≡ false
    room h = let k = l.inside in ground arith

Lies-overwrite :
    (packet bytes : List ℕ) (offset : ℕ) (g : Field)
    → Lies g packet
    → Lies g (overwrite packet offset bytes)
Lies-overwrite packet bytes offset g l =
    let same = length-overwrite packet offset bytes in
    record {
      some_bytes = l.some_bytes;
      word_size = l.word_size;
      inside = omega (arith, l.inside);
      small = omega (arith, l.small);
    }

-- A value that fits a field of one to eight bytes, in either order of bytes, is read back by
-- `extractFieldUInt` from the packet that `setFieldUInt` leaves. That packet has the length of the
-- one before, and of each field that has no byte in common with the first the same is extracted as
-- before.
pub extract-set_field_uint :
    (packet : List ℕ) (field : Field) (value : ℕ)
    → Lies field packet
    → value < 256 ^ field.size
    → (packet' : List ℕ) × (set_field_uint packet field value ≡ some packet')
      × (extract_field_uint packet' field ≡ some value)
      × (length packet' ≡ length packet)
      × ((g : Field)
          → Lies g packet
          → Disjoint field g
          → extract_field packet' g ≡ extract_field packet g)
extract-set_field_uint packet field value l fits =
    let bytes = field_bytes field value in
    let packet' = overwrite packet field.offset bytes in
    let len : length bytes ≡ field.size = length-field_bytes field value in
    (
      packet',
      set_field_uint_inside packet field value l,
      extract_field_uint_inside packet' field (Lies-overwrite packet bytes field.offset field l)
          ∙ ap (λ (t : List ℕ). some (from_le (orient field t))) (read_back len)
          ∙ ap (λ (t : List ℕ). some (from_le t)) (orient-orient field (to_le field.size value))
          ∙ ap some (from_le-to_le field.size value fits),
      length-overwrite packet field.offset bytes,
      λ g lg apart.
          extract_field_inside packet' g (Lies-overwrite packet bytes field.offset g lg)
          ∙ ap (λ (t : List ℕ). some (orient g t)) (untouched len g apart)
          ∙ sym (extract_field_inside packet g lg),
    )
  where
    read_back :
        length (field_bytes field value) ≡ field.size
        → slice (overwrite packet field.offset (field_bytes field value)) field
          ≡ field_bytes field value
    read_back len =
        ap
          (λ (n : ℕ).
            take n (drop field.offset (overwrite packet field.offset (field_bytes field value))))
          (sym len)
        ∙ slice-overwrite_self packet field.offset (field_bytes field value)
            (omega (arith, l.inside))

    untouched :
        length (field_bytes field value) ≡ field.size
        → (g : Field) → Disjoint field g
        → slice (overwrite packet field.offset (field_bytes field value)) g ≡ slice packet g
    untouched len g (inl before) =
        ap (take g.size) (
          drop-overwrite_after packet field.offset g.offset (field_bytes field value) (omega arith))
    untouched len g (inr behind) =
        slice-overwrite_before packet field.offset g.offset g.size (field_bytes field value) behind
