-- ===== src/Tags/Empty.antt =====
-- The empty packet that is made from a packet description carries all its tags.
use pkt.Common.{
  ℕ, ◌+◌, ◌^◌, ◌≤◌, ◌<◌, ◌≡◌, ◌≢◌, refl, sym, ap, ◌∙◌, true, false, Option, none, some, List, [],
  ◌∷◌, ◌⊎◌, inl, inr, All, length, replicate, length-replicate, ltb, ◌==◌, arith,
}
use pkt.Fields.{
  Field, field_end, extract_field, extract_field_uint, set_field_uint, get_packet_size,
}
use pkt.Fields.RoundTrip.{Lies, Disjoint, extract-set_field_uint}
use pkt.Fields.Size.{get_packet_size-largest}
use pkt.Tags.{
  packet_variable, tag_value, set_field, set_fields, set_tags, get_empty_packet, valid_tags,
}
use pkt.Tags.Valid.{Holds, valid_tags_iff}

-- A field with a tag has one to eight bytes, is not cut off by 2^31, and its tag fits it.
pub record FitsTag (field : Field) : Type 0 where
  pub tagged : (field.tag == 0) ≡ false
  pub some_bytes : 1 ≤ field.size
  pub word_size : field.size ≤ 8
  pub near : field.offset + field.size < 2 ^ 31
  pub value_fits : tag_value field.tag < 256 ^ field.size

abbrev pub IsTag : Field → Type 0
IsTag field = (field.tag ≡ 0) ⊎ FitsTag field

-- Two fields with tags have no byte in common.
abbrev pub Apart : Field → Field → Type 0
Apart a b = (a.tag ≡ 0) ⊎ ((b.tag ≡ 0) ⊎ Disjoint a b)

abbrev pub ApartAll : List Field → Type 0
ApartAll [] = Unit {0}
ApartAll (field ∷ fields) = All (Apart field) fields × ApartAll fields

-- The field has no tag, or it has one that fits and lies in a packet of `n` bytes.
abbrev Within : ℕ → Field → Type 0
Within n field = (field.tag ≡ 0) ⊎ (FitsTag field × (field.offset + field.size ≤ n))

lies :
    (n : ℕ) (field : Field) (bytes : List ℕ)
    → n < 2 ^ 31
    → length bytes ≡ n
    → FitsTag field
    → field.offset + field.size ≤ n
    → Lies field bytes
lies n field bytes small len fits inside = record {
  some_bytes = fits.some_bytes;
  word_size = fits.word_size;
  inside = omega arith;
  small = omega arith;
}

-- What `set_fields` leaves: the packet has its length, the tags are there, and a field that lies
-- in the packet apart from those with tags is as before.
record Set (n : ℕ) (bytes : List ℕ) (fields : List Field) : Type 0 where
  after : List ℕ
  set : set_fields bytes fields ≡ some after
  len : length after ≡ n
  holds : All (Holds after) fields
  others :
      (g : Field)
      → FitsTag g
      → g.offset + g.size ≤ n
      → All (λ field. (field.tag ≡ 0) ⊎ Disjoint field g) fields
      → extract_field after g ≡ extract_field bytes g

set_fields_after :
    (bytes mid : List ℕ) (field : Field) (fields : List Field)
    → set_field bytes field ≡ some mid
    → set_fields bytes (field ∷ fields) ≡ set_fields mid fields
unfolding set_fields
set_fields_after bytes mid field fields e =
    ap (λ (o : Option (List ℕ)). elim o [ none ↦ none | some bytes' ↦ set_fields bytes' fields ]) e

skip_untagged :
    (bytes : List ℕ) (field : Field) → field.tag ≡ 0 → set_field bytes field ≡ some bytes
unfolding set_field
skip_untagged bytes field untagged = let e : (field.tag == 0) ≡ true = ground arith in rw e refl

set_tagged :
    (bytes mid : List ℕ) (field : Field)
    → (field.tag == 0) ≡ false
    → set_field_uint bytes field (tag_value field.tag) ≡ some mid
    → set_field bytes field ≡ some mid
unfolding set_field
set_tagged bytes mid field tagged e = rw tagged e

-- Seen from a field with a tag, it is the others that have none or lie apart.
Apart-turned :
    (field : Field) (fields : List Field)
    → (field.tag == 0) ≡ false
    → All (Apart field) fields
    → All (λ f. (f.tag ≡ 0) ⊎ Disjoint f field) fields
Apart-turned field [] tagged far = tt
Apart-turned field (f ∷ fields) tagged (far, fars) =
    (turn far, Apart-turned field fields tagged fars)
  where
    turn : Apart field f → (f.tag ≡ 0) ⊎ Disjoint f field
    turn (inl z) = absurd (ground arith)
    turn (inr (inl z)) = inl z
    turn (inr (inr (inl before))) = inr (inr before)
    turn (inr (inr (inr behind))) = inr (inl behind)

apart_tagged :
    (field g : Field)
    → (field.tag == 0) ≡ false
    → (field.tag ≡ 0) ⊎ Disjoint field g
    → Disjoint field g
apart_tagged field g tagged (inl z) = absurd (ground arith)
apart_tagged field g tagged (inr d) = d

kept :
    (mid after : List ℕ) (field : Field) (value : ℕ)
    → extract_field after field ≡ extract_field mid field
    → extract_field_uint mid field ≡ some value
    → extract_field_uint after field ≡ some value
unfolding extract_field_uint
kept mid after field value same e = rw same e

set-All :
    (n : ℕ) (bytes : List ℕ) (fields : List Field)
    → n < 2 ^ 31
    → length bytes ≡ n
    → All (Within n) fields
    → ApartAll fields
    → Set n bytes fields
set-All n bytes [] small len within apart = record {
  after = bytes;
  set = unfold set_fields in refl;
  len = len;
  holds = tt;
  others = λ g fits inside all. refl;
}
set-All n bytes (field ∷ fields) small len (inl untagged, within) (far, apart) =
    let rest = set-All n bytes fields small len within apart in
    record {
      after = rest.after;
      set =
          set_fields_after bytes bytes field fields (skip_untagged bytes field untagged) ∙ rest.set;
      len = rest.len;
      holds = (inl untagged, rest.holds);
      others = λ g fits inside all. rest.others g fits inside all.1;
    }
set-All n bytes (field ∷ fields) small len (inr (fits, inside), within) (far, apart) =
    let (mid, set, read, same_length, others) =
      extract-set_field_uint bytes field (tag_value field.tag)
        (lies n field bytes small len fits inside) fits.value_fits in
    let rest = set-All n mid fields small (same_length ∙ len) within apart in
    record {
      after = rest.after;
      set =
          set_fields_after bytes mid field fields (set_tagged bytes mid field fits.tagged set)
          ∙ rest.set;
      len = rest.len;
      holds = (
        inr (
            kept mid rest.after field _
              (rest.others field fits inside (Apart-turned field fields fits.tagged far)) read),
        rest.holds,
      );
      others = λ g gfits ginside all.
          rest.others g gfits ginside all.1
          ∙ others g (lies n g bytes small len gfits ginside)
              (apart_tagged field g fits.tagged all.0);
    }

-- A field does not end behind the size, which is one of the ends.
Within-size :
    (n : ℕ) (fields : List Field)
    → All IsTag fields
    → All (λ field. field_end field ≤ n) fields
    → All (Within n) fields
Within-size n [] tags ends = tt
Within-size n (field ∷ fields) (inl z, tags) (end, ends) = (inl z, Within-size n fields tags ends)
Within-size n (field ∷ fields) (inr fits, tags) (end, ends) =
    (inr (fits, let h = fits.near in omega arith), Within-size n fields tags ends)

valid_after :
    (fields : List Field) (bytes : List ℕ)
    → get_packet_size fields ≢ 0
    → length bytes ≡ get_packet_size fields
    → All (Holds bytes) fields
    → valid_tags (packet_variable fields) bytes ≡ some true
unfolding packet_variable
valid_after fields bytes some_size len holds =
    (valid_tags_iff (packet_variable fields) bytes).1 ((λ z. some_size (sym len ∙ z)), len, holds)

made_from :
    (fields : List Field) (after : List ℕ)
    → set_fields (replicate (get_packet_size fields) 0) fields ≡ some after
    → get_empty_packet (packet_variable fields) ≡ some after
unfolding get_empty_packet set_tags packet_variable
made_from fields after e =
    rw (not_short (length-replicate {A = ℕ} (get_packet_size fields) 0), e) refl
  where
    not_short : {k : ℕ} → k ≡ get_packet_size fields → ltb k (get_packet_size fields) ≡ false
    not_short h = ground arith

-- `getEmptyPacket` makes a packet that `validTags` accepts, if each field with a tag has one to
-- eight bytes and ends before 2^31, its tag fits it, no two fields with tags have a byte in common,
-- and the packet has a size that is not 0 and less than 2^31.
pub valid_tags-get_empty_packet :
    (fields : List Field)
    → All IsTag fields
    → ApartAll fields
    → get_packet_size fields ≢ 0
    → get_packet_size fields < 2 ^ 31
    → (bytes : List ℕ) × (get_empty_packet (packet_variable fields) ≡ some bytes)
      × (valid_tags (packet_variable fields) bytes ≡ some true)
valid_tags-get_empty_packet fields tags apart some_size small =
    let n = get_packet_size fields in
    let within = Within-size n fields tags ((get_packet_size-largest fields).0) in
    let done = set-All n (replicate n 0) fields small (length-replicate {A = ℕ} n 0) within apart in
    (
      done.after,
      made_from fields done.after done.set,
      valid_after fields done.after some_size done.len done.holds,
    )
