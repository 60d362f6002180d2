-- ===== src/Tags/Valid.antt =====
-- What `validTags` says of a packet.
use pkt.Common.{
  ℕ, ◌≡◌, ◌≢◌, refl, true, some, List, [], ◌∷◌, ◌⊎◌, inl, inr, All, length, arith, ◌↔◌,
}
use pkt.Fields.{Field, extract_field_uint}
use pkt.Tags.{PacketVariable, tag_value, check_fields, valid_tags}

-- The field has no tag, or holds it.
abbrev pub Holds : List ℕ → Field → Type 0
Holds bytes field = (field.tag ≡ 0) ⊎ (extract_field_uint bytes field ≡ some (tag_value field.tag))

pub check_fields-Holds :
    (bytes : List ℕ) (fields : List Field)
    → All (Holds bytes) fields
    → check_fields bytes fields ≡ some true
unfolding check_fields
check_fields-Holds bytes [] h = refl
check_fields-Holds bytes (field ∷ fields) (inl e, hs) =
    ground (arith, check_fields-Holds bytes fields hs)
check_fields-Holds bytes (field ∷ fields) (inr e, hs) =
    ground (arith, check_fields-Holds bytes fields hs)

Holds-check_fields :
    (bytes : List ℕ) (fields : List Field)
    → check_fields bytes fields ≡ some true
    → All (Holds bytes) fields
unfolding check_fields
Holds-check_fields bytes [] h = tt
Holds-check_fields bytes (field ∷ fields) h =
    (ground arith, Holds-check_fields bytes fields (ground arith))

-- `validTags` answers true exactly for a packet that is not empty, has the size of the packet
-- description, and holds in each field with a tag that tag.
pub valid_tags_iff :
    (var : PacketVariable) (bytes : List ℕ)
    → (valid_tags var bytes ≡ some true)
      ↔ ((length bytes ≢ 0) × (length bytes ≡ var.packet_size) × All (Holds bytes) var.fields)
unfolding valid_tags
valid_tags_iff var bytes = (forth, back)
  where
    forth :
        valid_tags var bytes ≡ some true
        → (length bytes ≢ 0) × (length bytes ≡ var.packet_size) × All (Holds bytes) var.fields
    forth h = (λ z. ground arith, ground arith, Holds-check_fields bytes var.fields (ground arith))

    back :
        (length bytes ≢ 0) × (length bytes ≡ var.packet_size) × All (Holds bytes) var.fields
        → valid_tags var bytes ≡ some true
    back (some_bytes, size, all) = ground (arith, check_fields-Holds bytes var.fields all)
