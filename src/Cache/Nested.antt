-- ===== src/Cache/Nested.antt =====
-- How deep the options cache looks for tags.
use pkt.Common.{ℕ, suc, ◌≡◌, refl, ap, ap₂, true, Option, none, some, List, [], ◌∷◌, All}
use Prim.Native.String.{String}
use pkt.Tags.{valid_tags}
use pkt.Cache.{
  FieldDescriptor, Declarations, CachedVariable, Variables, Verdict, said, test_field, test_fields,
  test_nested, after_own_tags, valid_tags_in,
}

-- The tags of a message itself, and no nested ones.
abbrev pub own_tags : String → CachedVariable → List ℕ → Verdict
own_tags message_type v packet = after_own_tags (valid_tags v.var packet) (said true)

-- No field of a message has the full name of a message.
abbrev pub NoMessage : Declarations → Option (List FieldDescriptor) → Type 0
NoMessage declarations none = Unit {0}
NoMessage declarations (some fields) = All (λ f. declarations f.full_name ≡ none) fields

module _ (declarations : Declarations) (variables : Variables) where
  -- A call with the full name of a field finds no descriptor.
  call_of_field :
      (fuel : ℕ) (name : String)
      → declarations name ≡ none
      → valid_tags_in declarations variables (suc fuel) name ≡ own_tags name
  unfolding valid_tags_in test_nested
  call_of_field fuel name e =
      ap
        (λ (o : Option (List FieldDescriptor)). λ (v : CachedVariable) (packet : List ℕ).
          after_own_tags (valid_tags v.var packet)
            (test_nested variables (valid_tags_in declarations variables fuel) v packet o))
        e

  fields_own :
      (fuel : ℕ) (v : CachedVariable) (packet : List ℕ) (fields : List FieldDescriptor)
      → All (λ f. declarations f.full_name ≡ none) fields
      → test_fields variables (valid_tags_in declarations variables (suc fuel)) v packet fields
        ≡ test_fields variables own_tags v packet fields
  unfolding test_fields
  fields_own fuel v packet [] all = refl
  fields_own fuel v packet (f ∷ fields) (e, all) =
      ap₂
        (λ (go : CachedVariable → List ℕ → Verdict) (rest : Verdict).
          test_field variables go v packet f.number f.message_type rest)
        (call_of_field fuel f.full_name e) (fields_own fuel v packet fields all)

  nested_own :
      (fuel : ℕ) (v : CachedVariable) (packet : List ℕ) (o : Option (List FieldDescriptor))
      → NoMessage declarations o
      → test_nested variables (valid_tags_in declarations variables (suc fuel)) v packet o
        ≡ test_nested variables own_tags v packet o
  unfolding test_nested
  nested_own fuel v packet none fresh = refl
  nested_own fuel v packet (some fields) fresh = fields_own fuel v packet fields fresh

  -- If no field of the message has the full name of a message, `validTags` ends after two levels of
  -- calls: it tests the tags of the message, and the own tags of each message nested in it, but no
  -- tags of messages that are nested deeper.
  pub valid_tags_in_two_levels :
      (fuel : ℕ) (message_type : String) (v : CachedVariable) (packet : List ℕ)
      → NoMessage declarations (declarations message_type)
      → valid_tags_in declarations variables (suc (suc fuel)) message_type v packet
        ≡ after_own_tags
            (valid_tags v.var packet)
            (test_nested variables own_tags v packet (declarations message_type))
  unfolding valid_tags_in
  valid_tags_in_two_levels fuel message_type v packet fresh =
      ap (after_own_tags (valid_tags v.var packet))
        (nested_own fuel v packet (declarations message_type) fresh)
