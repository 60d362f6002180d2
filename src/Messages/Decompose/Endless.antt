-- ===== src/Messages/Decompose/Endless.antt =====
-- `MessageDecomposer::decompose` on a message type that contains itself. Reflection shows a message
-- that is not set as an empty one, so there is always one more to walk through.
use pkt.Common.{
  ℕ, zero, suc, ◌≡◌, refl, ap, ◌∙◌, true, false, Option, some, List, [], ◌∷◌, ◌++◌, map, All,
  Bool-cases, inl, inr,
}
use Prim.Native.String.{String}
use pkt.Cache.{Variables}
use pkt.Messages.{is_message, FieldDescriptor, Run, finished, running, bind, Reflection}
use pkt.Messages.Decompose.{
  Call, call, repeated_loop, index_of, decompose_switch, decompose_field, fields_loop,
  decompose_message, decompose,
}

module _ (r : Reflection) (b64_encode : List ℕ → List ℕ) (options_cache : Option Variables)
    (index : String → String → ℕ)
    (indexed : (name field_name : String)
      → index_of options_cache name field_name ≡ finished (index name field_name))
    {E : Type 0} (ondecompose : E → Call → E) where
  open r use {Message, full_name, fields_of, get_message}

  -- The callback has been called for each value of the field.
  decompose_field-value :
      (go : Message → E → Run (E × ℕ)) (m : Message) (f : FieldDescriptor) (e : E)
      → is_message f.cpp_type ≡ false
      → (e' : E) × (decompose_field r b64_encode options_cache ondecompose go m f e ≡ finished e')
  unfolding decompose_field decompose_switch bind
  decompose_field-value go m f e value = elim (Bool-cases f.is_repeated) [
    | inl many ↦ (
      repeated_loop r b64_encode options_cache ondecompose m f (index (full_name m) f.name) 0
          (r.field_size m f) e,
      simp (indexed (full_name m) f.name, value, many),
    )
    | inr one ↦ (
      ondecompose e
          (call b64_encode (full_name m) f (index (full_name m) f.name) (r.get_value m f)),
      simp (indexed (full_name m) f.name, value, one),
    )
  ]

  fields_loop-running :
      (go : Message → E → Run (E × ℕ)) (m : Message) (before : List FieldDescriptor)
      (f : FieldDescriptor) (rest : List (Option FieldDescriptor)) (e : E)
      → All (λ g. is_message g.cpp_type ≡ false) before
      → is_message f.cpp_type ≡ true
      → f.is_repeated ≡ false
      → ((e' : E) → go (get_message m f) e' ≡ running)
      → fields_loop r b64_encode options_cache ondecompose go m (map some before ++ some f ∷ rest) e
        ≡ running
  unfolding fields_loop decompose_field decompose_switch bind
  fields_loop-running go m [] f rest e values sub one runs =
      simp (indexed (full_name m) f.name, sub, one, runs e)
  fields_loop-running go m (g ∷ before) f rest e (value, values) sub one runs =
      let (e', done) = decompose_field-value go m g e value in
      ap
        (λ s. bind s (
          fields_loop r b64_encode options_cache ondecompose go m
            (map some before ++ some f ∷ rest)))
        done
      ∙ fields_loop-running go m before f rest e' values sub one runs

  decompose_message-running :
      (name : String) (before : List FieldDescriptor) (f : FieldDescriptor)
      (rest : List (Option FieldDescriptor))
      → fields_of name ≡ some (map some before ++ some f ∷ rest)
      → All (λ g. is_message g.cpp_type ≡ false) before
      → is_message f.cpp_type ≡ true
      → f.is_repeated ≡ false
      → f.message_type ≡ name
      → (fuel : ℕ) (m : Message) (e : E) → full_name m ≡ name
      → decompose_message r b64_encode options_cache ondecompose fuel m e ≡ running
  unfolding decompose_message
  decompose_message-running name before f rest described values sub one itself zero m e named = refl
  decompose_message-running name before f rest described values sub one itself (suc fuel) m e
        named =
      rw (named, described)
        (fields_loop-running (decompose_message r b64_encode options_cache ondecompose fuel) m
          before f rest e values sub one
          (λ e'.
            decompose_message-running name before f rest described values sub one itself fuel
              (get_message m f) e' (r.full_name-get_message m f ∙ itself)))

  -- If the cache has an index for each field, and a message type has a field of its own type that
  -- is not repeated, and no other message in front of it, `decompose` never ends for a message of
  -- that type.
  pub decompose-running :
      (name : String) (before : List FieldDescriptor) (f : FieldDescriptor)
      (rest : List (Option FieldDescriptor))
      → fields_of name ≡ some (map some before ++ some f ∷ rest)
      → All (λ g. is_message g.cpp_type ≡ false) before
      → is_message f.cpp_type ≡ true
      → f.is_repeated ≡ false
      → f.message_type ≡ name
      → (fuel : ℕ) (m : Message) (e : E) → full_name m ≡ name
      → decompose r b64_encode options_cache (some ondecompose) fuel m e ≡ running
  unfolding decompose bind
  decompose-running name before f rest described values sub one itself fuel m e named =
      rw
        (decompose_message-running name before f rest described values sub one itself fuel m e
          named)
        refl
