-- ===== src/Messages/Decompose/Calls.antt =====
-- The calls of the callback that `MessageDecomposer::decompose` makes, as a list.
use pkt.Common.{
  ℕ, zero, suc, ◌+◌, ◌<◌, ◌≡◌, refl, ap, sym, subst, append-nil, true, Option, some, List, [], ◌∷◌,
  map, All, if◌then◌else◌, arith, Bool-cases, inl, inr,
}
use mathlib.Core.List.{foldl, foldl-append, flat_map}
use Prim.Native.String.{String}
use pkt.Cache.{Variables}
use pkt.Messages.{is_message, FieldDescriptor, Scalar, Run, finished, bind, Reflection}
use pkt.Messages.Decompose.{
  Call, index_of, call, repeated_loop, messages_loop, decompose_switch, decompose_field,
  fields_loop, decompose_message, decompose, err_ok,
}

-- The numbers from `i` on.
indexes : ℕ → ℕ → List ℕ
indexes i zero = []
indexes i (suc n) = i ∷ indexes (i + 1) n

-- No pointer to a descriptor is null, a number falls from each message type to those of its fields,
-- and the cache has an index for each field.
pub record IsWalkable (r : Reflection) (options_cache : Option Variables) : Type 0 where
  pub descriptors : String → List FieldDescriptor
  pub not_null : (name : String) → r.fields_of name ≡ some (map some (descriptors name))
  pub rank : String → ℕ
  pub falls :
      (name : String)
      → All (λ f. is_message f.cpp_type ≡ true → rank f.message_type < rank name) (descriptors name)
  pub index : String → String → ℕ
  pub indexed :
      (name field_name : String)
      → index_of options_cache name field_name ≡ finished (index name field_name)

module _ (r : Reflection) (b64_encode : List ℕ → List ℕ) (options_cache : Option Variables)
    (w : IsWalkable r options_cache) where
  open r use {
    Message, full_name, field_size, get_value, get_repeated_value, get_message,
    get_repeated_message,
  }

  -- The values, and the messages, of a field.
  values : Message → FieldDescriptor → List Scalar
  unfolding indexes
  values m f =
      if f.is_repeated
      then map (get_repeated_value m f) (indexes 0 (field_size m f))
      else get_value m f ∷ []

  messages : Message → FieldDescriptor → List Message
  unfolding indexes
  messages m f =
      if f.is_repeated
      then map (get_repeated_message m f) (indexes 0 (field_size m f))
      else get_message m f ∷ []

  field_calls : (Message → List Call) → Message → FieldDescriptor → List Call
  unfolding values messages
  field_calls inner m f =
      if is_message f.cpp_type
      then flat_map inner (messages m f)
      else map (call b64_encode (full_name m) f (w.index (full_name m) f.name)) (values m f)

  -- The calls for a message, with those for the messages in it down to a depth.
  unfoldable pub calls : ℕ → Message → List Call
  unfolding field_calls
  calls zero m = []
  calls (suc depth) m = flat_map (field_calls (calls depth) m) (w.descriptors (full_name m))

  module _ {E : Type 0} (ondecompose : E → Call → E) where
    repeated_loop-calls :
        (m : Message) (f : FieldDescriptor) (index i left : ℕ) (e : E)
        → repeated_loop r b64_encode options_cache ondecompose m f index i left e
          ≡ foldl ondecompose e (
              map
                (call b64_encode (full_name m) f index)
                (map (get_repeated_value m f) (indexes i left)))
    unfolding repeated_loop indexes
    repeated_loop-calls m f index i zero e = refl
    repeated_loop-calls m f index i (suc left) e =
        repeated_loop-calls m f index (i + 1) left
          (ondecompose e (call b64_encode (full_name m) f index (get_repeated_value m f i)))

    module _ (go : Message → E → Run (E × ℕ)) (inner : Message → List Call) where
      -- What `go` does with a message of a type.
      Goes : String → Type 0
      Goes type =
          (sub : Message) (e : E)
          → full_name sub ≡ type
          → go sub e ≡ finished (foldl ondecompose e (inner sub), err_ok)

      messages_loop-calls :
          (m : Message) (f : FieldDescriptor) (i left : ℕ) (e : E)
          → Goes f.message_type
          → messages_loop r b64_encode options_cache ondecompose go m f i left e
            ≡ finished (
                foldl ondecompose e
                  (flat_map inner (map (get_repeated_message m f) (indexes i left))))
      unfolding messages_loop indexes flat_map bind Goes
      messages_loop-calls m f i zero e goes = refl
      messages_loop-calls m f i (suc left) e goes =
          rw
            (
              goes (get_repeated_message m f i) e (r.full_name-get_repeated_message m f i),
              foldl-append ondecompose e (inner (get_repeated_message m f i))
                  (flat_map inner (map (get_repeated_message m f) (indexes (i + 1) left))),
            )
            (messages_loop-calls m f (i + 1) left _ goes)

      decompose_field-calls :
          (m : Message) (f : FieldDescriptor) (e : E)
          → (is_message f.cpp_type ≡ true → Goes f.message_type)
          → decompose_field r b64_encode options_cache ondecompose go m f e
            ≡ finished (foldl ondecompose e (field_calls inner m f))
      unfolding decompose_field decompose_switch field_calls values messages flat_map bind Goes
      decompose_field-calls m f e goes =
          let known = w.indexed (full_name m) f.name in
          elim (Bool-cases (is_message f.cpp_type)) [
            | inl sub ↦ elim (Bool-cases f.is_repeated) [
              | inl many ↦
                  simp (known, sub, many) (messages_loop-calls m f 0 (field_size m f) e (goes sub))
              | inr one ↦
                  simp (known, sub, one)
                    (rw
                      (
                        goes sub (get_message m f) e (r.full_name-get_message m f),
                        append-nil (inner (get_message m f)),
                      )
                      refl)
            ]
            | inr value ↦ elim (Bool-cases f.is_repeated) [
              | inl many ↦
                  simp (known, value, many)
                    (ap finished
                      (repeated_loop-calls m f (w.index (full_name m) f.name) 0 (field_size m f) e))
              | inr one ↦ simp (known, value, one) refl
            ]
          ]

      fields_loop-calls :
          (m : Message) (fields : List FieldDescriptor) (e : E)
          → All (λ f. is_message f.cpp_type ≡ true → Goes f.message_type) fields
          → fields_loop r b64_encode options_cache ondecompose go m (map some fields) e
            ≡ finished (foldl ondecompose e (flat_map (field_calls inner m) fields), err_ok)
      unfolding fields_loop flat_map bind
      fields_loop-calls m [] e goes = refl
      fields_loop-calls m (f ∷ fields) e (goes_f, goes) =
          rw
            (
              decompose_field-calls m f e goes_f,
              foldl-append ondecompose e (field_calls inner m f)
                  (flat_map (field_calls inner m) fields),
            )
            (fields_loop-calls m fields _ goes)

    -- The types of the fields lie below, so the walk through them is that of the calls.
    All-Goes :
        (go : Message → E → Run (E × ℕ)) (inner : Message → List Call) (bound : ℕ)
        (fields : List FieldDescriptor)
        → ((sub : Message) (e : E)
            → w.rank (full_name sub) < bound
            → go sub e ≡ finished (foldl ondecompose e (inner sub), err_ok))
        → All (λ f. is_message f.cpp_type ≡ true → w.rank f.message_type < bound) fields
        → All (λ f. is_message f.cpp_type ≡ true → Goes go inner f.message_type) fields
    unfolding Goes
    All-Goes go inner bound [] below falls = tt
    All-Goes go inner bound (f ∷ fields) below (falls_f, falls) = (
      λ sub m e same. below m e (subst (λ t. w.rank t < bound) (sym same) (falls_f sub)),
      All-Goes go inner bound fields below falls,
    )

    decompose_message-calls :
        (fuel depth : ℕ) (m : Message) (e : E)
        → w.rank (full_name m) < fuel
        → w.rank (full_name m) < depth
        → decompose_message r b64_encode options_cache ondecompose fuel m e
          ≡ finished (foldl ondecompose e (calls depth m), err_ok)
    unfolding decompose_message calls
    decompose_message-calls zero depth m e h k = absurd (omega arith)
    decompose_message-calls (suc fuel) zero m e h k = absurd (omega arith)
    decompose_message-calls (suc fuel) (suc depth) m e h k = rw (w.not_null (full_name m)) (
        fields_loop-calls (decompose_message r b64_encode options_cache ondecompose fuel)
          (calls depth) m (w.descriptors (full_name m)) e
          (All-Goes _ _ (w.rank (full_name m)) (w.descriptors (full_name m))
            (λ sub e' below. decompose_message-calls fuel depth sub e' (omega arith) (omega arith))
            (w.falls (full_name m))))

-- If no descriptor is missing, the cache has an index for each field and no message type contains
-- itself, then with enough fuel `decompose` ends with ERR_OK, and has called the callback for the
-- calls in their order: those of each field in the order of the descriptor, one for each value, and
-- for a field of messages those of the messages one after another.
pub decompose-calls :
    (r : Reflection) (b64_encode : List ℕ → List ℕ) (options_cache : Option Variables)
    (w : IsWalkable r options_cache)
    → {E : Type 0} → (ondecompose : E → Call → E) (fuel depth : ℕ) (m : r.Message) (e : E)
    → w.rank (r.full_name m) < fuel
    → w.rank (r.full_name m) < depth
    → decompose r b64_encode options_cache (some ondecompose) fuel m e
      ≡ finished (foldl ondecompose e (calls r b64_encode options_cache w depth m), err_ok)
unfolding decompose bind
decompose-calls r b64_encode options_cache w ondecompose fuel depth m e h k =
    rw (decompose_message-calls r b64_encode options_cache w ondecompose fuel depth m e h k) refl
