-- ===== src/Messages/Decompose.antt =====
-- MessageDecomposer of messagedecomposer.cpp: the walk over a message with a callback for each
-- value. `b64_encode` of bin2ascii.h, which is another project's, is a parameter.
pub mod Calls
pub mod Endless
use pkt.Common.{
  ℕ, zero, suc, ◌+◌, Bool, true, false, Option, none, some, List, [], ◌∷◌, if◌then◌else◌, length,
}
use Prim.Native.String.{String}
use pkt.Cache.{Variables, get_index}
use pkt.Messages.{
  CppType, cpptype_int32, cpptype_int64, cpptype_uint32, cpptype_uint64, cpptype_double,
  cpptype_float, cpptype_bool, cpptype_enum, cpptype_string, cpptype_message, is_message,
  FieldDescriptor, Scalar, native, string, Run, finished, running, bind, or_undefined, Reflection,
}

-- The arguments of `ondecompose`: the full name of the descriptor, the field, what `value` points
-- at, `size` and `index`.
pub record Call : Type 0 where
  pub message_type : String
  pub field : FieldDescriptor
  pub value : Scalar
  pub size : ℕ
  pub index : ℕ

-- sizeof of the native type of a value
unfoldable pub native_size : CppType → ℕ
native_size cpptype_int32 = 4
native_size cpptype_int64 = 8
native_size cpptype_uint32 = 4
native_size cpptype_uint64 = 8
native_size cpptype_double = 8
native_size cpptype_float = 4
native_size cpptype_bool = 1
native_size cpptype_enum = 4
native_size cpptype_string = 0
native_size cpptype_message = 0

-- `value` and `size` of a call
unfoldable pub value_and_size : (List ℕ → List ℕ) → FieldDescriptor → Scalar → Scalar × ℕ
unfolding native_size
value_and_size b64_encode f (native bits) = (native bits, native_size f.cpp_type)
value_and_size b64_encode f (string bytes) =
    let value = if f.is_bytes then b64_encode bytes else bytes in (string value, length value)

-- one call of the callback
unfoldable pub call : (List ℕ → List ℕ) → String → FieldDescriptor → ℕ → Scalar → Call
unfolding value_and_size
call b64_encode message_type f index v =
    let (value, size) = value_and_size b64_encode f v in
    record { message_type = message_type; field = f; value = value; size = size; index = index }

-- ERR_OK and error codes, each by its negative
abbrev pub err_ok : ℕ
err_ok = 0

abbrev pub errcode_decompose_no_message_descriptor : ℕ
errcode_decompose_no_message_descriptor = 33

abbrev pub errcode_decompose_no_field_descriptor : ℕ
errcode_decompose_no_field_descriptor = 34

abbrev pub errcode_no_callback : ℕ
errcode_no_callback = 37

-- the index of a field: 0 without a cache
unfoldable pub index_of : Option Variables → String → String → Run ℕ
index_of none message_type field_name = finished 0
index_of (some variables) message_type field_name =
    or_undefined (get_index variables message_type field_name)

module _ (r : Reflection) (b64_encode : List ℕ → List ℕ) (options_cache : Option Variables)
    {E : Type 0} (ondecompose : E → Call → E) where
  open r use {
    Message, full_name, fields_of, field_size, get_value, get_repeated_value, get_message,
    get_repeated_message,
  }

  -- `for (i = 0; i != array_size; ++i)` over values, with the number of rounds left
  unfoldable pub repeated_loop : Message → FieldDescriptor → ℕ → ℕ → ℕ → E → E
  unfolding call
  repeated_loop m f index i zero e = e
  repeated_loop m f index i (suc left) e =
      repeated_loop m f index (i + 1) left
        (ondecompose e (call b64_encode (full_name m) f index (get_repeated_value m f i)))

  -- The same loop over messages. What `decomposeMessage` returns is not used.
  unfoldable pub messages_loop :
      (Message → E → Run (E × ℕ)) → Message → FieldDescriptor → ℕ → ℕ → E → Run E
  messages_loop go m f i zero e = finished e
  messages_loop go m f i (suc left) e =
      bind (go (get_repeated_message m f i) e) (λ done. messages_loop go m f (i + 1) left done.0)

  -- the switch of `decomposeField`; it always returns ERR_OK
  unfoldable pub decompose_switch :
      (Message → E → Run (E × ℕ)) → Message → FieldDescriptor → E → ℕ → Run E
  unfolding repeated_loop messages_loop call
  decompose_switch go m f e index =
      if is_message f.cpp_type
      then if f.is_repeated
        then messages_loop go m f 0 (field_size m f) e
        else bind (go (get_message m f) e) (λ done. finished done.0)
      else if f.is_repeated
      then finished (repeated_loop m f index 0 (field_size m f) e)
      else finished (ondecompose e (call b64_encode (full_name m) f index (get_value m f)))

  unfoldable pub decompose_field :
      (Message → E → Run (E × ℕ)) → Message → FieldDescriptor → E → Run E
  unfolding decompose_switch index_of
  decompose_field go m f e =
      bind (index_of options_cache (full_name m) f.name) (decompose_switch go m f e)

  -- The loop of `decomposeMessage` over the fields.
  unfoldable pub fields_loop :
      (Message → E → Run (E × ℕ)) → Message → List (Option FieldDescriptor) → E → Run (E × ℕ)
  unfolding decompose_field
  fields_loop go m [] e = finished (e, err_ok)
  fields_loop go m (none ∷ fields) e = finished (e, errcode_decompose_no_field_descriptor)
  fields_loop go m (some f ∷ fields) e = bind (decompose_field go m f e) (fields_loop go m fields)

  described :
      (Message → E → Run (E × ℕ))
      → Message
      → Option (List (Option FieldDescriptor))
      → E
      → Run (E × ℕ)
  unfolding fields_loop
  described go m none e = finished (e, errcode_decompose_no_message_descriptor)
  described go m (some fields) e = fields_loop go m fields e

  -- `decomposeMessage`, on fuel for the depth of the calls.
  unfoldable pub decompose_message : ℕ → Message → E → Run (E × ℕ)
  unfolding described
  decompose_message zero m e = running
  decompose_message (suc fuel) m e =
      described (decompose_message fuel) m (fields_of (full_name m)) e

-- `decompose`: the callback may be null, and what `decomposeMessage` returns is not used.
unfoldable pub decompose :
    (r : Reflection)
    → (List ℕ → List ℕ)
    → Option Variables
    → {E : Type 0} → Option (E → Call → E)
    → ℕ
    → r.Message
    → E
    → Run (E × ℕ)
unfolding decompose_message
decompose r b64_encode options_cache none fuel m e = finished (e, errcode_no_callback)
decompose r b64_encode options_cache (some ondecompose) fuel m e =
    bind (decompose_message r b64_encode options_cache ondecompose fuel m e)
      (λ done. finished (done.0, err_ok))
