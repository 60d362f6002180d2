-- ===== src/Cache/Key.antt =====
-- Pkt2OptionsCache::getKey of pkt2optionscache.cpp: the key under which lmdbwriter.cpp stores a message.
-- A message and its descriptor are those of Messages; `b64_encode` of bin2ascii.h is a parameter. The
-- result is `none` where the source reads or writes outside a buffer or a vector: `max_size` is not
-- used in the source.
pub mod Bytes
use pkt.Common.{
  ℕ, zero, suc, ◌+◌, ◌≤◌, ◌≡◌, Bool, true, false, Option, none, some, List, [], ◌∷◌, ◌++◌, leb,
  if◌then◌else◌, length, get_elem?,
}
use pkt.Common.Bytes.{to_le, overwrite}
use Prim.Native.String.{String}
use pkt.Messages.{
  CppType, cpptype_int32, cpptype_int64, cpptype_uint32, cpptype_uint64, cpptype_double,
  cpptype_float, cpptype_bool, cpptype_enum, cpptype_string, cpptype_message, FieldDescriptor,
  Scalar, native, string, Reflection,
}
use pkt.Cache.{FieldNameVariable, CachedVariable, Variables, find_variable, default_variable}

-- memmove(&buffer[r], &v, sizeof(v))
unfoldable pub move_into : List ℕ → ℕ → List ℕ → Option (List ℕ)
move_into buffer r bytes =
    if leb (r + length bytes) (length buffer) then some (overwrite buffer r bytes) else none

abbrev pub bits_of : Scalar → ℕ
bits_of (native v) = v
bits_of (string bytes) = 0

abbrev pub bytes_of : Scalar → List ℕ
bytes_of (native v) = []
bytes_of (string bytes) = bytes

-- What a key field adds to the key, or writes without adding it.
pub data KeyPart : Type 0 where
  pushed : List ℕ → KeyPart
  not_counted : List ℕ → KeyPart
  nothing : KeyPart

module _ (b64_encode : List ℕ → List ℕ) where
  -- The switch over the type of the field. An enumeration has the number of its value.
  pub key_part : CppType → Bool → Scalar → KeyPart
  key_part cpptype_double is_bytes v = pushed (to_le 8 (bits_of v))
  key_part cpptype_float is_bytes v = pushed (to_le 4 (bits_of v))
  key_part cpptype_int64 is_bytes v = pushed (to_le 8 (bits_of v))
  key_part cpptype_uint64 is_bytes v = pushed (to_le 8 (bits_of v))
  key_part cpptype_int32 is_bytes v = pushed (to_le 4 (bits_of v))
  key_part cpptype_uint32 is_bytes v = pushed (to_le 4 (bits_of v))
  key_part cpptype_bool is_bytes v = pushed (to_le 1 (bits_of v))
  key_part cpptype_string is_bytes v =
      pushed (if is_bytes then b64_encode (bytes_of v) else bytes_of v)
  key_part cpptype_enum is_bytes v = not_counted (to_le 4 (bits_of v))
  key_part cpptype_message is_bytes v = nothing

moved : Option (List ℕ) → ℕ → (List ℕ → ℕ → Option (List ℕ × ℕ)) → Option (List ℕ × ℕ)
moved none r go = none
moved (some buffer) r go = go buffer r

-- The loop, with the parts of the key fields; a part is `none` where there is no descriptor, and the
-- outer `none` stands for an index outside a vector.
push_part :
    List ℕ → ℕ → Option (Option KeyPart) → (List ℕ → ℕ → Option (List ℕ × ℕ)) → Option (List ℕ × ℕ)
unfolding moved
push_part buffer r none go = none
push_part buffer r (some none) go = some (buffer, 0)
push_part buffer r (some (some nothing)) go = go buffer r
push_part buffer r (some (some (pushed bytes))) go =
    moved (move_into buffer r bytes) (r + length bytes) go
push_part buffer r (some (some (not_counted bytes))) go = moved (move_into buffer r bytes) r go

pub push_parts : List (Option (Option KeyPart)) → List ℕ → ℕ → Option (List ℕ × ℕ)
unfolding push_part move_into
push_parts [] buffer r = some (buffer, r)
push_parts (part ∷ parts) buffer r = push_part buffer r part (push_parts parts)

module _ (ref : Reflection) (b64_encode : List ℕ → List ℕ) where
  open ref use {Message, full_name, fields_of, get_value}

  part_of : Message → Option (Option FieldDescriptor) → Option (Option KeyPart)
  unfolding key_part
  part_of m none = none
  part_of m (some none) = some none
  part_of m (some (some f)) =
      some (some (key_part b64_encode f.cpp_type f.is_bytes (get_value m f)))

  -- `fieldname_variables[*it]` is read, though it is not used.
  part_at :
      Message
      → Option (List (Option FieldDescriptor))
      → Option FieldNameVariable
      → ℕ
      → Option (Option KeyPart)
  unfolding part_of
  part_at m none fnv k = none
  part_at m (some fields) none k = none
  part_at m (some fields) (some fnv) k = part_of m (get_elem? fields k)

  unfoldable pub parts_of : Message → CachedVariable → List ℕ → List (Option (Option KeyPart))
  unfolding part_at
  parts_of m v [] = []
  parts_of m v (k ∷ ks) =
      part_at m (fields_of (full_name m)) (get_elem? v.fieldname_variables k) k ∷ parts_of m v ks

  -- The key indexes: the first one is the identifier.
  get_key_of : Message → CachedVariable → List ℕ → List ℕ → Option (List ℕ × ℕ)
  unfolding parts_of push_parts
  get_key_of m v [] buffer = some (buffer, 0)
  get_key_of m v (id ∷ ks) buffer =
      push_parts (some (some (pushed (to_le 8 id))) ∷ parts_of m v ks) buffer 0

  variable_or_default : Option CachedVariable → CachedVariable
  variable_or_default none = default_variable
  variable_or_default (some v) = v

  -- The buffer afterwards and the size of the key. (A missing entry is put into the map.)
  unfoldable pub get_key : Variables → String → List ℕ → Message → Option (List ℕ × ℕ)
  unfolding get_key_of variable_or_default
  get_key variables message_type buffer m =
      let v = variable_or_default (find_variable variables message_type) in
      get_key_of m v v.key_indexes buffer
