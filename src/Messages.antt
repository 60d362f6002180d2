-- ===== src/Messages.antt =====
-- Messages of protobuf as messagecomposer.cpp, messagedecomposer.cpp and packet2message.cpp use
-- them. Descriptors and reflection of the protobuf library are a parameter, with the laws that the
-- theorems rely on.
pub mod Decompose
pub mod Compose
pub mod Packet
pub mod Samples
mod Runs
use pkt.Common.{ℕ, ◌+◌, ◌≡◌, Bool, true, false, Option, none, some, List}
use Prim.Native.String.{String}

-- google::protobuf::FieldDescriptor::CppType
pub data CppType : Type 0 where
  cpptype_int32 : CppType
  cpptype_int64 : CppType
  cpptype_uint32 : CppType
  cpptype_uint64 : CppType
  cpptype_double : CppType
  cpptype_float : CppType
  cpptype_bool : CppType
  cpptype_enum : CppType
  cpptype_string : CppType
  cpptype_message : CppType

-- google::protobuf::FieldDescriptor: `is_bytes` tells TYPE_BYTES, and `message_type` is the full
-- name of the message type of a field of CPPTYPE_MESSAGE.
pub record FieldDescriptor : Type 0 where
  pub name : String
  pub number : ℕ
  pub cpp_type : CppType
  pub is_bytes : Bool
  pub is_repeated : Bool
  pub message_type : String

-- the test for CPPTYPE_MESSAGE
abbrev pub is_message : CppType → Bool
is_message cpptype_message = true
is_message _ = false

-- A value that is not a message: the bits of a value of a native type, or the bytes of a string.
pub data Scalar : Type 0 where
  native : ℕ → Scalar
  string : List ℕ → Scalar

-- What a walk over a message ends with: the state behind it, or what the source leaves undefined;
-- or the walk still runs.
pub data Run {ℓ} (A : Type ℓ) : Type ℓ where
  finished : A → Run A
  undefined : Run A
  running : Run A

-- the code behind a call
unfoldable pub bind {ℓ κ} : {A : Type ℓ} {B : Type κ} → Run A → (A → Run B) → Run B
bind (finished a) next = next a
bind undefined next = undefined
bind running next = running

unfoldable pub or_undefined {ℓ} : {A : Type ℓ} → Option A → Run A
or_undefined none = undefined
or_undefined (some a) = finished a

-- google::protobuf::Message with GetDescriptor, GetReflection and Descriptor::field: each of the
-- pointers to a descriptor may be null. What `MutableMessage` and `AddMessage` return is a message
-- that shares its state with a part of `m`; here it is put back when it has been changed.
pub record Reflection : Type 1 where
  pub Message : Type 0
  pub full_name : Message → String
  pub fields_of : String → Option (List (Option FieldDescriptor))
  pub field_size : Message → FieldDescriptor → ℕ
  pub get_value : Message → FieldDescriptor → Scalar
  pub get_repeated_value : Message → FieldDescriptor → ℕ → Scalar
  pub get_message : Message → FieldDescriptor → Message
  pub get_repeated_message : Message → FieldDescriptor → ℕ → Message
  pub set_value : Message → FieldDescriptor → Scalar → Message
  pub add_value : Message → FieldDescriptor → Scalar → Message
  pub mutable_message : Message → FieldDescriptor → Message
  pub put_message : Message → FieldDescriptor → Message → Message
  pub new_message : Message → FieldDescriptor → Message
  pub add_message : Message → FieldDescriptor → Message → Message
  pub full_name-get_message :
      (m : Message) (f : FieldDescriptor) → full_name (get_message m f) ≡ f.message_type
  pub full_name-get_repeated_message :
      (m : Message) (f : FieldDescriptor) (i : ℕ)
      → full_name (get_repeated_message m f i) ≡ f.message_type
  pub full_name-mutable_message :
      (m : Message) (f : FieldDescriptor) → full_name (mutable_message m f) ≡ f.message_type
  pub full_name-new_message :
      (m : Message) (f : FieldDescriptor) → full_name (new_message m f) ≡ f.message_type
  pub full_name-set_value :
      (m : Message) (f : FieldDescriptor) (v : Scalar) → full_name (set_value m f v) ≡ full_name m
  pub full_name-add_value :
      (m : Message) (f : FieldDescriptor) (v : Scalar) → full_name (add_value m f v) ≡ full_name m
  pub full_name-put_message :
      (m : Message) (f : FieldDescriptor) (sub : Message)
      → full_name (put_message m f sub) ≡ full_name m
  pub full_name-add_message :
      (m : Message) (f : FieldDescriptor) (sub : Message)
      → full_name (add_message m f sub) ≡ full_name m
  pub field_size-add_value :
      (m : Message) (f : FieldDescriptor) (v : Scalar)
      → field_size (add_value m f v) f ≡ field_size m f + 1
  pub field_size-add_message :
      (m : Message) (f : FieldDescriptor) (sub : Message)
      → field_size (add_message m f sub) f ≡ field_size m f + 1
