-- ===== src/Messages/Samples.antt =====
-- Test data for the walks over messages: a message with its reflection.
use pkt.Common.{
  ℕ, ◌+◌, ◌<◌, ◌≡◌, refl, true, false, Option, none, some, List, [], ◌∷◌, ◌++◌, All, map, get_elem?,
  ◌==◌, ==_refl, if◌then◌else◌, arith, Bool-cases, inl, inr,
}
use Prim.Native.String.{String}
use text.Mathlib.Text.{◌==◌ as same_text}
use pkt.Messages.{
  cpptype_uint32, cpptype_string, cpptype_message, is_message, FieldDescriptor, Scalar, native,
  string, Reflection,
}

-- A message as what has been done to an empty one, the last first.
pub data Tree : Type 0 where
  empty : String → Tree
  with_value : ℕ → Scalar → Tree → Tree
  with_message : ℕ → Tree → Tree → Tree

abbrev pub type_of : Tree → String
type_of (empty name) = name
type_of (with_value number v m) = type_of m
type_of (with_message number sub m) = type_of m

-- The message as one of another type.
abbrev pub as_type : String → Tree → Tree
as_type name (empty other) = empty name
as_type name (with_value number v m) = with_value number v (as_type name m)
as_type name (with_message number sub m) = with_message number sub (as_type name m)

pub type_of-as_type : (name : String) (m : Tree) → type_of (as_type name m) ≡ name
type_of-as_type name (empty other) = refl
type_of-as_type name (with_value number v m) = type_of-as_type name m
type_of-as_type name (with_message number sub m) = type_of-as_type name m

abbrev pub values_at : ℕ → Tree → List Scalar
values_at n (empty name) = []
values_at n (with_value number v m) =
    let rest = values_at n m in if number == n then rest ++ v ∷ [] else rest
values_at n (with_message number sub m) = values_at n m

abbrev pub messages_at : ℕ → Tree → List Tree
messages_at n (empty name) = []
messages_at n (with_value number v m) = messages_at n m
messages_at n (with_message number sub m) =
    let rest = messages_at n m in if number == n then rest ++ sub ∷ [] else rest

abbrev pub size_at : ℕ → Tree → ℕ
size_at n (empty name) = 0
size_at n (with_value number v m) = size_at n m + (if number == n then 1 else 0)
size_at n (with_message number sub m) = size_at n m + (if number == n then 1 else 0)

abbrev pub or_else : {A : Type 0} → A → Option A → A
or_else a none = a
or_else a (some b) = b

abbrev pub last_or : {A : Type 0} → A → List A → A
last_or a [] = a
last_or a (x ∷ xs) = last_or x xs

-- Reflection with the fields of a table.
abbrev pub tree_reflection : (String → List FieldDescriptor) → Reflection
tree_reflection table = record {
  Message = Tree;
  full_name = type_of;
  fields_of = λ name. some (map some (table name));
  field_size = λ m f. size_at f.number m;
  get_value = λ m f. last_or (native 0) (values_at f.number m);
  get_repeated_value = λ m f i. or_else (native 0) (get_elem? (values_at f.number m) i);
  get_message = λ m f. as_type f.message_type (last_or (empty "") (messages_at f.number m));
  get_repeated_message =
      λ m f i. as_type f.message_type (or_else (empty "") (get_elem? (messages_at f.number m) i));
  set_value = λ m f v. with_value f.number v m;
  add_value = λ m f v. with_value f.number v m;
  mutable_message = λ m f. as_type f.message_type (last_or (empty "") (messages_at f.number m));
  put_message = λ m f sub. with_message f.number sub m;
  new_message = λ m f. empty f.message_type;
  add_message = λ m f sub. with_message f.number sub m;
  full_name-get_message =
      λ m f. type_of-as_type f.message_type (last_or (empty "") (messages_at f.number m));
  full_name-get_repeated_message = λ m f i.
      type_of-as_type f.message_type (or_else (empty "") (get_elem? (messages_at f.number m) i));
  full_name-mutable_message =
      λ m f. type_of-as_type f.message_type (last_or (empty "") (messages_at f.number m));
  full_name-new_message = λ m f. refl;
  full_name-set_value = λ m f v. refl;
  full_name-add_value = λ m f v. refl;
  full_name-put_message = λ m f sub. refl;
  full_name-add_message = λ m f sub. refl;
  field_size-add_value = λ m f v. rw (==_refl f.number) refl;
  field_size-add_message = λ m f sub. rw (==_refl f.number) refl;
}

abbrev pub field_id : FieldDescriptor
field_id = record {
  name = "id";
  number = 1;
  cpp_type = cpptype_uint32;
  is_bytes = false;
  is_repeated = false;
  message_type = "";
}

abbrev pub field_marks : FieldDescriptor
field_marks = record {
  name = "marks";
  number = 2;
  cpp_type = cpptype_string;
  is_bytes = false;
  is_repeated = true;
  message_type = "";
}

abbrev pub field_parts : FieldDescriptor
field_parts = record {
  name = "parts";
  number = 3;
  cpp_type = cpptype_message;
  is_bytes = false;
  is_repeated = true;
  message_type = "Part";
}

-- The message Whole has an id, marks and parts, which have an id.
abbrev pub table_whole : String → List FieldDescriptor
table_whole name =
    if same_text name "Whole"
    then field_id ∷ field_marks ∷ field_parts ∷ []
    else if same_text name "Part"
    then field_id ∷ []
    else []

abbrev pub rank_whole : String → ℕ
rank_whole name = if same_text name "Whole" then 1 else 0

pub falls_whole :
    (name : String)
    → All
        (λ f. is_message f.cpp_type ≡ true → rank_whole f.message_type < rank_whole name)
        (table_whole name)
falls_whole name = elim (Bool-cases (same_text name "Whole")) [
  | inl whole ↦ rw whole (λ e. cc e, (λ e. cc e, (λ e. omega arith, tt)))
  | inr other ↦ elim (Bool-cases (same_text name "Part")) [
    | inl part ↦ rw (other, part) (λ e. cc e, tt)
    | inr none_of_them ↦ rw (other, none_of_them) tt
  ]
]

abbrev pub whole : Reflection
whole = tree_reflection table_whole

abbrev pub part : ℕ → Tree
part n = with_value 1 (native n) (empty "Part")

abbrev pub sample : Tree
sample = with_message 3 (part 8) (
    with_message 3 (part 7)
      (with_value 2 (string (b'a' ∷ [])) (with_value 1 (native 5) (empty "Whole"))))
