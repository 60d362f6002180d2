-- ===== src/Cache/Runs.antt =====
-- Tests of the options cache, and its theorems at concrete inputs.
use pkt.Common.{
  ℕ, ◌≡◌, refl, true, false, Option, none, some, List, [], ◌∷◌, Bool, map, replicate, take, arith,
}
use Prim.Native.String.{String}
use text.Mathlib.Text.{◌==◌ as same_text}
use pkt.Fields.{Field, endian_no_matter, extract_field, extract_field_uint}
use pkt.Tags.{valid_tags, check_fields}
use pkt.Cache.{
  FieldDescriptor, Declarations, CachedVariable, FieldNameVariable, Variables, test_fields,
  test_nested, after_own_tags, valid_tags_in, find1, find1_loop, default_variable, test_field,
  get_variable_by_field_number, find_field, find_variable, and_then,
}
use pkt.Messages
use pkt.Messages.{CppType, cpptype_enum, cpptype_uint32, cpptype_string, native, string}
use pkt.Messages.Samples.{Tree, empty, with_value, tree_reflection}
use pkt.Cache.Key.{get_key}
use pkt.Cache.Key.Bytes.{get_key-keys_of}
use pkt.Cache.Keys.{FieldOptions, key_indexes}
use pkt.Cache.Nested.{own_tags, valid_tags_in_two_levels}
use pkt.Cache.First.{IsFirst, find1-IsFirst}

abbrev kind : ℕ → Field
kind tag = record { name = "kind"; endian = endian_no_matter; offset = 0; size = 1; tag = tag }

abbrev body : Field
body = record { name = "body"; endian = endian_no_matter; offset = 1; size = 1; tag = 0 }

-- a packet of two bytes, with a message in the second
abbrev outer : CachedVariable
outer = record {
  var = record { fields = kind 5 ∷ body ∷ []; packet_size = 2 };
  fieldname_variables = record { field_name = "inner"; get = "field.body"; formats = [] } ∷ [];
  field_numbers = (1, 0) ∷ [];
  key_indexes = 3 ∷ [];
}

abbrev inner : CachedVariable
inner = record {
  var = record { fields = kind 8 ∷ []; packet_size = 1 };
  fieldname_variables = [];
  field_numbers = [];
  key_indexes = 4 ∷ [];
}

abbrev variables : Variables
variables = ("a.Inner", inner) ∷ ("a.Outer", outer) ∷ []

abbrev descriptors : Bool → Option (List FieldDescriptor)
descriptors true =
    some (record { full_name = "a.Outer.inner"; number = 1; message_type = some "a.Inner" } ∷ [])
descriptors false = none

abbrev declarations : Declarations
declarations name = descriptors (same_text name "a.Outer")

outer_found : find1 declarations variables 2 (5 ∷ 8 ∷ []) ≡ some (variables, outer, true)
unfolding find1 find1_loop valid_tags_in test_nested test_fields after_own_tags valid_tags
    check_fields extract_field_uint extract_field test_field get_variable_by_field_number find_field
    find_variable and_then
outer_found = refl

inner_rejected :
    find1 declarations variables 2 (5 ∷ 7 ∷ [])
    ≡ some (("", default_variable) ∷ variables, default_variable, false)
unfolding find1 find1_loop valid_tags_in test_nested test_fields after_own_tags valid_tags
    check_fields extract_field_uint extract_field test_field get_variable_by_field_number find_field
    find_variable and_then
inner_rejected = refl

find1-IsFirst_example :
    (variables ≡ variables)
    × ((type : String) × IsFirst
          (λ type w. valid_tags_in declarations variables 2 type w (5 ∷ 8 ∷ []))
          variables
          type
          outer)
find1-IsFirst_example =
    find1-IsFirst declarations variables variables 2 (5 ∷ 8 ∷ []) outer outer_found

valid_tags_in_two_levels_example :
    valid_tags_in declarations variables 9 "a.Outer" outer (5 ∷ 8 ∷ [])
    ≡ after_own_tags
        (valid_tags outer.var (5 ∷ 8 ∷ []))
        (test_nested variables own_tags outer (5 ∷ 8 ∷ []) (declarations "a.Outer"))
valid_tags_in_two_levels_example =
    valid_tags_in_two_levels declarations variables 7 "a.Outer" outer (5 ∷ 8 ∷ []) (refl, tt)

-- A key of a state, an enumeration, which is not counted, a number and a note.
abbrev field_of : String → ℕ → CppType → Messages.FieldDescriptor
field_of name number t = record {
  name = name;
  number = number;
  cpp_type = t;
  is_bytes = false;
  is_repeated = false;
  message_type = "";
}

abbrev device_table : String → List Messages.FieldDescriptor
device_table name =
    field_of "state" 1 cpptype_enum
    ∷ field_of "id" 2 cpptype_uint32
    ∷ field_of "note" 3 cpptype_string
    ∷ []

abbrev named : String → FieldNameVariable
named name = record { field_name = name; get = ""; formats = [] }

abbrev device : CachedVariable
device = record {
  var = record { fields = []; packet_size = 0 };
  fieldname_variables = named "state" ∷ named "id" ∷ named "note" ∷ [];
  field_numbers = (1, 0) ∷ (2, 1) ∷ (3, 2) ∷ [];
  key_indexes = 258 ∷ 0 ∷ 1 ∷ 2 ∷ [];
}

abbrev reading : Tree
reading =
    with_value 3 (string (b'o' ∷ b'k' ∷ []))
      (with_value 2 (native 7) (with_value 1 (native 9) (empty "a.Device")))

get_key-keys_of_example :
    (buffer' : List ℕ) × (get_key
        (tree_reflection device_table)
        (λ t. t)
        (("a.Device", device) ∷ [])
        "a.Device"
        (replicate 24 0)
        reading
      ≡ some (buffer', 14))
    × (take 14 buffer' ≡ 2 ∷ 1 ∷ 0 ∷ 0 ∷ 0 ∷ 0 ∷ 0 ∷ 0 ∷ 7 ∷ 0 ∷ 0 ∷ 0 ∷ b'o' ∷ b'k' ∷ [])
unfolding find_variable
get_key-keys_of_example =
    get_key-keys_of (tree_reflection device_table) (λ t. t) (("a.Device", device) ∷ []) "a.Device"
      (replicate 24 0) reading device 258 (0 ∷ 1 ∷ 2 ∷ []) (map some (device_table "a.Device")) refl
      refl refl ((tt, tt), ((tt, tt), ((tt, tt), tt))) (omega arith)

abbrev options_of : ℕ → FieldOptions
options_of index = record { number = 1; fieldname_variable = named ""; index = index }
