-- ===== src/Cache.antt =====
-- The options cache: Pkt2OptionsCache of pkt2optionscache.cpp, which finds the message type of a
-- packet by its tags, through the messages nested in it. The descriptors of protobuf are a
-- parameter, as far as they are used: the fields of a message by its full name.
pub mod Nested
pub mod First
pub mod Key
pub mod Keys
mod Runs
use pkt.Common.{
  ℕ, zero, suc, ◌+◌, ◌≡◌, refl, inl, inr, Bool, Bool-cases, true, false, Option, none, some, List,
  [], ◌∷◌, All, ltb, ◌==◌, if◌then◌else◌, length, take, drop, get_elem?,
}
use Prim.Native.String.{String, len, slice}
use text.Mathlib.Text.{find?, ◌==◌ as same_text}
use pkt.Fields.{Field}
use pkt.Tags.{PacketVariable, valid_tags}

-- What is used of google::protobuf::FieldDescriptor: the name of the message type is there if the
-- field is of CPPTYPE_MESSAGE.
pub record FieldDescriptor : Type 0 where
  pub full_name : String
  pub number : ℕ
  pub message_type : Option String

-- ProtobufDeclarations::getMessageDescriptor
abbrev pub Declarations : Type 0
Declarations = String → Option (List FieldDescriptor)

-- FieldNameVariable: the name, and `get` and the formats of the variable
pub record FieldNameVariable : Type 0 where
  pub field_name : String
  pub get : String
  pub formats : List String

-- Pkt2PacketVariable with its helper indexes
pub record CachedVariable : Type 0 where
  pub var : PacketVariable
  pub fieldname_variables : List FieldNameVariable
  pub field_numbers : List (ℕ × ℕ)
  pub key_indexes : List ℕ

-- pkt2packet_variable, in the order of its keys
abbrev pub Variables : Type 0
Variables = List (String × CachedVariable)

-- What a test answers; or the source leaves it undefined or throws; or the fuel is used up.
pub data Verdict : Type 0 where
  said : Bool → Verdict
  undefined : Verdict
  running : Verdict

unfoldable pub find_variable : Variables → String → Option CachedVariable
find_variable [] key = none
find_variable ((k, v) ∷ variables) key =
    if same_text k key then some v else find_variable variables key

unfoldable pub find_number : List (ℕ × ℕ) → ℕ → Option ℕ
find_number [] number = none
find_number ((k, i) ∷ numbers) number = if k == number then some i else find_number numbers number

unfoldable pub element : List FieldNameVariable → Option ℕ → Option FieldNameVariable
element variables none = none
element variables (some i) = get_elem? variables i

-- getVariableByFieldNumber: the indexes in the map are in range
unfoldable pub get_variable_by_field_number : CachedVariable → ℕ → Option FieldNameVariable
unfolding find_number element
get_variable_by_field_number v number =
    element v.fieldname_variables (find_number v.field_numbers number)

-- the "zone": what stands behind the first "field."
zone_at : String → Option ℕ → String
zone_at zone none = zone
zone_at zone (some pos) = slice zone (pos + 6) (len zone)

zone_of : FieldNameVariable → String
unfolding zone_at
zone_of fnv = zone_at fnv.get (find? fnv.get "field.")

find_field : List Field → String → Option Field
find_field [] zone = none
find_field (field ∷ fields) zone =
    if same_text field.name zone then some field else find_field fields zone

-- Go on with `rest` unless the nested test failed.
pub and_then : Verdict → Verdict → Verdict
and_then (said true) rest = rest
and_then (said false) rest = said false
and_then undefined rest = undefined
and_then running rest = running

module _ (variables : Variables) (go : CachedVariable → List ℕ → Verdict) where
  test_found : Option CachedVariable → List ℕ → Verdict → Verdict
  test_found none subpacket rest = rest
  test_found (some it) subpacket rest = and_then (go it subpacket) rest

  -- `substr` throws if the offset lies behind the end.
  test_zone : List ℕ → String → Option Field → Verdict → Verdict
  unfolding test_found
  test_zone packet type none rest = rest
  test_zone packet type (some z) rest =
      if ltb (length packet) z.offset
      then undefined
      else test_found (find_variable variables type) (take z.size (drop z.offset packet)) rest

  test_variable : CachedVariable → List ℕ → String → Option FieldNameVariable → Verdict → Verdict
  unfolding test_zone zone_of
  test_variable v packet type none rest = rest
  test_variable v packet type (some fnv) rest =
      test_zone packet type (find_field v.var.fields (zone_of fnv)) rest

  -- One round of the loop over the fields of the message.
  pub test_field : CachedVariable → List ℕ → ℕ → Option String → Verdict → Verdict
  unfolding test_variable
  test_field v packet number none rest = rest
  test_field v packet number (some type) rest =
      test_variable v packet type (get_variable_by_field_number v number) rest

unfoldable pub test_fields :
    Variables
    → (String → CachedVariable → List ℕ → Verdict)
    → CachedVariable
    → List ℕ
    → List FieldDescriptor
    → Verdict
test_fields variables go v packet [] = said true
test_fields variables go v packet (f ∷ fields) =
    test_field variables (go f.full_name) v packet f.number f.message_type
      (test_fields variables go v packet fields)

-- The nested messages, if there is a descriptor.
unfoldable pub test_nested :
    Variables
    → (String → CachedVariable → List ℕ → Verdict)
    → CachedVariable
    → List ℕ
    → Option (List FieldDescriptor)
    → Verdict
unfolding test_fields
test_nested variables go v packet none = said true
test_nested variables go v packet (some fields) = test_fields variables go v packet fields

unfoldable pub after_own_tags : Option Bool → Verdict → Verdict
after_own_tags none rest = undefined
after_own_tags (some false) rest = said false
after_own_tags (some true) rest = rest

-- Pkt2OptionsCache::validTags, on fuel: the nested call is given the full name of the field.
unfoldable pub valid_tags_in :
    Declarations → Variables → ℕ → String → CachedVariable → List ℕ → Verdict
unfolding test_nested after_own_tags
valid_tags_in declarations variables zero message_type v packet = running
valid_tags_in declarations variables (suc fuel) message_type v packet =
    after_own_tags (valid_tags v.var packet) (
      test_nested variables (valid_tags_in declarations variables fuel) v packet
        (declarations message_type))

-- What the loop of find1 ends with.
pub data Search : Type 0 where
  found : String → CachedVariable → Search
  not_found : Search
  failed : Search

take_if : String → CachedVariable → Verdict → Search → Search
take_if type v (said true) rest = found type v
take_if type v (said false) rest = rest
take_if type v undefined rest = failed
take_if type v running rest = failed

-- The loop of find1 over the map, by a test for one entry.
unfoldable pub find1_loop : (String → CachedVariable → Verdict) → Variables → Search
unfolding take_if
find1_loop test [] = not_found
find1_loop test ((type, v) ∷ variables) =
    let rest = find1_loop test variables in take_if type v (test type v) rest

-- Pkt2PacketVariable(): what `operator[]` puts into the map for a missing key
pub default_variable : CachedVariable
default_variable = record {
  var = record { fields = []; packet_size = 0 };
  fieldname_variables = [];
  field_numbers = [];
  key_indexes = [];
}

or_default : Variables → Option CachedVariable → Variables × CachedVariable
or_default variables none = (("", default_variable) ∷ variables, default_variable)
or_default variables (some v) = (variables, v)

-- What find1 returns, with the map afterwards: `message_type` is empty if nothing was found, and
-- the map then gets an entry for the empty name, which is the least.
find1_result : Variables → Search → Option (Variables × CachedVariable × Bool)
unfolding or_default
find1_result variables (found type v) = some (variables, v, true)
find1_result variables not_found =
    let (variables', v) = or_default variables (find_variable variables "") in
    some (variables', v, false)
find1_result variables failed = none

-- Pkt2OptionsCache::find1
unfoldable pub find1 :
    Declarations → Variables → ℕ → List ℕ → Option (Variables × CachedVariable × Bool)
unfolding find1_result
find1 declarations variables fuel packet =
    find1_result variables
      (find1_loop (λ type v. valid_tags_in declarations variables fuel type v packet) variables)

index_if : ℕ → String → Option FieldNameVariable → Option ℕ → Option ℕ
index_if i field_type none rest = none
index_if i field_type (some fnv) rest = if same_text field_type fnv.field_name then some i else rest

-- The loop of getIndex; it is `none` where an index lies outside the vector.
index_loop : List FieldNameVariable → String → ℕ → List ℕ → Option ℕ
unfolding index_if
index_loop variables field_type i [] = some 0
index_loop variables field_type i (k ∷ key_indexes) =
    let rest = index_loop variables field_type (i + 1) key_indexes in
    index_if i field_type (get_elem? variables k) rest

index_in : String → Option CachedVariable → Option ℕ
unfolding index_loop
index_in field_type none = some 0
index_in field_type (some v) = index_loop v.fieldname_variables field_type 1 (drop 1 v.key_indexes)

-- Pkt2OptionsCache::getIndex
pub get_index : Variables → String → String → Option ℕ
unfolding index_in
get_index variables message_type field_type =
    index_in field_type (find_variable variables message_type)

-- Where the only variable has no key but the identifier, no field has an index.
pub get_index-single :
    (type message_type field_type : String) (v : CachedVariable) (id : ℕ)
    → v.key_indexes ≡ id ∷ []
    → get_index ((type, v) ∷ []) message_type field_type ≡ some 0
unfolding get_index find_variable
get_index-single type message_type field_type v id keys =
    elim (Bool-cases (same_text type message_type)) [
      | inl same ↦ rw (same, keys) refl
      | inr other ↦ rw other refl
    ]
