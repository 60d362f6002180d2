-- ===== src/Messages/Runs.antt =====
-- Tests of the walks over messages, and their theorems at concrete inputs.
use pkt.Common.{
  ℕ, ◌+◌, ◌≤◌, ◌≡◌, refl, ap, ◌∙◌, Bool, true, false, none, some, List, [], ◌∷◌, All, arith,
  Bool-cases, inl, inr,
}
use mathlib.Core.List.{foldl}
use Prim.Native.String.{String}
use text.Mathlib.Text.{◌==◌ as same_text}
use pkt.Cache.{
  Variables, CachedVariable, FieldNameVariable, find_variable, find_number, element,
  get_variable_by_field_number,
}
use pkt.Messages.{
  CppType, cpptype_uint32, cpptype_message, FieldDescriptor, finished, running, bind, Reflection,
}
use pkt.Messages.Samples.{
  Tree, empty, type_of, size_at, tree_reflection, field_id, field_marks, field_parts, table_whole,
  rank_whole, falls_whole, whole, sample,
}
use pkt.Messages.Decompose.{Call, index_of, decompose, value_and_size, call, native_size}
use pkt.Messages.Decompose.Calls.{IsWalkable, calls, decompose-calls}
use pkt.Messages.Decompose.Endless.{decompose-running}
use pkt.Messages.Compose.{Callbacks, add_loop, compose, compose_field}
use pkt.Messages.Compose.Loops.{IsDefined, add_loop-capped}
use pkt.Messages.Compose.Balance.{compose_field-size}
use pkt.Messages.Packet.{Environment, packet_callbacks, parse_packet}
use pkt.Messages.Packet.Names.{IsParsable, packet_callbacks-IsComposable, parse_packet-fieldnames}

abbrev whole_IsWalkable : IsWalkable whole none
unfolding index_of
whole_IsWalkable = record {
  descriptors = table_whole;
  not_null = λ name. refl;
  rank = rank_whole;
  falls = falls_whole;
  index = λ name field_name. 0;
  indexed = λ name field_name. refl;
}

abbrev note : List ℕ → Call → List ℕ
note sizes c = c.size ∷ sizes

decompose-calls_example :
    decompose whole (λ bytes. bytes) none (some note) 2 sample []
    ≡ finished (foldl note [] (calls whole (λ bytes. bytes) none whole_IsWalkable 3 sample), 0)
unfolding whole_IsWalkable
decompose-calls_example =
    decompose-calls whole (λ bytes. bytes) none whole_IsWalkable note 2 3 sample [] (omega arith)
      (omega arith)

-- The calls for a message with an id, a mark and two parts with an id.
sizes_of_sample :
    decompose whole (λ bytes. bytes) none (some note) 2 sample [] ≡ finished (4 ∷ 4 ∷ 1 ∷ 4 ∷ [], 0)
unfolding decompose value_and_size call native_size index_of bind
sizes_of_sample = refl

abbrev field_next : FieldDescriptor
field_next = record {
  name = "next";
  number = 2;
  cpp_type = cpptype_message;
  is_bytes = false;
  is_repeated = false;
  message_type = "Chain";
}

abbrev chain : Reflection
chain = tree_reflection (λ name. field_id ∷ field_next ∷ [])

decompose-running_example :
    decompose chain (λ bytes. bytes) none (some note) 1000 (empty "Chain") [] ≡ running
unfolding index_of
decompose-running_example =
    decompose-running chain (λ bytes. bytes) none (λ name field_name. 0) (λ name field_name. refl)
      note "Chain" (field_id ∷ []) field_next [] refl (refl, tt) refl refl refl 1000 (empty "Chain")
      [] refl

-- A callback that counts its calls and answers true.
abbrev eager : Callbacks ℕ
eager = record {
  on_compose_field = λ e name t number repeated i value. finished (e + 1, true, b'x' ∷ []);
  on_message_begin = λ e field repeated i. e;
  on_message_end = λ e repeated i. finished e;
}

abbrev first_byte : CppType → List ℕ → ℕ
first_byte t [] = 0
first_byte t (c ∷ bytes) = c

add_loop-capped_example :
    (m' : Tree) × (e' : ℕ) × (add_loop whole first_byte
        (λ bytes. bytes)
        eager
        4000
        field_marks
        sample
        0
        0
        []
      ≡ finished (m', e'))
    × (1 ≤ size_at 2 m')
    × (size_at 2 m' ≤ 1 + 3001)
unfolding IsDefined
add_loop-capped_example =
    add_loop-capped whole first_byte (λ bytes. bytes) eager 4000 field_marks sample 0
      (λ e name t number repeated i value. ((e + 1, true, b'x' ∷ []), refl)) refl (omega arith)

abbrev field_counts : FieldDescriptor
field_counts = record {
  name = "counts";
  number = 4;
  cpp_type = cpptype_uint32;
  is_bytes = false;
  is_repeated = true;
  message_type = "";
}

-- An engine that counts, and evaluates each expression to the same text.
abbrev evaluate_a : ℕ → String → ℕ × Bool × List ℕ
evaluate_a context expression = (context + 1, true, b'a' ∷ [])

abbrev variable_of : String → FieldNameVariable
variable_of name = record { field_name = name; get = "field.a"; formats = [] }

abbrev whole_variable : CachedVariable
whole_variable = record {
  var = record { fields = []; packet_size = 0 };
  fieldname_variables = variable_of "id" ∷ variable_of "marks" ∷ variable_of "parts" ∷ [];
  field_numbers = (1, 0) ∷ (2, 1) ∷ (3, 2) ∷ [];
  key_indexes = [];
}

abbrev whole_variables : Variables
whole_variables = ("Whole", whole_variable) ∷ ("Part", whole_variable) ∷ []

found_is :
    (name : String) (pv : CachedVariable)
    → find_variable whole_variables name ≡ some pv
    → pv ≡ whole_variable
unfolding find_variable
found_is name pv e = elim (Bool-cases (same_text "Whole" name)) [
  | inl first ↦ cc (rw first at e)
  | inr other ↦ elim (Bool-cases (same_text "Part" name)) [
    | inl second ↦ cc (rw (other, second) at e)
    | inr neither ↦ cc (rw (other, neither) at e)
  ]
]

-- The variable of a field number that the variable of Whole has.
has_variable :
    (name : String) (number : ℕ) (v : FieldNameVariable)
    → get_variable_by_field_number whole_variable number ≡ some v
    → (pv : CachedVariable) → find_variable whole_variables name ≡ some pv
    → (w : FieldNameVariable) × (get_variable_by_field_number pv number ≡ some w)
has_variable name number v e pv found =
    (v, ap (λ t. get_variable_by_field_number t number) (found_is name pv found) ∙ e)

abbrev Known : String → FieldDescriptor → Type 0
Known name f =
    (pv : CachedVariable)
    → find_variable whole_variables name ≡ some pv
    → (v : FieldNameVariable) × (get_variable_by_field_number pv f.number ≡ some v)

Known-whole : (name : String) → All (Known name) (table_whole name)
unfolding get_variable_by_field_number find_number element
Known-whole name =
    let id = has_variable name 1 (variable_of "id") refl in
    elim (Bool-cases (same_text name "Whole")) [
      | inl is_whole ↦ rw is_whole (
        id,
        (
          has_variable name 2 (variable_of "marks") refl,
          (has_variable name 3 (variable_of "parts") refl, tt),
        ),
      )
      | inr other ↦ elim (Bool-cases (same_text name "Part")) [
        | inl is_part ↦ rw (other, is_part) (id, tt)
        | inr neither ↦ rw (other, neither) tt
      ]
    ]

abbrev whole_IsParsable : IsParsable whole whole_variables
whole_IsParsable = record {
  descriptors = table_whole;
  not_null = λ name. refl;
  rank = rank_whole;
  falls = falls_whole;
  known = Known-whole;
}

abbrev new_environment : Environment ℕ
new_environment = record {
  packet_root_variable = some "Whole";
  context = 0;
  fieldnames = "root" ∷ [];
}

parse_packet-fieldnames_example :
    (m' : Tree) × (env' : Environment ℕ) × (parse_packet whole first_byte
        (λ bytes. bytes)
        evaluate_a
        whole_variables
        (λ name. some (empty name))
        3001
        2
        new_environment
      ≡ finished (some m', env'))
    × (type_of m' ≡ "Whole")
    × (env'.fieldnames ≡ "root" ∷ [])
parse_packet-fieldnames_example =
    parse_packet-fieldnames whole first_byte (λ bytes. bytes) evaluate_a whole_variables
      (λ name. some (empty name)) whole_IsParsable 3001 2 new_environment "Whole" (empty "Whole")
      refl refl (omega arith) (omega arith)

abbrev packet_calls : Callbacks (Environment ℕ)
packet_calls = packet_callbacks evaluate_a whole_variables

compose_field-size_example :
    (m' : Tree) × (e' : Environment ℕ) × (compose_field whole first_byte
        (λ bytes. bytes)
        packet_calls
        (compose whole first_byte (λ bytes. bytes) packet_calls 3001 1)
        3001
        field_parts
        (empty "Whole")
        new_environment
      ≡ finished (m', e'))
    × (size_at 3 m' ≡ 1)
unfolding packet_callbacks-IsComposable
compose_field-size_example =
    compose_field-size whole first_byte (λ bytes. bytes) packet_calls (λ e. e.fieldnames) 3001
      (omega arith)
      (packet_callbacks-IsComposable evaluate_a whole_variables whole whole_IsParsable) 1 2
      field_parts (empty "Whole") new_environment refl refl (omega arith)
