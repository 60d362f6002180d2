-- ===== src/Rows/Lines.antt =====
-- The CSV, the tab-delimited and the JSON line of a message, and the search for a value by the end
-- of its field name: `toStringCSV`, `toStringTab`, `toStringJSON` and `findByLastName` of
-- fieldnamevalueindexstrings.cpp.
use pkt.Common.{
  ◌-◌, ◌+◌, Bool, true, false, not, ◌||◌, Option, none, some, List, [], ◌∷◌, ltb, if◌then◌else◌,
  length,
}
use Prim.Native.String.{String, len, slice}
use text.Mathlib.Text.{◌==◌ as same_text}
use pkt.Rows.{
  Rows, FieldValue, Aliases, CppType, cpptype_string, ◌<<◌, is_empty, find_alias, is_number,
  cells_loop, entries,
}

-- The loop over the values: a separator behind each but the last.
unfoldable pub values_loop : String → List FieldValue → String
values_loop sep [] = ""
values_loop sep (v ∷ []) = v.value
values_loop sep (v ∷ w ∷ values) = v.value << (sep << values_loop sep (w ∷ values))

-- The loop over the properties, with `addColon`.
unfoldable pub properties_loop :
    String → Bool → (String × String → String) → List (String × String) → String
properties_loop sep add_colon text [] = ""
properties_loop sep add_colon text (property ∷ properties) =
    (if add_colon then sep else "") << (text property << properties_loop sep true text properties)

-- `toStringCSV` and `toStringTab` are the same but for the separator.
unfoldable pub to_string_line : String → Rows → Aliases → Aliases → String
to_string_line sep rows table_aliases properties =
    let table_name = find_alias table_aliases rows.table in
    if is_empty table_name
    then ""
    else rows.quote
      << (table_name
          << (rows.quote
              << (sep
                  << (values_loop sep rows.values
                      << (properties_loop sep (ltb 0 (length rows.values)) (λ property. property.1)
                            (entries properties)
                          << "\n")))))

unfoldable pub to_string_csv : Rows → Aliases → Aliases → String
to_string_csv rows table_aliases properties = to_string_line ", " rows table_aliases properties

unfoldable pub to_string_tab : Rows → Aliases → Aliases → String
to_string_tab rows table_aliases properties = to_string_line "\t" rows table_aliases properties

-- field_type == CPPTYPE_STRING
abbrev pub is_string : CppType → Bool
is_string cpptype_string = true
is_string _ = false

abbrev pub member : String → String → String
member name text = "\"" << (name << ("\": " << text))

abbrev pub json_string : String → String
json_string value = "\"" << (value << "\"")

unfoldable pub member_cell : Aliases → FieldValue → Option String
member_cell aliases v =
    let name = find_alias aliases v.field in
    if is_empty name
    then none
    else if is_string v.field_type || not (is_number v.value)
    then some (member name (json_string v.value))
    else some (member name v.value)

unfoldable pub to_string_json : Rows → Aliases → Aliases → Aliases → String
to_string_json rows table_aliases field_aliases properties =
    let table_name = find_alias table_aliases rows.table in
    let (members, field_count) = cells_loop (member_cell field_aliases) rows.values 0 in
    if is_empty table_name
    then ""
    else "{\""
      << (table_name
          << ("\":{"
              << (members
                  << (properties_loop ", " (ltb 0 field_count)
                        (λ property. member property.0 (json_string property.1))
                        (entries properties)
                      << "}}\n"))))

-- values[i].field.substr(l - len, l) == name_suffix, with `l` the length of the value; `none` where
-- `substr` throws std::out_of_range.
suffix_test : String → FieldValue → Option Bool
suffix_test name_suffix v =
    let l = len v.value in
    let start = l - len name_suffix in
    if ltb l (len name_suffix)
    then some false
    else if ltb (len v.field) start
    then none
    else some (same_text (slice v.field start (start + l)) name_suffix)

find_next : String → Option Bool → Option String → Option String
find_next value none rest = none
find_next value (some true) rest = some value
find_next value (some false) rest = rest

find_loop : String → List FieldValue → Option String
unfolding find_next suffix_test
find_loop name_suffix [] = some ""
find_loop name_suffix (v ∷ values) =
    let rest = find_loop name_suffix values in find_next v.value (suffix_test name_suffix v) rest

unfoldable pub find_by_last_name : Rows → String → Option String
unfolding find_loop
find_by_last_name rows name_suffix = find_loop name_suffix rows.values
