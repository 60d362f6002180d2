-- ===== src/Rows/Insert.antt =====
-- The INSERT statement of a message: `toStringInsert` of fieldnamevalueindexstrings.cpp.
use pkt.Common.{ℕ, not, ◌&&◌, ◌||◌, Option, none, some, ◌==◌, if◌then◌else◌}
use Prim.Native.String.{String}
use text.Mathlib.Text.{◌==◌ as same_text}
use pkt.Rows.{
  Rows, FieldValue, Aliases, ◌<<◌, is_empty, string_or_message, find_alias, replace, is_number,
  cells_loop, entries, sql_quote,
}

-- PROPERTY_INT_TIME
abbrev pub property_int_time : String
property_int_time = "received"

unfoldable pub name_cell : String → Aliases → FieldValue → Option String
name_cell quote aliases v =
    let name = find_alias aliases v.field in
    if is_empty name then none else some (quote << (name << quote))

unfoldable pub property_name_cell : String → String × String → Option String
property_name_cell quote (key, value) = some (quote << (key << quote))

abbrev pub quoted : String → String → String
quoted string_quote value = string_quote << (value << string_quote)

unfoldable pub value_cell : String → Aliases → FieldValue → Option String
value_cell string_quote aliases v =
    if is_empty (find_alias aliases v.field)
    then none
    else if string_or_message v.field_type || not (is_number v.value)
    then some (quoted string_quote v.value)
    else some v.value

unfoldable pub property_value_cell : String → String × String → Option String
property_value_cell string_quote (key, value) =
    if same_text key property_int_time && is_number value
    then some value
    else some (quoted string_quote value)

-- The statement that is pushed, if there is one.
unfoldable pub to_string_insert : Rows → Aliases → Aliases → Aliases → ℕ → Option String
to_string_insert rows table_aliases field_aliases properties dialect =
    let table_name = find_alias table_aliases rows.table in
    let quote = sql_quote dialect in
    let (names, field_count) = cells_loop (name_cell quote field_aliases) rows.values 0 in
    let (more_names, field_count') =
      cells_loop (property_name_cell quote) (entries properties) field_count in
    let (values, value_count) =
      cells_loop (value_cell rows.string_quote field_aliases) rows.values 0 in
    let (more_values, value_count') =
      cells_loop (property_value_cell rows.string_quote) (entries properties) value_count in
    if is_empty table_name
    then none
    else if field_count' == 0
    then none
    else some (
        "INSERT INTO "
        << (quote
            << (replace table_name "." "_"
                << (quote
                    << ("("
                        << (names
                            << (more_names
                                << (") VALUES (" << (values << (more_values << ");\n"))))))))))
