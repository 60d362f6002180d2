-- ===== src/Rows/Statements.antt =====
-- What the INSERT and the CREATE TABLE statement of a message are.
use pkt.Common.{
  ℕ, suc, ◌+◌, ◌≡◌, refl, ap, false, List, [], ◌∷◌, ◌==◌, if◌then◌else◌, length, arith, Bool-cases,
  inl, inr,
}
use mathlib.Core.List.{◌++◌}
use Prim.Native.String.{String}
use text.Mathlib.TextLemmas.{nil-append}
use text.Mathlib.Text.{◌==◌ as same_text}
use pkt.Rows.{
  CppType, cpptype_uint32, cpptype_string, Rows, FieldValue, Aliases, ◌<<◌, is_empty, find_alias,
  replace, entries, sql_quote,
}
use pkt.Rows.Insert.{
  property_int_time, name_cell, property_name_cell, value_cell, property_value_cell,
}
use pkt.Rows.Create.{
  get_sql_dialect_type_name, column_cell, property_column_cell, to_create_sql_table_fields,
}
use pkt.Rows.Joins.{join, items, joined, cells_loop_lem, joined_two}

-- The names in an INSERT statement, and the values.
abbrev pub insert_names : Rows → Aliases → Aliases → ℕ → List String
insert_names rows field_aliases properties dialect =
    items (name_cell (sql_quote dialect) field_aliases) rows.values
    ++ items (property_name_cell (sql_quote dialect)) (entries properties)

abbrev pub insert_values : Rows → Aliases → Aliases → List String
insert_values rows field_aliases properties =
    items (value_cell rows.string_quote field_aliases) rows.values
    ++ items (property_value_cell rows.string_quote) (entries properties)

abbrev pub insert_statement : String → String → List String → List String → String
insert_statement quote table_name names values =
    "INSERT INTO "
    << (quote
        << (replace table_name "." "_"
            << (quote
                << ("(" << (join ", " names << (") VALUES (" << (join ", " values << ");\n")))))))

-- A column in a CREATE TABLE statement, with its type in the dialect.
abbrev pub column : String → CppType → ℕ → String
column name cpp_type dialect =
    sql_quote dialect
    << (name << (sql_quote dialect << (" " << get_sql_dialect_type_name cpp_type dialect)))

-- The columns for the fields: one for each field whose alias is not empty.
abbrev columns_of : Aliases → ℕ → List FieldValue → List String
columns_of aliases dialect [] = []
columns_of aliases dialect (v ∷ vs) =
    let rest = columns_of aliases dialect vs in
    let name = find_alias aliases v.field in
    if is_empty name then rest else column name v.field_type dialect ∷ rest

abbrev pub field_columns : Rows → Aliases → ℕ → List String
field_columns rows field_aliases dialect = columns_of field_aliases dialect rows.values

-- The columns for the properties: one for each whose value, its name, is not empty. The time is a
-- number, all others are strings.
abbrev columns_of_entries : ℕ → List (String × String) → List String
columns_of_entries dialect [] = []
columns_of_entries dialect ((key, value) ∷ ps) =
    let rest = columns_of_entries dialect ps in
    let type = if same_text key property_int_time then cpptype_uint32 else cpptype_string in
    if is_empty value then rest else column value type dialect ∷ rest

abbrev pub property_columns : Aliases → ℕ → List String
property_columns properties dialect = columns_of_entries dialect (entries properties)

items-column_cell :
    (aliases : Aliases) (dialect : ℕ) (vs : List FieldValue)
    → items (column_cell (sql_quote dialect) dialect aliases) vs ≡ columns_of aliases dialect vs
unfolding items column_cell
items-column_cell aliases dialect [] = refl
items-column_cell aliases dialect (v ∷ vs) =
    let rest = items-column_cell aliases dialect vs in
    elim (Bool-cases (is_empty (find_alias aliases v.field))) [
      | inl skipped ↦ rw skipped rest
      | inr named ↦ rw (named, rest) refl
    ]

items-property_column_cell :
    (dialect : ℕ) (ps : List (String × String))
    → items (property_column_cell (sql_quote dialect) dialect) ps ≡ columns_of_entries dialect ps
unfolding items property_column_cell
items-property_column_cell dialect [] = refl
items-property_column_cell dialect ((key, value) ∷ ps) =
    let rest = items-property_column_cell dialect ps in
    elim (Bool-cases (is_empty value)) [
      | inl skipped ↦ rw skipped rest
      | inr named ↦ rw (named, rest) refl
    ]

closed :
    (columns more_columns : List String)
    → joined 0 columns
        << (if (0 + length columns) == 0
            then ""
            else joined (0 + length columns) more_columns << ");")
      ≡ (if length columns == 0 then "" else join ", " (columns ++ more_columns) << ");")
closed [] more_columns = nil-append ""
closed (x ∷ columns) more_columns =
    rw (some_column, not_zero) (joined_two (x ∷ columns) more_columns ");")
  where
    some_column : ((0 + suc (length columns)) == 0) ≡ false
    some_column = ground arith

    not_zero : (suc (length columns) == 0) ≡ false
    not_zero = ground arith

-- `toCreateSQLTableFields` writes a whole CREATE TABLE statement, with a column for each field whose
-- alias is not empty and each property whose value is not, if there is such a field. If there is
-- none it writes the statement up to the opening parenthesis only.
pub to_create_sql_table_fields_lem :
    (rows : Rows) (table_name : String) (dialect : ℕ) (field_aliases properties : Aliases)
    → to_create_sql_table_fields rows table_name dialect field_aliases properties
      ≡ "CREATE TABLE "
        << (sql_quote dialect
            << (replace table_name "." "_"
                << (sql_quote dialect
                    << ("("
                        << (if length (field_columns rows field_aliases dialect) == 0
                            then ""
                            else join ", " (
                                field_columns rows field_aliases dialect
                                ++ property_columns properties dialect)
                              << ");")))))
unfolding to_create_sql_table_fields
to_create_sql_table_fields_lem rows table_name dialect field_aliases properties =
    rw
      (
        cells_loop_lem (column_cell (sql_quote dialect) dialect field_aliases) rows.values 0,
        items-column_cell field_aliases dialect rows.values,
        cells_loop_lem (property_column_cell (sql_quote dialect) dialect) (entries properties)
            (0 + length (field_columns rows field_aliases dialect)),
        items-property_column_cell dialect (entries properties),
      )
      (ap
        (λ (t : String).
          "CREATE TABLE "
          << (sql_quote dialect
              << (replace table_name "." "_" << (sql_quote dialect << ("(" << t)))))
        (closed (field_columns rows field_aliases dialect) (property_columns properties dialect)))
