-- ===== src/Rows/Runs.antt =====
-- Tests of the texts of a message, and their theorems at concrete inputs.
use pkt.Common.{ℕ, ◌+◌, ◌≡◌, refl, false, none, some, [], ◌∷◌}
use Prim.Native.String.{String, slice}
use pkt.Rows.{
  Rows, Aliases, cpptype_uint32, cpptype_string, find_alias, replace, is_number, cells_loop,
  put_cell, sql_mysql,
}
use pkt.Rows.Insert.{
  to_string_insert, name_cell, property_name_cell, value_cell, property_value_cell,
}
use pkt.Rows.Insert2.{to_string_insert2}
use pkt.Rows.Create.{
  sql_sqlite, to_create_sql_table_fields, get_sql_dialect_type_name, column_cell,
  property_column_cell,
}
use pkt.Rows.Lines.{
  to_string_csv, to_string_json, to_string_line, values_loop, properties_loop, member_cell,
}
use pkt.Rows.Statements.{to_create_sql_table_fields_lem}
use pkt.Rows.Texts.{to_string_json_lem}

abbrev rows : Rows
rows = record {
  table = "a.Temperature";
  index2values = 7 ∷ [];
  string_quote = "'";
  quote = "\"";
  values =
      record {
        index = 0;
        field_type = cpptype_uint32;
        field = "unit";
        value = "21";
        sql_string = false;
      }
      ∷ record {
        index = 0;
        field_type = cpptype_string;
        field = "place";
        value = "hall";
        sql_string = false;
      }
      ∷ record {
        index = 0;
        field_type = cpptype_uint32;
        field = "spare";
        value = "0";
        sql_string = false;
      }
      ∷ [];
}

-- The alias of `spare` is empty, so it is left out.
abbrev aliases : Aliases
aliases = some (("spare", "") ∷ ("unit", "t") ∷ [])

abbrev properties : Aliases
properties = some (("received", "99") ∷ [])

inserted :
    to_string_insert rows none aliases properties sql_mysql
    ≡ some "INSERT INTO `a_Temperature`(`t`, `place`, `received`) VALUES (21, 'hall', 99);\n"
unfolding to_string_insert cells_loop put_cell name_cell property_name_cell value_cell
    property_value_cell find_alias is_number replace
inserted = refl

created :
    to_create_sql_table_fields rows "a.b" sql_sqlite aliases (some (("received", "at") ∷ []))
    ≡ "CREATE TABLE \"a_b\"(\"t\" integer, \"place\" TEXT, \"at\" integer);"
unfolding to_create_sql_table_fields cells_loop put_cell column_cell property_column_cell find_alias
    get_sql_dialect_type_name replace
created = refl

csv_line : to_string_csv rows none properties ≡ "\"a.Temperature\", 21, hall, 0, 99\n"
unfolding to_string_csv to_string_line values_loop properties_loop find_alias
csv_line = refl

json_line :
    to_string_json rows none aliases properties
    ≡ "{\"a.Temperature\":{\"t\": 21, \"place\": \"hall\", \"received\": \"99\"}}\n"
unfolding to_string_json cells_loop put_cell member_cell properties_loop find_alias is_number
json_line = refl

to_create_sql_table_fields_lem_example :
    to_create_sql_table_fields rows "a.b" sql_sqlite aliases (some (("received", "at") ∷ []))
    ≡ "CREATE TABLE \"a_b\"(\"t\" integer, \"place\" TEXT, \"at\" integer);"
unfolding find_alias get_sql_dialect_type_name replace
to_create_sql_table_fields_lem_example =
    to_create_sql_table_fields_lem rows "a.b" sql_sqlite aliases (some (("received", "at") ∷ []))

to_string_json_lem_example :
    to_string_json rows none aliases properties
    ≡ "{\"a.Temperature\":{\"t\": 21, \"place\": \"hall\", \"received\": \"99\"}}\n"
unfolding find_alias is_number
to_string_json_lem_example = to_string_json_lem rows none aliases properties

-- Numbers below ten.
abbrev print_digit : ℕ → String
print_digit n = slice "0123456789" n (n + 1)

-- Mode 2 with the message identifier 1, the position of `place`.
abbrev rows2 : Rows
rows2 = record rows { index2values = 1 ∷ [] }

inserted2 :
    to_string_insert2 print_digit rows2 none sql_sqlite
    ≡ some (
        "INSERT INTO \"num\"(message,field,value) VALUES (1,'unit',21);\n"
        ∷ "INSERT INTO \"num\"(message,field,value) VALUES (1,'spare',0);\n" ∷ [])
unfolding to_string_insert2 find_alias is_number
inserted2 = refl
