-- ===== src/Rows/Create.antt =====
-- The CREATE TABLE statement of a message: `getSqlDialectTypeName` and `toCreateSQLTableFields` of
-- fieldnamevalueindexstrings.cpp. A dialect is a number of the enumeration SQL_DIALECT.
use pkt.Common.{ℕ, Option, none, some, ◌==◌, if◌then◌else◌}
use Prim.Native.String.{String}
use text.Mathlib.Text.{◌==◌ as same_text}
use pkt.Rows.{
  Rows, FieldValue, Aliases, CppType, cpptype_int32, cpptype_int64, cpptype_uint32, cpptype_uint64,
  cpptype_double, cpptype_float, cpptype_bool, cpptype_enum, cpptype_string, ◌<<◌, is_empty,
  find_alias, replace, cells_loop, entries, sql_mysql, sql_quote,
}
use pkt.Rows.Insert.{property_int_time}

abbrev pub sql_postgresql : ℕ
sql_postgresql = 0

abbrev pub sql_firebird : ℕ
sql_firebird = 2

abbrev pub sql_sqlite : ℕ
sql_sqlite = 3

sqlite_type : CppType → String
sqlite_type cpptype_int32 = "integer"
sqlite_type cpptype_int64 = "integer"
sqlite_type cpptype_uint32 = "integer"
sqlite_type cpptype_uint64 = "integer"
sqlite_type cpptype_float = "double"
sqlite_type cpptype_double = "double"
sqlite_type cpptype_bool = "integer"
sqlite_type cpptype_enum = "integer"
sqlite_type _ = "TEXT"

mysql_type : CppType → String
mysql_type cpptype_int32 = "int"
mysql_type cpptype_int64 = "bigint"
mysql_type cpptype_uint32 = "int unsigned"
mysql_type cpptype_uint64 = "bigint unsigned"
mysql_type cpptype_float = "float"
mysql_type cpptype_double = "double"
mysql_type cpptype_bool = "int"
mysql_type cpptype_enum = "int"
mysql_type _ = "TEXT"

postgresql_type : CppType → String
postgresql_type cpptype_int32 = "integer"
postgresql_type cpptype_int64 = "bigint"
postgresql_type cpptype_uint32 = "bigint"
postgresql_type cpptype_uint64 = "numeric(20)"
postgresql_type cpptype_float = "float"
postgresql_type cpptype_double = "double precision"
postgresql_type cpptype_bool = "integer"
postgresql_type cpptype_enum = "integer"
postgresql_type _ = "TEXT"

firebird_type : CppType → String
firebird_type cpptype_int32 = "integer"
firebird_type cpptype_int64 = "bigint"
firebird_type cpptype_uint32 = "bigint"
firebird_type cpptype_uint64 = "bigint"
firebird_type cpptype_float = "float"
firebird_type cpptype_double = "double precision"
firebird_type cpptype_bool = "integer"
firebird_type cpptype_enum = "integer"
firebird_type _ = "BLOB sub_type 1"

unfoldable pub get_sql_dialect_type_name : CppType → ℕ → String
unfolding sqlite_type mysql_type postgresql_type firebird_type
get_sql_dialect_type_name field_type dialect =
    if dialect == sql_sqlite
    then sqlite_type field_type
    else if dialect == sql_mysql
    then mysql_type field_type
    else if dialect == sql_postgresql
    then postgresql_type field_type
    else if dialect == sql_firebird
    then firebird_type field_type
    else ""

unfoldable pub column_cell : String → ℕ → Aliases → FieldValue → Option String
column_cell quote dialect aliases v =
    let name = find_alias aliases v.field in
    if is_empty name
    then none
    else some
        (quote << (name << (quote << (" " << get_sql_dialect_type_name v.field_type dialect))))

unfoldable pub property_column_cell : String → ℕ → String × String → Option String
property_column_cell quote dialect (key, value) =
    let cpptype = if same_text key property_int_time then cpptype_uint32 else cpptype_string in
    if is_empty value
    then none
    else some (quote << (value << (quote << (" " << get_sql_dialect_type_name cpptype dialect))))

-- What is written to the output.
unfoldable pub to_create_sql_table_fields : Rows → String → ℕ → Aliases → Aliases → String
to_create_sql_table_fields rows table_name dialect field_aliases properties =
    let quote = sql_quote dialect in
    let (columns, field_count) =
      cells_loop (column_cell quote dialect field_aliases) rows.values 0 in
    let (more_columns, field_count') =
      cells_loop (property_column_cell quote dialect) (entries properties) field_count in
    "CREATE TABLE "
    << (quote
        << (replace table_name "." "_"
            << (quote
                << ("(" << (columns << (if field_count == 0 then "" else more_columns << ");"))))))
