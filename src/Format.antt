-- ===== src/Format.antt =====
-- messageformat.cpp: a message as a line of text or a statement. MessageDecomposer (Messages) walks
-- over the message, and for each value `addFieldValueString` adds the text that
-- MessageDecomposer::toString makes of it to a FieldNameValueIndexStrings (Rows). The JavaScript
-- engine is a parameter: `eval` is duk_peval_string with the text of its result, in the context that
-- the constructor has made. `print_real` is what a std::stringstream with a precision of 10 makes of a
-- number of type double or float.
pub mod Line
mod Runs
use pkt.Common.{
  ℕ, zero, suc, ◌+◌, ◌/◌, ◌%◌, Bool, true, false, Option, none, some, List, [], ◌∷◌, ltb,
  if◌then◌else◌, get_elem?, ◌≡◌, refl, arith, ◌<◌, subst,
}
use pkt.Common.Int.{ℤ, signed}
use Prim.Native.Nat.{Ordering, compare}
use Prim.Native.Char.{Char, IsScalar}
use Prim.Native.String.{String, slice}
use pkt.Cache.{
  FieldNameVariable, CachedVariable, Variables, find_variable, default_variable,
  get_variable_by_field_number,
}
use pkt.Messages.{
  CppType, cpptype_int32, cpptype_int64, cpptype_uint32, cpptype_uint64, cpptype_double,
  cpptype_float, cpptype_bool, cpptype_enum, cpptype_string, cpptype_message, FieldDescriptor,
  Scalar, native, string, Run, finished, bind, or_undefined, Reflection,
}
use pkt.Messages.Decompose.{Call, decompose}
use pkt.Rows.{replace, Rows, Aliases, add, find_alias, is_empty, ◌<<◌}
use pkt.Rows.Lines.{to_string_csv, to_string_tab, to_string_json}
use pkt.Rows.Insert.{to_string_insert}
use pkt.Rows.Insert2.{to_string_insert2}
use pkt.Rows.Create.{to_create_sql_table_fields}

digit_text : ℕ → String
digit_text n = slice "0123456789" n (n + 1)

-- A number with at most one digit more than there is fuel.
decimal_loop : ℕ → ℕ → String
unfolding digit_text
decimal_loop zero n = digit_text n
decimal_loop (suc fuel) n =
    let rest = decimal_loop fuel (n / 10) in
    if ltb n 10 then digit_text n else rest << digit_text (n % 10)

-- ss << val of an unsigned number: one below 2^64 has at most 20 digits.
decimal : ℕ → String
unfolding decimal_loop
decimal n = decimal_loop 19 n

signed_text : ℤ → String
unfolding decimal
signed_text (ℤ.pos n) = decimal n
signed_text (ℤ.negsuc n) = "-" << decimal (n + 1)

byte_IsScalar : (n : ℕ) → IsScalar (n % 256)
byte_IsScalar n = let below : compare (n % 256) 55296 ≡ Ordering.lt = ground arith in rw below tt

-- A string of bytes, each a character of its number.
text_of_bytes : List ℕ → String
unfolding byte_IsScalar
text_of_bytes [] = ""
text_of_bytes (x ∷ bytes) = String.◌∷◌ (Char.char (x % 256) (byte_IsScalar x)) (text_of_bytes bytes)

module _ (print_real : CppType → ℕ → String) where
  -- TO_STRING; the bits are those of the native type.
  native_text : CppType → ℕ → String
  unfolding decimal signed_text
  native_text cpptype_double bits = print_real cpptype_double bits
  native_text cpptype_float bits = print_real cpptype_float bits
  native_text cpptype_int64 bits = signed_text (signed 64 bits)
  native_text cpptype_uint64 bits = decimal bits
  native_text cpptype_int32 bits = signed_text (signed 32 bits)
  native_text cpptype_uint32 bits = decimal bits
  native_text cpptype_bool bits = decimal bits
  native_text cpptype_enum bits = signed_text (signed 32 bits)
  native_text cpptype_string bits = ""
  native_text cpptype_message bits = ""

  unformatted : CppType → Scalar → String
  unfolding native_text text_of_bytes
  unformatted t (native bits) = native_text t bits
  unformatted t (string bytes) = text_of_bytes bytes

-- getMessageId, with the map afterwards: operator[] puts a missing entry into it.
id_of : List ℕ → ℕ
id_of [] = 0
id_of (id ∷ ks) = id

id_in : Variables → String → Option CachedVariable → Variables × ℕ
unfolding id_of
id_in variables message_type none = ((message_type, default_variable) ∷ variables, 0)
id_in variables message_type (some v) = (variables, id_of v.key_indexes)

unfoldable pub get_message_id : Variables → String → Variables × ℕ
unfolding id_in
get_message_id variables message_type =
    id_in variables message_type (find_variable variables message_type)

-- FieldNameValueIndexStrings(options, message_name, string_quote, quote)
unfoldable pub new_rows : String → ℕ → String → String → Rows
new_rows message_type id string_quote quote = record {
  table = message_type;
  index2values = id ∷ [];
  string_quote = string_quote;
  quote = quote;
  values = [];
}

module _ (print_real : CppType → ℕ → String) {J : Type 0} (eval : J → String → J × String)
    (variables : Variables) where
  evaluated : J → String → Option String → J × String
  evaluated j value none = (j, value)
  evaluated j value (some expr) = eval j expr

  format_by : J → String → ℕ → Option FieldNameVariable → J × String
  unfolding evaluated
  format_by j value format_number none = (j, value)
  format_by j value format_number (some f) = evaluated j value (get_elem? f.formats format_number)

  format_in : J → ℕ → String → ℕ → Option CachedVariable → J × String
  unfolding format_by
  format_in j number value format_number none = (j, value)
  format_in j number value format_number (some v) =
      format_by j value format_number (get_variable_by_field_number v number)

  -- MessageDecomposer::format
  format : J → String → ℕ → String → ℕ → J × String
  unfolding format_in
  format j message_type number value format_number =
      format_in j number value format_number (find_variable variables message_type)

  -- MessageDecomposer::toString; a negative `format_number` is `none`.
  pub to_string : Option ℕ → J → Call → J × String
  unfolding unformatted format
  to_string none j c = (j, unformatted print_real c.field.cpp_type c.value)
  to_string (some format_number) j c =
      format j c.message_type c.field.number (unformatted print_real c.field.cpp_type c.value)
        format_number

  -- addFieldValueString: the full name of the field is that of its message and its own.
  unfoldable pub add_field_value_string : Option ℕ → J × Rows → Call → J × Rows
  add_field_value_string format_number env c =
      let (j, text) = to_string format_number env.0 c in
      (
        j,
        add env.1 c.field.cpp_type (c.message_type << ("." << c.field.name)) false text c.index
            false,
      )

module _ (r : Reflection) (b64_encode : List ℕ → List ℕ) (print_real : CppType → ℕ → String)
    {J : Type 0} (eval : J → String → J × String) (format_number : Option ℕ) (fuel : ℕ)
    (variables : Variables) (j : J) (message_type : String) (message : r.Message) where
  -- What each of the functions begins with: `vals` and the decomposer that fills it.
  unfoldable pub filled : String → String → Run Rows
  unfolding add_field_value_string get_message_id new_rows
  filled string_quote quote =
      let (variables', id) = get_message_id variables message_type in
      bind
        (decompose r b64_encode (some variables')
          (some (add_field_value_string print_real eval variables' format_number)) fuel message
          (j, new_rows message_type id string_quote quote))
        (λ done. finished done.0.1)

  -- What is written to the stream; each function returns ERR_OK.
  unfoldable pub put_csv : Aliases → Aliases → Run String
  unfolding filled
  put_csv table_aliases properties =
      bind (filled "\"" "\"") (λ vals. finished (to_string_csv vals table_aliases properties))

  unfoldable pub put_tab : Aliases → Aliases → Run String
  unfolding filled
  put_tab table_aliases properties =
      bind (filled "'" "\"") (λ vals. finished (to_string_tab vals table_aliases properties))

  pub put_json : Aliases → Aliases → Aliases → Run String
  unfolding filled
  put_json table_aliases field_aliases properties =
      bind (filled "'" "\"")
        (λ vals. finished (to_string_json vals table_aliases field_aliases properties))

  statement_text : Option String → String
  statement_text none = ""
  statement_text (some stmt) = stmt

  pub put_sql : Aliases → Aliases → Aliases → ℕ → Run String
  unfolding filled statement_text
  put_sql table_aliases field_aliases properties sql_dialect = bind (filled "'" "\"") (λ vals.
      finished
        (statement_text (to_string_insert vals table_aliases field_aliases properties sql_dialect)))

  -- The part of create_sql behind getMessageByName, for the message that it has returned.
  pub create_sql : Aliases → Aliases → Aliases → ℕ → Run String
  unfolding filled
  create_sql table_aliases field_aliases properties sql_dialect =
      let table_name = find_alias table_aliases message_type in
      if is_empty table_name
      then finished ""
      else bind (filled "'" "\"") (λ vals.
        finished (to_create_sql_table_fields vals table_name sql_dialect field_aliases properties))

  joined_text : List String → String
  joined_text [] = ""
  joined_text (stmt ∷ stmts) = stmt << joined_text stmts

  -- `undefined` is what toStringInsert2 leaves undefined.
  pub put_sql2 : Aliases → ℕ → Run String
  unfolding filled joined_text
  put_sql2 field_aliases sql_dialect = bind (filled "'" "\"") (λ vals.
      bind (or_undefined (to_string_insert2 decimal vals field_aliases sql_dialect))
        (λ stmts. finished (joined_text stmts)))

-- create_sql2: the message is not used.
pub create_sql2 : Aliases → String → String
create_sql2 table_aliases message_type =
    let table_name = find_alias table_aliases message_type in
    if is_empty table_name
    then ""
    else "CREATE TABLE " << ("\"" << (replace table_name "." "_" << ("\"" << (" (" << ");"))))
