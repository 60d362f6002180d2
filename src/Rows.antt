-- ===== src/Rows.antt =====
-- The accumulated values of a message, and what its texts share: FieldNameValueIndexStrings of
-- fieldnamevalueindexstrings.cpp, and `replace` and `isNumber` of utilstring.cpp. A `std::map` is
-- the list of its entries in order, a pointer to one that may be NULL an option, a `std::ostream`
-- the text written to it.
pub mod Insert
pub mod Insert2
pub mod Create
pub mod Lines
pub mod Joins
pub mod Statements
pub mod Texts
mod Runs
pub use pkt.Messages.{
  CppType, cpptype_int32, cpptype_int64, cpptype_uint32, cpptype_uint64, cpptype_double,
  cpptype_float, cpptype_bool, cpptype_enum, cpptype_string, cpptype_message,
}
use pkt.Common.{
  ℕ, zero, suc, ◌+◌, ◌-◌, Bool, true, false, not, ◌&&◌, ◌||◌, Option, none, some, List, [], ◌∷◌,
  ltb, leb, ◌==◌, if◌then◌else◌, length, replicate,
}
use mathlib.Core.List.{◌++◌}
use Prim.Native.Char.{code}
use Prim.Native.String.{String, ◌++◌ as append, len, slice}
use text.Mathlib.Text.{find?, ◌==◌ as same_text}

-- ss << a << b
infixr 65 ◌<<◌
abbrev pub ◌<<◌ : String → String → String
a << b = append a b

abbrev pub is_empty : String → Bool
is_empty s = same_text s ""

-- field_type >= CPPTYPE_STRING, which only CPPTYPE_MESSAGE follows
abbrev pub string_or_message : CppType → Bool
string_or_message cpptype_string = true
string_or_message cpptype_message = true
string_or_message _ = false

abbrev pub Aliases : Type 0
Aliases = Option (List (String × String))

-- FieldNameValueString
pub record FieldValue : Type 0 where
  pub index : ℕ
  pub field_type : CppType
  pub field : String
  pub value : String
  pub sql_string : Bool

-- FieldNameValueIndexStrings
pub record Rows : Type 0 where
  pub table : String
  pub index2values : List ℕ
  pub string_quote : String
  pub quote : String
  pub values : List FieldValue

-- index2values[index] = position
set_at : List ℕ → ℕ → ℕ → List ℕ
set_at [] index position = []
set_at (x ∷ xs) zero position = position ∷ xs
set_at (x ∷ xs) (suc index) position = x ∷ set_at xs index position

-- The vector is resized, new elements are 0.
set_index : List ℕ → ℕ → ℕ → List ℕ
unfolding set_at
set_index index2values index position =
    set_at
      (if leb (length index2values) index
        then index2values ++ replicate (index + 1 - length index2values) 0
        else index2values)
      index position

-- FieldNameValueIndexStrings::add, with what it takes from the field descriptor and its options
unfoldable pub add : Rows → CppType → String → Bool → String → ℕ → Bool → Rows
unfolding set_index
add rows cpp_type full_name sql_string value index allow_quotes = record rows {
  index2values =
      if ltb 0 index
      then set_index rows.index2values index (length rows.values)
      else rows.index2values;
  values =
      rows.values
      ++ record {
        index = index;
        field_type = cpp_type;
        field = full_name;
        value = value;
        sql_string = allow_quotes && sql_string;
      }
        ∷ [];
}

find_entry : List (String × String) → String → Option String
find_entry [] name = none
find_entry ((key, value) ∷ aliases) name =
    if same_text key name then some value else find_entry aliases name

entry_or : Option String → String → String
entry_or none name = name
entry_or (some value) name = value

unfoldable pub find_alias : Aliases → String → String
unfolding find_entry entry_or
find_alias none name = name
find_alias (some aliases) name = entry_or (find_entry aliases name) name

-- pkt2utilstring::replace: the first occurrence only
replace_at : String → String → String → Option ℕ → String
replace_at str from to none = str
replace_at str from to (some start_pos) =
    slice str 0 start_pos << (to << slice str (start_pos + len from) (len str))

unfoldable pub replace : String → String → String → String
unfolding replace_at
replace str from to = replace_at str from to (find? str from)

-- std::isdigit, '.' or '-'
number_char : ℕ → Bool
number_char c = leb b'0' c && leb c b'9' || (c == b'.' || c == b'-')

number_chars : String → Bool
unfolding number_char
number_chars String.[] = true
number_chars (String.◌∷◌ c s) = let rest = number_chars s in number_char (code c) && rest

-- pkt2utilstring::isNumber
unfoldable pub is_number : String → Bool
unfolding number_chars
is_number s = not (is_empty s) && number_chars s

-- `if (fieldCount) ss << ", ";`
abbrev pub comma : ℕ → String
comma zero = ""
comma (suc n) = ", "

-- One round of a loop with a `fieldCount`: nothing for `continue`, else what is written.
unfoldable pub put_cell : ℕ → Option String → (ℕ → String × ℕ) → String × ℕ
put_cell fieldCount none rest = rest fieldCount
put_cell fieldCount (some text) rest =
    let (texts, count) = rest (fieldCount + 1) in (comma fieldCount << (text << texts), count)

-- The loops with a `fieldCount`: what is written, and the count afterwards.
unfoldable pub cells_loop : {A : Type 0} → (A → Option String) → List A → ℕ → String × ℕ
unfolding put_cell
cells_loop cell [] fieldCount = ("", fieldCount)
cells_loop cell (x ∷ xs) fieldCount = put_cell fieldCount (cell x) (cells_loop cell xs)

-- A map that may be missing has no entries to loop over.
abbrev pub entries : Aliases → List (String × String)
entries none = []
entries (some properties) = properties

-- the quote of names: "`" for SQL_MYSQL
abbrev pub sql_mysql : ℕ
sql_mysql = 1

abbrev pub sql_quote : ℕ → String
sql_quote dialect = if dialect == sql_mysql then "`" else "\""
