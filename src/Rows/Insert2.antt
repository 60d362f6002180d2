-- ===== src/Rows/Insert2.antt =====
-- The INSERT statements of mode 2, one for each field that is no index: `toStringInsert2` of
-- fieldnamevalueindexstrings.cpp. How a `std::ostream` prints an unsigned number is a parameter.
use pkt.Common.{
  ℕ, ◌+◌, ◌-◌, Bool, false, not, ◌||◌, Option, none, some, List, [], ◌∷◌, ◌==◌, if◌then◌else◌,
  get_elem?, map, ◌≡◌, ◌&&◌, ap, length, leb, ltb, All, arith,
}
use Prim.Native.String.{String, len, slice}
use pkt.Rows.{
  Rows, FieldValue, Aliases, ◌<<◌, is_empty, string_or_message, find_alias, is_number, sql_quote,
}
use pkt.Rows.Insert.{quoted}

-- sql2names
abbrev pub sql2names : List String
sql2names = "message" ∷ "time" ∷ "device" ∷ "field" ∷ "value" ∷ []

abbrev pub is_text : FieldValue → Bool
is_text v = string_or_message v.field_type || (not (is_number v.value) || v.sql_string)

abbrev pub value_text : String → FieldValue → String
value_text string_quote v = if is_text v then quoted string_quote v.value else v.value

-- Texts with a comma behind each; `none` if one of them lies outside its array.
texts_before : List (Option String) → String → Option String
texts_before [] rest = some rest
texts_before (none ∷ texts) rest = none
texts_before (some text ∷ texts) rest = elim (texts_before texts rest) [
  | none ↦ none
  | some t ↦ some (text << ("," << t))
]

-- The names of the indexes from the position `i` on, and their values.
index_names : ℕ → List ℕ → List (Option String)
index_names i [] = []
index_names i (x ∷ xs) = get_elem? sql2names i ∷ index_names (i + 1) xs

value_of : Rows → Option FieldValue → Option String
value_of rows none = none
value_of rows (some v) = some (value_text rows.string_quote v)

module _ (print : ℕ → String) (rows : Rows) where
  -- `ssprefix`, by the indexes behind the message identifier
  prefix_of : ℕ → List ℕ → Option String
  unfolding texts_before index_names value_of
  prefix_of id indexes =
      let values = texts_before (map (λ i. value_of rows (get_elem? rows.values i)) indexes) "" in
      elim values [
        | none ↦ none
        | some t ↦
            texts_before (index_names 1 indexes)
              ("field,value) VALUES (" << (print id << ("," << t)))
      ]

  -- the last comma is removed
  without_last : String → String
  without_last s = slice s 0 (len s - 1)

  contains : List ℕ → ℕ → Bool
  contains [] i = false
  contains (x ∷ xs) i = x == i || contains xs i

  statement : String → String → String → FieldValue → String
  statement quote prefix name v =
      "INSERT INTO "
      << (quote
          << ((if is_text v then "str" else "num")
              << (quote
                  << ("(message,"
                      << (prefix
                          << (",'"
                              << (name
                                  << ("'," << (value_text rows.string_quote v << ");\n")))))))))

  -- The loop over the values, from the position `i` on.
  statements_loop : String → String → Aliases → ℕ → List FieldValue → List String
  unfolding contains statement
  statements_loop quote prefix aliases i [] = []
  statements_loop quote prefix aliases i (v ∷ vs) =
      let rest = statements_loop quote prefix aliases (i + 1) vs in
      let name = find_alias aliases v.field in
      if is_empty name || contains rows.index2values i
      then rest
      else statement quote prefix name v ∷ rest

  statements_of : ℕ → Aliases → Option String → Option (List String)
  unfolding statements_loop without_last
  statements_of dialect aliases none = none
  statements_of dialect aliases (some prefix) =
      some (statements_loop (sql_quote dialect) (without_last prefix) aliases 0 rows.values)

  -- The statements that are pushed; `none` where the source reads outside a vector or array.
  insert2_of : ℕ → Aliases → List ℕ → Option (List String)
  unfolding statements_of prefix_of
  insert2_of dialect aliases [] = none
  insert2_of dialect aliases (id ∷ indexes) = statements_of dialect aliases (prefix_of id indexes)

  unfoldable pub to_string_insert2 : Aliases → ℕ → Option (List String)
  unfolding insert2_of
  to_string_insert2 aliases dialect = insert2_of dialect aliases rows.index2values

  statements_from :
      (quote prefix : String) (aliases : Aliases) (id i : ℕ) (vs : List FieldValue)
      → rows.index2values ≡ id ∷ []
      → All (λ v. is_empty (find_alias aliases v.field) ≡ false) vs
      → length (statements_loop quote prefix aliases i vs)
          + (if leb i id && ltb id (i + length vs) then 1 else 0)
        ≡ length vs
  unfolding statements_loop contains
  statements_from quote prefix aliases id i [] e all = ground arith
  statements_from quote prefix aliases id i (v ∷ vs) e (named, all) =
      let rest = statements_from quote prefix aliases id (i + 1) vs e all in
      rw (named, e) (ground (arith, rest))

  -- With no index but the message identifier, and no empty alias, `toStringInsert2` pushes a
  -- statement for each value, but none for the value at the position that equals the message
  -- identifier, if there is such a position.
  pub to_string_insert2_lem :
      (aliases : Aliases) (dialect id : ℕ)
      → rows.index2values ≡ id ∷ []
      → All (λ v. is_empty (find_alias aliases v.field) ≡ false) rows.values
      → (stmts : List String) × (to_string_insert2 aliases dialect ≡ some stmts)
        × (length stmts + (if ltb id (length rows.values) then 1 else 0) ≡ length rows.values)
  unfolding to_string_insert2 insert2_of
  to_string_insert2_lem aliases dialect id e all =
      let prefix = without_last ("field,value) VALUES (" << (print id << ("," << ""))) in
      let counted = statements_from (sql_quote dialect) prefix aliases id 0 rows.values e all in
      (
        statements_loop (sql_quote dialect) prefix aliases 0 rows.values,
        ap (insert2_of dialect aliases) e,
        ground (arith, counted),
      )
