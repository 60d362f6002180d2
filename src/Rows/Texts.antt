-- ===== src/Rows/Texts.antt =====
-- What the CSV, the tab-delimited and the JSON line of a message are.
use pkt.Common.{
  ℕ, suc, ◌+◌, ◌≡◌, refl, sym, ap, ◌∙◌, Bool, Bool-cases, inl, inr, not, ◌&&◌, true, false, List,
  [], ◌∷◌, map, ltb, if◌then◌else◌, length, arith,
}
use mathlib.Core.List.{◌++◌}
use Prim.Native.String.{String}
use text.Mathlib.TextLemmas.{append_assoc, append-nil, nil-append}
use pkt.Rows.{Rows, FieldValue, Aliases, ◌<<◌, is_empty, is_number, find_alias, entries}
use pkt.Rows.Lines.{
  values_loop, properties_loop, to_string_line, to_string_csv, to_string_tab, member, json_string,
  is_string, member_cell, to_string_json,
}
use pkt.Rows.Joins.{join, items, joined, cells_loop_lem, joined-join}

values_loop-join :
    (sep : String) (vs : List FieldValue) → values_loop sep vs ≡ join sep (map (λ v. v.value) vs)
unfolding values_loop
values_loop-join sep [] = refl
values_loop-join sep (v ∷ []) = refl
values_loop-join sep (v ∷ w ∷ vs) =
    ap (λ (t : String). v.value << (sep << t)) (values_loop-join sep (w ∷ vs))

module _ (sep : String) (text : String × String → String) where
  join-properties_behind :
      (x : String) (ps : List (String × String))
      → x << properties_loop sep true text ps ≡ join sep (x ∷ map text ps)
  unfolding properties_loop
  join-properties_behind x [] = append-nil x
  join-properties_behind x (p ∷ ps) =
      ap (λ (t : String). x << (sep << t)) (join-properties_behind (text p) ps)

  join-properties_after :
      (x : String) (xs : List String) (ps : List (String × String))
      → join sep (x ∷ xs) << properties_loop sep true text ps ≡ join sep ((x ∷ xs) ++ map text ps)
  join-properties_after x [] ps = join-properties_behind x ps
  join-properties_after x (y ∷ ys) ps =
      append_assoc x (sep << join sep (y ∷ ys)) _
      ∙ ap (λ (t : String). x << t)
          (append_assoc sep (join sep (y ∷ ys)) _
            ∙ ap (λ (t : String). sep << t) (join-properties_after y ys ps))

  properties_loop-join :
      (ps : List (String × String)) → properties_loop sep false text ps ≡ join sep (map text ps)
  unfolding properties_loop
  properties_loop-join [] = refl
  properties_loop-join (p ∷ ps) = nil-append _ ∙ join-properties_behind (text p) ps

  -- The properties go on behind `xs`, with a separator if there is one of them.
  join-properties_loop :
      (xs : List String) (n : ℕ) (ps : List (String × String))
      → n ≡ length xs
      → join sep xs << properties_loop sep (ltb 0 n) text ps ≡ join sep (xs ++ map text ps)
  join-properties_loop [] n ps h =
      let none_yet : ltb 0 n ≡ false = ground arith in
      rw none_yet (nil-append _ ∙ properties_loop-join ps)
  join-properties_loop (x ∷ xs) n ps h =
      let some_yet : ltb 0 n ≡ true = ground arith in rw some_yet (join-properties_after x xs ps)

length-map_values : (vs : List FieldValue) → length vs ≡ length (map (λ v. v.value) vs)
length-map_values [] = refl
length-map_values (v ∷ vs) = ap suc (length-map_values vs)

-- Nothing, or a line that starts with the quoted name of the table, followed by the texts.
abbrev pub line_of : String → String → String → List String → String
line_of sep quote table_name texts =
    if is_empty table_name
    then ""
    else quote << (table_name << (quote << (sep << (join sep texts << "\n"))))

abbrev pub line_texts : Rows → Aliases → List String
line_texts rows properties =
    map (λ v. v.value) rows.values ++ map (λ property. property.1) (entries properties)

to_string_line_lem :
    (sep : String) (rows : Rows) (table_aliases properties : Aliases)
    → to_string_line sep rows table_aliases properties
      ≡ line_of sep rows.quote (find_alias table_aliases rows.table) (line_texts rows properties)
unfolding to_string_line
to_string_line_lem sep rows table_aliases properties =
    ap
      (λ (t : String).
        if is_empty (find_alias table_aliases rows.table)
        then ""
        else rows.quote << (find_alias table_aliases rows.table << (rows.quote << (sep << t))))
      (sym (append_assoc (values_loop sep rows.values) _ "\n")
        ∙ ap (λ (t : String). t << "\n")
            (rw (values_loop-join sep rows.values) (
              join-properties_loop sep (λ property. property.1) (map (λ v. v.value) rows.values)
                (length rows.values) (entries properties) (length-map_values rows.values))))

-- `toStringCSV` and `toStringTab` return nothing if the table has an empty alias, and else one line:
-- the quoted name of the table, all values and the values of all properties in order, with commas or
-- tabs between any two of them.
pub to_string_csv_tab :
    (rows : Rows) (table_aliases properties : Aliases)
    → (to_string_csv rows table_aliases properties
        ≡ line_of ", " rows.quote
            (find_alias table_aliases rows.table)
            (line_texts rows properties))
      × (to_string_tab rows table_aliases properties
          ≡ line_of "\t" rows.quote
              (find_alias table_aliases rows.table)
              (line_texts rows properties))
unfolding to_string_csv to_string_tab
to_string_csv_tab rows table_aliases properties = (
  to_string_line_lem ", " rows table_aliases properties,
  to_string_line_lem "\t" rows table_aliases properties,
)

-- A member of a JSON object, with a value that is written as it is or as a string.
abbrev pub json_member : String → Bool → String → String
json_member name true value = "\"" << (name << ("\": " << value))
json_member name false value = "\"" << (name << ("\": " << ("\"" << (value << "\""))))

-- Only a number in a field that is no string is written as it is.
abbrev pub is_plain : FieldValue → Bool
is_plain v = not (is_string v.field_type) && is_number v.value

-- The members for the fields: one for each field whose alias is not empty.
abbrev pub json_fields : Aliases → List FieldValue → List String
json_fields aliases [] = []
json_fields aliases (v ∷ vs) =
    let rest = json_fields aliases vs in
    let name = find_alias aliases v.field in
    if is_empty name then rest else json_member name (is_plain v) v.value ∷ rest

abbrev pub json_members : Rows → Aliases → Aliases → List String
json_members rows field_aliases properties =
    json_fields field_aliases rows.values
    ++ map (λ property. json_member property.0 false property.1) (entries properties)

items-member_cell :
    (aliases : Aliases) (vs : List FieldValue)
    → items (member_cell aliases) vs ≡ json_fields aliases vs
unfolding items member_cell
items-member_cell aliases [] = refl
items-member_cell aliases (v ∷ vs) =
    let rest = items-member_cell aliases vs in
    elim (Bool-cases (is_empty (find_alias aliases v.field))) [
      | inl skipped ↦ rw skipped rest
      | inr named ↦ elim (Bool-cases (is_string v.field_type)) [
        | inl text ↦ rw (named, text, rest) refl
        | inr other ↦ elim (Bool-cases (is_number v.value)) [
          | inl number ↦ rw (named, other, number, rest) refl
          | inr no_number ↦ rw (named, other, no_number, rest) refl
        ]
      ]
    ]

-- `toStringJSON` returns nothing if the table has an empty alias, and else an object in an object:
-- the name of the table with its members, first the fields whose alias is not empty, then the
-- properties, with a comma between any two of them.
pub to_string_json_lem :
    (rows : Rows) (table_aliases field_aliases properties : Aliases)
    → to_string_json rows table_aliases field_aliases properties ≡ (
        if is_empty (find_alias table_aliases rows.table)
        then ""
        else "{\""
          << (find_alias table_aliases rows.table
              << ("\":{" << (join ", " (json_members rows field_aliases properties) << "}}\n"))))
unfolding to_string_json
to_string_json_lem rows table_aliases field_aliases properties =
    rw
      (
        cells_loop_lem (member_cell field_aliases) rows.values 0,
        items-member_cell field_aliases rows.values,
      )
      (ap
        (λ (t : String).
          if is_empty (find_alias table_aliases rows.table)
          then ""
          else "{\"" << (find_alias table_aliases rows.table << ("\":{" << t)))
        (sym (append_assoc (joined 0 ms) _ "}}\n")
          ∙ ap (λ (t : String). t << "}}\n")
              (rw (joined-join ms) (
                join-properties_loop ", " (λ property. member property.0 (json_string property.1))
                  ms (0 + length ms) (entries properties) (omega arith)))))
  where
    ms : List String
    ms = json_fields field_aliases rows.values
