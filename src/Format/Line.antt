-- ===== src/Format/Line.antt =====
-- The line that put_csv and put_tab write for a message.
use pkt.Common.{
  ℕ, ◌<◌, ◌≡◌, refl, sym, ap, ◌∙◌, Option, some, List, [], ◌∷◌, ◌++◌, map, append_assoc, append-nil,
}
use mathlib.Core.List.{foldl}
use Prim.Native.String.{String}
use pkt.Cache.{Variables}
use pkt.Messages.{CppType, Reflection, finished, bind}
use pkt.Messages.Decompose.{Call}
use pkt.Messages.Decompose.Calls.{IsWalkable, calls, decompose-calls}
use pkt.Rows.{Rows, FieldValue, Aliases, add, find_alias, entries}
use pkt.Rows.Texts.{line_of, to_string_csv_tab}
use pkt.Format.{
  to_string, add_field_value_string, get_message_id, new_rows, filled, put_csv, put_tab,
}

map-append :
    (xs ys : List FieldValue)
    → map (λ v. v.value) (xs ++ ys) ≡ map (λ v. v.value) xs ++ map (λ v. v.value) ys
map-append [] ys = refl
map-append (x ∷ xs) ys = ap (λ (t : List String). x.value ∷ t) (map-append xs ys)

module _ (print_real : CppType → ℕ → String) {J : Type 0} (eval : J → String → J × String)
    (variables : Variables) (format_number : Option ℕ) where
  -- The text of each value, in order.
  abbrev pub texts : J → List Call → List String
  texts j [] = []
  texts j (c ∷ cs) =
      let (j', text) = to_string print_real eval variables format_number j c in text ∷ texts j' cs

  -- The name of the table and the quote are kept, and the texts are added to the values.
  Adds : List String → Rows → Rows → Type 0
  Adds more rows rows' =
      (rows'.table ≡ rows.table)
      × (rows'.quote ≡ rows.quote)
      × (map (λ v. v.value) rows'.values ≡ map (λ v. v.value) rows.values ++ more)

  foldl-Adds :
      (cs : List Call) (j : J) (rows : Rows)
      → Adds
          (texts j cs)
          rows
          (foldl (add_field_value_string print_real eval variables format_number) (j, rows) cs).1
  unfolding Adds add_field_value_string add
  foldl-Adds [] j rows = (refl, refl, sym (append-nil _))
  foldl-Adds (c ∷ cs) j rows =
      let env = add_field_value_string print_real eval variables format_number (j, rows) c in
      let (table, quote, rest) = foldl-Adds cs env.0 env.1 in
      (
        table,
        quote,
        rest
            ∙ ap (λ (t : List String). t ++ texts env.0 cs) (map-append rows.values _)
            ∙ append_assoc (map (λ v. v.value) rows.values) _ (texts env.0 cs),
      )

module _ (r : Reflection) (b64_encode : List ℕ → List ℕ) (print_real : CppType → ℕ → String)
    {J : Type 0} (eval : J → String → J × String) (format_number : Option ℕ) (fuel depth : ℕ)
    (variables : Variables) (j : J) (message_type : String) (message : r.Message)
    (w : IsWalkable r (some (get_message_id variables message_type).0)) where
  -- The texts of the values of the message.
  abbrev pub message_texts : List String
  message_texts =
      texts print_real eval (get_message_id variables message_type).0 format_number j
        (calls r b64_encode (some (get_message_id variables message_type).0) w depth message)

  filled_lem :
      (string_quote quote : String)
      → w.rank (r.full_name message) < fuel
      → w.rank (r.full_name message) < depth
      → (rows : Rows) × (filled r b64_encode print_real eval format_number fuel variables j
            message_type message string_quote quote
          ≡ finished rows)
        × (rows.table ≡ message_type)
        × (rows.quote ≡ quote)
        × (map (λ v. v.value) rows.values ≡ message_texts)
  unfolding filled new_rows Adds bind
  filled_lem string_quote quote h k =
      let (variables', id) = get_message_id variables message_type in
      let cs = calls r b64_encode (some variables') w depth message in
      let start = new_rows message_type id string_quote quote in
      let callback = add_field_value_string print_real eval variables' format_number in
      let walked =
        decompose-calls r b64_encode (some variables') w callback fuel depth message (j, start) h
          k in
      let (table, quoted, values) =
        foldl-Adds print_real eval variables' format_number cs j start in
      ((foldl callback (j, start) cs).1, rw walked refl, table, quoted, values)

  -- With a message type that does not contain itself, and an index for each field, `put_csv` and
  -- `put_tab` end with enough fuel, and write nothing if the table has an empty alias, and else one
  -- line: the quoted name of the table, then the text of each value of the message, in the order of
  -- the fields and down to the messages in it, and the values of all properties, with commas or tabs
  -- between any two of them.
  pub put_csv-put_tab :
      (table_aliases properties : Aliases)
      → w.rank (r.full_name message) < fuel
      → w.rank (r.full_name message) < depth
      → (put_csv r b64_encode print_real eval format_number fuel variables j message_type message
            table_aliases properties
          ≡ finished (
              line_of ", " "\""
                (find_alias table_aliases message_type)
                (message_texts ++ map (λ property. property.1) (entries properties))))
        × (put_tab r b64_encode print_real eval format_number fuel variables j message_type message
              table_aliases properties
            ≡ finished (
                line_of "\t" "\""
                  (find_alias table_aliases message_type)
                  (message_texts ++ map (λ property. property.1) (entries properties))))
  unfolding put_csv put_tab bind
  put_csv-put_tab table_aliases properties h k =
      let (rows, csv, table, quote, values) = filled_lem "\"" "\"" h k in
      let (rows', tab, table', quote', values') = filled_lem "'" "\"" h k in
      let line = (to_string_csv_tab rows table_aliases properties).0 in
      let line' = (to_string_csv_tab rows' table_aliases properties).1 in
      (
        rw csv (ap (λ (t : String). finished t) (line ∙ rw (table, quote, values) refl)),
        rw tab (ap (λ (t : String). finished t) (line' ∙ rw (table', quote', values') refl)),
      )
