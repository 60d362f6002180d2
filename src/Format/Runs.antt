-- ===== src/Format/Runs.antt =====
-- Tests of the lines, and the theorem at a concrete input.
use pkt.Common.{ℕ, ◌+◌, ◌≡◌, refl, none, some, List, [], ◌∷◌, ◌++◌, map, arith}
use Prim.Native.String.{String}
use pkt.Cache.{CachedVariable, Variables, find_variable, get_index-single}
use pkt.Messages.{CppType, finished, or_undefined}
use pkt.Messages.Samples.{table_whole, rank_whole, falls_whole, whole, sample}
use pkt.Messages.Decompose.{index_of}
use pkt.Messages.Decompose.Calls.{IsWalkable}
use pkt.Rows.{entries, find_alias, ◌<<◌}
use pkt.Rows.Texts.{line_of}
use pkt.Format.{get_message_id, put_csv, put_tab, signed_text, decimal, decimal_loop, digit_text}
use pkt.Format.Line.{message_texts, put_csv-put_tab}
use pkt.Common.Int.{ℤ}

test_decimal : signed_text (ℤ.negsuc 119) ≡ "-120"
unfolding signed_text decimal decimal_loop digit_text
test_decimal = refl

-- The field `id` of Whole has a format.
abbrev cached : CachedVariable
cached = record {
  var = record { fields = []; packet_size = 0 };
  fieldname_variables = record { field_name = "id"; get = ""; formats = "value.id" ∷ [] } ∷ [];
  field_numbers = (1, 0) ∷ [];
  key_indexes = 9 ∷ [];
}

abbrev variables : Variables
variables = ("Whole", cached) ∷ []

abbrev print_real : CppType → ℕ → String
print_real t bits = "real"

-- An engine that counts the expressions, and answers with them.
abbrev eval : ℕ → String → ℕ × String
eval j expr = (j + 1, "<" << expr << ">")

abbrev whole_IsWalkable : IsWalkable whole (some (get_message_id variables "Whole").0)
unfolding get_message_id find_variable index_of or_undefined
whole_IsWalkable = record {
  descriptors = table_whole;
  not_null = λ name. refl;
  rank = rank_whole;
  falls = falls_whole;
  index = λ name field_name. 0;
  indexed = λ name field_name. rw (get_index-single "Whole" name field_name cached 9 refl) refl;
}

abbrev whole_texts : List String
unfolding whole_IsWalkable
whole_texts =
    message_texts whole (λ bytes. bytes) print_real eval (some 0) 2 3 variables 0 "Whole" sample
      whole_IsWalkable

put_csv-put_tab_example :
    (put_csv whole (λ bytes. bytes) print_real eval (some 0) 2 variables 0 "Whole" sample none none
      ≡ finished (
          line_of ", " "\""
            (find_alias none "Whole")
            (whole_texts ++ map (λ property. property.1) (entries none))))
    × (put_tab whole
          (λ bytes. bytes)
          print_real
          eval
          (some 0)
          2
          variables
          0
          "Whole"
          sample
          none
          none
        ≡ finished (
            line_of "\t" "\""
              (find_alias none "Whole")
              (whole_texts ++ map (λ property. property.1) (entries none))))
unfolding whole_IsWalkable
put_csv-put_tab_example =
    put_csv-put_tab whole (λ bytes. bytes) print_real eval (some 0) 2 3 variables 0 "Whole" sample
      whole_IsWalkable none none (omega arith) (omega arith)
