-- ===== src/Messages/Compose.antt =====
-- MessageComposer of messagecomposer.cpp: the walk over a descriptor that fills a message with what
-- its callbacks answer. Functions of the C library that read a number and `b64_encode` of
-- bin2ascii.h, which is another project's, are parameters.
pub mod Loops
pub mod Balance
use pkt.Common.{
  ℕ, zero, suc, ◌+◌, Bool, true, false, not, ◌&&◌, Option, none, some, List, [], ◌∷◌, ltb, ◌==◌,
  if◌then◌else◌,
}
use Prim.Native.String.{String}
use pkt.Messages.{
  CppType, cpptype_int32, cpptype_int64, cpptype_uint32, cpptype_uint64, cpptype_double,
  cpptype_float, cpptype_bool, cpptype_enum, cpptype_string, cpptype_message, is_message,
  FieldDescriptor, Scalar, native, string, Run, finished, running, bind, Reflection,
}

-- The three callbacks, with what they are given apart from the message itself, on a state of the
-- environment. A field's callback also answers true or false and returns the text of a value.
pub record Callbacks (E : Type 0) : Type 0 where
  pub on_compose_field : E → String → CppType → ℕ → Bool → ℕ → List ℕ → Run (E × Bool × List ℕ)
  pub on_message_begin : E → Option FieldDescriptor → Bool → ℕ → E
  pub on_message_end : E → Bool → ℕ → Run E

abbrev pub max_fld_allowed : ℕ
max_fld_allowed = 3000

-- parse_bool
parse_bool : List ℕ → Bool
parse_bool [] = false
parse_bool (c ∷ v) = not (c == b'0') && (not (c == b'f') && not (c == b'F'))

-- The parse functions: `parse_number` stands for those of the C library. An enumeration's value is
-- read by parse_int32_t.
unfoldable pub parse : (CppType → List ℕ → ℕ) → CppType → List ℕ → Scalar
unfolding parse_bool
parse parse_number cpptype_bool v = native (if parse_bool v then 1 else 0)
parse parse_number cpptype_string v = string v
parse parse_number cpptype_enum v = native (parse_number cpptype_int32 v)
parse parse_number cpptype_int32 v = native (parse_number cpptype_int32 v)
parse parse_number cpptype_int64 v = native (parse_number cpptype_int64 v)
parse parse_number cpptype_uint32 v = native (parse_number cpptype_uint32 v)
parse parse_number cpptype_uint64 v = native (parse_number cpptype_uint64 v)
parse parse_number cpptype_double v = native (parse_number cpptype_double v)
parse parse_number cpptype_float v = native (parse_number cpptype_float v)
parse parse_number cpptype_message v = string v

-- `value` as it is stored: only a string may hold bytes
unfoldable pub encoded : (List ℕ → List ℕ) → FieldDescriptor → List ℕ → List ℕ
encoded b64_encode f v = if f.is_bytes then b64_encode v else v

-- The types whose loop has the test against an endless loop.
abbrev pub is_capped : CppType → Bool
is_capped cpptype_string = true
is_capped cpptype_enum = true
is_capped _ = false

module _ (r : Reflection) (parse_number : CppType → List ℕ → ℕ) (b64_encode : List ℕ → List ℕ)
    {E : Type 0} (callbacks : Callbacks E) where
  open r use {
    Message, full_name, fields_of, set_value, add_value, mutable_message, put_message, new_message,
    add_message,
  }
  open callbacks use {on_compose_field, on_message_begin, on_message_end}

  unfoldable pub field_call : E → Message → FieldDescriptor → ℕ → List ℕ → Run (E × Bool × List ℕ)
  field_call e m f i value =
      on_compose_field e (full_name m) f.cpp_type f.number f.is_repeated i value

  -- The body of a loop over the values of a repeated field; `rest` is the next round.
  unfoldable pub add_more :
      (Message → E → ℕ → List ℕ → Run (Message × E))
      → Message
      → FieldDescriptor
      → E
      → ℕ
      → List ℕ
      → Bool
      → Run (Message × E)
  unfolding parse encoded
  add_more rest m f e i value false = finished (m, e)
  add_more rest m f e i value true =
      let v = encoded b64_encode f value in
      let m' = add_value m f (parse parse_number f.cpp_type v) in
      if is_capped f.cpp_type && ltb max_fld_allowed (i + 1)
      then finished (m', e)
      else rest m' e (i + 1) v

  -- The loop itself, on fuel.
  unfoldable pub add_loop : ℕ → FieldDescriptor → Message → E → ℕ → List ℕ → Run (Message × E)
  unfolding add_more field_call
  add_loop zero f m e i value = running
  add_loop (suc rounds) f m e i value =
      bind (field_call e m f i value)
        (λ (e', more, value'). add_more (add_loop rounds f) m f e' i value' more)

  -- `while (compose(field, mf, true, i))` on the message that has been added, and its body.
  unfoldable pub compose_more :
      (Message → E → ℕ → Run (Message × E)) → Message → E → ℕ → Bool → Run (Message × E)
  compose_more rest sub e i false = finished (sub, e)
  compose_more rest sub e i true =
      if ltb max_fld_allowed (i + 1) then finished (sub, e) else rest sub e (i + 1)

  unfoldable pub compose_loop :
      (Option FieldDescriptor → Message → Bool → ℕ → E → Run (Bool × Message × E))
      → FieldDescriptor
      → ℕ
      → Message
      → E
      → ℕ
      → Run (Message × E)
  unfolding compose_more
  compose_loop go f zero sub e i = running
  compose_loop go f (suc rounds) sub e i =
      bind (go (some f) sub true i e)
        (λ (again, sub', e'). compose_more (compose_loop go f rounds) sub' e' i again)

  -- `composeField` for a field that is not null; it always returns ERR_OK. The size of the field and
  -- its index, which it also reads, are not used.
  unfoldable pub compose_field :
      (Option FieldDescriptor → Message → Bool → ℕ → E → Run (Bool × Message × E))
      → ℕ
      → FieldDescriptor
      → Message
      → E
      → Run (Message × E)
  unfolding add_loop compose_loop field_call parse encoded
  compose_field go rounds f m e =
      if is_message f.cpp_type
      then if f.is_repeated
        then bind (compose_loop go f rounds (new_message m f) e 0)
            (λ (sub, e'). finished (add_message m f sub, e'))
        else bind (go (some f) (mutable_message m f) false 0 e)
            (λ (again, sub, e'). finished (put_message m f sub, e'))
      else if f.is_repeated
      then add_loop rounds f m e 0 []
      else bind (field_call e m f 0 []) (λ (e', more, value).
        finished (set_value m f (parse parse_number f.cpp_type (encoded b64_encode f value)), e'))

  -- The loop of `compose` over the fields; true if no field is null.
  unfoldable pub compose_fields :
      (Option FieldDescriptor → Message → Bool → ℕ → E → Run (Bool × Message × E))
      → ℕ
      → List (Option FieldDescriptor)
      → Message
      → E
      → Run (Bool × Message × E)
  unfolding compose_field
  compose_fields go rounds [] m e = finished (true, m, e)
  compose_fields go rounds (none ∷ fields) m e = finished (false, m, e)
  compose_fields go rounds (some f ∷ fields) m e =
      bind (compose_field go rounds f m e) (λ (m', e'). compose_fields go rounds fields m' e')

  -- the end of `compose`
  unfoldable pub compose_end : Bool → ℕ → Bool → Message → E → Run (Bool × Message × E)
  compose_end repeated index false m e = finished (false, m, e)
  compose_end repeated index true m e =
      bind (on_message_end e repeated index) (λ e'. finished (repeated, m, e'))

  unfoldable pub compose_described :
      (Option FieldDescriptor → Message → Bool → ℕ → E → Run (Bool × Message × E))
      → ℕ
      → Option (List (Option FieldDescriptor))
      → Message
      → Bool
      → ℕ
      → E
      → Run (Bool × Message × E)
  unfolding compose_fields compose_end
  compose_described go rounds none m repeated index e = finished (false, m, e)
  compose_described go rounds (some fields) m repeated index e =
      bind (compose_fields go rounds fields m e)
        (λ (ok, m', e'). compose_end repeated index ok m' e')

  -- `compose`, on fuel for the depth of the calls, with the fuel of each loop.
  unfoldable pub compose :
      ℕ → ℕ → Option FieldDescriptor → Message → Bool → ℕ → E → Run (Bool × Message × E)
  unfolding compose_described
  compose rounds zero field m repeated index e = running
  compose rounds (suc fuel) field m repeated index e =
      compose_described (compose rounds fuel) rounds (fields_of (full_name m)) m repeated index
        (on_message_begin e field repeated index)
