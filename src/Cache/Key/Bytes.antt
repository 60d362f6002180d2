-- ===== src/Cache/Key/Bytes.antt =====
-- What the key of a message is made of.
use pkt.Common.{
  ℕ, zero, suc, ◌+◌, ◌≤◌, ◌≡◌, refl, sym, ap, ap₂, ◌∙◌, Bool, true, if◌then◌else◌, Option, none,
  some, List, [], ◌∷◌, ◌++◌, All, append_assoc, append-nil, leb, get_elem?, length, length-append,
  take, drop, arith,
}
use pkt.Common.Bytes.{
  to_le, overwrite, length-overwrite, length-to_le, slice-overwrite_self, slice-overwrite_before,
}
use Prim.Native.String.{String}
use pkt.Messages.{
  CppType, cpptype_int32, cpptype_int64, cpptype_uint32, cpptype_uint64, cpptype_double,
  cpptype_float, cpptype_bool, cpptype_enum, cpptype_string, cpptype_message, FieldDescriptor,
  Scalar, native, string, Reflection,
}
use pkt.Cache.{FieldNameVariable, CachedVariable, Variables, find_variable}
use pkt.Cache.Key.{
  KeyPart, pushed, not_counted, nothing, key_part, push_parts, part_of, part_at, parts_of,
  get_key_of, get_key,
}

-- There is a descriptor for each key field, and a name.
abbrev pub IsPresent : Option (Option KeyPart) → Type 0
IsPresent none = ⊥
IsPresent (some none) = ⊥
IsPresent (some (some part)) = Unit

-- The bytes that are counted.
abbrev pub key_bytes : List (Option (Option KeyPart)) → List ℕ
key_bytes [] = []
key_bytes (some (some (pushed bytes)) ∷ parts) = bytes ++ key_bytes parts
key_bytes (part ∷ parts) = key_bytes parts

-- A part that is not counted has at most four bytes.
abbrev IsShort : Option (Option KeyPart) → Type 0
IsShort (some (some (not_counted bytes))) = length bytes ≤ 4
IsShort part = Unit

take-add : (r n : ℕ) (xs : List ℕ) → take (r + n) xs ≡ take r xs ++ take n (drop r xs)
take-add zero n xs = let same : 0 + n ≡ n = omega arith in rw same refl
take-add (suc r) n [] =
    let next : suc r + n ≡ suc (r + n) = omega arith in rw next (sym (no_bytes n))
  where
    no_bytes : (n : ℕ) → take {A = ℕ} n [] ≡ []
    no_bytes zero = refl
    no_bytes (suc n) = refl
take-add (suc r) n (x ∷ xs) =
    let next : suc r + n ≡ suc (r + n) = omega arith in
    rw next (ap (λ (t : List ℕ). x ∷ t) (take-add r n xs))

take-overwrite :
    (buffer : List ℕ) (r : ℕ) (bytes : List ℕ)
    → r + length bytes ≤ length buffer
    → take (r + length bytes) (overwrite buffer r bytes) ≡ take r buffer ++ bytes
take-overwrite buffer r bytes h =
    take-add r (length bytes) (overwrite buffer r bytes)
    ∙ rw (slice-overwrite_self buffer r bytes h)
        (ap (λ (t : List ℕ). t ++ bytes) (slice-overwrite_before buffer r 0 r bytes (omega arith)))

fits :
    (buffer : List ℕ) (r : ℕ) (bytes : List ℕ)
    → r + length bytes ≤ length buffer
    → leb (r + length bytes) (length buffer) ≡ true
fits buffer r bytes h = ground arith

push_parts_lem :
    (parts : List (Option (Option KeyPart))) (buffer : List ℕ) (r : ℕ)
    → All IsPresent parts
    → All IsShort parts
    → r + length (key_bytes parts) + 4 ≤ length buffer
    → (buffer' : List ℕ) × (push_parts parts buffer r
        ≡ some (buffer', r + length (key_bytes parts)))
      × (take (r + length (key_bytes parts)) buffer' ≡ take r buffer ++ key_bytes parts)
unfolding push_parts
push_parts_lem [] buffer r p s h =
    let same : r + 0 ≡ r = omega arith in
    (buffer, rw same refl, rw same (sym (append-nil (take r buffer))))
push_parts_lem (none ∷ parts) buffer r (p, ps) s h = absurd p
push_parts_lem (some none ∷ parts) buffer r (p, ps) s h = absurd p
push_parts_lem (some (some nothing) ∷ parts) buffer r (p, ps) (s, ss) h =
    push_parts_lem parts buffer r ps ss h
push_parts_lem (some (some (not_counted bytes)) ∷ parts) buffer r (p, ps) (s, ss) h =
    let same = length-overwrite buffer r bytes in
    let (b, e, t) = push_parts_lem parts (overwrite buffer r bytes) r ps ss (omega (arith, same)) in
    (
      b,
      rw (fits buffer r bytes (omega arith)) e,
      t
          ∙ ap (λ (x : List ℕ). x ++ key_bytes parts)
              (slice-overwrite_before buffer r 0 r bytes (omega arith)),
    )
push_parts_lem (some (some (pushed bytes)) ∷ parts) buffer r (p, ps) (s, ss) h =
    let same = length-overwrite buffer r bytes in
    let more = length-append {0} bytes (key_bytes parts) in
    let total : r + length bytes + length (key_bytes parts)
        ≡ r + length (bytes ++ key_bytes parts) =
      omega (arith, more) in
    let (b, e, t) =
      push_parts_lem parts (overwrite buffer r bytes) (r + length bytes) ps ss
        (omega (arith, same, more)) in
    (
      b,
      rw (fits buffer r bytes (omega (arith, more))) (e ∙ ap (λ (n : ℕ). some (b, n)) total),
      rw (← total) (
          t
          ∙ ap (λ (x : List ℕ). x ++ key_bytes parts)
              (take-overwrite buffer r bytes (omega (arith, more)))
          ∙ append_assoc (take r buffer) bytes (key_bytes parts)),
    )

key_length : (id : ℕ) (rest : List ℕ) → 0 + length (to_le 8 id ++ rest) ≡ 8 + length rest
key_length id rest = omega (arith, length-append {0} (to_le 8 id) rest, length-to_le 8 id)

-- The bytes of a value that is not counted are those of an enumeration.
key_part-IsShort :
    (b64_encode : List ℕ → List ℕ) (t : CppType) (is_bytes : Bool) (v : Scalar)
    → IsShort (some (some (key_part b64_encode t is_bytes v)))
unfolding key_part
key_part-IsShort b64_encode cpptype_double is_bytes v = tt
key_part-IsShort b64_encode cpptype_float is_bytes v = tt
key_part-IsShort b64_encode cpptype_int64 is_bytes v = tt
key_part-IsShort b64_encode cpptype_uint64 is_bytes v = tt
key_part-IsShort b64_encode cpptype_int32 is_bytes v = tt
key_part-IsShort b64_encode cpptype_uint32 is_bytes v = tt
key_part-IsShort b64_encode cpptype_bool is_bytes v = tt
key_part-IsShort b64_encode cpptype_string is_bytes v = tt
key_part-IsShort b64_encode cpptype_enum is_bytes v = omega arith
key_part-IsShort b64_encode cpptype_message is_bytes v = tt

-- How many bytes of the key a value of a native type has: none for an enumeration.
abbrev key_width : CppType → ℕ
key_width cpptype_double = 8
key_width cpptype_int64 = 8
key_width cpptype_uint64 = 8
key_width cpptype_float = 4
key_width cpptype_int32 = 4
key_width cpptype_uint32 = 4
key_width cpptype_bool = 1
key_width cpptype_string = 0
key_width cpptype_enum = 0
key_width cpptype_message = 0

-- The bytes of a value of a field.
abbrev pub key_text : (List ℕ → List ℕ) → FieldDescriptor → Scalar → List ℕ
key_text b64_encode f (native bits) = to_le (key_width f.cpp_type) bits
key_text b64_encode f (string bytes) = if f.is_bytes then b64_encode bytes else bytes

-- A field of type string has the bytes of a string, and a field of another type a native value.
abbrev pub Holds : CppType → Scalar → Type 0
Holds cpptype_string (string bytes) = Unit
Holds cpptype_string (native bits) = ⊥
Holds t (string bytes) = ⊥
Holds t (native bits) = Unit

abbrev pub HasVariable : Option FieldNameVariable → Type 0
HasVariable none = ⊥
HasVariable (some fnv) = Unit

-- The bytes of a part that are counted.
abbrev counted : Option (Option KeyPart) → List ℕ
counted (some (some (pushed bytes))) = bytes
counted part = []

key_bytes_cons :
    (part : Option (Option KeyPart)) (parts : List (Option (Option KeyPart)))
    → key_bytes (part ∷ parts) ≡ counted part ++ key_bytes parts
key_bytes_cons none parts = refl
key_bytes_cons (some none) parts = refl
key_bytes_cons (some (some (pushed bytes))) parts = refl
key_bytes_cons (some (some (not_counted bytes))) parts = refl
key_bytes_cons (some (some nothing)) parts = refl

key_part-key_text :
    (b64_encode : List ℕ → List ℕ) (f : FieldDescriptor) (v : Scalar)
    → Holds f.cpp_type v
    → counted (some (some (key_part b64_encode f.cpp_type f.is_bytes v))) ≡ key_text b64_encode f v
unfolding key_part
key_part-key_text b64_encode f v h = by_type f.cpp_type v h
  where
    by_type :
        (t : CppType) (v : Scalar)
        → Holds t v
        → counted (some (some (key_part b64_encode t f.is_bytes v)))
          ≡ key_text b64_encode (record f { cpp_type = t }) v
    by_type cpptype_double (native bits) h = refl
    by_type cpptype_double (string bytes) h = absurd h
    by_type cpptype_float (native bits) h = refl
    by_type cpptype_float (string bytes) h = absurd h
    by_type cpptype_int64 (native bits) h = refl
    by_type cpptype_int64 (string bytes) h = absurd h
    by_type cpptype_uint64 (native bits) h = refl
    by_type cpptype_uint64 (string bytes) h = absurd h
    by_type cpptype_int32 (native bits) h = refl
    by_type cpptype_int32 (string bytes) h = absurd h
    by_type cpptype_uint32 (native bits) h = refl
    by_type cpptype_uint32 (string bytes) h = absurd h
    by_type cpptype_bool (native bits) h = refl
    by_type cpptype_bool (string bytes) h = absurd h
    by_type cpptype_string (native bits) h = absurd h
    by_type cpptype_string (string bytes) h = refl
    by_type cpptype_enum (native bits) h = refl
    by_type cpptype_enum (string bytes) h = absurd h
    by_type cpptype_message (native bits) h = refl
    by_type cpptype_message (string bytes) h = absurd h

module _ (ref : Reflection) (b64_encode : List ℕ → List ℕ) where
  open ref use {Message, full_name, fields_of, get_value}

  part_of-IsShort :
      (m : Message) (o : Option (Option FieldDescriptor)) → IsShort (part_of ref b64_encode m o)
  unfolding part_of
  part_of-IsShort m none = tt
  part_of-IsShort m (some none) = tt
  part_of-IsShort m (some (some f)) =
      key_part-IsShort b64_encode f.cpp_type f.is_bytes (get_value m f)

  part_at-IsShort :
      (m : Message) (fields : Option (List (Option FieldDescriptor)))
      (fnv : Option FieldNameVariable) (k : ℕ)
      → IsShort (part_at ref b64_encode m fields fnv k)
  unfolding part_at
  part_at-IsShort m none fnv k = tt
  part_at-IsShort m (some fields) none k = tt
  part_at-IsShort m (some fields) (some fnv) k = part_of-IsShort m (get_elem? fields k)

  parts_of-IsShort :
      (m : Message) (v : CachedVariable) (ks : List ℕ)
      → All IsShort (parts_of ref b64_encode m v ks)
  unfolding parts_of
  parts_of-IsShort m v [] = tt
  parts_of-IsShort m v (k ∷ ks) = (
    part_at-IsShort m (fields_of (full_name m)) (get_elem? v.fieldname_variables k) k,
    parts_of-IsShort m v ks,
  )

  -- The key of the parts.
  get_key-key_bytes :
      (variables : Variables) (message_type : String) (buffer : List ℕ) (m : Message)
      (v : CachedVariable) (id : ℕ) (ks : List ℕ)
      → find_variable variables message_type ≡ some v
      → v.key_indexes ≡ id ∷ ks
      → All IsPresent (parts_of ref b64_encode m v ks)
      → 8 + length (key_bytes (parts_of ref b64_encode m v ks)) + 4 ≤ length buffer
      → (buffer' : List ℕ) × (get_key ref b64_encode variables message_type buffer m
          ≡ some (buffer', 8 + length (key_bytes (parts_of ref b64_encode m v ks))))
        × (take (8 + length (key_bytes (parts_of ref b64_encode m v ks))) buffer'
            ≡ to_le 8 id ++ key_bytes (parts_of ref b64_encode m v ks))
  unfolding get_key
  get_key-key_bytes variables message_type buffer m v id ks there keys present room =
      let parts = some (some (pushed (to_le 8 id))) ∷ parts_of ref b64_encode m v ks in
      let (b, e, t) =
        push_parts_lem parts buffer 0 (tt, present) (tt, parts_of-IsShort m v ks) (omega arith) in
      let rest = key_bytes (parts_of ref b64_encode m v ks) in
      let size : 0 + length (key_bytes parts) ≡ 8 + length rest = key_length id rest in
      let found : get_key ref b64_encode variables message_type buffer m
          ≡ get_key_of ref b64_encode m v v.key_indexes buffer =
        rw there refl in
      (
        b,
        found
            ∙ ap (λ (l : List ℕ). get_key_of ref b64_encode m v l buffer) keys
            ∙ e
            ∙ ap (λ (n : ℕ). some (b, n)) size,
        rw (← size) t,
      )

  -- The bytes of the field of a key index.
  abbrev key_of : Message → Option (Option FieldDescriptor) → List ℕ
  key_of m none = []
  key_of m (some none) = []
  key_of m (some (some f)) = key_text b64_encode f (get_value m f)

  -- The bytes of the fields of all key indexes, in order.
  abbrev pub keys_of : Message → List (Option FieldDescriptor) → List ℕ → List ℕ
  keys_of m fields [] = []
  keys_of m fields (k ∷ ks) = key_of m (get_elem? fields k) ++ keys_of m fields ks

  abbrev HasField : Message → Option (Option FieldDescriptor) → Type 0
  HasField m none = ⊥
  HasField m (some none) = ⊥
  HasField m (some (some f)) = Holds f.cpp_type (get_value m f)

  -- The index is that of a field with a descriptor, a value of its type, and a variable in the cache.
  abbrev pub IsKey : Message → CachedVariable → List (Option FieldDescriptor) → ℕ → Type 0
  IsKey m v fields k =
      HasField m (get_elem? fields k) × HasVariable (get_elem? v.fieldname_variables k)

  part_of-key_of :
      (m : Message) (o : Option (Option FieldDescriptor))
      → HasField m o
      → IsPresent (part_of ref b64_encode m o) × (counted (part_of ref b64_encode m o) ≡ key_of m o)
  unfolding part_of
  part_of-key_of m none h = absurd h
  part_of-key_of m (some none) h = absurd h
  part_of-key_of m (some (some f)) h = (tt, key_part-key_text b64_encode f (get_value m f) h)

  part_at-key_of :
      (m : Message) (v : CachedVariable) (fields : List (Option FieldDescriptor)) (k : ℕ)
      (fnv : Option FieldNameVariable)
      → HasField m (get_elem? fields k)
      → HasVariable fnv
      → IsPresent (part_at ref b64_encode m (some fields) fnv k)
        × (counted (part_at ref b64_encode m (some fields) fnv k) ≡ key_of m (get_elem? fields k))
  unfolding part_at
  part_at-key_of m v fields k none h there = absurd there
  part_at-key_of m v fields k (some fnv) h there = part_of-key_of m (get_elem? fields k) h

  parts_of-keys_of :
      (m : Message) (v : CachedVariable) (fields : List (Option FieldDescriptor)) (ks : List ℕ)
      → fields_of (full_name m) ≡ some fields
      → All (IsKey m v fields) ks
      → All IsPresent (parts_of ref b64_encode m v ks)
        × (key_bytes (parts_of ref b64_encode m v ks) ≡ keys_of m fields ks)
  unfolding parts_of
  parts_of-keys_of m v fields [] described all = (tt, refl)
  parts_of-keys_of m v fields (k ∷ ks) described ((field, variable), all) =
      let (present, bytes) =
        part_at-key_of m v fields k (get_elem? v.fieldname_variables k) field variable in
      let (presents, rest) = parts_of-keys_of m v fields ks described all in
      let part = part_at ref b64_encode m (some fields) (get_elem? v.fieldname_variables k) k in
      rw described (
        (present, presents),
        key_bytes_cons part (parts_of ref b64_encode m v ks)
            ∙ ap₂ (λ (x y : List ℕ). x ++ y) bytes rest,
      )

  -- For a message type in the map whose key indexes are an identifier and fields that have a
  -- descriptor, a value of their type and a variable, in a buffer with four bytes to spare: the key is
  -- the identifier in eight bytes, followed by the bytes of the key fields in order, and the result is
  -- the length of the key. A double or a 64-bit integer has eight bytes, a float or a 32-bit integer
  -- four, a Boolean value one, the lowest byte first; a string has its characters, and bytes what
  -- `b64_encode` makes of them. An enumeration or a message has none.
  pub get_key-keys_of :
      (variables : Variables) (message_type : String) (buffer : List ℕ) (m : Message)
      (v : CachedVariable) (id : ℕ) (ks : List ℕ) (fields : List (Option FieldDescriptor))
      → find_variable variables message_type ≡ some v
      → v.key_indexes ≡ id ∷ ks
      → fields_of (full_name m) ≡ some fields
      → All (IsKey m v fields) ks
      → 8 + length (keys_of m fields ks) + 4 ≤ length buffer
      → (buffer' : List ℕ) × (get_key ref b64_encode variables message_type buffer m
          ≡ some (buffer', 8 + length (keys_of m fields ks)))
        × (take (8 + length (keys_of m fields ks)) buffer' ≡ to_le 8 id ++ keys_of m fields ks)
  get_key-keys_of variables message_type buffer m v id ks fields there keys described all room =
      let (present, same) = parts_of-keys_of m v fields ks described all in
      let (b, e, t) =
        get_key-key_bytes variables message_type buffer m v id ks there keys present
          (rw same room) in
      (b, e ∙ ap (λ (l : List ℕ). some (b, 8 + length l)) same, rw (← same) (t ∙ rw same refl))
