-- ===== src/Messages/Compose/Balance.antt =====
-- `MessageComposer::compose` with callbacks that keep a stack of field names and answer false for
-- each field, as those of packet2message.cpp do.
use pkt.Common.{
  ℕ, zero, suc, ◌+◌, ◌≤◌, ◌<◌, ◌≡◌, refl, sym, ◌∙◌, subst, Bool, true, false, Option, some, List,
  [], ◌∷◌, map, All, get_elem?, All-get_elem?, ltb, if◌then◌else◌, arith, Bool-cases, inl, inr,
}
use Prim.Native.String.{String}
use pkt.Messages.{CppType, is_message, FieldDescriptor, Run, finished, bind, Reflection}
use pkt.Messages.Compose.{
  Callbacks, max_fld_allowed, field_call, add_more, add_loop, compose_more, compose_loop,
  compose_field, compose_fields, compose_end, compose_described, compose, parse, encoded,
}

-- No pointer to a descriptor is null, a number falls from each message type to those of its fields,
-- the callback for a field answers false and leaves the names, and that for the end of a message
-- takes away the name that the one for its beginning has put there.
pub record IsComposable (r : Reflection) {E : Type 0} (callbacks : Callbacks E)
    (names : E → List String) : Type 0 where
  pub descriptors : String → List FieldDescriptor
  pub not_null : (name : String) → r.fields_of name ≡ some (map some (descriptors name))
  pub rank : String → ℕ
  pub falls :
      (name : String)
      → All (λ f. is_message f.cpp_type ≡ true → rank f.message_type < rank name) (descriptors name)
  pub answers :
      (name : String)
      → All
          (λ f.
            (e : E) (i : ℕ) (value : List ℕ)
            → (e' : E) × (value' : List ℕ) × (callbacks.on_compose_field e name f.cpp_type f.number
                  f.is_repeated i value
                ≡ finished (e', false, value'))
              × (names e' ≡ names e))
          (descriptors name)
  pub ends :
      (e e' : E) (field : Option FieldDescriptor) (repeated : Bool) (i : ℕ)
      → names e' ≡ names (callbacks.on_message_begin e field repeated i)
      → (e'' : E) × (callbacks.on_message_end e' repeated i ≡ finished e'') × (names e'' ≡ names e)

module _ (r : Reflection) (parse_number : CppType → List ℕ → ℕ) (b64_encode : List ℕ → List ℕ)
    {E : Type 0} (callbacks : Callbacks E) (names : E → List String) (rounds : ℕ)
    (enough : max_fld_allowed + 1 ≤ rounds) where
  open r use {Message, full_name, field_size, new_message, add_message}
  open callbacks use {on_compose_field}

  -- A walk that ends with a message of the same type and the names of before.
  unfoldable Ends : {A : Type 0} → (Message → E → A) → Message → E → Run A → Type 0
  Ends result m e run =
      (m' : Message) × (e' : E) × (run ≡ finished (result m' e'))
      × (full_name m' ≡ full_name m)
      × (names e' ≡ names e)

  Answers : String → FieldDescriptor → Type 0
  Answers name f =
      (e : E) (i : ℕ) (value : List ℕ)
      → (e' : E) × (value' : List ℕ) × (on_compose_field e name f.cpp_type f.number f.is_repeated i
            value
          ≡ finished (e', false, value'))
        × (names e' ≡ names e)

  -- The loop over values ends at once.
  add_loop-false :
      (f : FieldDescriptor) (m : Message) (e : E)
      → Answers (full_name m) f
      → (e' : E) × (add_loop r parse_number b64_encode callbacks rounds f m e 0 []
          ≡ finished (m, e'))
        × (names e' ≡ names e)
  unfolding Answers add_loop add_more field_call bind
  add_loop-false f m e answers = first rounds enough
    where
      first :
          (k : ℕ)
          → max_fld_allowed + 1 ≤ k
          → (e' : E) × (add_loop r parse_number b64_encode callbacks k f m e 0 []
              ≡ finished (m, e'))
            × (names e' ≡ names e)
      first zero h = absurd (omega arith)
      first (suc k) h = let (e', value', said, same) = answers e 0 [] in (e', simp said, same)

  module _ (go : Option FieldDescriptor → Message → Bool → ℕ → E → Run (Bool × Message × E)) where
    -- What `go` does with a message of a type.
    Goes : String → Type 0
    Goes type =
        (field : Option FieldDescriptor) (sub : Message) (repeated : Bool) (i : ℕ) (e : E)
        → full_name sub ≡ type
        → Ends (λ m' e'. (repeated, m', e')) sub e (go field sub repeated i e)

    -- The loop over one added message ends after its round 3000.
    compose_loop-Ends :
        (k : ℕ) (f : FieldDescriptor) (sub : Message) (e : E) (i : ℕ)
        → full_name sub ≡ f.message_type
        → Goes f.message_type
        → i ≤ max_fld_allowed
        → max_fld_allowed + 1 ≤ k + i
        → Ends
            (λ m' e'. (m', e'))
            sub
            e
            (compose_loop r parse_number b64_encode callbacks go f k sub e i)
    unfolding compose_loop compose_more bind Goes Ends
    compose_loop-Ends zero f sub e i named goes h k = absurd (omega arith)
    compose_loop-Ends (suc k) f sub e i named goes h enough' =
        let (sub', e', runs, type, same) = goes (some f) sub true i e named in
        elim (Bool-cases (ltb max_fld_allowed (i + 1))) [
          | inl last ↦ (sub', e', simp (runs, last), type, same)
          | inr inside ↦
              let (sub'', e'', more, type', same') =
                compose_loop-Ends k f sub' e' (i + 1) (type ∙ named) goes (ground arith)
                  (omega arith) in
              (sub'', e'', simp (runs, inside) more, type' ∙ type, same' ∙ same)
        ]

    -- A repeated field gets one message, or no value.
    unfoldable FieldEnds : FieldDescriptor → Message → E → Run (Message × E) → Type 0
    FieldEnds f m e run =
        (m' : Message) × (e' : E) × (run ≡ finished (m', e'))
        × (full_name m' ≡ full_name m)
        × (names e' ≡ names e)
        × (f.is_repeated ≡ true
            → field_size m' f ≡ field_size m f + (if is_message f.cpp_type then 1 else 0))

    compose_field-FieldEnds :
        (f : FieldDescriptor) (m : Message) (e : E)
        → Answers (full_name m) f
        → (is_message f.cpp_type ≡ true → Goes f.message_type)
        → FieldEnds f m e (compose_field r parse_number b64_encode callbacks go rounds f m e)
    unfolding compose_field FieldEnds bind field_call Ends Goes Answers
    compose_field-FieldEnds f m e answers goes = elim (Bool-cases (is_message f.cpp_type)) [
      | inl sub ↦ elim (Bool-cases f.is_repeated) [
        | inl many ↦
            let (m', e', runs, type, same) =
              compose_loop-Ends rounds f (new_message m f) e 0 (r.full_name-new_message m f)
                (goes sub) (omega arith) (omega (arith, enough)) in
            (
              add_message m f m',
              e',
              simp (sub, many, runs),
              r.full_name-add_message m f m',
              same,
              λ _. simp sub (r.field_size-add_message m f m'),
            )
        | inr one ↦
            let (m', e', runs, type, same) =
              goes sub (some f) (r.mutable_message m f) false 0 e
                (r.full_name-mutable_message m f) in
            (
              r.put_message m f m',
              e',
              simp (sub, one, runs),
              r.full_name-put_message m f m',
              same,
              λ many. cc (many, one),
            )
      ]
      | inr value ↦ elim (Bool-cases f.is_repeated) [
        | inl many ↦
            let (e', runs, same) = add_loop-false f m e answers in
            (m, e', simp (value, many, runs), refl, same, λ _. simp value (omega arith))
        | inr one ↦
            let (e', result, said, same) = answers e 0 [] in
            let v = parse parse_number f.cpp_type (encoded b64_encode f result) in
            (
              r.set_value m f v,
              e',
              simp (value, one, said),
              r.full_name-set_value m f v,
              same,
              λ many. cc (many, one),
            )
      ]
    ]

    compose_fields-Ends :
        (fields : List FieldDescriptor) (m : Message) (e : E)
        → All (Answers (full_name m)) fields
        → All (λ f. is_message f.cpp_type ≡ true → Goes f.message_type) fields
        → Ends
            (λ m' e'. (true, m', e'))
            m
            e
            (compose_fields r parse_number b64_encode callbacks go rounds (map some fields) m e)
    unfolding compose_fields bind FieldEnds Ends
    compose_fields-Ends [] m e answers goes = (m, e, refl, refl, refl)
    compose_fields-Ends (f ∷ fields) m e (answers_f, answers) (goes_f, goes) =
        let (m', e', runs, type, same, _) = compose_field-FieldEnds f m e answers_f goes_f in
        let (m'', e'', more, type', same') =
          compose_fields-Ends fields m' e' (subst (λ n. All (Answers n) fields) (sym type) answers)
            goes in
        (m'', e'', simp runs more, type' ∙ type, same' ∙ same)

  module _ (c : IsComposable r callbacks names) where
    -- The fields of a message lie below it, so the walk through them ends.
    All-Goes :
        (go : Option FieldDescriptor → Message → Bool → ℕ → E → Run (Bool × Message × E))
        (bound : ℕ) (fields : List FieldDescriptor)
        → ((type : String) → c.rank type < bound → Goes go type)
        → All (λ f. is_message f.cpp_type ≡ true → c.rank f.message_type < bound) fields
        → All (λ f. is_message f.cpp_type ≡ true → Goes go f.message_type) fields
    All-Goes go bound [] below falls = tt
    All-Goes go bound (f ∷ fields) below (falls_f, falls) =
        (λ sub. below f.message_type (falls_f sub), All-Goes go bound fields below falls)

    All-Answers : (name : String) → All (Answers name) (c.descriptors name)
    unfolding Answers
    All-Answers name = c.answers name

    compose-Goes :
        (fuel : ℕ) (type : String)
        → c.rank type < fuel
        → Goes (compose r parse_number b64_encode callbacks rounds fuel) type
    unfolding compose compose_described compose_end bind Goes Ends
    compose-Goes zero type h field m repeated i e named = absurd (omega arith)
    compose-Goes (suc fuel) type h field m repeated i e named =
        let go = compose r parse_number b64_encode callbacks rounds fuel in
        let begun = callbacks.on_message_begin e field repeated i in
        let (m', e', runs, type', same) =
          compose_fields-Ends go (c.descriptors type) m begun
            (subst (λ n. All (Answers n) (c.descriptors type)) (sym named) (All-Answers type))
            (All-Goes go (c.rank type) (c.descriptors type)
              (λ type' below. compose-Goes fuel type' (omega arith)) (c.falls type)) in
        let (e'', ended, same') = c.ends e e' field repeated i same in
        (m', e'', simp (named, c.not_null type, runs, ended), type', same')

    -- Where no descriptor is null, no message type contains itself, the callback for a field always
    -- answers false and the callback for the end of a message undoes that for its beginning, `compose`
    -- with enough fuel ends and returns `repeated`, with a message of the same type and the stack of
    -- names as before.
    pub compose-names :
        (fuel : ℕ) (field : Option FieldDescriptor) (m : Message) (repeated : Bool) (index : ℕ)
        (e : E)
        → c.rank (full_name m) < fuel
        → (m' : Message) × (e' : E) × (compose r parse_number b64_encode callbacks rounds fuel field
              m repeated index e
            ≡ finished (repeated, m', e'))
          × (full_name m' ≡ full_name m)
          × (names e' ≡ names e)
    unfolding Ends Goes
    compose-names fuel field m repeated index e h =
        compose-Goes fuel (full_name m) h field m repeated index e refl

    -- Where no descriptor is null, no message type contains itself, the callback for a field always
    -- answers false and the callback for the end of a message undoes that for its beginning,
    -- `composeField` with enough fuel gives a repeated field of messages exactly one more element,
    -- however many there are in the packet, and a repeated field of values none.
    pub compose_field-size :
        (fuel k : ℕ) (f : FieldDescriptor) (m : Message) (e : E)
        → get_elem? (c.descriptors (full_name m)) k ≡ some f
        → f.is_repeated ≡ true
        → c.rank (full_name m) ≤ fuel
        → (m' : Message) × (e' : E) × (compose_field r parse_number b64_encode callbacks
              (compose r parse_number b64_encode callbacks rounds fuel)
              rounds
              f
              m
              e
            ≡ finished (m', e'))
          × (field_size m' f ≡ field_size m f + (if is_message f.cpp_type then 1 else 0))
    unfolding FieldEnds
    compose_field-size fuel k f m e found many h =
        let name = full_name m in
        let fields = c.descriptors name in
        let below = All-get_elem? _ fields k f (c.falls name) found in
        let (m', e', runs, type, same, size) =
          compose_field-FieldEnds (compose r parse_number b64_encode callbacks rounds fuel) f m e
            (All-get_elem? (Answers name) fields k f (All-Answers name) found)
            (λ sub. compose-Goes fuel f.message_type (omega (arith, below sub))) in
        (m', e', runs, size many)
