-- ===== src/Messages/Compose/Loops.antt =====
-- The loops of `composeField` over the values of a repeated field.
use pkt.Common.{
  ℕ, zero, suc, ◌+◌, ◌≤◌, ◌≡◌, refl, Bool, true, false, List, [], ltb, arith, Bool-cases, inl, inr,
}
use Prim.Native.String.{String}
use pkt.Messages.{CppType, FieldDescriptor, Run, finished, running, bind, Reflection}
use pkt.Messages.Compose.{
  Callbacks, max_fld_allowed, is_capped, field_call, add_more, add_loop, parse, encoded,
}

module _ (r : Reflection) (parse_number : CppType → List ℕ → ℕ) (b64_encode : List ℕ → List ℕ)
    {E : Type 0} (callbacks : Callbacks E) where
  open r use {Message, field_size, add_value}
  open callbacks use {on_compose_field}

  -- The callback for a field always returns.
  unfoldable pub IsDefined : Type 0
  IsDefined =
      (e : E) (name : String) (t : CppType) (number : ℕ) (repeated : Bool) (i : ℕ) (value : List ℕ)
      → (answer : E × Bool × List ℕ) × (on_compose_field e name t number repeated i value
          ≡ finished answer)

  -- How many elements a loop from its round `i` on may add.
  Adds : FieldDescriptor → ℕ → Message → Run (Message × E) → Type 0
  Adds f i m run =
      (m' : Message) × (e' : E) × (run ≡ finished (m', e'))
      × (field_size m f ≤ field_size m' f)
      × (field_size m' f + i ≤ field_size m f + (max_fld_allowed + 1))

  -- One round adds an element and leaves the others to the next.
  add_more-Adds :
      (rest : Message → E → ℕ → List ℕ → Run (Message × E)) (f : FieldDescriptor) (m : Message)
      (e : E) (i : ℕ) (value : List ℕ) (more : Bool)
      → is_capped f.cpp_type ≡ true
      → i ≤ max_fld_allowed
      → ((m' : Message) (value' : List ℕ)
          → i + 1 ≤ max_fld_allowed
          → Adds f (i + 1) m' (rest m' e (i + 1) value'))
      → Adds f i m (add_more r parse_number b64_encode callbacks rest m f e i value more)
  unfolding add_more Adds
  add_more-Adds rest f m e i value false capped h next = (m, e, refl, omega arith, omega arith)
  add_more-Adds rest f m e i value true capped h next =
      let v = encoded b64_encode f value in
      let added = add_value m f (parse parse_number f.cpp_type v) in
      let grown = r.field_size-add_value m f (parse parse_number f.cpp_type v) in
      elim (Bool-cases (ltb max_fld_allowed (i + 1))) [
        | inl last ↦ (added, e, simp (capped, last), omega (arith, grown), omega (arith, grown))
        | inr inside ↦
            let (m', e', runs, least, most) = next added v (ground arith) in
            (
              m',
              e',
              simp (capped, inside) runs,
              omega (arith, grown, least),
              omega (arith, grown, most),
            )
      ]

  add_loop-Adds :
      (rounds : ℕ) (f : FieldDescriptor) (m : Message) (e : E) (i : ℕ) (value : List ℕ)
      → IsDefined
      → is_capped f.cpp_type ≡ true
      → i ≤ max_fld_allowed
      → max_fld_allowed + 1 ≤ rounds + i
      → Adds f i m (add_loop r parse_number b64_encode callbacks rounds f m e i value)
  unfolding add_loop bind IsDefined field_call
  add_loop-Adds zero f m e i value defined capped h k = absurd (omega arith)
  add_loop-Adds (suc rounds) f m e i value defined capped h k =
      let ((e', more, value'), answers) =
        defined e (r.full_name m) f.cpp_type f.number f.is_repeated i value in
      rw answers (
        add_more-Adds (add_loop r parse_number b64_encode callbacks rounds f) f m e' i value' more
          capped h
          (λ m' v inside.
            add_loop-Adds rounds f m' e' (i + 1) v defined capped inside (omega arith)))

  -- If the callback always returns, then whatever it answers, the loop over a repeated field of
  -- strings or enumeration values ends, and adds at most 3001 elements.
  pub add_loop-capped :
      (rounds : ℕ) (f : FieldDescriptor) (m : Message) (e : E)
      → IsDefined
      → is_capped f.cpp_type ≡ true
      → max_fld_allowed + 1 ≤ rounds
      → (m' : Message) × (e' : E) × (add_loop r parse_number b64_encode callbacks rounds f m e 0 []
          ≡ finished (m', e'))
        × (field_size m f ≤ field_size m' f)
        × (field_size m' f ≤ field_size m f + (max_fld_allowed + 1))
  unfolding Adds
  add_loop-capped rounds f m e defined capped h =
      let (m', e', runs, least, most) =
        add_loop-Adds rounds f m e 0 [] defined capped (omega arith) (omega arith) in
      (m', e', runs, least, omega (arith, most))

  -- The callback for a field answers true each time.
  unfoldable pub IsEager : Type 0
  IsEager =
      (e : E) (name : String) (t : CppType) (number : ℕ) (repeated : Bool) (i : ℕ) (value : List ℕ)
      → (e' : E) × (value' : List ℕ) × (on_compose_field e name t number repeated i value
          ≡ finished (e', true, value'))

  -- If the callback answers true each time, the loop over a repeated field of numbers never ends.
  pub add_loop-running :
      (rounds : ℕ) (f : FieldDescriptor) (m : Message) (e : E) (i : ℕ) (value : List ℕ)
      → IsEager
      → is_capped f.cpp_type ≡ false
      → add_loop r parse_number b64_encode callbacks rounds f m e i value ≡ running
  unfolding add_loop add_more bind IsEager field_call
  add_loop-running zero f m e i value eager uncapped = refl
  add_loop-running (suc rounds) f m e i value eager uncapped =
      let (e', value', answers) =
        eager e (r.full_name m) f.cpp_type f.number f.is_repeated i value in
      simp (answers, uncapped)
        (add_loop-running rounds f _ e' (i + 1) (encoded b64_encode f value') eager uncapped)
