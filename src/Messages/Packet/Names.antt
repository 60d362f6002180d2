-- ===== src/Messages/Packet/Names.antt =====
-- The stack of field names in `Packet2Message::parsePacket`.
use pkt.Common.{
  ℕ, if◌then◌else◌, ◌+◌, ◌≤◌, ◌<◌, ◌≡◌, refl, ap, Bool, true, false, Option, none, some, List, [],
  ◌∷◌, ◌++◌, map, All, Option-cases, inl, inr,
}
use mathlib.Core.Option.{map as option_map}
use Prim.Native.String.{String}
use pkt.Cache.{
  Variables, CachedVariable, FieldNameVariable, find_variable, get_variable_by_field_number,
}
use pkt.Messages.{CppType, is_message, FieldDescriptor, finished, bind, or_undefined, Reflection}
use pkt.Messages.Compose.{max_fld_allowed}
use pkt.Messages.Compose.Balance.{IsComposable, compose-names}
use pkt.Messages.Packet.{
  Environment, pop_back, push_field_name, pop_field_name, onmessagebegin, onmessageend,
  evaluate_get, evaluate_field, oncomposefield, packet_callbacks, composed, parse_packet_of,
  parse_packet,
}

-- No pointer to a descriptor is null, a number falls from each message type to those of its fields,
-- and each packet variable in the cache has a variable for each field of its message.
pub record IsParsable (r : Reflection) (variables : Variables) : Type 0 where
  pub descriptors : String → List FieldDescriptor
  pub not_null : (name : String) → r.fields_of name ≡ some (map some (descriptors name))
  pub rank : String → ℕ
  pub falls :
      (name : String)
      → All (λ f. is_message f.cpp_type ≡ true → rank f.message_type < rank name) (descriptors name)
  pub known :
      (name : String)
      → All
          (λ f.
            (pv : CachedVariable)
            → find_variable variables name ≡ some pv
            → (v : FieldNameVariable) × (get_variable_by_field_number pv f.number ≡ some v))
          (descriptors name)

pop_back-append : (names : List String) (name : String) → pop_back (names ++ name ∷ []) ≡ some names
unfolding pop_back
pop_back-append [] name = refl
pop_back-append (x ∷ []) name = refl
pop_back-append (x ∷ y ∷ names) name =
    ap (option_map (λ rest. x ∷ rest)) (pop_back-append (y ∷ names) name)

pub All-map :
    {A : Type 0} {P Q : A → Type 0} (xs : List A) → ((x : A) → P x → Q x) → All P xs → All Q xs
All-map [] f all = tt
All-map (x ∷ xs) f (h, all) = (f x h, All-map xs f all)

module _ {C : Type 0} (evaluate : C → String → C × Bool × List ℕ) (variables : Variables) where
  pub begin_end :
      (e e' : Environment C) (field : Option FieldDescriptor) (repeated : Bool) (i : ℕ)
      → e'.fieldnames ≡ (onmessagebegin e field repeated i).fieldnames
      → (e'' : Environment C) × (onmessageend e' repeated i ≡ finished e'')
        × (e''.fieldnames ≡ e.fieldnames)
  unfolding onmessagebegin onmessageend push_field_name pop_field_name bind or_undefined
  begin_end e e' none repeated i same =
      (record e' { fieldnames = e.fieldnames }, simp (same, pop_back-append e.fieldnames ""), refl)
  begin_end e e' (some field) repeated i same = (
    record e' { fieldnames = e.fieldnames },
    simp (same, pop_back-append e.fieldnames field.name),
    refl,
  )

  pub answer :
      (e : Environment C) (name : String) (t : CppType) (number : ℕ) (repeated : Bool) (i : ℕ)
      (value : List ℕ)
      → ((pv : CachedVariable)
          → find_variable variables name ≡ some pv
          → (v : FieldNameVariable) × (get_variable_by_field_number pv number ≡ some v))
      → (e' : Environment C) × (value' : List ℕ) × (oncomposefield evaluate variables e name t
            number repeated i value
          ≡ finished (e', false, value'))
        × (e'.fieldnames ≡ e.fieldnames)
  unfolding oncomposefield evaluate_field evaluate_get
  answer e name t number repeated i value known =
      elim (Option-cases (find_variable variables name)) [
        | inl missing ↦ (e, value, rw missing refl, refl)
        | inr (pv, there) ↦
            let (v, has) = known pv there in
            (
              record e { context = (evaluate e.context v.get).0 },
              if (evaluate e.context v.get).1 then (evaluate e.context v.get).2 else value,
              rw (there, has) refl,
              refl,
            )
      ]

  unfoldable pub packet_callbacks-IsComposable :
      (r : Reflection)
      → IsParsable r variables
      → IsComposable r (packet_callbacks evaluate variables) (λ e. e.fieldnames)
  unfolding packet_callbacks
  packet_callbacks-IsComposable r p = record {
    descriptors = p.descriptors;
    not_null = p.not_null;
    rank = p.rank;
    falls = p.falls;
    answers = λ name.
        All-map (p.descriptors name)
          (λ f known e i value. answer e name f.cpp_type f.number f.is_repeated i value known)
          (p.known name);
    ends = begin_end;
  }

-- Where no descriptor is null, no message type contains itself and each packet variable in the cache
-- has a variable for each field of its message, `parsePacket` with enough fuel ends and returns the
-- message of the type that the packet has been found to have, and the stack of field names is as
-- before.
pub parse_packet-fieldnames :
    (r : Reflection) (parse_number : CppType → List ℕ → ℕ) (b64_encode : List ℕ → List ℕ)
    {C : Type 0} (evaluate : C → String → C × Bool × List ℕ) (variables : Variables)
    (get_message_of : String → Option r.Message) (p : IsParsable r variables) (rounds fuel : ℕ)
    (env : Environment C) (message_type : String) (m : r.Message)
    → env.packet_root_variable ≡ some message_type
    → get_message_of message_type ≡ some m
    → max_fld_allowed + 1 ≤ rounds
    → p.rank (r.full_name m) < fuel
    → (m' : r.Message) × (env' : Environment C) × (parse_packet r parse_number b64_encode evaluate
          variables get_message_of rounds fuel env
        ≡ finished (some m', env'))
      × (r.full_name m' ≡ r.full_name m)
      × (env'.fieldnames ≡ env.fieldnames)
unfolding parse_packet parse_packet_of composed bind packet_callbacks-IsComposable
parse_packet-fieldnames r parse_number b64_encode evaluate variables get_message_of p rounds fuel
      env message_type m root made enough h =
    let (m', env', runs, type, same) =
      compose-names r parse_number b64_encode (packet_callbacks evaluate variables)
        (λ e. e.fieldnames) rounds enough (packet_callbacks-IsComposable evaluate variables r p)
        fuel none m false 0 env h in
    (m', env', simp (root, made, runs), type, same)
