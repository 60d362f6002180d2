-- ===== src/Messages/Packet.antt =====
-- packet2message.cpp: the environment and the callbacks that fill a message from a packet. The
-- JavaScript engine is a parameter: `evaluate` takes the state of its context and an expression,
-- and returns the state behind it, whether there was no error, and the result as text.
pub mod Names
use pkt.Common.{ℕ, Bool, false, Option, none, some, List, [], ◌∷◌, ◌++◌, if◌then◌else◌}
use mathlib.Core.Option.{map as option_map}
use Prim.Native.String.{String, ◌++◌ as followed_by}
use pkt.Cache.{
  Variables, CachedVariable, FieldNameVariable, find_variable, get_variable_by_field_number,
}
use pkt.Messages.{
  CppType, FieldDescriptor, Run, finished, undefined, bind, or_undefined, Reflection,
}
use pkt.Messages.Compose.{Callbacks, compose}

-- PacketParseEnvironment, as far as it is used here: `packet_root_variable` is the message type of
-- the variable that the packet has been found to have, if it has one.
pub record Environment (C : Type 0) : Type 0 where
  pub packet_root_variable : Option String
  pub context : C
  pub fieldnames : List String

join_names : String → List String → String
join_names separator [] = ""
join_names separator (name ∷ names) =
    followed_by separator (followed_by name (join_names "." names))

-- `pop_back`, which is undefined for an empty deque
unfoldable pub pop_back : List String → Option (List String)
pop_back [] = none
pop_back (name ∷ []) = some []
pop_back (name ∷ next ∷ names) = option_map (λ rest. name ∷ rest) (pop_back (next ∷ names))

module _ {C : Type 0} where
  pub get_full_field_name : Environment C → String
  unfolding join_names
  get_full_field_name env = join_names "" env.fieldnames

  unfoldable pub push_field_name : Environment C → String → Environment C
  push_field_name env field_name = record env { fieldnames = env.fieldnames ++ field_name ∷ [] }

  unfoldable pub pop_field_name : Environment C → Run (Environment C)
  unfolding pop_back
  pop_field_name env =
      bind (or_undefined (pop_back env.fieldnames))
        (λ rest. finished (record env { fieldnames = rest }))

  -- onmessagebegin
  unfoldable pub onmessagebegin : Environment C → Option FieldDescriptor → Bool → ℕ → Environment C
  unfolding push_field_name
  onmessagebegin e none repeated index = push_field_name e ""
  onmessagebegin e (some field) repeated index = push_field_name e field.name

  -- onmessageend
  unfoldable pub onmessageend : Environment C → Bool → ℕ → Run (Environment C)
  unfolding pop_field_name
  onmessageend e repeated index = pop_field_name e

  module _ (evaluate : C → String → C × Bool × List ℕ) (variables : Variables) where
    -- The evaluation of `get` in oncomposefield. The source does not test for a null variable.
    unfoldable pub evaluate_get :
        Environment C → List ℕ → Option FieldNameVariable → Run (Environment C × Bool × List ℕ)
    evaluate_get e retval none = undefined
    evaluate_get e retval (some v) =
        let (context, good, result) = evaluate e.context v.get in
        finished (record e { context = context }, false, if good then result else retval)

    unfoldable pub evaluate_field :
        Environment C → ℕ → List ℕ → Option CachedVariable → Run (Environment C × Bool × List ℕ)
    unfolding evaluate_get
    evaluate_field e field_number retval none = finished (e, false, retval)
    evaluate_field e field_number retval (some pv) =
        evaluate_get e retval (get_variable_by_field_number pv field_number)

    -- oncomposefield: it returns false in all cases
    unfoldable pub oncomposefield :
        Environment C
        → String
        → CppType
        → ℕ
        → Bool
        → ℕ
        → List ℕ
        → Run (Environment C × Bool × List ℕ)
    unfolding evaluate_field
    oncomposefield e message_type field_type field_number repeated index retval =
        evaluate_field e field_number retval (find_variable variables message_type)

    unfoldable pub packet_callbacks : Callbacks (Environment C)
    unfolding oncomposefield onmessagebegin onmessageend
    packet_callbacks = record {
      on_compose_field = oncomposefield;
      on_message_begin = onmessagebegin;
      on_message_end = onmessageend;
    }

-- Packet2Message::parsePacket; `get_message_of` is ProtobufDeclarations::getMessage.
module _ (r : Reflection) (parse_number : CppType → List ℕ → ℕ) (b64_encode : List ℕ → List ℕ)
    {C : Type 0} (evaluate : C → String → C × Bool × List ℕ) (variables : Variables)
    (get_message_of : String → Option r.Message) where
  unfoldable pub composed :
      ℕ → ℕ → Environment C → Option r.Message → Run (Option r.Message × Environment C)
  unfolding packet_callbacks
  composed rounds fuel env none = finished (none, env)
  composed rounds fuel env (some m) =
      bind
        (compose r parse_number b64_encode (packet_callbacks evaluate variables) rounds fuel none m
          false 0 env)
        (λ (repeated, m', env'). finished (some m', env'))

  unfoldable pub parse_packet_of :
      ℕ → ℕ → Environment C → Option String → Run (Option r.Message × Environment C)
  unfolding composed
  parse_packet_of rounds fuel env none = finished (none, env)
  parse_packet_of rounds fuel env (some message_type) =
      composed rounds fuel env (get_message_of message_type)

  unfoldable pub parse_packet : ℕ → ℕ → Environment C → Run (Option r.Message × Environment C)
  unfolding parse_packet_of
  parse_packet rounds fuel env = parse_packet_of rounds fuel env env.packet_root_variable
