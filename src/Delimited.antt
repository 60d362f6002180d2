-- ===== src/Delimited.antt =====
-- Messages one after another in a stream, as the programs pass them on: writeDelimitedMessage and
-- readDelimitedMessage of utilprotobuf.cpp, and decode of protobuf-declarations.cpp. What protobuf does
-- is a parameter (Wire): numbers as varints, a message as bytes.
pub mod Each
mod Runs
use pkt.Common.{
  ℕ, ◌+◌, ◌<◌, ◌^◌, ◌≡◌, Bool, true, false, ◌&&◌, not, Option, none, some, List, [], ◌∷◌, ◌++◌, leb,
  if◌then◌else◌, length, take, drop,
}

-- `known` tells whether getMessage finds the type of that name. `parse` is ParsePartialFromCodedStream
-- of a message of that type, with the number of bytes it takes where it succeeds.
pub record Wire : Type 1 where
  pub Message : Type 0
  pub known : List ℕ → Bool
  pub parse : List ℕ → List ℕ → Option (Message × ℕ)
  pub serialize : Message → List ℕ
  pub write_varint : ℕ → List ℕ
  pub read_varint : List ℕ → Option (ℕ × List ℕ)
  pub read_varint-write_varint :
      (n : ℕ) (rest : List ℕ) → n < 2 ^ 32 → read_varint (write_varint n ++ rest) ≡ some (n, rest)

-- SOCKADDR_SIZE
abbrev pub sockaddr_size : ℕ
sockaddr_size = 16

-- MessageTypeNAddress
pub record MessageTypeNAddress : Type 0 where
  pub socket_address_src : List ℕ
  pub socket_address_dst : List ℕ
  pub message_type : List ℕ
  pub message_size : ℕ

-- The first `n` bytes, and the rest of the stream.
read_raw : ℕ → List ℕ → Option (List ℕ × List ℕ)
read_raw n bytes = if leb n (length bytes) then some (take n bytes, drop n bytes) else none

unfoldable pub and_then {ℓ} : {A B : Type ℓ} → Option A → (A → Option B) → Option B
and_then none next = none
and_then (some a) next = next a

-- The end of writeDelimitedMessage, for the bytes and the result of a whole message. `in_one` tells
-- whether the stream gives a buffer for the message, where it has had no error. Where it gives none,
-- `stopped` is how many of the bytes it has taken at HadError, and `none` if there is no error. The
-- result is -1 for `none`.
unfoldable pub written : Bool → Option ℕ → List ℕ → ℕ → List ℕ × Option ℕ
written true stopped bytes r = (bytes, some r)
written false none bytes r = (bytes, some r)
written false (some n) bytes r = (take n bytes, none)

module _ (w : Wire) where
  -- writeDelimitedMessage: what is written, and the result.
  unfoldable pub write_delimited_message :
      Bool → Option ℕ → MessageTypeNAddress → w.Message → List ℕ × Option ℕ
  unfolding written
  write_delimited_message in_one stopped a m =
      let bytes = w.serialize m in
      written in_one stopped
        (take sockaddr_size a.socket_address_src
          ++ (take sockaddr_size a.socket_address_dst
              ++ (w.write_varint (length a.message_type)
                  ++ (a.message_type ++ (w.write_varint (length bytes) ++ bytes)))))
        (4 + length a.message_type + 4 + length bytes)

  -- ProtobufDeclarations::decode
  unfoldable pub decode : List ℕ → List ℕ → Option (w.Message × ℕ)
  decode message_type bytes =
      let parsed = w.parse message_type bytes in if w.known message_type then parsed else none

  -- The stream behind a message: where there is none, the rest of it up to the limit is skipped.
  abbrev behind_message :
      MessageTypeNAddress
      → List ℕ
      → Option (w.Message × ℕ)
      → Option w.Message × MessageTypeNAddress × List ℕ
  behind_message a rest none = (none, a, drop a.message_size rest)
  behind_message a rest (some (m, taken)) = (some m, a, drop taken rest)

  -- readDelimitedMessage: the message, or a null pointer, what is known of it, and the rest of the
  -- stream. `none` is a stream that ends before the size of the message, where the source goes on with
  -- what has been in memory.
  unfoldable pub read_delimited_message :
      List ℕ → Option (Option w.Message × MessageTypeNAddress × List ℕ)
  unfolding read_raw and_then decode
  read_delimited_message input = and_then (read_raw sockaddr_size input) (λ src.
      and_then (read_raw sockaddr_size src.1) (λ dst. and_then (w.read_varint dst.1) (λ type_size.
        and_then (read_raw type_size.0 type_size.1) (λ type.
          and_then (w.read_varint type.1) (λ size. some (
            behind_message
              (record {
                socket_address_src = src.0;
                socket_address_dst = dst.0;
                message_type = type.0;
                message_size = size.0;
              })
              size.1 (decode type.0 (take size.0 size.1))))))))
