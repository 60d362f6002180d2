-- ===== src/Delimited/Each.antt =====
-- What has been written is read back, message by message.
use pkt.Common.{
  ℕ, zero, suc, ◌<◌, ◌^◌, ◌≡◌, ◌≢◌, refl, ap, ◌∙◌, ◌+◌, take, Bool, true, false, Option, none, some,
  List, [], ◌∷◌, ◌++◌, All, map, append_assoc, leb, length, length-append, take-append_self,
  drop-append_self, arith,
}
use pkt.Common.Bytes.{take_all}
use pkt.Delimited.{
  Wire, MessageTypeNAddress, sockaddr_size, read_raw, and_then, written, write_delimited_message,
  decode, read_delimited_message,
}

read_raw-append :
    (n : ℕ) (xs rest : List ℕ) → length xs ≡ n → read_raw n (xs ++ rest) ≡ some (xs, rest)
unfolding read_raw
read_raw-append n xs rest sized =
    let room : leb (length xs) (length (xs ++ rest)) ≡ true =
      ground (arith, length-append xs rest) in
    rw⁻¹ sized (rw (room, take-append_self xs rest, drop-append_self xs rest) refl)

-- Without -1 for a result all bytes are written.
written_whole :
    (in_one : Bool) (stopped : Option ℕ) (bytes : List ℕ) (r : ℕ)
    → (written in_one stopped bytes r).1 ≢ none
    → (written in_one stopped bytes r).0 ≡ bytes
unfolding written
written_whole true stopped bytes r h = refl
written_whole false none bytes r h = refl
written_whole false (some n) bytes r h = absurd (h refl)

module _ (w : Wire) where
  -- A message with what is known of it, and what the stream does while it is written.
  abbrev pub Item : Type 0
  Item = MessageTypeNAddress × w.Message × Bool × Option ℕ

  -- Addresses of 16 bytes, a type that is known, and a message that is parsed as it has been
  -- serialized; lengths below 2^31; and the result is not -1.
  abbrev pub CanPass : Item → Type 0
  CanPass (a, m, in_one, stopped) =
      (length a.socket_address_src ≡ sockaddr_size)
      × (length a.socket_address_dst ≡ sockaddr_size)
      × (length a.message_type < 2 ^ 31)
      × (length (w.serialize m) < 2 ^ 31)
      × (w.known a.message_type ≡ true)
      × (w.parse a.message_type (w.serialize m) ≡ some (m, length (w.serialize m)))
      × ((write_delimited_message w in_one stopped a m).1 ≢ none)

  -- What is known of a message that has been read.
  abbrev pub with_size : MessageTypeNAddress → w.Message → MessageTypeNAddress
  with_size a m = record a { message_size = length (w.serialize m) }

  -- The bytes of a message that is written to its end.
  abbrev whole_bytes : MessageTypeNAddress → w.Message → List ℕ
  whole_bytes a m =
      take sockaddr_size a.socket_address_src
      ++ (take sockaddr_size a.socket_address_dst
          ++ (w.write_varint (length a.message_type)
              ++ (a.message_type ++ (w.write_varint (length (w.serialize m)) ++ w.serialize m))))

  read_whole :
      (a : MessageTypeNAddress) (m : w.Message) (in_one : Bool) (stopped : Option ℕ) (rest : List ℕ)
      → CanPass (a, m, in_one, stopped)
      → read_delimited_message w (whole_bytes a m ++ rest) ≡ some (some m, with_size a m, rest)
  unfolding read_delimited_message and_then decode
  read_whole a m in_one stopped rest (src, dst, typed, sized, known, parsed, passed) =
      let bytes = w.serialize m in
      let t = a.message_type in
      rw
        (
          take_all sockaddr_size a.socket_address_src (omega arith),
          take_all sockaddr_size a.socket_address_dst (omega arith),
          append_assoc a.socket_address_src
              (a.socket_address_dst
                ++ (w.write_varint (length t) ++ (t ++ (w.write_varint (length bytes) ++ bytes))))
              rest,
          read_raw-append sockaddr_size a.socket_address_src
              ((a.socket_address_dst
                  ++ (w.write_varint (length t) ++ (t ++ (w.write_varint (length bytes) ++ bytes))))
                ++ rest)
              src,
          append_assoc a.socket_address_dst
              (w.write_varint (length t) ++ (t ++ (w.write_varint (length bytes) ++ bytes))) rest,
          read_raw-append sockaddr_size a.socket_address_dst
              ((w.write_varint (length t) ++ (t ++ (w.write_varint (length bytes) ++ bytes)))
                ++ rest)
              dst,
          append_assoc (w.write_varint (length t)) (t ++ (w.write_varint (length bytes) ++ bytes))
              rest,
          w.read_varint-write_varint (length t)
              ((t ++ (w.write_varint (length bytes) ++ bytes)) ++ rest) (omega arith),
          append_assoc t (w.write_varint (length bytes) ++ bytes) rest,
          read_raw-append (length t) t ((w.write_varint (length bytes) ++ bytes) ++ rest) refl,
          append_assoc (w.write_varint (length bytes)) bytes rest,
          w.read_varint-write_varint (length bytes) (bytes ++ rest) (omega arith),
          take-append_self bytes rest,
          known,
          parsed,
          drop-append_self bytes rest,
        )
        refl

  read-write :
      (a : MessageTypeNAddress) (m : w.Message) (in_one : Bool) (stopped : Option ℕ) (rest : List ℕ)
      → CanPass (a, m, in_one, stopped)
      → read_delimited_message w ((write_delimited_message w in_one stopped a m).0 ++ rest)
        ≡ some (some m, with_size a m, rest)
  unfolding write_delimited_message
  read-write a m in_one stopped rest (src, dst, typed, sized, known, parsed, passed) =
      ap (λ (t : List ℕ). read_delimited_message w (t ++ rest))
        (written_whole in_one stopped (whole_bytes a m)
          (4 + length a.message_type + 4 + length (w.serialize m)) passed)
      ∙ read_whole a m in_one stopped rest (src, dst, typed, sized, known, parsed, passed)

  -- The bytes of messages written one after another.
  abbrev pub write_each : List Item → List ℕ
  write_each [] = []
  write_each ((a, m, in_one, stopped) ∷ items) =
      (write_delimited_message w in_one stopped a m).0 ++ write_each items

  -- So many messages read one after another, and the rest of the stream.
  abbrev pub read_each :
      ℕ → List ℕ → Option (List (Option w.Message × MessageTypeNAddress) × List ℕ)
  read_each zero input = some ([], input)
  read_each (suc n) input =
      and_then (read_delimited_message w input)
        (λ one. and_then (read_each n one.2) (λ more. some ((one.0, one.1) ∷ more.0, more.1)))

  -- Messages that are written one after another, none of them with the result -1, are read back one
  -- after another: each with its addresses, its type and its size, and nothing of what stands behind
  -- them in the stream is taken, be it a message that could not be written to its end. (The addresses
  -- have 16 bytes, the types are known, the names of the types and the messages are shorter than 2^31
  -- bytes, and protobuf parses each message as it has serialized it.)
  pub read_each-write_each :
      (items : List Item) (rest : List ℕ)
      → All CanPass items
      → read_each (length items) (write_each items ++ rest)
        ≡ some (map (λ item. (some item.1, with_size item.0 item.1)) items, rest)
  unfolding and_then
  read_each-write_each [] rest all = refl
  read_each-write_each ((a, m, in_one, stopped) ∷ items) rest (one, all) =
      let bytes = (write_delimited_message w in_one stopped a m).0 in
      let others = write_each items in
      rw
        (
          append_assoc bytes others rest,
          read-write a m in_one stopped (others ++ rest) one,
          read_each-write_each items rest all,
        )
        refl
