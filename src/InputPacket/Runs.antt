-- ===== src/InputPacket/Runs.antt =====
-- The theorems on packets at concrete inputs.
use pkt.Common.{ℕ, ◌≡◌, refl, ◌+◌, ◌*◌, true, some, List, [], ◌∷◌, take, replicate, length, arith}
use pkt.Common.Int.{ℤ}
use pkt.InputPacket.{
  Packet, allocate, set_socket_addr_src, write_data, set_length, sent_bytes, over_data, payload,
  get_payload_size,
}
use pkt.InputPacket.Payload.{over_data-sent_bytes}

abbrev packet : Packet
packet = record {
  buffer = b'T' ∷ replicate (2 * 128 + 4) 0;
  size = 261;
  max_data_size = ℤ.pos 4;
  packet_length = ℤ.pos 0;
  allocated = true;
}

abbrev address : List ℕ
address = replicate 16 7

over_data-sent_bytes_example :
    (p1 : Packet) × (p2 : Packet) × (out : List ℕ) × (set_socket_addr_src address packet ≡ some p1)
    × (write_data (1 ∷ 2 ∷ []) p1 ≡ some p2)
    × (sent_bytes (set_length 2 p2) ≡ some out)
    × (take 1 out ≡ b'T' ∷ [])
    × (payload (over_data out) ≡ 1 ∷ 2 ∷ [])
    × ((over_data out).packet_length ≡ ℤ.pos 2)
    × (get_payload_size (length out) ≡ ℤ.pos 2)
over_data-sent_bytes_example =
    over_data-sent_bytes b'T' 4 address (1 ∷ 2 ∷ []) packet (unfold allocate in refl) refl
      (omega arith) (omega arith)
