-- ===== src/InputPacket.antt =====
-- InputPacket of input-packet.cpp: a header of one byte, room for two addresses, and the payload, in
-- one buffer that is sent over nanomsg as it is. `none` is a write outside the buffer, or through the
-- null pointer of a failed malloc. The sizes of the structures of the socket library are those of
-- Linux. The message and the key of a packet are not set here and are left out.
pub mod Address
pub mod Payload
mod Runs
use pkt.Common.{
  ℕ, ◌+◌, ◌-◌, ◌*◌, ◌%◌, ◌^◌, Bool, true, false, Option, none, some, List, [], ◌∷◌, leb,
  if◌then◌else◌, length, take, drop, replicate,
}
use pkt.Common.Bytes.{overwrite}
use pkt.Common.Int.{ℤ, signed}

-- sizeof(struct PacketHeader)
abbrev pub size_header : ℕ
size_header = 1

-- sizeof(struct sockaddr_storage)
abbrev pub size_storage : ℕ
size_storage = 128

-- sizeof(struct sockaddr)
abbrev pub size_sockaddr : ℕ
size_sockaddr = 16

-- `packet_length` is the member `length`.
pub record Packet : Type 0 where
  pub buffer : List ℕ
  pub size : ℕ
  pub max_data_size : ℤ
  pub packet_length : ℤ
  pub allocated : Bool

-- InputPacket(typ, adata_size), by whether malloc succeeds, for a size that fits an int. The first byte
-- is the header's name.
unfoldable pub allocate : Bool → ℕ → ℕ → Option Packet
allocate false typ adata_size = none
allocate true typ adata_size = some (record {
  buffer = typ ∷ replicate (2 * size_storage + adata_size) 0;
  size = size_header + 2 * size_storage + adata_size;
  max_data_size = ℤ.pos adata_size;
  packet_length = ℤ.pos 0;
  allocated = true;
})

-- size - sizeof(struct PacketHeader) - (2 * sizeof(struct sockaddr_storage)), of type size_t, as an int
unfoldable pub payload_of_size : ℕ → ℤ
payload_of_size size =
    signed 32 ((size + 2 ^ 64 - size_header - 2 * size_storage) % 2 ^ 64 % 2 ^ 32)

-- InputPacket(data, adata_size) and InputPacket(data); `max_data_size` is set to `length`, which is
-- negative for data shorter than a header and two addresses.
unfoldable pub over_data : List ℕ → Packet
unfolding payload_of_size
over_data bytes = record {
  buffer = bytes;
  size = length bytes;
  max_data_size = payload_of_size (length bytes);
  packet_length = payload_of_size (length bytes);
  allocated = false;
}

-- get_socket_addr_src() - buffer: the sum is one of pointers to `struct sockaddr_storage`.
abbrev pub offset_src : ℕ
offset_src = size_header * size_storage

-- get_socket_addr_dst() - buffer
abbrev pub offset_dst : ℕ
offset_dst = (size_header + size_storage) * size_storage

-- data() - buffer
abbrev pub offset_data : ℕ
offset_data = size_header + size_storage + size_storage

-- memmove to an address in the buffer
unfoldable pub move_to : ℕ → List ℕ → Packet → Option Packet
move_to offset bytes p =
    if leb (offset + length bytes) (length p.buffer)
    then some (record p { buffer = overwrite p.buffer offset bytes })
    else none

-- The first `sizeof(struct sockaddr)` bytes of an address are copied.
unfoldable pub set_socket_addr_src : List ℕ → Packet → Option Packet
unfolding move_to
set_socket_addr_src addr p = move_to offset_src (take size_sockaddr addr) p

unfoldable pub set_socket_addr_dst : List ℕ → Packet → Option Packet
unfolding move_to
set_socket_addr_dst addr p = move_to offset_dst (take size_sockaddr addr) p

-- The bytes from data() on.
unfoldable pub payload : Packet → List ℕ
payload p = drop offset_data p.buffer

-- A write to data(), as by read(2) into the packet.
unfoldable pub write_data : List ℕ → Packet → Option Packet
unfolding move_to
write_data bytes p = move_to offset_data bytes p

-- setLength of a length that is not negative
unfoldable pub set_length : ℕ → Packet → Packet
set_length value p = record p {
  packet_length = ℤ.pos value;
  size = value + size_header + 2 * size_storage;
}

-- getPayloadSize
unfoldable pub get_payload_size : ℕ → ℤ
unfolding payload_of_size
get_payload_size full_packet_size = payload_of_size full_packet_size

-- The bytes that `nn_send(socket, packet.get(), packet.size, 0)` sends; `none` where the size is
-- larger than the buffer.
unfoldable pub sent_bytes : Packet → Option (List ℕ)
sent_bytes p = if leb p.size (length p.buffer) then some (take p.size p.buffer) else none
