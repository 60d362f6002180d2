-- ===== src/InputPacket/Payload.antt =====
-- What a receiver of an InputPacket finds in it.
use pkt.Common.{
  ℕ, zero, suc, ◌+◌, ◌*◌, ◌^◌, ◌≤◌, ◌<◌, ◌≡◌, refl, sym, ap, ◌∙◌, Option, true, none, some, List,
  [], ◌∷◌, leb, if◌then◌else◌, length, take, drop, arith,
}
use pkt.Common.Bytes.{
  overwrite, take_all, slice-overwrite_self, slice-overwrite_before, length-slice, length-overwrite,
}
use pkt.Common.Int.{ℤ}
use pkt.InputPacket.{
  Packet, allocate, set_socket_addr_src, write_data, set_length, sent_bytes, over_data, payload,
  payload_of_size, get_payload_size, offset_data, offset_src, size_sockaddr, move_to,
}
use pkt.InputPacket.Address.{allocated_length}

take_none : (n : ℕ) → take n (let none_left : List ℕ = [] in none_left) ≡ []
take_none zero = refl
take_none (suc n) = refl

drop-take : (k n : ℕ) (xs : List ℕ) → drop k (take (k + n) xs) ≡ take n (drop k xs)
drop-take zero n xs = let same : 0 + n ≡ n = omega arith in rw same refl
drop-take (suc k) n [] =
    let next : suc k + n ≡ suc (k + n) = omega arith in rw (next, take_none n) refl
drop-take (suc k) n (x ∷ xs) =
    let next : suc k + n ≡ suc (k + n) = omega arith in rw next (drop-take k n xs)

payload_of_size_lem : (n : ℕ) → n < 2 ^ 31 → payload_of_size (n + 257) ≡ ℤ.pos n
unfolding payload_of_size
payload_of_size_lem n h = ground arith

-- A write that fits.
move_to_lem :
    (o : ℕ) (bytes : List ℕ) (p : Packet)
    → o + length bytes ≤ length p.buffer
    → move_to o bytes p ≡ some (record p { buffer = overwrite p.buffer o bytes })
unfolding move_to
move_to_lem o bytes p h =
    let room : leb (o + length bytes) (length p.buffer) ≡ true = ground arith in rw room refl

take_first : (m : ℕ) (xs : List ℕ) (n : ℕ) → n ≡ suc m → take 1 (take n xs) ≡ take 1 xs
take_first m [] n e = rw e refl
take_first m (x ∷ xs) n e = rw e refl

abbrev first_of : Option Packet → List ℕ
first_of none = []
first_of (some p) = take 1 p.buffer

first_byte :
    (typ adata_size : ℕ) (p : Packet)
    → allocate true typ adata_size ≡ some p
    → take 1 p.buffer ≡ typ ∷ []
unfolding allocate
first_byte typ adata_size p created = sym (ap first_of created)

sent_lem :
    (p : Packet) (size : ℕ)
    → size ≤ length p.buffer
    → (if leb size (length p.buffer) then some (take size p.buffer) else none)
      ≡ some (take size p.buffer)
sent_lem p size h = let room : leb size (length p.buffer) ≡ true = ground arith in rw room refl

-- Of a packet of at most 2^31 - 258 bytes of payload: with an address for the source, the payload
-- read into it and its length set, what is sent over nanomsg begins with the type of the packet, and a
-- packet made of it has exactly the payload, and its length: `getPayloadSize` of the bytes received
-- gives that length too.
pub over_data-sent_bytes :
    (typ adata_size : ℕ) (addr bytes : List ℕ) (p : Packet)
    → allocate true typ adata_size ≡ some p
    → length addr ≡ size_sockaddr
    → length bytes ≤ adata_size
    → adata_size + offset_data < 2 ^ 31
    → (p1 : Packet) × (p2 : Packet) × (out : List ℕ) × (set_socket_addr_src addr p ≡ some p1)
      × (write_data bytes p1 ≡ some p2)
      × (sent_bytes (set_length (length bytes) p2) ≡ some out)
      × (take 1 out ≡ typ ∷ [])
      × (payload (over_data out) ≡ bytes)
      × ((over_data out).packet_length ≡ ℤ.pos (length bytes))
      × (get_payload_size (length out) ≡ ℤ.pos (length bytes))
over_data-sent_bytes typ adata_size addr bytes p created sized fits small =
    let room = allocated_length typ adata_size p created in
    let addr' = take size_sockaddr addr in
    let whole = take_all size_sockaddr addr (omega arith) in
    let p1 : Packet = record p { buffer = overwrite p.buffer offset_src addr' } in
    let same1 = length-overwrite p.buffer offset_src addr' in
    let p2 : Packet = record p1 { buffer = overwrite p1.buffer offset_data bytes } in
    let same2 = length-overwrite p1.buffer offset_data bytes in
    let out : List ℕ = take (length bytes + 1 + 2 * 128) p2.buffer in
    let end : length bytes + 1 + 2 * 128 ≡ offset_data + length bytes = omega arith in
    let long : length out ≡ length bytes + offset_data = omega (
      arith,
      length-slice 0 (length bytes + 1 + 2 * 128) p2.buffer (omega (arith, room, same1, same2)),
    ) in
    let size : payload_of_size (length out) ≡ ℤ.pos (length bytes) =
      rw long (payload_of_size_lem (length bytes) (omega arith)) in
    let read_back : drop offset_data out ≡ bytes = rw end (
      drop-take offset_data (length bytes) p2.buffer
      ∙ slice-overwrite_self p1.buffer offset_data bytes (omega (arith, room, same1))) in
    let first : take 1 out ≡ take 1 p.buffer =
      take_first (length bytes + 256) p2.buffer (length bytes + 1 + 2 * 128) (omega arith)
      ∙ slice-overwrite_before p1.buffer offset_data 0 1 bytes (omega arith)
      ∙ slice-overwrite_before p.buffer offset_src 0 1 addr' (omega arith) in
    (
      p1,
      p2,
      out,
      unfold set_socket_addr_src in
          move_to_lem offset_src addr' p (omega (arith, room, ap (λ (t : List ℕ). length t) whole)),
      unfold write_data in move_to_lem offset_data bytes p1 (omega (arith, room, same1)),
      unfold sent_bytes set_length in
          sent_lem p2 (length bytes + 1 + 2 * 128) (omega (arith, room, same1, same2)),
      first ∙ first_byte typ adata_size p created,
      unfold payload over_data in read_back,
      unfold over_data in size,
      unfold get_payload_size in size,
    )
