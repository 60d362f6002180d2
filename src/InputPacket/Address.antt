-- ===== src/InputPacket/Address.antt =====
-- Where the address of the receiver is written.
use pkt.Common.{ℕ, ◌+◌, ◌*◌, ◌≡◌, ap, Option, true, none, some, length, length-replicate, arith}
use pkt.InputPacket.{Packet, allocate, offset_data}

abbrev buffer_length : Option Packet → ℕ
buffer_length none = 0
buffer_length (some p) = length p.buffer

pub allocated_length :
    (typ adata_size : ℕ) (p : Packet)
    → allocate true typ adata_size ≡ some p
    → length p.buffer ≡ offset_data + adata_size
unfolding allocate
allocated_length typ adata_size p created =
    omega (arith, ap buffer_length created, length-replicate {A = ℕ} (2 * 128 + adata_size) 0)
