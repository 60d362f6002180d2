-- ===== src/Huff/Stream.antt =====
-- What huff/huffcode.cpp uses of the bit streams and of the variable length integers under
-- third_party/bitstream, which are not modelled: a parameter with the behaviour that their
-- comments document. A stream of bits is the list of the bits written to an `obitstream`, or that
-- an `ibitstream` still returns before its first -1.
use pkt.Common.{ℕ, ◌≤◌, ◌<◌, ◌^◌, ◌≡◌, Bool, List, ◌++◌, length}

pub record BitStream : Type 0 where
  -- the bits that `obitstream::write(value, bits)` writes
  pub write_int : ℕ → ℕ → List Bool
  -- the byte that `ibitstream::read8` returns, and what is left
  pub read8 : List Bool → ℕ × List Bool
  -- the bytes in the `std::ostream` once the `obitstream` is destroyed
  pub flush : List Bool → List ℕ
  -- the bits that an `ibitstream` over these bytes returns before its first -1
  pub read_bits : List ℕ → List Bool
  -- the bits that an `ibitstream` returns before its first -1 where all bytes of its stream have been
  -- taken by iterators, which leave eof() false: it goes on to a buffer that nothing has been read
  -- into, so which bits they are is left open
  pub drained_bits : List Bool
  -- obitstream::write_varint, and the value and the size that ibitstream::get_varint returns
  pub write_varint : ℕ → List ℕ
  pub get_varint : List ℕ → ℕ × ℕ
  pub length-write_int : (value bits : ℕ) → length (write_int value bits) ≡ bits
  pub read8-write_int :
      (value : ℕ) (rest : List Bool)
      → value < 256
      → read8 (write_int value 8 ++ rest) ≡ (value, rest)
  -- `read8` takes bits from the stream, or finds it at its end
  pub length-read8 : (bits : List Bool) → length (read8 bits).1 ≤ length bits
  -- the last byte is filled up, so some bits follow those that were written
  pub read_bits-flush :
      (bits : List Bool) → (tail : List Bool) × (read_bits (flush bits) ≡ bits ++ tail)
  -- the buffer of `write_varint` has room for four groups of seven bits
  pub get_varint-write_varint :
      (value : ℕ) (rest : List ℕ)
      → value < 2 ^ 28
      → get_varint (write_varint value ++ rest) ≡ (value, length (write_varint value))
