-- ===== src/Wire.antt =====
-- Integers on the wire in the client's byte order: src/server/connection.rs, `ByteOrder`, `read_*`
-- and `write_*`. A byte is a number below 256; an `i16` is an integer, and its bit pattern a number
-- below 2 ^ 16.
pub mod RoundTrip
pub mod Buffers
mod Tests
use psl_xserver.Outcome.{Result, ok, panic, slice, ◌>>=◌}
use psl_xserver.Prelude.{
  List, [], if◌then◌else◌, ltb, set, ℕ, ◌%◌, ◌*◌, ◌++◌, ◌+◌, ◌-◌, ◌/◌, ◌<◌, ◌^◌, ◌∷◌,
}
use psl_xserver.Prelude.Int.{negsuc, pos, ℤ, ◌≤ℤ◌}

pub data ByteOrder : Type 0 where
  big_endian little_endian : ByteOrder

abbrev pub IsU8 : ℕ → Type 0
IsU8 v = v < 2 ^ 8

abbrev pub IsU16 : ℕ → Type 0
IsU16 v = v < 2 ^ 16

abbrev pub IsU32 : ℕ → Type 0
IsU32 v = v < 2 ^ 32

abbrev pub IsI16 : ℤ → Type 0
IsI16 v = (negsuc (2 ^ 15 - 1) ≤ℤ v) × (v ≤ℤ pos (2 ^ 15 - 1))

-- The number that a 16-bit pattern stands for, and the pattern of an integer: `as i16`, `as u16`.
pub i16_of_bits : ℕ → ℤ
i16_of_bits w = if ltb w (2 ^ 15) then pos w else negsuc (2 ^ 16 - w - 1)

pub bits_of_i16 : ℤ → ℕ
bits_of_i16 (pos n) = n % 2 ^ 16
bits_of_i16 (negsuc n) = 2 ^ 16 - 1 - n % 2 ^ 16

-- `to_be_bytes` and `to_le_bytes`, chosen by the byte order.
unfoldable pub u16_bytes : ByteOrder → ℕ → List ℕ
u16_bytes big_endian v = (v / 256 % 256) ∷ (v % 256) ∷ []
u16_bytes little_endian v = (v % 256) ∷ (v / 256 % 256) ∷ []

unfoldable pub u32_bytes : ByteOrder → ℕ → List ℕ
u32_bytes big_endian v = (v / 16777216 % 256) ∷ (v / 65536 % 256) ∷ (v / 256 % 256) ∷ (v % 256) ∷ []
u32_bytes little_endian v =
    (v % 256) ∷ (v / 256 % 256) ∷ (v / 65536 % 256) ∷ (v / 16777216 % 256) ∷ []

unfoldable pub i16_bytes : ByteOrder → ℤ → List ℕ
unfolding bits_of_i16 u16_bytes
i16_bytes order v = u16_bytes order (bits_of_i16 v)

-- The readers index the first bytes of a slice.
unfoldable pub read_u16 : ByteOrder → List ℕ → Result ℕ
read_u16 big_endian (a ∷ b ∷ rest) = ok (a * 256 + b)
read_u16 little_endian (a ∷ b ∷ rest) = ok (b * 256 + a)
read_u16 _ _ = panic

unfoldable pub read_u32 : ByteOrder → List ℕ → Result ℕ
read_u32 big_endian (a ∷ b ∷ c ∷ d ∷ rest) = ok (((a * 256 + b) * 256 + c) * 256 + d)
read_u32 little_endian (a ∷ b ∷ c ∷ d ∷ rest) = ok (((d * 256 + c) * 256 + b) * 256 + a)
read_u32 _ _ = panic

pub read_i16 : ByteOrder → List ℕ → Result ℤ
unfolding read_u16 i16_of_bits
read_i16 order bytes = read_u16 order bytes >>= λ w. ok (i16_of_bits w)

-- The readers at `&data[first..first + n]`.
unfoldable pub u16_at : ByteOrder → List ℕ → ℕ → Result ℕ
unfolding slice read_u16
u16_at order bytes first = slice bytes first (first + 2) >>= read_u16 order

unfoldable pub u32_at : ByteOrder → List ℕ → ℕ → Result ℕ
unfolding slice read_u32
u32_at order bytes first = slice bytes first (first + 4) >>= read_u32 order

unfoldable pub i16_at : ByteOrder → List ℕ → ℕ → Result ℤ
unfolding slice read_i16
i16_at order bytes first = slice bytes first (first + 2) >>= read_i16 order

-- `write_u16_to`, `write_u32_to` and `write_i16_to` push onto a vector.
pub write_u16_to : ByteOrder → List ℕ → ℕ → List ℕ
unfolding u16_bytes
write_u16_to order buf v = buf ++ u16_bytes order v

pub write_u32_to : ByteOrder → List ℕ → ℕ → List ℕ
unfolding u32_bytes
write_u32_to order buf v = buf ++ u32_bytes order v

pub write_i16_to : ByteOrder → List ℕ → ℤ → List ℕ
unfolding i16_bytes
write_i16_to order buf v = buf ++ i16_bytes order v

-- Bytes stored in a buffer from an offset on. The callers stay inside the buffer.
unfoldable pub store : List ℕ → ℕ → List ℕ → List ℕ
store buf offset [] = buf
store buf offset (b ∷ bytes) = store (set buf offset b) (offset + 1) bytes

write_u32_at : ByteOrder → List ℕ → ℕ → ℕ → List ℕ
unfolding store u32_bytes
write_u32_at order buf offset v = store buf offset (u32_bytes order v)

write_u16_at : ByteOrder → List ℕ → ℕ → ℕ → List ℕ
unfolding store u16_bytes
write_u16_at order buf offset v = store buf offset (u16_bytes order v)

-- The sequence number stands in bytes 2 and 3 of an event.
unfoldable pub set_event_sequence : ByteOrder → List ℕ → ℕ → List ℕ
unfolding store u16_bytes
set_event_sequence order event seq = store event 2 (u16_bytes order seq)
