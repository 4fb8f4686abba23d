-- ===== src/Wire/RoundTrip.antt =====
-- Reading back what was written, for both byte orders.
use psl_xserver.Outcome.{>>=-assoc, ok, slice, ◌>>=◌}
use psl_xserver.Prelude.{
  List, [], ap, append-nil, append_assoc, arith, drop-append, length, length-append, refl, sym,
  take, take-append, ℕ, ◌++◌, ◌+◌, ◌-◌, ◌∙◌, ◌∷◌, ◌≡◌,
}
use psl_xserver.Prelude.Int.{negsuc, pos, ℤ}
use psl_xserver.Wire.{
  ByteOrder, IsI16, IsU16, IsU32, IsU8, big_endian, bits_of_i16, i16_at, i16_bytes, i16_of_bits,
  little_endian, read_i16, read_u16, read_u32, u16_at, u16_bytes, u32_at, u32_bytes, write_i16_to,
  write_u16_to, write_u32_to,
}

pub read_u16-u16_bytes :
    (order : ByteOrder) (v : ℕ) (rest : List ℕ)
    → IsU16 v
    → read_u16 order (u16_bytes order v ++ rest) ≡ ok v
unfolding read_u16 u16_bytes
read_u16-u16_bytes big_endian v rest h = ground arith
read_u16-u16_bytes little_endian v rest h = ground arith

pub read_u32-u32_bytes :
    (order : ByteOrder) (v : ℕ) (rest : List ℕ)
    → IsU32 v
    → read_u32 order (u32_bytes order v ++ rest) ≡ ok v
unfolding read_u32 u32_bytes
read_u32-u32_bytes big_endian v rest h = ground arith
read_u32-u32_bytes little_endian v rest h = ground arith

i16_of_bits-bits_of_i16 : (v : ℤ) → IsI16 v → i16_of_bits (bits_of_i16 v) ≡ v
unfolding i16_of_bits bits_of_i16
i16_of_bits-bits_of_i16 (pos n) h = ground arith
i16_of_bits-bits_of_i16 (negsuc n) h = ground arith

bits_of_i16-i16_of_bits : (w : ℕ) → IsU16 w → bits_of_i16 (i16_of_bits w) ≡ w
unfolding i16_of_bits bits_of_i16
bits_of_i16-i16_of_bits w h = ground arith

bits_of_i16-IsU16 : (v : ℤ) → IsU16 (bits_of_i16 v)
unfolding bits_of_i16
bits_of_i16-IsU16 (pos n) = omega arith
bits_of_i16-IsU16 (negsuc n) = omega arith

pub slice-append :
    (front bytes rest : List ℕ) (n : ℕ)
    → length bytes ≡ n
    → slice (front ++ (bytes ++ rest)) (length front) (length front + n) ≡ ok bytes
unfolding slice
slice-append front bytes rest n e = ground (
  arith,
  length-append front (bytes ++ rest),
  length-append bytes rest,
  drop-append front (bytes ++ rest),
  take-append bytes rest,
  ap (λ k. take k (bytes ++ rest)) width,
)
  where
    width : length front + n - length front ≡ length bytes
    width = omega arith

pub length-u16_bytes : (order : ByteOrder) (v : ℕ) → length (u16_bytes order v) ≡ 2
unfolding u16_bytes
length-u16_bytes big_endian v = refl
length-u16_bytes little_endian v = refl

pub length-u32_bytes : (order : ByteOrder) (v : ℕ) → length (u32_bytes order v) ≡ 4
unfolding u32_bytes
length-u32_bytes big_endian v = refl
length-u32_bytes little_endian v = refl

pub u16_at-append :
    (order : ByteOrder) (front rest : List ℕ) (v : ℕ)
    → IsU16 v
    → u16_at order (front ++ (u16_bytes order v ++ rest)) (length front) ≡ ok v
unfolding u16_at
u16_at-append order front rest v h =
    rw (slice-append front (u16_bytes order v) rest 2 (length-u16_bytes order v))
      (ap (read_u16 order) (sym (append-nil (u16_bytes order v))) ∙ read_u16-u16_bytes order v [] h)

pub u32_at-append :
    (order : ByteOrder) (front rest : List ℕ) (v : ℕ)
    → IsU32 v
    → u32_at order (front ++ (u32_bytes order v ++ rest)) (length front) ≡ ok v
unfolding u32_at
u32_at-append order front rest v h =
    rw (slice-append front (u32_bytes order v) rest 4 (length-u32_bytes order v))
      (ap (read_u32 order) (sym (append-nil (u32_bytes order v))) ∙ read_u32-u32_bytes order v [] h)

pub read_i16-i16_bytes :
    (order : ByteOrder) (v : ℤ) (rest : List ℕ)
    → IsI16 v
    → read_i16 order (i16_bytes order v ++ rest) ≡ ok v
unfolding read_i16 i16_bytes
read_i16-i16_bytes order v rest h =
    rw (read_u16-u16_bytes order (bits_of_i16 v) rest (bits_of_i16-IsU16 v))
      (ap ok (i16_of_bits-bits_of_i16 v h))

i16_at-u16_at :
    (order : ByteOrder) (bytes : List ℕ) (first : ℕ)
    → i16_at order bytes first ≡ (u16_at order bytes first >>= λ w. ok (i16_of_bits w))
unfolding i16_at u16_at
i16_at-u16_at order bytes first = >>=-assoc (slice bytes first (first + 2)) (read_u16 order) _

pub i16_at-append :
    (order : ByteOrder) (front rest : List ℕ) (v : ℤ)
    → IsI16 v
    → i16_at order (front ++ (i16_bytes order v ++ rest)) (length front) ≡ ok v
unfolding i16_bytes
i16_at-append order front rest v h =
    rw (i16_at-u16_at, u16_at-append order front rest (bits_of_i16 v) (bits_of_i16-IsU16 v))
      (ap ok (i16_of_bits-bits_of_i16 v h))

-- A number that fits 16 or 32 bits, or a signed one that fits 16, is found by the reader where the
-- writer pushed it on a buffer: at the buffer's old length, whatever follows, in either byte
-- order.
pub reads-writes :
    (order : ByteOrder) (buf rest : List ℕ) (v w : ℕ) (z : ℤ)
    → IsU16 v
    → IsU32 w
    → IsI16 z
    → (u16_at order (write_u16_to order buf v ++ rest) (length buf) ≡ ok v)
      × (u32_at order (write_u32_to order buf w ++ rest) (length buf) ≡ ok w)
      × (i16_at order (write_i16_to order buf z ++ rest) (length buf) ≡ ok z)
unfolding write_u16_to write_u32_to write_i16_to i16_bytes
reads-writes order buf rest v w z hv hw hz = (
  rw append_assoc (u16_at-append order buf rest v hv),
  rw append_assoc (u32_at-append order buf rest w hw),
  rw append_assoc (i16_at-append order buf rest z hz),
)

-- Writing what was read gives the bytes back.
u16_bytes-read_u16 :
    (order : ByteOrder) (a b : ℕ) (rest : List ℕ) (v : ℕ)
    → IsU8 a
    → IsU8 b
    → read_u16 order (a ∷ b ∷ rest) ≡ ok v
    → u16_bytes order v ≡ a ∷ b ∷ []
unfolding read_u16 u16_bytes
u16_bytes-read_u16 big_endian a b rest v ha hb e = ground arith
u16_bytes-read_u16 little_endian a b rest v ha hb e = ground arith

u32_bytes-read_u32 :
    (order : ByteOrder) (a b c d : ℕ) (rest : List ℕ) (v : ℕ)
    → IsU8 a
    → IsU8 b
    → IsU8 c
    → IsU8 d
    → read_u32 order (a ∷ b ∷ c ∷ d ∷ rest) ≡ ok v
    → u32_bytes order v ≡ a ∷ b ∷ c ∷ d ∷ []
unfolding read_u32 u32_bytes
u32_bytes-read_u32 big_endian a b c d rest v ha hb hc hd e = ground arith
u32_bytes-read_u32 little_endian a b c d rest v ha hb hc hd e = ground arith
