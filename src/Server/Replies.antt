-- ===== src/Server/Replies.antt =====
-- What a client reads in a reply, by the layout of the protocol: the first 32 bytes, their length
-- field, and words that follow. The handlers of src/server/connection.rs write such replies.
-- The fields that every reply has: it begins with 1, its sequence number is that of the request, and
-- its length field counts the words after the first 32 bytes.
use psl_xserver.Outcome.{ok}
use psl_xserver.Prelude.{
  List, [], arith, drop, get_elem?, length, length-append, refl, some, ℕ, ◌*◌, ◌++◌, ◌+◌, ◌∷◌, ◌≡◌,
}
use psl_xserver.Server.{all_words}
use psl_xserver.Wire.{
  ByteOrder, IsU32, big_endian, little_endian, read_u32, u16_at, u32_at, u32_bytes,
}
use psl_xserver.Wire.RoundTrip.{length-u32_bytes, read_u32-u32_bytes}

abbrev pub IsReply : ByteOrder → (seq words : ℕ) → List ℕ → Type 0
IsReply order seq words reply =
    (length reply ≡ 32 + words * 4)
    × (get_elem? reply 0 ≡ some 1)
    × (u16_at order reply 2 ≡ ok seq)
    × (u32_at order reply 4 ≡ ok words)

-- The bytes are these numbers of 32 bits and nothing else.
pub HoldsWords : ByteOrder → List ℕ → List ℕ → Type 0
HoldsWords order [] bytes = bytes ≡ []
HoldsWords order (v ∷ vs) bytes = (read_u32 order bytes ≡ ok v) × HoldsWords order vs (drop 4 bytes)

abbrev pub AllU32 : List ℕ → Type 0
AllU32 [] = Unit {0}
AllU32 (v ∷ vs) = IsU32 v × AllU32 vs

drop-u32_bytes :
    (order : ByteOrder) (v : ℕ) (rest : List ℕ) → drop 4 (u32_bytes order v ++ rest) ≡ rest
unfolding u32_bytes
drop-u32_bytes big_endian v rest = refl
drop-u32_bytes little_endian v rest = refl

pub all_words-HoldsWords :
    (order : ByteOrder) (vs : List ℕ) → AllU32 vs → HoldsWords order vs (all_words order vs)
unfolding HoldsWords all_words
all_words-HoldsWords order [] fits = refl
all_words-HoldsWords order (v ∷ vs) (fit, fits) = (
  read_u32-u32_bytes order v (all_words order vs) fit,
  rw (drop-u32_bytes order v (all_words order vs)) (all_words-HoldsWords order vs fits),
)

pub length-all_words :
    (order : ByteOrder) (vs : List ℕ) → length (all_words order vs) ≡ length vs * 4
unfolding all_words
length-all_words order [] = refl
length-all_words order (v ∷ vs) = omega (
  arith,
  length-append (u32_bytes order v) (all_words order vs),
  length-u32_bytes order v,
  length-all_words order vs,
)
