-- ===== src/Connection/Framing/Encoding.antt =====
-- What a client sends, and what the handlers see of it.
use psl_xserver.Connection.Framing.{crashed, cut, next_request, request, sized}
use psl_xserver.Prelude.{
  Bool-cases, List, [], ap, append_assoc, arith, drop-append, false, if◌then◌else◌, inl, inr,
  length, length-append, ltb, ltb→lt, refl, subst, suc, take-append, true, ℕ, ◌%◌, ◌*◌, ◌++◌, ◌+◌,
  ◌/◌, ◌<◌, ◌^◌, ◌∙◌, ◌∷◌, ◌≡◌, ◌≢◌, ◌≤◌,
}
use psl_xserver.Wire.{ByteOrder, IsU16, IsU32, big_endian, little_endian, u16_bytes, u32_bytes}
use psl_xserver.Wire.RoundTrip.{length-u16_bytes, read_u32-u32_bytes}

-- A request: its opcode, the byte after it, and a body of whole words.
pub record Request : Type 0 where
  pub opcode : ℕ
  pub detail : ℕ
  pub body : List ℕ
  pub words : ℕ

-- The body has `words` words, and the whole fits the extended length.
pub record IsWhole (r : Request) : Type 0 where
  pub whole : length r.body ≡ r.words * 4
  pub fits : r.words + 2 < 2 ^ 32

-- The length field counts the header; a request of 2 ^ 16 words or more uses the extended length.
abbrev length_field : ByteOrder → Request → List ℕ
length_field order r =
    if ltb (r.words + 1) (2 ^ 16) then u16_bytes order (r.words + 1) else 0 ∷ 0 ∷ []

pub encode : ByteOrder → Request → List ℕ
encode order r =
    r.opcode
    ∷ r.detail
    ∷ (length_field order r
        ++ (if ltb (r.words + 1) (2 ^ 16) then r.body else u32_bytes order (r.words + 2) ++ r.body))

-- The bytes of a request without the extended length.
pub seen : ByteOrder → Request → List ℕ
seen order r = r.opcode ∷ r.detail ∷ (length_field order r ++ r.body)

joined : (v : ℕ) → IsU16 v → v / 256 % 256 * 256 + v % 256 ≡ v
joined v h = omega arith

next_request-u16 :
    (order : ByteOrder) (a b v : ℕ) (body : List ℕ)
    → IsU16 v
    → let pending = a ∷ b ∷ (u16_bytes order v ++ body) in
      next_request order pending ≡ sized order pending a body v
unfolding next_request u16_bytes
next_request-u16 big_endian a b v body h =
    ap (sized big_endian (a ∷ b ∷ (u16_bytes big_endian v ++ body)) a body) (joined v h)
next_request-u16 little_endian a b v body h =
    ap (sized little_endian (a ∷ b ∷ (u16_bytes little_endian v ++ body)) a body) (joined v h)

pub next_request-zero :
    (order : ByteOrder) (a b : ℕ) (body : List ℕ)
    → next_request order (a ∷ b ∷ 0 ∷ 0 ∷ body) ≡ sized order (a ∷ b ∷ 0 ∷ 0 ∷ body) a body 0
unfolding next_request
next_request-zero big_endian a b body = refl
next_request-zero little_endian a b body = refl

sized-short :
    (order : ByteOrder) (pending : List ℕ) (opcode : ℕ) (body : List ℕ) (len : ℕ)
    → len ≢ 0
    → sized order pending opcode body len ≡ cut pending opcode (len * 4) false
unfolding sized
sized-short order pending opcode body len h = ground arith

pub sized-extended :
    (order : ByteOrder) (pending : List ℕ) (opcode v : ℕ) (body : List ℕ)
    → IsU32 v
    → sized order pending opcode (u32_bytes order v ++ body) 0 ≡ cut pending opcode (v * 4) true
unfolding sized
sized-extended order pending opcode v body h = rw (read_u32-u32_bytes order v body h) refl

cut-exact :
    (raw rest : List ℕ) (opcode n : ℕ)
    → length raw ≡ n
    → cut (raw ++ rest) opcode n false ≡ request opcode raw rest
unfolding cut
cut-exact raw rest opcode n e =
    subst (λ k. cut (raw ++ rest) opcode k false ≡ request opcode raw rest) e
      (ground (arith, length-append raw rest, take-append raw rest, drop-append raw rest))

cut-exact_big :
    (a b c d e f g h : ℕ) (body rest : List ℕ) (opcode n : ℕ)
    → length body + 8 ≡ n
    → cut (a ∷ b ∷ c ∷ d ∷ e ∷ f ∷ g ∷ h ∷ (body ++ rest)) opcode n true
      ≡ request opcode (a ∷ b ∷ c ∷ d ∷ body) rest
unfolding cut
cut-exact_big a b c d e f g h body rest opcode n eq =
    subst
      (λ k.
        cut (a ∷ b ∷ c ∷ d ∷ e ∷ f ∷ g ∷ h ∷ (body ++ rest)) opcode k true
        ≡ request opcode (a ∷ b ∷ c ∷ d ∷ body) rest)
      eight (ground (arith, length-append body rest, take-append body rest, drop-append body rest))
  where
    eight : suc (suc (suc (suc (suc (suc (suc (suc (length body)))))))) ≡ n
    eight = omega arith

cut-extended :
    (order : ByteOrder) (a b v : ℕ) (body rest : List ℕ) (n : ℕ)
    → length body + 8 ≡ n
    → cut (a ∷ b ∷ 0 ∷ 0 ∷ (u32_bytes order v ++ (body ++ rest))) a n true
      ≡ request a (a ∷ b ∷ 0 ∷ 0 ∷ body) rest
unfolding u32_bytes
cut-extended big_endian a b v body rest n e = cut-exact_big a b 0 0 _ _ _ _ body rest a n e
cut-extended little_endian a b v body rest n e = cut-exact_big a b 0 0 _ _ _ _ body rest a n e

-- For a request whose body is whole words, of a length that fits the extended length, the loop
-- cuts off exactly what was sent, extended length or not, and hands the handler the bytes that it
-- would see without the extended length.
pub next_request-encode :
    (order : ByteOrder) (r : Request) (rest : List ℕ)
    → IsWhole r
    → next_request order (encode order r ++ rest) ≡ request r.opcode (seen order r) rest
unfolding encode seen
next_request-encode order r rest w = elim (Bool-cases (ltb (r.words + 1) (2 ^ 16))) [
  | inl small ↦
      rw (small, append_assoc)
        (next_request-u16 order r.opcode r.detail (r.words + 1) (r.body ++ rest) (ltb→lt _ _ small)
          ∙ sized-short order _ r.opcode (r.body ++ rest) (r.words + 1) (λ z. omega arith)
          ∙ rw (← append_assoc (u16_bytes order (r.words + 1)) r.body rest) (
              cut-exact (r.opcode ∷ r.detail ∷ (u16_bytes order (r.words + 1) ++ r.body)) rest
                r.opcode ((r.words + 1) * 4)
                (omega (
                  arith,
                  length-append (u16_bytes order (r.words + 1)) r.body,
                  length-u16_bytes order (r.words + 1),
                  w.whole,
                ))))
  | inr large ↦
      rw (large, append_assoc)
        (next_request-zero order r.opcode r.detail _
          ∙ sized-extended order _ r.opcode (r.words + 2) (r.body ++ rest) w.fits
          ∙ cut-extended order r.opcode r.detail (r.words + 2) r.body rest ((r.words + 2) * 4)
              (omega (arith, w.whole)))
]

pub encode_nonempty : (order : ByteOrder) (r : Request) → 1 ≤ length (encode order r)
unfolding encode
encode_nonempty order r = omega arith

pub cut-crashed :
    (pending : List ℕ) (opcode request_len : ℕ)
    → request_len ≤ length pending
    → request_len < 8
    → cut pending opcode request_len true ≡ crashed
unfolding cut
cut-crashed pending opcode request_len h k = ground arith
