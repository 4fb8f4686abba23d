-- ===== src/Connection/Framing/Cuts.antt =====
-- One cut: what it takes, and what bytes that arrive later do not change.
use psl_xserver.Connection.Framing.{Head, crashed, cut, next_request, request, sized, waiting}
use psl_xserver.Outcome.{Result-cases, ok}
use psl_xserver.Prelude.{
  Bool, List, arith, drop-append_le, false, inl, inr, length, length-append, length-drop, refl,
  take-append_le, true, ℕ, ◌*◌, ◌++◌, ◌+◌, ◌<◌, ◌∷◌, ◌≡◌, ◌≢◌, ◌≤◌, ◌⊎◌,
}
use psl_xserver.Wire.{ByteOrder, big_endian, little_endian, read_u32}

-- The head once more bytes are pending behind it.
abbrev pub extend : List ℕ → Head → Head
extend more waiting = waiting
extend more (request opcode request_data rest) = request opcode request_data (rest ++ more)
extend more crashed = crashed

cut-append :
    (pending more : List ℕ) (opcode request_len : ℕ) (big : Bool)
    → request_len ≤ length pending
    → cut (pending ++ more) opcode request_len big
      ≡ extend more (cut pending opcode request_len big)
unfolding cut
cut-append pending more opcode request_len big h = ground (
  arith,
  length-append pending more,
  take-append_le request_len pending more h,
  drop-append_le request_len pending more h,
)

cut-ne-waiting :
    (pending : List ℕ) (opcode request_len : ℕ) (big : Bool)
    → cut pending opcode request_len big ≢ waiting
    → request_len ≤ length pending
unfolding cut
cut-ne-waiting pending opcode request_len big h = ground arith

read_u32-append :
    (order : ByteOrder) (bytes more : List ℕ) (v : ℕ)
    → read_u32 order bytes ≡ ok v
    → read_u32 order (bytes ++ more) ≡ ok v
unfolding read_u32
read_u32-append big_endian (a ∷ b ∷ c ∷ d ∷ rest) more v e = e
read_u32-append little_endian (a ∷ b ∷ c ∷ d ∷ rest) more v e = e
read_u32-append _ _ more v e = cc

cut-stays :
    (pending more : List ℕ) (opcode request_len : ℕ) (big : Bool)
    → cut pending opcode request_len big ≢ waiting
    → cut (pending ++ more) opcode request_len big
      ≡ extend more (cut pending opcode request_len big)
cut-stays pending more opcode request_len big h =
    cut-append pending more opcode request_len big (cut-ne-waiting pending opcode request_len big h)

sized-stays :
    (order : ByteOrder) (pending more body : List ℕ) (opcode len : ℕ)
    → sized order pending opcode body len ≢ waiting
    → sized order (pending ++ more) opcode (body ++ more) len
      ≡ extend more (sized order pending opcode body len)
unfolding sized
sized-stays order pending more body opcode len h = elim (Result-cases (read_u32 order body)) [
  | inl (n, e) ↦ ground (
    arith,
    e,
    read_u32-append order body more n e,
    cut-stays pending more opcode (n * 4) true,
    cut-stays pending more opcode (len * 4) false,
  )
  | inr (inl (x, e)) ↦ ground (arith, e, h, cut-stays pending more opcode (len * 4) false)
  | inr (inr e) ↦ ground (arith, e, h, cut-stays pending more opcode (len * 4) false)
]

-- A head that is there stays when more bytes arrive: only the rest grows.
pub next_request-append :
    (order : ByteOrder) (pending more : List ℕ)
    → next_request order pending ≢ waiting
    → next_request order (pending ++ more) ≡ extend more (next_request order pending)
unfolding next_request
next_request-append big_endian (opcode ∷ b1 ∷ b2 ∷ b3 ∷ body) more h =
    sized-stays big_endian (opcode ∷ b1 ∷ b2 ∷ b3 ∷ body) more body opcode (b2 * 256 + b3) h
next_request-append little_endian (opcode ∷ b1 ∷ b2 ∷ b3 ∷ body) more h =
    sized-stays little_endian (opcode ∷ b1 ∷ b2 ∷ b3 ∷ body) more body opcode (b3 * 256 + b2) h
next_request-append _ _ more h = absurd (h refl)

cut_shrinks :
    (pending : List ℕ) (opcode request_len : ℕ) (big : Bool) (op : ℕ) (request_data rest : List ℕ)
    → (big ≡ true) ⊎ (4 ≤ request_len)
    → cut pending opcode request_len big ≡ request op request_data rest
    → length rest < length pending
unfolding cut
cut_shrinks pending opcode request_len big op request_data rest h e =
    ground (arith, length-drop request_len pending)

sized_shrinks :
    (order : ByteOrder) (pending body : List ℕ) (opcode len op : ℕ) (request_data rest : List ℕ)
    → sized order pending opcode body len ≡ request op request_data rest
    → length rest < length pending
unfolding sized
sized_shrinks order pending body opcode len op request_data rest e =
    elim (Result-cases (read_u32 order body)) [
      | inl (n, r) ↦ ground (
        arith,
        r,
        cut_shrinks pending opcode (n * 4) true op request_data rest (inl refl),
        cut_shrinks pending opcode (len * 4) false op request_data rest,
      )
      | inr (inl (x, r)) ↦
          ground (arith, r, cut_shrinks pending opcode (len * 4) false op request_data rest)
      | inr (inr r) ↦
          ground (arith, r, cut_shrinks pending opcode (len * 4) false op request_data rest)
    ]

-- A request takes four bytes at least.
pub next_request_shrinks :
    (order : ByteOrder) (pending : List ℕ) (op : ℕ) (request_data rest : List ℕ)
    → next_request order pending ≡ request op request_data rest
    → length rest < length pending
unfolding next_request
next_request_shrinks big_endian (opcode ∷ b1 ∷ b2 ∷ b3 ∷ body) op request_data rest e =
    sized_shrinks big_endian (opcode ∷ b1 ∷ b2 ∷ b3 ∷ body) body opcode (b2 * 256 + b3) op
      request_data rest e
next_request_shrinks little_endian (opcode ∷ b1 ∷ b2 ∷ b3 ∷ body) op request_data rest e =
    sized_shrinks little_endian (opcode ∷ b1 ∷ b2 ∷ b3 ∷ body) body opcode (b3 * 256 + b2) op
      request_data rest e
next_request_shrinks _ _ op request_data rest e = cc
