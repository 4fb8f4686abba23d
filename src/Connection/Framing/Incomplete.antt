-- ===== src/Connection/Framing/Incomplete.antt =====
-- What stays pending after the loop, read by the layout of the protocol: src/server/connection.rs,
-- `handle_connection`.
-- The pending bytes lack a part of the header, of the length that it announces in words, of the
-- extended length behind a length of zero, or of what that announces.
use psl_xserver.Connection.{ClientConnection}
use psl_xserver.Connection.Framing.{
  Handler, Session, crashed, cut, dead, next_request, normalize, receive, request, running, sized,
  waiting,
}
use psl_xserver.Connection.Framing.Chunks.{IsDrained, receive-IsDrained}
use psl_xserver.Outcome.{ok, ◌>>=◌}
use psl_xserver.Prelude.{
  ==_iff, Bool, Bool-cases, List, [], ap, arith, drop, false, if◌then◌else◌, inl, inr, length, ltb,
  ltb→lt, refl, sym, take, true, ℕ, ◌&&◌, ◌*◌, ◌+◌, ◌<◌, ◌==◌, ◌∙◌, ◌∷◌, ◌≡◌, ◌⊎◌,
}
use psl_xserver.Wire.{ByteOrder, big_endian, little_endian, read_u16, read_u32, u16_at, u32_at}
use psl_xserver.Wire.RoundTrip.{slice-append}

pub Incomplete : ByteOrder → List ℕ → Type 0
Incomplete order pending =
    (length pending < 4)
    ⊎ (((words : ℕ) × (u16_at order pending 2 ≡ ok words)
          × (0 < words)
          × (length pending < words * 4))
        ⊎ (((u16_at order pending 2 ≡ ok 0) × (length pending < 8))
            ⊎ ((words : ℕ) × (u16_at order pending 2 ≡ ok 0)
                × (u32_at order pending 4 ≡ ok words)
                × (length pending < words * 4))))

crashed_ne_waiting : crashed ≡ waiting → ⊥
crashed_ne_waiting e = cc

request_ne_waiting : (opcode : ℕ) (seen rest : List ℕ) → request opcode seen rest ≡ waiting → ⊥
request_ne_waiting opcode seen rest e = cc

cut_goes_on :
    (pending : List ℕ) (opcode n : ℕ) (big tiny : Bool) (seen rest : List ℕ)
    → (if tiny then crashed else request opcode seen rest) ≡ waiting
    → ⊥
cut_goes_on pending opcode n big true seen rest e = crashed_ne_waiting e
cut_goes_on pending opcode n big false seen rest e = request_ne_waiting opcode seen rest e

cut_waits :
    (pending : List ℕ) (opcode n : ℕ) (big : Bool)
    → cut pending opcode n big ≡ waiting
    → length pending < n
unfolding cut
cut_waits pending opcode n big e = elim (Bool-cases (ltb (length pending) n)) [
  | inl short ↦ ltb→lt _ _ short
  | inr long ↦ absurd (
      cut_goes_on pending opcode n big (big && ltb n 8)
        (if big then normalize (take n pending) else take n pending) (drop n pending)
        (rw long refl ∙ e))
]

length_at :
    (order : ByteOrder) (a b c d : ℕ) (body : List ℕ)
    → u16_at order (a ∷ b ∷ c ∷ d ∷ body) 2 ≡ read_u16 order (c ∷ d ∷ [])
unfolding u16_at
length_at order a b c d body =
    ap (λ r. r >>= read_u16 order) (slice-append (a ∷ b ∷ []) (c ∷ d ∷ []) body 2 refl)

extended_at :
    (order : ByteOrder) (a b c d e f g h : ℕ) (rest : List ℕ)
    → u32_at order (a ∷ b ∷ c ∷ d ∷ e ∷ f ∷ g ∷ h ∷ rest) 4 ≡ read_u32 order (e ∷ f ∷ g ∷ h ∷ [])
unfolding u32_at
extended_at order a b c d e f g h rest =
    ap (λ r. r >>= read_u32 order)
      (slice-append (a ∷ b ∷ c ∷ d ∷ []) (e ∷ f ∷ g ∷ h ∷ []) rest 4 refl)

-- A length of at least one word.
announced :
    (order : ByteOrder) (a b c d len : ℕ) (body : List ℕ)
    → read_u16 order (c ∷ d ∷ []) ≡ ok len
    → (len == 0) ≡ false
    → sized order (a ∷ b ∷ c ∷ d ∷ body) a body len ≡ waiting
    → Incomplete order (a ∷ b ∷ c ∷ d ∷ body)
unfolding Incomplete sized
announced order a b c d len body known positive e = inr (
    inl (
      len,
      length_at order a b c d body ∙ known,
      ground arith,
      cut_waits (a ∷ b ∷ c ∷ d ∷ body) a (len * 4) false (rw positive refl ∙ e),
    ))

-- A length of zero, with the extended length behind it or not.
extended_waits :
    (order : ByteOrder) (a b c d : ℕ) (body : List ℕ)
    → read_u16 order (c ∷ d ∷ []) ≡ ok 0
    → sized order (a ∷ b ∷ c ∷ d ∷ body) a body 0 ≡ waiting
    → Incomplete order (a ∷ b ∷ c ∷ d ∷ body)
unfolding Incomplete sized read_u32
extended_waits order a b c d [] known e =
    inr (inr (inl (length_at order a b c d [] ∙ known, omega arith)))
extended_waits order a b c d (x ∷ []) known e =
    inr (inr (inl (length_at order a b c d _ ∙ known, omega arith)))
extended_waits order a b c d (x ∷ y ∷ []) known e =
    inr (inr (inl (length_at order a b c d _ ∙ known, omega arith)))
extended_waits order a b c d (x ∷ y ∷ z ∷ []) known e =
    inr (inr (inl (length_at order a b c d _ ∙ known, omega arith)))
extended_waits big_endian a b c d (x ∷ y ∷ z ∷ w ∷ rest) known e = inr (
    inr (
      inr (
        ((x * 256 + y) * 256 + z) * 256 + w,
        length_at big_endian a b c d _ ∙ known,
        extended_at big_endian a b c d x y z w rest,
        cut_waits (a ∷ b ∷ c ∷ d ∷ x ∷ y ∷ z ∷ w ∷ rest) a _ true e,
      )))
extended_waits little_endian a b c d (x ∷ y ∷ z ∷ w ∷ rest) known e = inr (
    inr (
      inr (
        ((w * 256 + z) * 256 + y) * 256 + x,
        length_at little_endian a b c d _ ∙ known,
        extended_at little_endian a b c d x y z w rest,
        cut_waits (a ∷ b ∷ c ∷ d ∷ x ∷ y ∷ z ∷ w ∷ rest) a _ true e,
      )))

sized_waits :
    (order : ByteOrder) (a b c d len : ℕ) (body : List ℕ)
    → read_u16 order (c ∷ d ∷ []) ≡ ok len
    → sized order (a ∷ b ∷ c ∷ d ∷ body) a body len ≡ waiting
    → Incomplete order (a ∷ b ∷ c ∷ d ∷ body)
sized_waits order a b c d len body known e = elim (Bool-cases (len == 0)) [
  | inl nothing ↦
      let is_zero : len ≡ 0 = (==_iff len 0).0 nothing in
      extended_waits order a b c d body (known ∙ ap ok is_zero)
        (ap (sized order (a ∷ b ∷ c ∷ d ∷ body) a body) (sym is_zero) ∙ e)
  | inr positive ↦ announced order a b c d len body known positive e
]

waiting-Incomplete :
    (order : ByteOrder) (pending : List ℕ)
    → next_request order pending ≡ waiting
    → Incomplete order pending
unfolding Incomplete next_request
waiting-Incomplete order [] e = inl (omega arith)
waiting-Incomplete order (a ∷ []) e = inl (omega arith)
waiting-Incomplete order (a ∷ b ∷ []) e = inl (omega arith)
waiting-Incomplete order (a ∷ b ∷ c ∷ []) e = inl (omega arith)
waiting-Incomplete big_endian (a ∷ b ∷ c ∷ d ∷ body) e =
    sized_waits big_endian a b c d (c * 256 + d) body refl e
waiting-Incomplete little_endian (a ∷ b ∷ c ∷ d ∷ body) e =
    sized_waits little_endian a b c d (d * 256 + c) body refl e

-- Every whole request of a running session is served.
abbrev pub IsServed {ℓ} : {S : Type ℓ} → Session S → Type 0
IsServed (running conn pending s out) = Incomplete conn.byte_order pending
IsServed dead = Unit {0}

IsDrained-IsServed {ℓ} : {S : Type ℓ} (session : Session S) → IsDrained session → IsServed session
IsDrained-IsServed (running conn pending s out) e = waiting-Incomplete conn.byte_order pending e
IsDrained-IsServed dead e = tt

-- After any chunk, whatever was pending and whatever the dispatcher does, the session is dead or what
-- stays pending is incomplete by the layout of the protocol: the header, the announced length or
-- the bytes that it counts are not all there.
pub receive-IsServed {ℓ} :
    {S : Type ℓ} (handle : Handler S) (chunk : List ℕ) (conn : ClientConnection) (pending : List ℕ)
    (s : S) (out : List ℕ)
    → IsServed (receive handle chunk (running conn pending s out))
receive-IsServed handle chunk conn pending s out =
    IsDrained-IsServed _ (receive-IsDrained handle chunk conn pending s out)
