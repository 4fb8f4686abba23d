-- ===== src/Connection/Framing/Replies.antt =====
-- A stream of requests from beginning to end, and the error packets.
use psl_xserver.Connection.{ClientConnection, current_request_sequence}
use psl_xserver.Connection.Framing.{
  Handler, Session, dead, drain, error_packet, next_request, receive, running, serve, waiting,
}
use psl_xserver.Connection.Framing.Chunks.{
  advance, drain_crashed, drain_fuel, drain_request, drain_waiting, go_on, go_on_congr,
}
use psl_xserver.Connection.Framing.Encoding.{
  IsWhole, Request, cut-crashed, encode, encode_nonempty, next_request-encode, next_request-zero,
  seen, sized-extended,
}
use psl_xserver.Outcome.{ok}
use psl_xserver.Prelude.{
  List, [], ap, append-nil, append_assoc, arith, get_elem?, length, length-append, refl, some, suc,
  sym, zero, ℕ, ◌%◌, ◌*◌, ◌++◌, ◌+◌, ◌/◌, ◌<◌, ◌^◌, ◌∙◌, ◌∷◌, ◌≡◌, ◌≤◌,
}
use psl_xserver.Wire.{ByteOrder, IsU16, big_endian, little_endian, u16_at, u32_bytes}
use psl_xserver.Wire.RoundTrip.{length-u32_bytes}

abbrev pub encodings : ByteOrder → List Request → List ℕ
encodings order [] = []
encodings order (r ∷ rs) = encode order r ++ encodings order rs

abbrev AllWhole : List Request → Type 0
AllWhole [] = Unit {0}
AllWhole (r ∷ rs) = IsWhole r × AllWhole rs

module _ {ℓ} {S : Type ℓ} (handle : Handler S) where
  -- What a server should do with a list of requests: number them, handle them in order, and stop at
  -- a panic. The bytes that do not make a request yet stay pending.
  pub answer_all : ClientConnection → List Request → List ℕ → S → List ℕ → Session S
  answer_all conn [] tail s out = running conn tail s out
  answer_all conn (r ∷ rs) tail s out =
      go_on (λ s' written. answer_all (advance conn) rs tail s' (out ++ written))
        (serve handle (advance conn) r.opcode (seen conn.byte_order r) s)

  receive-eq-drain :
      (conn : ClientConnection) (chunk : List ℕ) (s : S) (out : List ℕ)
      → receive handle chunk (running conn [] s out) ≡ drain handle (length chunk) conn chunk s out
  unfolding receive
  receive-eq-drain conn chunk s out = refl

  -- Any fuel above the number of bytes.
  drain-encodings :
      (f : ℕ) (conn : ClientConnection) (rs : List Request) (tail : List ℕ) (s : S) (out : List ℕ)
      → length (encodings conn.byte_order rs ++ tail) ≤ f
      → AllWhole rs
      → next_request conn.byte_order tail ≡ waiting
      → drain handle (suc f) conn (encodings conn.byte_order rs ++ tail) s out
        ≡ answer_all conn rs tail s out
  unfolding answer_all
  drain-encodings f conn [] tail s out h w e = drain_waiting handle f conn tail s out e
  drain-encodings zero conn (r ∷ rs) tail s out h w e = absurd (
      omega (
        arith,
        encode_nonempty conn.byte_order r,
        length-append (encode conn.byte_order r ++ encodings conn.byte_order rs) tail,
        length-append (encode conn.byte_order r) (encodings conn.byte_order rs),
      ))
  drain-encodings (suc f) conn (r ∷ rs) tail s out h w e =
      drain_request handle (suc f) conn _ s out r.opcode (seen conn.byte_order r) later (
        ap (next_request conn.byte_order) (append_assoc (encode conn.byte_order r) _ tail)
        ∙ next_request-encode conn.byte_order r later w.0)
      ∙ go_on_congr handle (serve handle (advance conn) r.opcode (seen conn.byte_order r) s) _ _
          (λ s' written. drain-encodings f (advance conn) rs tail s' (out ++ written) shorter w.1 e)
    where
      later : List ℕ
      later = encodings conn.byte_order rs ++ tail

      shorter : length later ≤ f
      shorter = omega (
        arith,
        length-append (encode conn.byte_order r ++ encodings conn.byte_order rs) tail,
        length-append (encode conn.byte_order r) (encodings conn.byte_order rs),
        length-append (encodings conn.byte_order rs) tail,
        encode_nonempty conn.byte_order r,
      )

  -- Receiving the encodings of whole requests, and bytes behind them that are no whole request, is
  -- answering the requests in order.
  pub receive-encodings :
      (conn : ClientConnection) (rs : List Request) (tail : List ℕ) (s : S) (out : List ℕ)
      → AllWhole rs
      → next_request conn.byte_order tail ≡ waiting
      → receive handle (encodings conn.byte_order rs ++ tail) (running conn [] s out)
        ≡ answer_all conn rs tail s out
  receive-encodings conn rs tail s out w e =
      receive-eq-drain conn bytes s out
      ∙ drain_fuel handle (length bytes) (suc (length bytes)) conn bytes s out (omega arith)
          (omega arith)
      ∙ drain-encodings (length bytes) conn rs tail s out (omega arith) w e
    where
      bytes : List ℕ
      bytes = encodings conn.byte_order rs ++ tail

-- A dispatcher that notes the number that it would put in a reply.
abbrev pub note : Handler (List ℕ)
note conn opcode request_data noted = (noted ++ current_request_sequence conn ∷ [], [], ok tt)

-- As many numbers of 16 bits from a first one on, with wrap-around.
abbrev numbers : ℕ → ℕ → List ℕ
numbers first zero = []
numbers first (suc n) = first % 2 ^ 16 ∷ numbers (first + 1) n

answer_all-note :
    (first : ℕ) (conn : ClientConnection) (rs : List Request) (tail noted : List ℕ)
    → conn.sequence_number ≡ first % 2 ^ 16
    → (conn' : ClientConnection) × (answer_all note conn rs tail noted []
        ≡ running conn' tail (noted ++ numbers first (length rs)) [])
unfolding answer_all serve current_request_sequence
answer_all-note first conn [] tail noted h =
    (conn, ap (λ ns. running conn tail ns []) (sym (append-nil noted)))
answer_all-note first conn (r ∷ rs) tail noted h =
    let now = current_request_sequence (advance conn) in
    let (conn', later) =
      answer_all-note (first + 1) (advance conn) rs tail (noted ++ now ∷ []) (omega arith) in
    let here : now ≡ first % 2 ^ 16 = omega arith in
    (
      conn',
      later
          ∙ ap (λ ns. running conn' tail ns [])
              (append_assoc noted (now ∷ []) (numbers (first + 1) (length rs))
                ∙ ap (λ k. noted ++ k ∷ numbers (first + 1) (length rs)) here),
    )

-- A connection whose counter has 16 bits receives the encodings of whole requests, and bytes behind
-- them that are no whole request. Then the numbers that the dispatcher would put in its replies are
-- the counter before the stream, for the first request, and one more for each request after it, in
-- order and modulo 2 ^ 16.
pub receive-numbers :
    (conn : ClientConnection) (rs : List Request) (tail : List ℕ)
    → IsU16 conn.sequence_number
    → AllWhole rs
    → next_request conn.byte_order tail ≡ waiting
    → (conn' : ClientConnection) × (receive note
          (encodings conn.byte_order rs ++ tail)
          (running conn [] [] [])
        ≡ running conn' tail (numbers conn.sequence_number (length rs)) [])
receive-numbers conn rs tail h whole partial =
    let (conn', answered) = answer_all-note conn.sequence_number conn rs tail [] (omega arith) in
    (conn', receive-encodings note conn rs tail [] [] whole partial ∙ answered)

-- An error packet with a sequence number of 16 bits has 32 bytes, begins with 0, and has its code
-- and opcode in their places. A client with little-endian order reads the sequence number; one
-- with big-endian order reads it with its bytes swapped.
pub error_packet_fields :
    (code seq opcode : ℕ)
    → IsU16 seq
    → let packet = error_packet code seq opcode in
      (length packet ≡ 32)
      × (get_elem? packet 0 ≡ some 0)
      × (get_elem? packet 1 ≡ some code)
      × (get_elem? packet 10 ≡ some opcode)
      × (u16_at little_endian packet 2 ≡ ok seq)
      × (u16_at big_endian packet 2 ≡ ok (seq % 256 * 256 + seq / 256))
unfolding error_packet u16_at
error_packet_fields code seq opcode h = (refl, refl, refl, refl, ground arith, ground arith)

-- A request whose extended length is less than two words, when nothing else is pending, kills the
-- session as soon as its first eight bytes are there, whatever the handlers do.
pub undersized_dies {ℓ} :
    {S : Type ℓ} (handle : Handler S) (conn : ClientConnection) (a b words : ℕ) (rest : List ℕ)
    (s : S) (out : List ℕ)
    → words < 2
    → receive handle
        (a ∷ b ∷ 0 ∷ 0 ∷ (u32_bytes conn.byte_order words ++ rest))
        (running conn [] s out)
      ≡ dead
undersized_dies handle conn a b words rest s out h =
    receive-eq-drain handle conn bytes s out
    ∙ drain_crashed handle _ conn bytes s out (
        next_request-zero conn.byte_order a b (u32_bytes conn.byte_order words ++ rest)
        ∙ sized-extended conn.byte_order bytes a words rest (omega arith)
        ∙ cut-crashed bytes a (words * 4)
            (omega (
              arith,
              length-append (u32_bytes conn.byte_order words) rest,
              length-u32_bytes conn.byte_order words,
            ))
            (omega arith))
  where
    bytes : List ℕ
    bytes = a ∷ b ∷ 0 ∷ 0 ∷ (u32_bytes conn.byte_order words ++ rest)
