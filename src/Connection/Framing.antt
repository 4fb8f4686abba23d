-- ===== src/Connection/Framing.antt =====
-- The request loop of src/server/connection.rs (`handle_connection`, phase 2): cutting requests off
-- the bytes received, BIG-REQUESTS included, and answering each. The loop takes the dispatcher
-- `handle_request` as a parameter over any server state.
pub mod Cuts
pub mod Chunks
pub mod Incomplete
pub mod Encoding
pub mod Replies
mod Tests
use psl_xserver.Connection.{ClientConnection, current_request_sequence, next_sequence}
use psl_xserver.Outcome.{Result, err, ok, panic, x11_error_code}
use psl_xserver.Prelude.{
  Bool, List, [], drop, false, if◌then◌else◌, length, ltb, replicate, set, suc, take, true, zero, ℕ,
  ◌%◌, ◌&&◌, ◌*◌, ◌++◌, ◌/◌, ◌==◌, ◌∷◌,
}
use psl_xserver.Wire.{ByteOrder, read_u16, read_u32}

-- What the head of the pending bytes is.
pub data Head : Type 0 where
  -- Not yet a whole request: `break`.
  waiting : Head
  -- Its opcode, the bytes that the handler sees, and what follows it.
  request : ℕ → List ℕ → List ℕ → Head
  -- The thread panics.
  crashed : Head

-- The normalized bytes of a big request: the header and what follows the extended length.
normalize : List ℕ → List ℕ
normalize raw = take 4 raw ++ drop 8 raw

-- `pending.split_to(request_len)` once that many bytes are there. Slicing `raw_data[8..]` panics
-- on a big request that is shorter.
pub cut : List ℕ → ℕ → ℕ → Bool → Head
unfolding normalize
cut pending opcode request_len is_big_request =
    if ltb (length pending) request_len
    then waiting
    else if is_big_request && ltb request_len 8
    then crashed
    else request opcode
        (if is_big_request then normalize (take request_len pending) else take request_len pending)
        (drop request_len pending)

-- A length of zero words announces a length in the four bytes that follow the header.
pub sized : ByteOrder → List ℕ → ℕ → List ℕ → ℕ → Head
sized order pending opcode body len =
    if len == 0
    then elim (read_u32 order body) [
      | ok ext_len ↦ cut pending opcode (ext_len * 4) true
      | _ ↦ waiting
    ]
    else cut pending opcode (len * 4) false

-- The length in words stands in bytes 2 and 3 of the header.
pub next_request : ByteOrder → List ℕ → Head
unfolding sized cut read_u16 read_u32
next_request order (opcode ∷ b1 ∷ b2 ∷ b3 ∷ body) = elim (read_u16 order (b2 ∷ b3 ∷ [])) [
  | ok len ↦ sized order (opcode ∷ b1 ∷ b2 ∷ b3 ∷ body) opcode body len
  | _ ↦ waiting
]
next_request order _ = waiting

-- The 32-byte error packet. Its sequence number is little-endian whatever the client's order.
pub error_packet : ℕ → ℕ → ℕ → List ℕ
error_packet code seq opcode =
    set (set (set (set (set (replicate 32 0) 1 code) 2 (seq % 256)) 3 (seq / 256 % 256)) 8 opcode)
      10 opcode

-- A dispatcher returns the new state, what it wrote to the stream, and how it ended.
abbrev pub Handler {ℓ} : Type ℓ → Type ℓ
Handler S = ClientConnection → ℕ → List ℕ → S → S × List ℕ × Result (Unit {0})

pub data Session {ℓ} (S : Type ℓ) : Type ℓ where
  -- The connection, the pending bytes, the server and the bytes written so far.
  running : ClientConnection → List ℕ → S → List ℕ → Session S
  dead : Session S

module _ {ℓ} {S : Type ℓ} where
  -- One request: its sequence number is taken, then it is handled, then an error is answered.
  pub serve : Handler S → ClientConnection → ℕ → List ℕ → S → Result (S × List ℕ)
  unfolding current_request_sequence x11_error_code error_packet
  serve handle conn opcode data_bytes s =
      let (s', written, end) = handle conn opcode data_bytes s in
      elim end [
        | ok _ ↦ ok (s', written)
        | err e ↦
            ok (
              s',
              written ++ error_packet (x11_error_code e) (current_request_sequence conn) opcode,
            )
        | panic ↦ panic
      ]

  -- The inner loop: requests are answered while a whole one is pending. The fuel is the number of
  -- pending bytes, and every request takes four at least.
  pub drain : Handler S → ℕ → ClientConnection → List ℕ → S → List ℕ → Session S
  unfolding next_sequence serve next_request
  drain handle zero conn pending s out = running conn pending s out
  drain handle (suc fuel) conn pending s out = elim (next_request conn.byte_order pending) [
    | waiting ↦ running conn pending s out
    | crashed ↦ dead
    | request opcode request_data rest ↦
        let conn' = (next_sequence conn).1 in
        elim (serve handle conn' opcode request_data s) [
          | ok (s', written) ↦ drain handle fuel conn' rest s' (out ++ written)
          | _ ↦ dead
        ]
  ]

  -- Bytes arrive, one at least: they join the pending ones, and the loop runs. (A read of no bytes is
  -- the end of the connection, which Server/Disconnect models.)
  pub receive : Handler S → List ℕ → Session S → Session S
  unfolding drain
  receive handle chunk (running conn pending s out) =
      drain handle (length (pending ++ chunk)) conn (pending ++ chunk) s out
  receive handle chunk dead = dead
