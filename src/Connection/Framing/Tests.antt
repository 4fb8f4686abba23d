-- ===== src/Connection/Framing/Tests.antt =====
-- Runs of the request loop, and the theorems at concrete inputs.
use psl_xserver.Connection.{ClientConnection}
use psl_xserver.Connection.Framing.{
  Handler, Session, dead, error_packet, next_request, receive, request, running,
}
use psl_xserver.Connection.Framing.Chunks.{receive-append}
use psl_xserver.Connection.Framing.Encoding.{IsWhole, Request, encode, next_request-encode, seen}
use psl_xserver.Connection.Framing.Incomplete.{IsServed, receive-IsServed}
use psl_xserver.Connection.Framing.Replies.{
  answer_all, encodings, error_packet_fields, note, receive-encodings, receive-numbers,
  undersized_dies,
}
use psl_xserver.Outcome.{ok}
use psl_xserver.Prelude.{List, [], arith, get_elem?, length, refl, some, ℕ, ◌++◌, ◌+◌, ◌∷◌, ◌≡◌}
use psl_xserver.Samples.{client}
use psl_xserver.Wire.{big_endian, little_endian, u16_at, u32_bytes}

-- A dispatcher that counts the requests and writes their opcodes.
abbrev echo : Handler ℕ
echo conn opcode request_data count = (count + 1, opcode ∷ [], ok tt)

-- A request of one word after its header.
abbrev ping : Request
ping = record { opcode = 16; detail = 0; body = 1 ∷ 2 ∷ 3 ∷ 4 ∷ []; words = 1 }

abbrev pong : Request
pong = record { opcode = 17; detail = 9; body = []; words = 0 }

abbrev session : Session ℕ
session = running client [] 0 []

abbrev half : List ℕ
half = 16 ∷ 0 ∷ 2 ∷ 0 ∷ 1 ∷ 2 ∷ []

ping-IsWhole : IsWhole ping
ping-IsWhole = record { whole = refl; fits = omega arith }

pong-IsWhole : IsWhole pong
pong-IsWhole = record { whole = refl; fits = omega arith }

receive_whole :
    receive echo (16 ∷ 0 ∷ 2 ∷ 0 ∷ 1 ∷ 2 ∷ 3 ∷ 4 ∷ []) session
    ≡ running (record client { sequence_number = 8 }) [] 1 (16 ∷ [])
unfolding receive
receive_whole = refl

receive-append_example :
    receive echo (3 ∷ 4 ∷ []) (receive echo half session)
    ≡ receive echo (half ++ 3 ∷ 4 ∷ []) session
receive-append_example = receive-append echo half (3 ∷ 4 ∷ []) session

receive-IsServed_example : IsServed (receive echo half (running client (5 ∷ []) 0 []))
receive-IsServed_example = receive-IsServed echo half client (5 ∷ []) 0 []

next_request-encode_example :
    next_request big_endian (encode big_endian ping ++ half)
    ≡ request 16 (seen big_endian ping) half
next_request-encode_example = next_request-encode big_endian ping half ping-IsWhole

receive-encodings_example :
    receive echo (encodings little_endian (ping ∷ pong ∷ []) ++ 16 ∷ []) session
    ≡ answer_all echo client (ping ∷ pong ∷ []) (16 ∷ []) 0 []
receive-encodings_example =
    receive-encodings echo client (ping ∷ pong ∷ []) (16 ∷ []) 0 []
      (ping-IsWhole, (pong-IsWhole, tt)) (unfold next_request in refl)

-- The counter wraps between the first request and the second.
abbrev last_number : ClientConnection
last_number = record client { sequence_number = 65535 }

receive-numbers_example :
    (conn' : ClientConnection) × (receive note
        (encodings little_endian (ping ∷ pong ∷ []) ++ 16 ∷ [])
        (running last_number [] [] [])
      ≡ running conn' (16 ∷ []) (65535 ∷ 0 ∷ []) [])
receive-numbers_example =
    receive-numbers last_number (ping ∷ pong ∷ []) (16 ∷ []) (omega arith)
      (ping-IsWhole, (pong-IsWhole, tt)) (unfold next_request in refl)

error_packet_fields_example :
    let packet = error_packet 9 258 54 in
    (length packet ≡ 32)
    × (get_elem? packet 0 ≡ some 0)
    × (get_elem? packet 1 ≡ some 9)
    × (get_elem? packet 10 ≡ some 54)
    × (u16_at little_endian packet 2 ≡ ok 258)
    × (u16_at big_endian packet 2 ≡ ok 513)
error_packet_fields_example = error_packet_fields 9 258 54 (omega arith)

undersized_dies_example :
    receive echo (16 ∷ 0 ∷ 0 ∷ 0 ∷ (u32_bytes little_endian 1 ++ [])) session ≡ dead
undersized_dies_example = undersized_dies echo client 16 0 1 [] 0 [] (omega arith)
