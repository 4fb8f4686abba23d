-- ===== src/Audio/Packets.antt =====
-- The packets of the PulseAudio protocol: src/audio.rs, `read_packet` and `write_packet`. The stream
-- is the list of the bytes that arrive; `incomplete` waits for more, or is the end of the stream.
use psl_xserver.Audio.Reader.{be_u32}
use psl_xserver.Audio.Reader.Places.{be_u32-u32_bytes}
use psl_xserver.Prelude.{
  List, [], ap, ap₂, arith, drop, drop-append, false, if◌then◌else◌, leb, length, length-append,
  ltb, refl, replicate, take, take-append, true, unwrap_or, ℕ, ◌&&◌, ◌*◌, ◌++◌, ◌==◌, ◌||◌, ◌∙◌,
  ◌≡◌, ◌≤◌,
}
use psl_xserver.Prelude.Bits.{test_bit}
use psl_xserver.Wire.{IsU32, big_endian, u32_bytes}

pub data Incoming : Type 0 where
  packet : (channel length : ℕ) (payload rest : List ℕ) → Incoming
  incomplete : Incoming
  too_large : Incoming

-- The big-endian word at an offset of the descriptor.
word_at : ℕ → List ℕ → ℕ
unfolding be_u32
word_at offset desc = unwrap_or 0 (be_u32 (drop offset desc))

-- `n` bytes of the stream are passed over.
passed_over : ℕ → ℕ → List ℕ → Incoming
passed_over channel n stream =
    if leb n (length stream) then packet channel 0 [] (drop n stream) else incomplete

with_payload : ℕ → ℕ → List ℕ → Incoming
with_payload channel n stream =
    if leb n (length stream) then packet channel n (take n stream) (drop n stream) else incomplete

-- What the flags of the descriptor ask for, with the stream behind it.
read_frame : (flags n channel : ℕ) → List ℕ → Incoming
unfolding passed_over with_payload
read_frame flags n channel stream =
    if flags == 0x40000000 || flags == 0xC0000000
    then packet channel 0 [] stream
    else if test_bit flags 31
    then if ltb 0 n && leb n 1024 then passed_over channel n stream else packet channel 0 [] stream
    else if ltb (16 * 1024 * 1024) n
    then too_large
    else with_payload channel n stream

pub read_packet : List ℕ → Incoming
unfolding word_at read_frame
read_packet stream =
    if leb 20 (length stream)
    then read_frame (word_at 16 stream) (word_at 0 stream) (word_at 4 stream) (drop 20 stream)
    else incomplete

unfoldable pub write_packet : ℕ → List ℕ → List ℕ
unfolding u32_bytes
write_packet channel payload =
    u32_bytes big_endian (length payload)
    ++ (u32_bytes big_endian channel ++ (replicate 12 0 ++ payload))

word_here : (v : ℕ) (rest : List ℕ) → IsU32 v → word_at 0 (u32_bytes big_endian v ++ rest) ≡ v
unfolding word_at
word_here v rest h = rw (word_at, be_u32-u32_bytes v rest h) refl

read_frame-plain :
    (channel : ℕ) (payload rest : List ℕ)
    → length payload ≤ 16 * 1024 * 1024
    → read_frame 0 (length payload) channel (payload ++ rest)
      ≡ packet channel (length payload) payload rest
unfolding read_frame with_payload
read_frame-plain channel payload rest hl =
    let small : ltb (16 * 1024 * 1024) (length payload) ≡ false = ground arith in
    let room : leb (length payload) (length (payload ++ rest)) ≡ true =
      ground (arith, length-append payload rest) in
    rw (small, room, take-append payload rest, drop-append payload rest) refl

-- A packet of at most 16 MiB is read back as it was written, whatever follows it in the stream.
pub read_packet-write_packet :
    (channel : ℕ) (payload rest : List ℕ)
    → IsU32 channel
    → length payload ≤ 16 * 1024 * 1024
    → read_packet (write_packet channel payload ++ rest)
      ≡ packet channel (length payload) payload rest
unfolding read_packet write_packet u32_bytes
read_packet-write_packet channel payload rest hc hl =
    let stream = write_packet channel payload ++ rest in
    let whole : leb 20 (length stream) ≡ true = ground arith in
    let flags : word_at 16 stream ≡ 0 = refl in
    let size : word_at 0 stream ≡ length payload =
      word_here (length payload) (drop 4 stream) (omega arith) in
    let where_to : word_at 4 stream ≡ channel = word_here channel (drop 8 stream) hc in
    rw (read_packet, whole)
      (ap (λ f. read_frame f (word_at 0 stream) (word_at 4 stream) (payload ++ rest)) flags
        ∙ ap₂ (λ n c. read_frame 0 n c (payload ++ rest)) size where_to
        ∙ read_frame-plain channel payload rest hl)
