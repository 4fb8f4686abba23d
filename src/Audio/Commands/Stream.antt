-- ===== src/Audio/Commands/Stream.antt =====
-- The loop of a connection to the PulseAudio server: src/audio.rs, `handle_pa_connection`. An event
-- is a packet that arrives, a tick of the timer, or the audio queue that asks for bytes to play.
pub mod Starved
use psl_xserver.Audio.{AudioRingBuffer, AudioState, audio_queue_callback, push}
use psl_xserver.Audio.Commands.{
  handle_auth, handle_create_playback_stream, handle_get_playback_latency, handle_get_server_info,
  handle_get_sink_info_list, handle_lookup_sink, handle_set_client_name, make_simple_reply,
}
use psl_xserver.Audio.Packets.{write_packet}
use psl_xserver.Audio.Reader.{TagReader, new_reader, read_u32}
use psl_xserver.Audio.Tags.{put_u32}
use psl_xserver.Outcome.{Result, ok, ◌>>=◌, ◌>>◌}
use psl_xserver.Prelude.{
  Bool, List, Option, [], false, if◌then◌else◌, leb, length, ltb, none, some, true, unwrap_or, ℕ,
  ◌%◌, ◌&&◌, ◌*◌, ◌++◌, ◌+◌, ◌-◌, ◌==◌, ◌^◌, ◌||◌, ◌∷◌,
}

pub record PaConnection : Type 0 where
  pub bytes_acked : ℕ
  pub has_stream : Bool
  pub got_audio_data : Bool
  pub missing_bytes : ℕ
  pub received_bytes : ℕ

pub data PaEvent : Type 0 where
  arrives : (channel : ℕ) (payload : List ℕ) → PaEvent
  tick : PaEvent
  plays : List ℕ → PaEvent

-- The connection, the statics, and the bytes written to the client.
abbrev pub PaState : Type 0
PaState = PaConnection × AudioState

abbrev PaOutcome : Type 0
PaOutcome = Result (PaState × List ℕ)

-- CREATE_PLAYBACK_STREAM starts the count again; a frame is taken to have four bytes.
pub create_stream : PaConnection → AudioState → TagReader → ℕ → PaState × List ℕ
unfolding handle_create_playback_stream
create_stream conn audio r tag =
    let (audio', reply) = handle_create_playback_stream audio r tag in
    (
      (
        record {
          bytes_acked = audio.bytes_consumed;
          has_stream = true;
          got_audio_data = false;
          missing_bytes = audio'.rate * 4 * 2;
          received_bytes = 0;
        },
        audio',
      ),
      reply,
    )

-- The reply to a command; the commands that are not listed get the plain one.
on_command : PaConnection → AudioState → ℕ → ℕ → TagReader → PaState × List ℕ
unfolding create_stream handle_auth handle_set_client_name handle_get_server_info
    handle_get_sink_info_list handle_lookup_sink handle_get_playback_latency make_simple_reply
on_command conn audio command tag r =
    if command == 8
    then ((conn, audio), handle_auth tag)
    else if command == 9
    then ((conn, audio), handle_set_client_name tag)
    else if command == 20
    then ((conn, audio), handle_get_server_info tag)
    else if command == 21 || command == 22
    then ((conn, audio), handle_get_sink_info_list tag)
    else if command == 10
    then ((conn, audio), handle_lookup_sink tag)
    else if command == 3
    then create_stream conn audio r tag
    else if command == 14
    then ((conn, audio), handle_get_playback_latency audio r tag)
    else if command == 4
    then ((record conn { has_stream = false }, audio), make_simple_reply tag)
    else ((conn, audio), make_simple_reply tag)

-- A packet on the command channel; one without a command is passed over.
command_packet : PaConnection → AudioState → List ℕ → PaState × List ℕ
unfolding read_u32 new_reader on_command write_packet
command_packet conn audio payload =
    let (command, r1) = read_u32 (new_reader payload) in
    elim command [
      | none ↦ ((conn, audio), [])
      | some c ↦
          let (tag, r2) = read_u32 r1 in
          let (state, reply) = on_command conn audio c (unwrap_or 0 tag) r2 in
          (state, write_packet 0xFFFFFFFF reply)
    ]

-- The first bytes of a stream set the place from which playing is counted.
pub count_received : PaConnection → AudioState → ℕ → PaConnection
count_received conn audio n = record conn {
  received_bytes = (conn.received_bytes + n) % 2 ^ 64;
  bytes_acked = if conn.got_audio_data then conn.bytes_acked else audio.bytes_consumed;
  got_audio_data = true;
}

-- Bytes to play are dropped while there is no buffer.
pub keep_in : Option AudioRingBuffer → AudioState → List ℕ → Result AudioState
unfolding push
keep_in none audio payload = ok audio
keep_in (some ring) audio payload =
    push ring payload >>= λ ring'. ok (record audio { ring = some ring' })

-- A packet with bytes to play; an empty one is passed over.
pub audio_packet : PaConnection → AudioState → List ℕ → PaOutcome
unfolding count_received keep_in
audio_packet conn audio payload =
    if length payload == 0
    then ok ((conn, audio), [])
    else keep_in audio.ring audio payload >>= λ audio'.
        ok ((count_received conn audio (length payload), audio'), [])

-- How much more the client is asked for, and the place up to which that is settled.
request_bytes : PaConnection → AudioState → ℕ × PaConnection
request_bytes conn audio =
    if audio.running && ltb conn.bytes_acked audio.bytes_consumed
    then (
      (audio.bytes_consumed - conn.bytes_acked) % 2 ^ 32,
      record conn { bytes_acked = audio.bytes_consumed },
    )
    else (4096, conn)

request_packet : ℕ → List ℕ
unfolding put_u32 write_packet
request_packet n =
    if ltb 0 n
    then write_packet 0xFFFFFFFF (put_u32 (put_u32 (put_u32 (put_u32 [] 61) 0xFFFFFFFF) 1) n)
    else []

-- The timer asks for more once the missing bytes have come.
pub on_tick : PaConnection → AudioState → PaState × List ℕ
unfolding request_bytes request_packet
on_tick conn audio =
    if conn.has_stream && (conn.got_audio_data && leb conn.missing_bytes conn.received_bytes)
    then (let (n, conn') = request_bytes conn audio in ((conn', audio), request_packet n))
    else ((conn, audio), [])

pub pa_step : PaState → PaEvent → PaOutcome
unfolding command_packet audio_packet on_tick audio_queue_callback
pa_step (conn, audio) (arrives channel payload) =
    if channel == 0xFFFFFFFF
    then ok (command_packet conn audio payload)
    else audio_packet conn audio payload
pa_step (conn, audio) tick = ok (on_tick conn audio)
pa_step (conn, audio) (plays buf) = ok ((conn, (audio_queue_callback audio buf).0), [])

-- Events one after the other, and all that they write.
pub pa_run : PaState → List PaEvent → PaOutcome
unfolding pa_step
pa_run state [] = ok (state, [])
pa_run state (event ∷ events) = do
  (state', written) ← pa_step state event
  (state'', later) ← pa_run state' events
  ok (state'', written ++ later)
