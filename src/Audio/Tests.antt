-- ===== src/Audio/Tests.antt =====
-- The audio server at concrete bytes.
use psl_xserver.Audio.{AudioRingBuffer, AudioState, audio_queue_callback, push}
use psl_xserver.Audio.Commands.{stream_request}
use psl_xserver.Audio.Commands.Stream.{PaConnection, PaEvent, arrives, create_stream, plays, tick}
use psl_xserver.Audio.Commands.Stream.Starved.{AsksFor, Quiet, create_stream_starves}
use psl_xserver.Audio.Packets.{packet, read_packet, read_packet-write_packet, write_packet}
use psl_xserver.Audio.Reader.{TagReader, advance, new_reader}
use psl_xserver.Audio.Reader.RoundTrip.{ReadsAll, put_values, reads-put_values}
use psl_xserver.Audio.Reader.Values.{
  Value, arbitrary, boolean, channel_map, cvolume, empty_proplist, null_text, number, sample_spec,
  text_value,
}
use psl_xserver.Audio.Ring.{audio_queue_callback-oldest, push-newest}
use psl_xserver.Outcome.{ok, panic}
use psl_xserver.Prelude.{
  List, [], arith, drop, false, if◌then◌else◌, leb, length, min, none, refl, replicate, some, take,
  true, ℕ, ◌%◌, ◌++◌, ◌+◌, ◌-◌, ◌^◌, ◌∷◌, ◌≡◌,
}
use psl_xserver.Utf8.{is_utf8}

abbrev small_ring : AudioRingBuffer
small_ring = record { content = 1 ∷ 2 ∷ 3 ∷ []; capacity = 4 }

abbrev quiet_audio : AudioState
quiet_audio = record {
  ring = some small_ring;
  running = true;
  ready_to_init = true;
  format = 3;
  rate = 48000;
  channels = 2;
  bytes_consumed = 10;
}

abbrev three_more : List ℕ
three_more = 4 ∷ 5 ∷ 6 ∷ []

push-newest_example : push small_ring three_more ≡ (
    if leb (length three_more) small_ring.capacity
    then ok (record small_ring {
      content =
          drop
            (length small_ring.content + length three_more - small_ring.capacity)
            (small_ring.content ++ three_more);
    })
    else panic)
push-newest_example = push-newest small_ring three_more (omega arith)

-- A payload longer than the whole buffer brings the server down.
too_long : push small_ring (1 ∷ 2 ∷ 3 ∷ 4 ∷ 5 ∷ []) ≡ panic
unfolding push
too_long = refl

abbrev four_zeros : List ℕ
four_zeros = 0 ∷ 0 ∷ 0 ∷ 0 ∷ []

audio_queue_callback-oldest_example : audio_queue_callback quiet_audio four_zeros ≡ (
  record quiet_audio {
    ring = some (record small_ring { content = drop (length four_zeros) small_ring.content });
    bytes_consumed =
        (quiet_audio.bytes_consumed + min (length four_zeros) (length small_ring.content)) % 2 ^ 64;
  },
  take (length four_zeros) small_ring.content
      ++ replicate (length four_zeros - length small_ring.content) 0,
)
audio_queue_callback-oldest_example =
    audio_queue_callback-oldest quiet_audio small_ring four_zeros refl

-- A message of several values.
abbrev some_values : List Value
some_values =
    sample_spec 3 2 48000
    ∷ channel_map 2
    ∷ number 0xFFFFFFFF
    ∷ text_value (104 ∷ 105 ∷ [])
    ∷ boolean true
    ∷ cvolume 2 0x10000
    ∷ empty_proplist
    ∷ arbitrary (1 ∷ 0 ∷ [])
    ∷ []

reads-put_values_example :
    ReadsAll some_values
      (new_reader (put_values [] some_values))
      (advance (length (put_values [] some_values)) (new_reader (put_values [] some_values)))
reads-put_values_example = reads-put_values some_values (
  omega arith,
  (
    tt,
    (
      omega arith,
      (((refl, (refl, tt)), unfold is_utf8 in refl), (tt, (omega arith, (tt, (omega arith, tt))))),
    ),
  ),
)

read_packet-write_packet_example :
    read_packet (write_packet 1 (7 ∷ 8 ∷ []) ++ 9 ∷ []) ≡ packet 1 2 (7 ∷ 8 ∷ []) (9 ∷ [])
read_packet-write_packet_example =
    read_packet-write_packet 1 (7 ∷ 8 ∷ []) (9 ∷ []) (omega arith) (omega arith)

-- A request for a stream with a target length of 1000 bytes.
abbrev short_request : TagReader
short_request = new_reader (
    put_values [] (
      sample_spec 3 2 48000
      ∷ channel_map 2
      ∷ number 0xFFFFFFFF
      ∷ null_text
      ∷ number 0xFFFFFFFF
      ∷ boolean false
      ∷ number 1000
      ∷ []))

requested : stream_request short_request ≡ ((3, (2, 48000)), 1000)
unfolding stream_request new_reader put_values
requested = refl

abbrev new_connection : PaConnection
new_connection = record {
  bytes_acked = 0;
  has_stream = false;
  got_audio_data = false;
  missing_bytes = 0;
  received_bytes = 0;
}

abbrev no_queue : AudioState
no_queue = record quiet_audio { ring = none }

abbrev some_events : List PaEvent
some_events = arrives 1 (5 ∷ 6 ∷ []) ∷ tick ∷ plays (0 ∷ []) ∷ tick ∷ arrives 1 (7 ∷ []) ∷ tick ∷ []

create_stream_starves_example :
    AsksFor
      (stream_request short_request).1
      (create_stream new_connection no_queue short_request 1).1
    × Quiet (create_stream new_connection no_queue short_request 1).0 some_events
create_stream_starves_example =
    create_stream_starves new_connection no_queue short_request 1 some_events tt
      (rw requested (omega arith)) (rw requested (omega arith)) (rw requested (omega arith))
      (refl, (refl, tt)) (rw requested (omega arith))
