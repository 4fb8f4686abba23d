-- ===== src/Audio/Commands/Stream/Starved.antt =====
-- When the server of src/audio.rs asks for more: a client that has been told to send fewer bytes
-- than the loop of `handle_pa_connection` waits for is never asked.
use psl_xserver.Audio.{
  AudioRingBuffer, AudioState, audio_queue_callback, new_ring, push, ring_capacity,
}
use psl_xserver.Audio.Commands.{
  handle_create_playback_stream, make_reply, set_format, stream_request, target_length,
}
use psl_xserver.Audio.Commands.Stream.{
  PaConnection, PaEvent, PaState, arrives, audio_packet, count_received, create_stream, keep_in,
  on_tick, pa_run, pa_step, plays, tick,
}
use psl_xserver.Audio.Reader.{TagReader}
use psl_xserver.Audio.Ring.{Bounded, audio_queue_callback-oldest, push-newest}
use psl_xserver.Audio.Tags.{put_u32}
use psl_xserver.Outcome.{ok}
use psl_xserver.Prelude.{
  Bool, Bool-cases, List, Option, [], ap, arith, drop, false, get_elem?, inl, inr, leb, length,
  length-append, length-drop, none, refl, some, subst, sym, true, unwrap_or, ℕ, ◌&&◌, ◌*◌, ◌++◌,
  ◌+◌, ◌-◌, ◌<◌, ◌==◌, ◌^◌, ◌∙◌, ◌∷◌, ◌≡◌, ◌≤◌,
}
use psl_xserver.Wire.{big_endian, u32_at, u32_bytes}
use psl_xserver.Wire.RoundTrip.{u32_at-append}

abbrev RingOk : Option AudioRingBuffer → Type 0
RingOk none = Unit {0}
RingOk (some ring) = (ring.capacity ≡ ring_capacity) × Bounded ring

-- Events with no command among them, and the bytes to play that they bring.
abbrev NoCommand : List PaEvent → Type 0
NoCommand [] = Unit {0}
NoCommand (arrives channel payload ∷ events) = ((channel == 0xFFFFFFFF) ≡ false) × NoCommand events
NoCommand (tick ∷ events) = NoCommand events
NoCommand (plays buf ∷ events) = NoCommand events

abbrev total : List PaEvent → ℕ
total [] = 0
total (arrives channel payload ∷ events) = length payload + total events
total (tick ∷ events) = total events
total (plays buf ∷ events) = total events

push-RingOk :
    (ring : AudioRingBuffer) (payload : List ℕ)
    → RingOk (some ring)
    → length payload ≤ ring_capacity
    → (ring' : AudioRingBuffer) × ((push ring payload ≡ ok ring') × RingOk (some ring'))
push-RingOk ring payload (size, bounded) fits =
    let room : leb (length payload) ring.capacity ≡ true = ground (arith, size, fits) in
    let n = length ring.content + length payload - ring.capacity in
    (
      record ring { content = drop n (ring.content ++ payload) },
      (
        push-newest ring payload bounded ∙ rw room refl,
        (
          size,
          omega
              (arith, length-drop n (ring.content ++ payload), length-append ring.content payload),
        ),
      ),
    )

keep_in-RingOk :
    (audio : AudioState) (ring : Option AudioRingBuffer) (payload : List ℕ)
    → RingOk ring
    → RingOk audio.ring
    → length payload ≤ ring_capacity
    → (audio' : AudioState) × ((keep_in ring audio payload ≡ ok audio') × RingOk audio'.ring)
unfolding keep_in
keep_in-RingOk audio none payload fine same fits = (audio, (refl, same))
keep_in-RingOk audio (some ring) payload fine same fits =
    let (ring', (pushed, fine')) = push-RingOk ring payload fine fits in
    (record audio { ring = some ring' }, (rw (keep_in, pushed) refl, fine'))

callback-RingOk :
    (audio : AudioState) (ring : Option AudioRingBuffer) (buf : List ℕ)
    → audio.ring ≡ ring
    → RingOk ring
    → RingOk (audio_queue_callback audio buf).0.ring
unfolding audio_queue_callback
callback-RingOk audio none buf known fine =
    rw (known, audio_queue_callback) (subst RingOk (sym known) tt)
callback-RingOk audio (some ring) buf known (size, bounded) =
    subst (λ p. RingOk p.0.ring) (sym (audio_queue_callback-oldest audio ring buf known))
      (size, omega (arith, length-drop (length buf) ring.content, bounded))

-- A quiet run: it ends well and writes nothing.
pub Quiet : PaState → List PaEvent → Type 0
unfolding pa_run
Quiet state events = (state' : PaState) × (pa_run state events ≡ ok (state', []))

Quiet-step :
    (state next : PaState) (event : PaEvent) (events : List PaEvent)
    → pa_step state event ≡ ok (next, [])
    → Quiet next events
    → Quiet state (event ∷ events)
unfolding Quiet pa_run
Quiet-step state next event events step (state', run) = (state', rw (pa_run, step, run) refl)

tick_waits :
    (conn : PaConnection) (audio : AudioState)
    → conn.received_bytes < conn.missing_bytes
    → on_tick conn audio ≡ ((conn, audio), [])
unfolding on_tick
tick_waits conn audio before =
    let early : leb conn.missing_bytes conn.received_bytes ≡ false = ground arith in
    let closed : (conn.has_stream && (conn.got_audio_data && false)) ≡ false =
      and_never conn.has_stream conn.got_audio_data in
    rw (on_tick, early, closed) refl
  where
    and_never : (a b : Bool) → (a && (b && false)) ≡ false
    and_never true true = refl
    and_never true false = refl
    and_never false b = refl

waits :
    (events : List PaEvent) (conn : PaConnection) (audio : AudioState)
    → NoCommand events
    → RingOk audio.ring
    → conn.received_bytes + total events < conn.missing_bytes
    → conn.missing_bytes < 2 ^ 64
    → total events ≤ ring_capacity
    → Quiet (conn, audio) events
unfolding pa_step audio_packet Quiet pa_run count_received
waits [] conn audio plain fine early small fits = ((conn, audio), refl)
waits (tick ∷ events) conn audio plain fine early small fits =
    Quiet-step (conn, audio) (conn, audio) tick events (ap ok (tick_waits conn audio (omega arith)))
      (waits events conn audio plain fine early small fits)
waits (plays buf ∷ events) conn audio plain fine early small fits =
    Quiet-step (conn, audio) (conn, (audio_queue_callback audio buf).0) (plays buf) events refl
      (waits events conn (audio_queue_callback audio buf).0 plain
        (callback-RingOk audio audio.ring buf refl fine) early small fits)
waits (arrives channel payload ∷ events) conn audio (other, plain) fine early small fits =
    elim (Bool-cases (length payload == 0)) [
      | inl empty ↦
          Quiet-step (conn, audio) (conn, audio) (arrives channel payload) events
            (rw (pa_step, other, audio_packet, empty) refl)
            (waits events conn audio plain fine (omega arith) small (omega arith))
      | inr some_bytes ↦
          let (audio', (kept, fine')) =
            keep_in-RingOk audio audio.ring payload fine fine (omega arith) in
          let conn' = count_received conn audio (length payload) in
          Quiet-step (conn, audio) (conn', audio') (arrives channel payload) events
            (rw (pa_step, other, audio_packet, some_bytes, kept) refl)
            (waits events conn' audio' plain fine' (omega arith) small (omega arith))
    ]

-- The reply to a new stream asks for a number of bytes: the fifth of its tagged words, behind the
-- command, the tag of the request, and the numbers of the stream and the sink.
abbrev pub AsksFor : ℕ → List ℕ → Type 0
AsksFor n reply = (get_elem? reply 20 ≡ some 76) × (u32_at big_endian reply 21 ≡ ok n)

chosen_length :
    (rate bpf tlength : ℕ) → tlength ≤ ring_capacity → target_length rate bpf tlength ≡ tlength
unfolding target_length
chosen_length rate bpf tlength small =
    let chosen : (tlength == 0xFFFFFFFF) ≡ false = ground arith in rw chosen refl

create_stream-AsksFor :
    (conn : PaConnection) (audio : AudioState) (r : TagReader) (tag : ℕ)
    → (stream_request r).1 ≤ ring_capacity
    → AsksFor (stream_request r).1 (create_stream conn audio r tag).1
unfolding create_stream handle_create_playback_stream make_reply put_u32 u32_bytes
create_stream-AsksFor conn audio r tag small =
    let n = (stream_request r).1 in
    (
      refl,
      u32_at-append big_endian (put_u32 (put_u32 (put_u32 (put_u32 [] 2) tag) 1) 0 ++ 76 ∷ []) _ _
            (rw (chosen_length _ _ n small) (omega arith))
          ∙ ap ok (chosen_length _ _ n small),
    )

-- A stream is created by a client that asks for a target length of its own, fewer bytes than two
-- seconds at four bytes a frame and no more than the buffer holds. Then the reply asks for that many
-- bytes; and as long as the client sends no command and in all no more bytes than that, the server
-- writes nothing to it, whatever packets, ticks of the timer and calls of the audio queue follow one
-- another.
pub create_stream_starves :
    (conn : PaConnection) (audio : AudioState) (r : TagReader) (tag : ℕ) (events : List PaEvent)
    → RingOk audio.ring
    → (stream_request r).0.1.1 < 2 ^ 32
    → (stream_request r).1 < (stream_request r).0.1.1 * 4 * 2
    → (stream_request r).1 ≤ ring_capacity
    → NoCommand events
    → total events ≤ (stream_request r).1
    → AsksFor (stream_request r).1 (create_stream conn audio r tag).1
      × Quiet (create_stream conn audio r tag).0 events
unfolding create_stream handle_create_playback_stream set_format new_ring
create_stream_starves conn audio r tag events fine word less small plain few = (
  create_stream-AsksFor conn audio r tag small,
  waits events (create_stream conn audio r tag).0.0 (create_stream conn audio r tag).0.1 plain
      (ring_kept audio.ring fine) (omega arith) (omega arith) (omega arith),
)
  where
    ring_kept :
        (ring : Option AudioRingBuffer) → RingOk ring → RingOk (some (unwrap_or new_ring ring))
    ring_kept none known = (refl, omega arith)
    ring_kept (some ring') known = known
