-- ===== src/Audio.antt =====
-- The PulseAudio server: src/audio.rs. This file has the buffer between the network and the audio
-- queue; the children have the tagged values of the protocol, its packets and its commands.
pub mod Tags
pub mod Reader
pub mod Packets
pub mod Commands
pub mod Ring
mod Tests
use psl_xserver.Connection.Framing.{running}
use psl_xserver.Outcome.{Result, ok, panic}
use psl_xserver.Prelude.{
  Bool, List, Option, [], drop, if◌then◌else◌, leb, length, ltb, min, none, replicate, some, take,
  ℕ, ◌%◌, ◌*◌, ◌++◌, ◌+◌, ◌-◌, ◌^◌,
}

-- 48000 frames of 4 bytes for two seconds.
abbrev pub ring_capacity : ℕ
ring_capacity = 48000 * 4 * 2

pub record AudioRingBuffer : Type 0 where
  pub content : List ℕ
  pub capacity : ℕ

pub new_ring : AudioRingBuffer
new_ring = record { content = []; capacity = ring_capacity }

-- `drain(..to_drop)` panics past the end of the data.
pub push : AudioRingBuffer → List ℕ → Result AudioRingBuffer
push ring bytes =
    let available = ring.capacity - length ring.content in
    let to_drop = length bytes - available in
    if ltb available (length bytes)
    then if leb to_drop (length ring.content)
      then ok (record ring { content = drop to_drop ring.content ++ bytes })
      else panic
    else ok (record ring { content = ring.content ++ bytes })

-- How many bytes are taken, the buffer that they were copied to, and the rest.
pub pull : AudioRingBuffer → List ℕ → ℕ × (List ℕ × AudioRingBuffer)
pull ring buf =
    let n = min (length buf) (length ring.content) in
    (n, (take n ring.content ++ drop n buf, record ring { content = drop n ring.content }))

-- The statics of the module.
pub record AudioState : Type 0 where
  pub ring : Option AudioRingBuffer
  pub running : Bool
  pub ready_to_init : Bool
  pub format : ℕ
  pub rate : ℕ
  pub channels : ℕ
  pub bytes_consumed : ℕ

-- The queue's callback fills a buffer: what is there to play, then silence.
pub audio_queue_callback : AudioState → List ℕ → AudioState × List ℕ
unfolding pull
audio_queue_callback audio buf = elim audio.ring [
  | none ↦ (audio, replicate (length buf) 0)
  | some ring ↦
      let (filled, (copied, ring')) = pull ring buf in
      (
        record audio {
          ring = some ring';
          bytes_consumed = (audio.bytes_consumed + filled) % 2 ^ 64;
        },
        take filled copied ++ replicate (length buf - filled) 0,
      )
]
