-- ===== src/Audio/Commands.antt =====
-- The commands of the PulseAudio server: src/audio.rs, the `handle_*` functions, and the loop of
-- `handle_pa_connection` with its packets and its timer. A reply is the payload of a packet.
pub mod Stream
use psl_xserver.Atoms.Names.{text}
use psl_xserver.Audio.{AudioState, new_ring}
use psl_xserver.Audio.Reader.{
  TagReader, advance, peek_tag, read_bool, read_channel_map, read_sample_spec, read_string,
  read_u32, take_u32,
}
use psl_xserver.Audio.Tags.{
  put_bool, put_channel_map, put_cvolume, put_proplist_empty, put_s64, put_sample_spec, put_string,
  put_string_null, put_timeval, put_u32, put_usec, u64_bytes,
}
use psl_xserver.Prelude.{
  List, [], false, if◌then◌else◌, some, true, unwrap_or, ℕ, ◌%◌, ◌&&◌, ◌*◌, ◌++◌, ◌/◌, ◌==◌, ◌^◌,
  ◌∷◌,
}

pub make_reply : ℕ → List ℕ → List ℕ
unfolding put_u32
make_reply tag body = put_u32 (put_u32 [] 2) tag ++ body

pub make_simple_reply : ℕ → List ℕ
unfolding put_u32
make_simple_reply tag = put_u32 (put_u32 [] 2) tag

make_error : ℕ → ℕ → List ℕ
unfolding put_u32
make_error tag error_code = put_u32 (put_u32 (put_u32 [] 0) tag) error_code

-- What the client sends is read and not used.
pub handle_auth : ℕ → List ℕ
unfolding put_u32 make_reply
handle_auth tag = make_reply tag (put_u32 [] 16)

pub handle_set_client_name : ℕ → List ℕ
unfolding put_u32 make_reply
handle_set_client_name tag = make_reply tag (put_u32 [] 0)

pub handle_get_server_info : ℕ → List ℕ
unfolding put_string put_sample_spec put_u32 put_channel_map make_reply
handle_get_server_info tag =
    let names =
      put_string
        (put_string (put_string (put_string [] (text "Xserver")) (text "0.1.0")) (text "penguin"))
        (text "Xserver") in
    let defaults =
      put_string (put_string (put_sample_spec names 3 2 48000) (text "pslx_sink"))
        (text "pslx_monitor") in
    make_reply tag (put_channel_map (put_u32 defaults 0) 2)

pub handle_get_sink_info_list : ℕ → List ℕ
unfolding put_string put_string_null put_sample_spec put_u32 put_channel_map put_cvolume put_bool
    put_usec put_proplist_empty make_reply
handle_get_sink_info_list tag =
    let sink =
      put_string (put_string (put_u32 [] 0) (text "pslx_sink")) (text "Xserver Audio Output") in
    let format = put_u32 (put_channel_map (put_sample_spec sink 3 2 48000) 2) 0 in
    let volume = put_u32 (put_bool (put_cvolume format 2 0x10000) false) 0 in
    let driver =
      put_u32
        (put_string (put_usec (put_string volume (text "pslx_monitor")) 0)
          (text "module-null-sink"))
        0 in
    let configured = put_usec (put_proplist_empty driver) 0 in
    let base = put_u32 (put_u32 (put_u32 (put_u32 configured 0x10000) 0) 0x10001) 0xFFFFFFFF in
    make_reply tag (put_string_null (put_u32 base 0))

pub handle_lookup_sink : ℕ → List ℕ
unfolding put_u32 make_reply
handle_lookup_sink tag = make_reply tag (put_u32 [] 0)

-- What the stream's request says of its format and its target length.
unfoldable pub stream_request : TagReader → (ℕ × (ℕ × ℕ)) × ℕ
unfolding read_sample_spec read_channel_map read_u32 read_string read_bool
stream_request r =
    let (ss, r1) = read_sample_spec r in
    let (cm, r2) = read_channel_map r1 in
    let (sink_index, r3) = read_u32 r2 in
    let (sink_name, r4) = read_string r3 in
    let (maxlength, r5) = read_u32 r4 in
    let (corked, r6) = read_bool r5 in
    let (tlength, r7) = read_u32 r6 in (unwrap_or (3, (2, 48000)) ss, unwrap_or 0xFFFFFFFF tlength)

-- Bytes in a frame.
bytes_per_frame : ℕ → ℕ → ℕ
bytes_per_frame format channels = if format == 5 then channels * 4 else channels * 2

-- The products are of 32 bits, with wrap-around as in a release build.
pub target_length : ℕ → ℕ → ℕ → ℕ
target_length rate bpf tlength =
    if tlength == 0xFFFFFFFF then rate * bpf % 2 ^ 32 * 2 % 2 ^ 32 else tlength

-- The format is stored for the audio queue; a running queue stops if it had another one.
pub set_format : ℕ → ℕ → ℕ → AudioState → AudioState
unfolding new_ring
set_format format rate channels audio = record audio {
  ring = some (unwrap_or new_ring audio.ring);
  running =
      audio.running
      && (audio.format == format && (audio.rate == rate && audio.channels == channels));
  format = format;
  rate = rate;
  channels = channels;
  ready_to_init = true;
}

pub handle_create_playback_stream : AudioState → TagReader → ℕ → AudioState × List ℕ
unfolding stream_request bytes_per_frame target_length set_format put_u32 put_sample_spec
    put_channel_map put_string put_bool put_usec make_reply
handle_create_playback_stream audio r tag =
    let ((format, (channels, rate)), tlength) = stream_request r in
    let bpf = bytes_per_frame format channels in
    let actual_tlength = target_length rate bpf tlength in
    let actual_minreq = actual_tlength / 100 in
    let index = put_u32 (put_u32 (put_u32 [] 1) 0) actual_tlength in
    let lengths = put_u32 (put_u32 index (rate * bpf % 2 ^ 32 * 4 % 2 ^ 32)) actual_tlength in
    let attributes = put_u32 (put_u32 lengths actual_minreq) actual_minreq in
    let format_info = put_channel_map (put_sample_spec attributes format channels rate) channels in
    let sink = put_string (put_u32 format_info 0) (text "pslx_sink") in
    (set_format format rate channels audio, make_reply tag (put_usec (put_bool sink false) 0))

-- A word of the client's time, or 0 if the data is too short.
time_word : TagReader → ℕ × TagReader
unfolding take_u32
time_word r = let (word, r') = take_u32 r in (unwrap_or 0 word, r')

-- The client's time: behind a tag for it, two words.
client_time : TagReader → ℕ × ℕ
unfolding time_word peek_tag advance
client_time r =
    if unwrap_or 0 (peek_tag r) == 84
    then (let (sec, r1) = time_word (advance 1 r) in let (usec, r2) = time_word r1 in (sec, usec))
    else (0, 0)

pub handle_get_playback_latency : AudioState → TagReader → ℕ → List ℕ
unfolding read_u32 client_time put_usec put_bool put_timeval put_s64 u64_bytes make_reply
handle_get_playback_latency audio r tag =
    let (stream_index, r1) = read_u32 r in
    let (client_sec, client_usec) = client_time r1 in
    let playing = put_bool (put_usec (put_usec [] 10000) 0) audio.running in
    let times = put_timeval (put_timeval playing client_sec client_usec) client_sec client_usec in
    let indexes = put_s64 (put_s64 times 0) 0 in
    make_reply tag (indexes ++ 82 ∷ (u64_bytes 0 ++ 82 ∷ u64_bytes 0))
