-- ===== src/Audio/Reader/Values.antt =====
-- The values of the PulseAudio protocol (src/audio.rs), how they are written, and what it means to
-- read them.
-- A value that a message holds.
use psl_xserver.Audio.Reader.{
  TagReader, read_arbitrary, read_bool, read_channel_map, read_cvolume, read_proplist,
  read_sample_spec, read_string, read_u32,
}
use psl_xserver.Audio.Reader.Places.{NoZero}
use psl_xserver.Audio.Tags.{
  channel_positions, put_arbitrary, put_bool, put_channel_map, put_cvolume, put_proplist_empty,
  put_sample_spec, put_string, put_string_null, put_u32,
}
use psl_xserver.Prelude.{Bool, List, [], length, replicate, some, true, ℕ, ◌≡◌}
use psl_xserver.Utf8.{is_utf8}
use psl_xserver.Wire.{IsU32}

pub data Value : Type 0 where
  number : ℕ → Value
  text_value : List ℕ → Value
  null_text : Value
  boolean : Bool → Value
  arbitrary : List ℕ → Value
  sample_spec : ℕ → ℕ → ℕ → Value
  channel_map : ℕ → Value
  cvolume : ℕ → ℕ → Value
  empty_proplist : Value

unfoldable pub put_value : List ℕ → Value → List ℕ
unfolding put_u32 put_string put_string_null put_bool put_arbitrary put_sample_spec put_channel_map
    put_cvolume put_proplist_empty
put_value buf (number v) = put_u32 buf v
put_value buf (text_value s) = put_string buf s
put_value buf null_text = put_string_null buf
put_value buf (boolean b) = put_bool buf b
put_value buf (arbitrary bytes) = put_arbitrary buf bytes
put_value buf (sample_spec format channels rate) = put_sample_spec buf format channels rate
put_value buf (channel_map channels) = put_channel_map buf channels
put_value buf (cvolume channels volume) = put_cvolume buf channels volume
put_value buf empty_proplist = put_proplist_empty buf

abbrev pub IsValue : Value → Type 0
IsValue (number v) = IsU32 v
IsValue (text_value s) = NoZero s × (is_utf8 s ≡ true)
IsValue null_text = Unit {0}
IsValue (boolean b) = Unit {0}
IsValue (arbitrary bytes) = IsU32 (length bytes)
IsValue (sample_spec format channels rate) = IsU32 rate
IsValue (channel_map channels) = Unit {0}
IsValue (cvolume channels volume) = IsU32 volume
IsValue empty_proplist = Unit {0}

-- From one place to another the reader finds a value.
unfoldable pub Reads : Value → TagReader → TagReader → Type 0
unfolding read_u32 read_string read_bool read_arbitrary read_sample_spec read_channel_map
    read_cvolume read_proplist channel_positions
Reads (number v) r q = read_u32 r ≡ (some v, q)
Reads (text_value s) r q = read_string r ≡ (some s, q)
Reads null_text r q = read_string r ≡ (some [], q)
Reads (boolean b) r q = read_bool r ≡ (some b, q)
Reads (arbitrary bytes) r q = read_arbitrary r ≡ (some bytes, q)
Reads (sample_spec format channels rate) r q =
    read_sample_spec r ≡ (some (format, (channels, rate)), q)
Reads (channel_map channels) r q = read_channel_map r ≡ (some (channel_positions channels), q)
Reads (cvolume channels volume) r q = read_cvolume r ≡ (some (replicate channels volume), q)
Reads empty_proplist r q = read_proplist r ≡ (some [], q)
