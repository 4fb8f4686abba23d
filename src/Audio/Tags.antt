-- ===== src/Audio/Tags.antt =====
-- The tagged values of the PulseAudio protocol: src/audio.rs, `TagWriter`. A writer
-- is the list of the bytes written so far; numbers go in big-endian order.
use psl_xserver.Prelude.{
  Bool, List, [], if◌then◌else◌, leb, length, replicate, suc, zero, ℕ, ◌%◌, ◌++◌, ◌-◌, ◌/◌, ◌^◌,
  ◌∷◌,
}
use psl_xserver.Wire.{big_endian, u32_bytes}

unfoldable pub put_u32 : List ℕ → ℕ → List ℕ
unfolding u32_bytes
put_u32 buf v = buf ++ 76 ∷ u32_bytes big_endian v

put_u8 : List ℕ → ℕ → List ℕ
put_u8 buf v = buf ++ 66 ∷ v ∷ []

unfoldable pub put_string : List ℕ → List ℕ → List ℕ
put_string buf s = buf ++ 116 ∷ (s ++ 0 ∷ [])

unfoldable pub put_string_null : List ℕ → List ℕ
put_string_null buf = buf ++ 78 ∷ []

unfoldable pub put_sample_spec : List ℕ → ℕ → ℕ → ℕ → List ℕ
unfolding u32_bytes
put_sample_spec buf format channels rate = buf ++ 97 ∷ format ∷ channels ∷ u32_bytes big_endian rate

-- Left, right, and 0 for any further channel.
unfoldable pub channel_positions : ℕ → List ℕ
channel_positions channels =
    (if leb 1 channels then 1 ∷ [] else [])
    ++ ((if leb 2 channels then 2 ∷ [] else []) ++ replicate (channels - 2) 0)

unfoldable pub put_channel_map : List ℕ → ℕ → List ℕ
unfolding channel_positions
put_channel_map buf channels = buf ++ 109 ∷ channels ∷ channel_positions channels

unfoldable pub same_volumes : ℕ → ℕ → List ℕ
unfolding u32_bytes
same_volumes zero volume = []
same_volumes (suc n) volume = u32_bytes big_endian volume ++ same_volumes n volume

unfoldable pub put_cvolume : List ℕ → ℕ → ℕ → List ℕ
unfolding same_volumes
put_cvolume buf channels volume = buf ++ 118 ∷ channels ∷ same_volumes channels volume

-- `to_be_bytes` of 64 bits.
unfoldable pub u64_bytes : ℕ → List ℕ
unfolding u32_bytes
u64_bytes v = u32_bytes big_endian (v / 2 ^ 32) ++ u32_bytes big_endian (v % 2 ^ 32)

unfoldable pub put_usec : List ℕ → ℕ → List ℕ
unfolding u64_bytes
put_usec buf usec = buf ++ 85 ∷ u64_bytes usec

-- The number is the 64-bit pattern.
unfoldable pub put_s64 : List ℕ → ℕ → List ℕ
unfolding u64_bytes
put_s64 buf v = buf ++ 114 ∷ u64_bytes v

unfoldable pub put_bool : List ℕ → Bool → List ℕ
put_bool buf v = buf ++ (if v then 49 else 48) ∷ []

unfoldable pub put_arbitrary : List ℕ → List ℕ → List ℕ
unfolding u32_bytes
put_arbitrary buf bytes = buf ++ 120 ∷ (u32_bytes big_endian (length bytes) ++ bytes)

unfoldable pub put_timeval : List ℕ → ℕ → ℕ → List ℕ
unfolding u32_bytes
put_timeval buf tv_sec tv_usec =
    buf ++ 84 ∷ (u32_bytes big_endian tv_sec ++ u32_bytes big_endian tv_usec)

unfoldable pub put_proplist_empty : List ℕ → List ℕ
put_proplist_empty buf = buf ++ 80 ∷ 78 ∷ []
