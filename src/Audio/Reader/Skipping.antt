-- ===== src/Audio/Reader/Skipping.antt =====
-- `skip_value` of src/audio.rs goes as far as reading does.
use psl_xserver.Audio.Reader.{TagReader, advance, skip_arbitrary, skip_counted, skip_value}
use psl_xserver.Audio.Reader.Places.{
  At, advance_twice, At-advance, At-peek, be_u32-u32_bytes, length-channel_positions,
  length-same_volumes, take_string-At,
}
use psl_xserver.Audio.Reader.Reading.{Stands, Reads-value}
use psl_xserver.Audio.Reader.Values.{
  IsValue, Reads, Value, arbitrary, boolean, channel_map, cvolume, empty_proplist, null_text,
  number, put_value, sample_spec, text_value,
}
use psl_xserver.Audio.Tags.{
  channel_positions, put_arbitrary, put_bool, put_channel_map, put_cvolume, put_proplist_empty,
  put_sample_spec, put_string, put_string_null, put_u32, same_volumes,
}
use psl_xserver.Prelude.{
  List, [], ap, append_assoc, arith, drop, false, length, length-append, refl, subst, true, ℕ, ◌*◌,
  ◌++◌, ◌+◌, ◌∙◌, ◌∷◌, ◌≡◌,
}
use psl_xserver.Wire.{IsU32, big_endian, u32_bytes}

skip_arbitrary-At :
    (r : TagReader) (len : ℕ) (rest : List ℕ)
    → IsU32 len
    → At r (u32_bytes big_endian len ++ rest)
    → skip_arbitrary r ≡ (true, advance (4 + len) r)
unfolding skip_arbitrary
skip_arbitrary-At r len rest h at = rw (skip_arbitrary, at, be_u32-u32_bytes len rest h) refl

-- Skipping goes as far as reading.
pub skips_value :
    (v : Value) (r : TagReader) (rest : List ℕ)
    → IsValue v
    → Stands r v rest
    → skip_value r ≡ (true, advance (length (put_value [] v)) r)
unfolding put_value put_u32 put_string put_string_null put_bool put_arbitrary put_sample_spec
    put_channel_map put_cvolume put_proplist_empty skip_value advance Reads
skips_value (number v) r rest h st = rw (At-peek r 76 _ st.at, skip_value) refl
skips_value (text_value s) r rest (plain, valid) st =
    let at' : At (advance 1 r) (s ++ 0 ∷ rest) =
      subst (λ l. At (advance 1 r) l) (append_assoc s (0 ∷ []) rest)
        (At-advance r 1 (116 ∷ []) _ refl st.at) in
    rw (At-peek r 116 _ st.at, skip_value)
      (ap (λ p. (true, p.1)) (take_string-At (advance 1 r) s rest plain valid at')
        ∙ ap (λ q. (true, q))
            (advance_twice r 1 (length s + 1) _ (omega (arith, length-append s (0 ∷ [])))))
skips_value null_text r rest h st = rw (At-peek r 78 rest st.at, skip_value) refl
skips_value (boolean true) r rest h st = rw (At-peek r 49 rest st.at, skip_value) refl
skips_value (boolean false) r rest h st = rw (At-peek r 48 rest st.at, skip_value) refl
skips_value (arbitrary bytes) r rest h st =
    let after : drop (r.pos + 1) r.content
        ≡ u32_bytes big_endian (length bytes) ++ (bytes ++ rest) =
      At-advance r 1 (120 ∷ []) _ refl st.at in
    rw (At-peek r 120 _ st.at, skip_value)
      (skip_arbitrary-At (advance 1 r) (length bytes) (bytes ++ rest) h after
        ∙ ap (λ q. (true, q)) (advance_twice r 1 (4 + length bytes) _ (omega arith)))
skips_value (sample_spec format channels rate) r rest h st =
    rw (At-peek r 97 _ st.at, skip_value) refl
skips_value (channel_map channels) r rest h st =
    let count =
      At-advance r 1 (109 ∷ []) (channels ∷ (channel_positions channels ++ rest)) refl st.at in
    rw (At-peek r 109 _ st.at, skip_value)
      (rw (skip_counted, At-peek (advance 1 r) channels _ count)
        (ap (λ q. (true, q))
          (advance_twice r 1 (1 + channels * 1) _
            (omega (arith, length-channel_positions channels)))))
skips_value (cvolume channels volume) r rest h st =
    let count =
      At-advance r 1 (118 ∷ []) (channels ∷ (same_volumes channels volume ++ rest)) refl st.at in
    rw (At-peek r 118 _ st.at, skip_value)
      (rw (skip_counted, At-peek (advance 1 r) channels _ count)
        (ap (λ q. (true, q))
          (advance_twice r 1 (1 + channels * 4) _
            (omega (arith, length-same_volumes channels volume)))))
skips_value empty_proplist r rest h st =
    rw (At-peek r 80 _ st.at, skip_value)
      (ap (λ p. (true, p.1)) (Reads-value empty_proplist r rest h st))
