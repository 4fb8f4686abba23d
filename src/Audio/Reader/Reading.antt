-- ===== src/Audio/Reader/Reading.antt =====
-- Each reader of src/audio.rs takes what the writer put.
-- The reader stands at a value and what follows, inside its data.
use psl_xserver.Audio.Reader.{
  TagReader, advance, counted, read_bool, read_entries, read_string, read_u32, some_text,
  take_arbitrary, take_bytes, take_sample_spec, take_u32, take_volumes,
}
use psl_xserver.Audio.Reader.Places.{
  At, advance_twice, At-advance, At-peek, inside_after, length-channel_positions, same_volumes-At,
  tagged-At, take_arbitrary-At, take_bytes-At, take_sample_spec-At, take_string-At, take_u32-At,
}
use psl_xserver.Audio.Reader.Values.{
  IsValue, Reads, Value, arbitrary, boolean, channel_map, cvolume, empty_proplist, null_text,
  number, put_value, sample_spec, text_value,
}
use psl_xserver.Audio.Tags.{
  channel_positions, put_arbitrary, put_bool, put_channel_map, put_cvolume, put_proplist_empty,
  put_sample_spec, put_string, put_string_null, put_u32, same_volumes,
}
use psl_xserver.Prelude.{
  List, [], ap, append_assoc, arith, false, length, length-append, refl, replicate, some, subst,
  suc, true, ℕ, ◌++◌, ◌+◌, ◌∙◌, ◌∷◌, ◌≡◌, ◌≤◌,
}

pub record Stands (r : TagReader) (v : Value) (rest : List ℕ) : Type 0 where
  pub at : At r (put_value [] v ++ rest)
  pub inside : r.pos ≤ length r.content

pub Reads-value :
    (v : Value) (r : TagReader) (rest : List ℕ)
    → IsValue v
    → Stands r v rest
    → Reads v r (advance (length (put_value [] v)) r)
unfolding Reads put_value put_u32 put_string put_string_null put_bool put_arbitrary put_sample_spec
    put_channel_map put_cvolume put_proplist_empty read_u32
Reads-value (number v) r rest h st =
    tagged-At 76 take_u32 r _ st.at
    ∙ take_u32-At (advance 1 r) v rest h (At-advance r 1 (76 ∷ []) _ refl st.at)
    ∙ ap (λ q. (some v, q)) (advance_twice r 1 4 5 refl)
Reads-value (text_value s) r rest (plain, valid) st =
    let at' : At (advance 1 r) (s ++ 0 ∷ rest) =
      subst (λ l. At (advance 1 r) l) (append_assoc s (0 ∷ []) rest)
        (At-advance r 1 (116 ∷ []) _ refl st.at) in
    rw (At-peek r 116 _ st.at, read_string)
      (ap some_text (take_string-At (advance 1 r) s rest plain valid at')
        ∙ ap (λ q. (some s, q))
            (advance_twice r 1 (length s + 1) _ (omega (arith, length-append s (0 ∷ [])))))
Reads-value null_text r rest h st = rw (At-peek r 78 rest st.at, read_string) refl
Reads-value (boolean true) r rest h st = rw (At-peek r 49 rest st.at, read_bool) refl
Reads-value (boolean false) r rest h st = rw (At-peek r 48 rest st.at, read_bool) refl
Reads-value (arbitrary bytes) r rest h st =
    let after = At-advance r 1 (120 ∷ []) _ refl st.at in
    tagged-At 120 take_arbitrary r _ st.at
    ∙ take_arbitrary-At (advance 1 r) bytes rest h after
        (inside_after r 1 (120 ∷ []) _ refl st.at st.inside)
    ∙ ap (λ q. (some bytes, q))
        (ap (advance (length bytes)) (advance_twice r 1 4 5 refl)
          ∙ advance_twice r 5 (length bytes) _ (omega arith))
Reads-value (sample_spec format channels rate) r rest h st =
    let after = At-advance r 1 (97 ∷ []) _ refl st.at in
    tagged-At 97 take_sample_spec r _ st.at
    ∙ take_sample_spec-At (advance 1 r) format channels rate rest h after
        (inside_after r 1 (97 ∷ []) _ refl st.at st.inside)
    ∙ ap (λ q. (some (format, (channels, rate)), q)) (advance_twice r 1 6 7 refl)
Reads-value (channel_map channels) r rest h st =
    let positions = channel_positions channels in
    let size = length-channel_positions channels in
    let count = At-advance r 1 (109 ∷ []) (channels ∷ (positions ++ rest)) refl st.at in
    let first = At-advance (advance 1 r) 1 (channels ∷ []) (positions ++ rest) refl count in
    let inside = inside_after r 2 (109 ∷ channels ∷ []) (positions ++ rest) refl st.at st.inside in
    let bytes : take_bytes channels (advance 1 (advance 1 r))
        ≡ (some positions, advance channels (advance 1 (advance 1 r))) =
      subst
        (λ n.
          take_bytes n (advance 1 (advance 1 r))
          ≡ (some positions, advance n (advance 1 (advance 1 r))))
        size
        (take_bytes-At (advance 1 (advance 1 r)) positions rest first
          (subst (λ n. n ≤ length r.content) two inside)) in
    tagged-At 109 (λ q. counted take_bytes q) r _ st.at
    ∙ rw (counted, At-peek (advance 1 r) channels _ count) bytes
    ∙ ap (λ q. (some positions, q))
        (ap (advance channels) (advance_twice r 1 1 2 refl)
          ∙ advance_twice r 2 channels _ (omega (arith, size)))
  where
    two : r.pos + 2 ≡ r.pos + 1 + 1
    two = omega arith
Reads-value (cvolume channels volume) r rest h st =
    let bytes = same_volumes channels volume in
    let count = At-advance r 1 (118 ∷ []) (channels ∷ (bytes ++ rest)) refl st.at in
    let first = At-advance (advance 1 r) 1 (channels ∷ []) (bytes ++ rest) refl count in
    tagged-At 118 (λ q. counted (λ n u. take_volumes n [] u) q) r _ st.at
    ∙ rw (counted, At-peek (advance 1 r) channels _ count)
        (same_volumes-At channels (advance 1 (advance 1 r)) [] rest volume h first)
    ∙ ap (λ q. (some (replicate channels volume), q))
        (ap (advance (length bytes)) (advance_twice r 1 1 2 refl)
          ∙ advance_twice r 2 (length bytes) _ (omega arith))
Reads-value empty_proplist r rest h st =
    let after = At-advance r 1 (80 ∷ []) (78 ∷ rest) refl st.at in
    tagged-At 80 (λ q. read_entries (suc (length q.content)) [] q) r (78 ∷ rest) st.at
    ∙ rw (read_entries, At-peek (advance 1 r) 78 rest after)
        (ap (λ q. (some [], q)) (advance_twice r 1 1 2 refl))
