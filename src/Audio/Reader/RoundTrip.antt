-- ===== src/Audio/Reader/RoundTrip.antt =====
-- What the writer of src/audio.rs puts into a message, its reader takes out again.
-- A message with several values.
use psl_xserver.Audio.Reader.{TagReader, advance, new_reader, skip_value}
use psl_xserver.Audio.Reader.Places.{At, advance_twice, advance_zero, At-advance, inside_after}
use psl_xserver.Audio.Reader.Reading.{Stands, Reads-value}
use psl_xserver.Audio.Reader.Skipping.{skips_value}
use psl_xserver.Audio.Reader.Values.{
  IsValue, Reads, Value, arbitrary, boolean, channel_map, cvolume, empty_proplist, null_text,
  number, put_value, sample_spec, text_value,
}
use psl_xserver.Audio.Tags.{
  put_arbitrary, put_bool, put_channel_map, put_cvolume, put_proplist_empty, put_sample_spec,
  put_string, put_string_null, put_u32,
}
use psl_xserver.Prelude.{
  List, [], ap, append-nil, append_assoc, arith, length, length-append, refl, subst, sym, true, ℕ,
  ◌++◌, ◌∙◌, ◌∷◌, ◌≡◌, ◌≤◌,
}

unfoldable pub put_values : List ℕ → List Value → List ℕ
unfolding put_value
put_values buf [] = buf
put_values buf (v ∷ vs) = put_values (put_value buf v) vs

abbrev AreValues : List Value → Type 0
AreValues [] = Unit {0}
AreValues (v ∷ vs) = IsValue v × AreValues vs

-- From one place to another the reader finds the values in turn, and can pass over each of them.
pub ReadsAll : List Value → TagReader → TagReader → Type 0
unfolding Reads skip_value
ReadsAll [] r q = r ≡ q
ReadsAll (v ∷ vs) r q =
    (next : TagReader) × (Reads v r next × ((skip_value r ≡ (true, next)) × ReadsAll vs next q))

put_value-append : (buf : List ℕ) (v : Value) → put_value buf v ≡ buf ++ put_value [] v
unfolding put_value put_u32 put_string put_string_null put_bool put_arbitrary put_sample_spec
    put_channel_map put_cvolume put_proplist_empty
put_value-append buf (number v) = refl
put_value-append buf (text_value s) = refl
put_value-append buf null_text = refl
put_value-append buf (boolean b) = refl
put_value-append buf (arbitrary bytes) = refl
put_value-append buf (sample_spec format channels rate) = refl
put_value-append buf (channel_map channels) = refl
put_value-append buf (cvolume channels volume) = refl
put_value-append buf empty_proplist = refl

put_values-append : (buf : List ℕ) (vs : List Value) → put_values buf vs ≡ buf ++ put_values [] vs
unfolding put_values
put_values-append buf [] = sym (append-nil buf)
put_values-append buf (v ∷ vs) =
    put_values-append (put_value buf v) vs
    ∙ ap (λ b. b ++ put_values [] vs) (put_value-append buf v)
    ∙ append_assoc buf (put_value [] v) (put_values [] vs)
    ∙ ap (◌++◌ buf) (sym (put_values-append (put_value [] v) vs))

reads_all :
    (vs : List Value) (r : TagReader)
    → AreValues vs
    → At r (put_values [] vs)
    → r.pos ≤ length r.content
    → ReadsAll vs r (advance (length (put_values [] vs)) r)
unfolding ReadsAll put_values
reads_all [] r all at inside = sym (advance_zero r)
reads_all (v ∷ vs) r (first, all) at inside =
    let split = put_values-append (put_value [] v) vs in
    let st : Stands r v (put_values [] vs) = record { at = at ∙ split; inside = inside } in
    let size = length (put_value [] v) in
    let rest = put_values [] vs in
    let later =
      reads_all vs (advance size r) all (At-advance r size (put_value [] v) rest refl (at ∙ split))
        (inside_after r size (put_value [] v) rest refl (at ∙ split) inside) in
    (
      advance size r,
      (
        Reads-value v r rest first st,
        (
          skips_value v r rest first st,
          subst (ReadsAll vs (advance size r))
              (advance_twice r size (length rest) _
                (omega (arith, ap length split, length-append (put_value [] v) rest)))
              later,
        ),
      ),
    )

-- A message is written value by value: numbers of 32 bits, UTF-8 texts with no zero byte, flags,
-- byte strings, sample specifications, channel maps, volumes and empty property lists. A reader
-- then finds every one of them in turn, skipping any of them takes it to the same place as reading,
-- and it ends at the end of the message.
pub reads-put_values :
    (vs : List Value)
    → AreValues vs
    → ReadsAll vs
        (new_reader (put_values [] vs))
        (advance (length (put_values [] vs)) (new_reader (put_values [] vs)))
unfolding new_reader
reads-put_values vs all = reads_all vs (new_reader (put_values [] vs)) all refl (omega arith)
