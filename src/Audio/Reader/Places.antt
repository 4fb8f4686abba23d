-- ===== src/Audio/Reader/Places.antt =====
-- A reader of src/audio.rs that stands at known bytes: what its parts take, and where it is then.
-- The bytes that a reader stands at.
use psl_xserver.Audio.Reader.{
  TagReader, advance, be_u32, peek_tag, tagged, take_arbitrary, take_bytes, take_sample_spec,
  take_string, take_u32, take_volumes, text_or_empty, until_zero,
}
use psl_xserver.Audio.Tags.{channel_positions, same_volumes}
use psl_xserver.Prelude.{
  List, Option, [], ap, append-nil, append_assoc, ap₂, arith, drop, drop-append, drop-drop, false,
  get_elem?, get_or, leb, length, length-append, length-drop, length-replicate, refl, replicate,
  some, subst, suc, sym, take-append, true, zero, ℕ, ◌*◌, ◌++◌, ◌+◌, ◌-◌, ◌==◌, ◌∙◌, ◌∷◌, ◌≡◌, ◌≤◌,
}
use psl_xserver.Utf8.{is_utf8}
use psl_xserver.Wire.{IsU32, big_endian, u32_bytes}
use psl_xserver.Wire.RoundTrip.{length-u32_bytes}

abbrev pub At : TagReader → List ℕ → Type 0
At r bytes = drop r.pos r.content ≡ bytes

pub At-peek : (r : TagReader) (x : ℕ) (xs : List ℕ) → At r (x ∷ xs) → peek_tag r ≡ some x
unfolding peek_tag
At-peek r x xs at = head_of r.content r.pos x xs at
  where
    head_of : (c : List ℕ) (i y : ℕ) (ys : List ℕ) → drop i c ≡ y ∷ ys → get_elem? c i ≡ some y
    head_of [] zero y ys h = absurd (cc h)
    head_of [] (suc i) y ys h = absurd (cc h)
    head_of (z ∷ c) zero y ys h = ap some (ap (λ l. get_or l 0 0) h)
    head_of (z ∷ c) (suc i) y ys h = head_of c i y ys h

pub At-advance :
    (r : TagReader) (n : ℕ) (xs ys : List ℕ) → length xs ≡ n → At r (xs ++ ys) → At (advance n r) ys
unfolding advance
At-advance r n xs ys size at =
    sym (drop-drop n r.pos (r.pos + n) r.content refl)
    ∙ ap (drop n) at
    ∙ subst (λ k. drop k (xs ++ ys) ≡ ys) size (drop-append xs ys)

pub advance_twice : (r : TagReader) (a b n : ℕ) → n ≡ a + b → advance b (advance a r) ≡ advance n r
unfolding advance
advance_twice r a b n e = ap (λ (p : ℕ). record r { pos = p }) (omega arith)

pub tagged-At {ℓ} :
    {A : Type ℓ} (tag : ℕ) (next : TagReader → Option A × TagReader) (r : TagReader) (xs : List ℕ)
    → At r (tag ∷ xs)
    → tagged tag next r ≡ next (advance 1 r)
unfolding tagged
tagged-At tag next r xs at =
    let same : (tag == tag) ≡ true = ground arith in rw (tagged, At-peek r tag xs at, same) refl

pub be_u32-u32_bytes :
    (v : ℕ) (rest : List ℕ) → IsU32 v → be_u32 (u32_bytes big_endian v ++ rest) ≡ some v
unfolding be_u32 u32_bytes
be_u32-u32_bytes v rest h = ap some (omega arith)

pub take_u32-At :
    (r : TagReader) (v : ℕ) (rest : List ℕ)
    → IsU32 v
    → At r (u32_bytes big_endian v ++ rest)
    → take_u32 r ≡ (some v, advance 4 r)
unfolding take_u32
take_u32-At r v rest h at = rw (take_u32, at, be_u32-u32_bytes v rest h) refl

-- A text with no zero byte.
abbrev pub NoZero : List ℕ → Type 0
NoZero [] = Unit {0}
NoZero (b ∷ bytes) = ((b == 0) ≡ false) × NoZero bytes

until_zero-append : (s rest : List ℕ) → NoZero s → until_zero (s ++ 0 ∷ rest) ≡ length s
unfolding until_zero
until_zero-append [] rest h = refl
until_zero-append (b ∷ s) rest (plain, h) = rw plain (ap suc (until_zero-append s rest h))

pub take_string-At :
    (r : TagReader) (s rest : List ℕ)
    → NoZero s
    → is_utf8 s ≡ true
    → At r (s ++ 0 ∷ rest)
    → take_string r ≡ (s, advance (length s + 1) r)
unfolding take_string text_or_empty
take_string-At r s rest plain valid at =
    rw
      (
        take_string,
        at,
        until_zero-append s rest plain,
        take-append s (0 ∷ rest),
        text_or_empty,
        valid,
      )
      refl

pub take_bytes-At :
    (r : TagReader) (bytes rest : List ℕ)
    → At r (bytes ++ rest)
    → r.pos ≤ length r.content
    → take_bytes (length bytes) r ≡ (some bytes, advance (length bytes) r)
unfolding take_bytes
take_bytes-At r bytes rest at inside =
    let size : length (drop r.pos r.content) ≡ length (bytes ++ rest) = ap length at in
    let room : leb (r.pos + length bytes) (length r.content) ≡ true =
      ground (arith, length-drop r.pos r.content, length-append bytes rest, size, inside) in
    rw (take_bytes, room, at, take-append bytes rest) refl

-- Behind the bytes that it stands at a reader is still inside its data.
pub inside_after :
    (r : TagReader) (n : ℕ) (xs ys : List ℕ)
    → length xs ≡ n
    → At r (xs ++ ys)
    → r.pos ≤ length r.content
    → r.pos + n ≤ length r.content
inside_after r n xs ys size at inside =
    let whole : length (drop r.pos r.content) ≡ length (xs ++ ys) = ap length at in
    omega (arith, length-drop r.pos r.content, length-append xs ys, whole, size, inside)

at_byte : (c : List ℕ) (i x : ℕ) (xs : List ℕ) → drop i c ≡ x ∷ xs → get_or c i 0 ≡ x
at_byte [] zero x xs h = absurd (cc h)
at_byte [] (suc i) x xs h = absurd (cc h)
at_byte (z ∷ c) zero x xs h = ap (λ l. get_or l 0 0) h
at_byte (z ∷ c) (suc i) x xs h = at_byte c i x xs h

pub advance_zero : (r : TagReader) → advance 0 r ≡ r
unfolding advance
advance_zero r = ap (λ (p : ℕ). record r { pos = p }) (omega arith)

pub same_volumes-At :
    (n : ℕ) (r : TagReader) (volumes rest : List ℕ) (v : ℕ)
    → IsU32 v
    → At r (same_volumes n v ++ rest)
    → take_volumes n volumes r
      ≡ (some (volumes ++ replicate n v), advance (length (same_volumes n v)) r)
unfolding take_volumes same_volumes
same_volumes-At zero r volumes rest v h at =
    ap₂ (λ l q. (some l, q)) (sym (append-nil volumes)) (sym (advance_zero r))
same_volumes-At (suc n) r volumes rest v h at =
    let at' : At r (u32_bytes big_endian v ++ (same_volumes n v ++ rest)) = at in
    let later =
      same_volumes-At n (advance 4 r) (volumes ++ v ∷ []) rest v h
        (At-advance r 4 (u32_bytes big_endian v) (same_volumes n v ++ rest) refl at') in
    rw (take_volumes, take_u32-At r v (same_volumes n v ++ rest) h at')
      (later
        ∙ ap₂ (λ l q. (some l, q)) (append_assoc volumes (v ∷ []) (replicate n v))
            (advance_twice r 4 (length (same_volumes n v)) _ (omega arith)))

pub take_arbitrary-At :
    (r : TagReader) (bytes rest : List ℕ)
    → IsU32 (length bytes)
    → At r (u32_bytes big_endian (length bytes) ++ (bytes ++ rest))
    → r.pos ≤ length r.content
    → take_arbitrary r ≡ (some bytes, advance (length bytes) (advance 4 r))
unfolding take_arbitrary u32_bytes
take_arbitrary-At r bytes rest h at inside =
    let size = length bytes in
    rw (take_arbitrary, take_u32-At r size (bytes ++ rest) h at)
      (take_bytes-At (advance 4 r) bytes rest
        (At-advance r 4 (u32_bytes big_endian size) (bytes ++ rest) refl at)
        (inside_after r 4 (u32_bytes big_endian size) (bytes ++ rest) refl at inside))

pub take_sample_spec-At :
    (r : TagReader) (format channels rate : ℕ) (rest : List ℕ)
    → IsU32 rate
    → At r (format ∷ channels ∷ (u32_bytes big_endian rate ++ rest))
    → r.pos ≤ length r.content
    → take_sample_spec r ≡ (some (format, (channels, rate)), advance 6 r)
unfolding take_sample_spec advance
take_sample_spec-At r format channels rate rest h at inside =
    let six : length (format ∷ channels ∷ u32_bytes big_endian rate) ≡ 6 =
      ap (λ n. suc (suc n)) (length-u32_bytes big_endian rate) in
    let room : leb (r.pos + 6) (length r.content) ≡ true =
      lebs (r.pos + 6) (length r.content)
        (inside_after r 6 (format ∷ channels ∷ u32_bytes big_endian rate) rest six at inside) in
    let second : get_or r.content (r.pos + 1) 0 ≡ channels =
      at_byte r.content (r.pos + 1) channels _ (At-advance r 1 (format ∷ []) _ refl at) in
    let third : drop (r.pos + 2) r.content ≡ u32_bytes big_endian rate ++ rest =
      At-advance r 2 (format ∷ channels ∷ []) _ refl at in
    rw
      (
        take_sample_spec,
        room,
        at_byte r.content r.pos format _ at,
        second,
        third,
        be_u32-u32_bytes rate rest h,
      )
      refl
  where
    lebs : (a b : ℕ) → a ≤ b → leb a b ≡ true
    lebs a b e = ground arith

pub length-channel_positions : (channels : ℕ) → length (channel_positions channels) ≡ channels
unfolding channel_positions
length-channel_positions zero = refl
length-channel_positions (suc zero) = refl
length-channel_positions (suc (suc n)) =
    let size : length (replicate {A = ℕ} (suc (suc n) - 2) 0) ≡ suc (suc n) - 2 =
      length-replicate (suc (suc n) - 2) _ in
    grind (arith, size)

pub length-same_volumes : (n v : ℕ) → length (same_volumes n v) ≡ n * 4
unfolding same_volumes u32_bytes
length-same_volumes zero v = refl
length-same_volumes (suc n) v = omega (arith, length-same_volumes n v)
