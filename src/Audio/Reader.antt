-- ===== src/Audio/Reader.antt =====
-- Reading the tagged values of the PulseAudio protocol: src/audio.rs, `TagReader`.
pub mod Places
pub mod Values
pub mod Reading
pub mod Skipping
pub mod RoundTrip
use psl_xserver.Prelude.{
  Bool, List, Option, [], drop, false, get_elem?, get_or, if◌then◌else◌, leb, length, none, some,
  suc, take, true, unwrap_or, zero, ℕ, ◌*◌, ◌++◌, ◌+◌, ◌==◌, ◌||◌, ◌∷◌,
}
use psl_xserver.Prelude.Int.{pos}
use psl_xserver.Utf8.{is_utf8}

-- A reader's place may pass the end of its data.
pub record TagReader : Type 0 where
  pub content : List ℕ
  pub pos : ℕ

unfoldable pub new_reader : List ℕ → TagReader
new_reader content = record { content = content; pos = 0 }

unfoldable pub advance : ℕ → TagReader → TagReader
advance n r = record r { pos = r.pos + n }

unfoldable pub peek_tag : TagReader → Option ℕ
peek_tag r = get_elem? r.content r.pos

-- The next four bytes, if they are there.
unfoldable pub be_u32 : List ℕ → Option ℕ
be_u32 (a ∷ b ∷ c ∷ d ∷ rest) = some (((a * 256 + b) * 256 + c) * 256 + d)
be_u32 _ = none

-- Behind a tag: `if self.pos + 4 > self.data.len() { return None; }`, then the number.
unfoldable pub take_u32 : TagReader → Option ℕ × TagReader
unfolding be_u32 advance
take_u32 r = elim (be_u32 (drop r.pos r.content)) [
  | some v ↦ (some v, advance 4 r)
  | none ↦ (none, r)
]

-- `?`: what is read next, if this was read.
abbrev and_then {ℓ κ} :
    {A : Type ℓ} {B : Type κ}
    → Option A × TagReader
    → (A → TagReader → Option B × TagReader)
    → Option B × TagReader
and_then (some a, r) next = next a r
and_then (none, r) next = (none, r)

abbrev pub some_text : List ℕ × TagReader → Option (List ℕ) × TagReader
some_text (s, r) = (some s, r)

-- `if self.data.get(self.pos)? != &tag { return None; } self.pos += 1;` and what follows.
pub tagged {ℓ} :
    {A : Type ℓ} → ℕ → (TagReader → Option A × TagReader) → TagReader → Option A × TagReader
unfolding peek_tag advance
tagged tag next r = elim (peek_tag r) [
  | some t ↦ if t == tag then next (advance 1 r) else (none, r)
  | none ↦ (none, r)
]

unfoldable pub read_u32 : TagReader → Option ℕ × TagReader
unfolding tagged take_u32
read_u32 r = tagged 76 take_u32 r

-- How many bytes stand before the next zero byte, or the end.
pub until_zero : List ℕ → ℕ
until_zero [] = 0
until_zero (b ∷ bytes) = if b == 0 then 0 else suc (until_zero bytes)

-- `from_utf8(..).unwrap_or("")`.
unfoldable pub text_or_empty : List ℕ → List ℕ
text_or_empty bytes = if is_utf8 bytes then bytes else []

-- The bytes up to the zero byte, which is passed over, or the end.
pub take_string : TagReader → List ℕ × TagReader
unfolding until_zero text_or_empty advance
take_string r =
    let n = until_zero (drop r.pos r.content) in
    (text_or_empty (take n (drop r.pos r.content)), advance (n + 1) r)

unfoldable pub read_string : TagReader → Option (List ℕ) × TagReader
unfolding peek_tag take_string advance
read_string r = elim (peek_tag r) [
  | some t ↦
      if t == 116
      then some_text (take_string (advance 1 r))
      else (if t == 78 then (some [], advance 1 r) else (none, r))
  | none ↦ (none, r)
]

-- `n` bytes, if they are there.
pub take_bytes : ℕ → TagReader → Option (List ℕ) × TagReader
unfolding advance
take_bytes n r =
    if leb (r.pos + n) (length r.content)
    then (some (take n (drop r.pos r.content)), advance n r)
    else (none, r)

pub take_arbitrary : TagReader → Option (List ℕ) × TagReader
unfolding take_u32 take_bytes
take_arbitrary r = and_then (take_u32 r) take_bytes

pub read_arbitrary : TagReader → Option (List ℕ) × TagReader
unfolding tagged take_arbitrary
read_arbitrary r = tagged 120 take_arbitrary r

unfoldable pub read_bool : TagReader → Option Bool × TagReader
unfolding peek_tag advance
read_bool r = elim (peek_tag r) [
  | some t ↦
      if t == 49
      then (some true, advance 1 r)
      else (if t == 48 then (some false, advance 1 r) else (none, r))
  | none ↦ (none, r)
]

-- Format, channels and rate, if six bytes are there.
pub take_sample_spec : TagReader → Option (ℕ × (ℕ × ℕ)) × TagReader
unfolding be_u32 advance
take_sample_spec r =
    if leb (r.pos + 6) (length r.content)
    then (
      some (
        get_or r.content r.pos 0,
        (get_or r.content (r.pos + 1) 0, unwrap_or 0 (be_u32 (drop (r.pos + 2) r.content))),
      ),
      advance 6 r,
    )
    else (none, r)

unfoldable pub read_sample_spec : TagReader → Option (ℕ × (ℕ × ℕ)) × TagReader
unfolding tagged take_sample_spec
read_sample_spec r = tagged 97 take_sample_spec r

-- A byte that counts, if there is one, and what follows it.
pub counted {ℓ} :
    {A : Type ℓ} → (ℕ → TagReader → Option A × TagReader) → TagReader → Option A × TagReader
unfolding peek_tag advance
counted next r = elim (peek_tag r) [ some n ↦ next n (advance 1 r) | none ↦ (none, r) ]

unfoldable pub read_channel_map : TagReader → Option (List ℕ) × TagReader
unfolding tagged counted take_bytes
read_channel_map r = tagged 109 (λ s. counted take_bytes s) r

pub take_volumes : ℕ → List ℕ → TagReader → Option (List ℕ) × TagReader
unfolding take_u32
take_volumes zero volumes r = (some volumes, r)
take_volumes (suc n) volumes r = and_then (take_u32 r) (λ v q. take_volumes n (volumes ++ v ∷ []) q)

pub read_cvolume : TagReader → Option (List ℕ) × TagReader
unfolding tagged counted take_volumes
read_cvolume r = tagged 118 (λ s. counted (λ n q. take_volumes n [] q) s) r

-- The entries of a property list: a key, a length that is not used, and a value. Each round takes a
-- byte at least, so the length of the data is fuel enough.
pub read_entries :
    ℕ → List (List ℕ × List ℕ) → TagReader → Option (List (List ℕ × List ℕ)) × TagReader
unfolding peek_tag advance take_string read_u32 read_arbitrary
read_entries zero props r = (some props, r)
read_entries (suc fuel) props r = elim (peek_tag r) [
  | none ↦ (some props, r)
  | some t ↦ elim (t == 78) [
    | true ↦ (some props, advance 1 r)
    | false ↦ elim (t == 116) [
      | false ↦ (some props, r)
      | true ↦
          let (key, r1) = take_string (advance 1 r) in
          and_then (read_u32 r1) (λ len r2.
            and_then (read_arbitrary r2) (λ v r3. read_entries fuel (props ++ (key, v) ∷ []) r3))
    ]
  ]
]

pub read_proplist : TagReader → Option (List (List ℕ × List ℕ)) × TagReader
unfolding tagged read_entries
read_proplist r = tagged 80 (λ s. read_entries (suc (length s.content)) [] s) r

-- A byte that counts items of `width` bytes.
pub skip_counted : ℕ → TagReader → Bool × TagReader
unfolding peek_tag advance
skip_counted width r = elim (peek_tag r) [
  | some ch ↦ (true, advance (1 + ch * width) r)
  | none ↦ (false, r)
]

pub skip_arbitrary : TagReader → Bool × TagReader
unfolding be_u32 advance
skip_arbitrary r = elim (be_u32 (drop r.pos r.content)) [
  | some len ↦ (true, advance (4 + len) r)
  | none ↦ (false, r)
]

-- Any value; `false` is for the end of the data and for a tag that is not known.
pub skip_value : TagReader → Bool × TagReader
unfolding peek_tag advance take_string skip_counted read_proplist skip_arbitrary
skip_value r = elim (peek_tag r) [
  | none ↦ (false, r)
  | some t ↦
      if t == 76
      then (true, advance 5 r)
      else if t == 66
      then (true, advance 2 r)
      else if t == 116
      then (true, (take_string (advance 1 r)).1)
      else if t == 78
      then (true, advance 1 r)
      else if t == 49 || t == 48
      then (true, advance 1 r)
      else if t == 97
      then (true, advance 7 r)
      else if t == 109
      then skip_counted 1 (advance 1 r)
      else if t == 118
      then skip_counted 4 (advance 1 r)
      else if t == 80
      then (true, (read_proplist r).1)
      else if t == 120
      then skip_arbitrary (advance 1 r)
      else if t == 85 || t == 114
      then (true, advance 9 r)
      else if t == 86
      then (true, advance 5 r)
      else (false, r)
]
