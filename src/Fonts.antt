-- ===== src/Fonts.antt =====
-- Font names: src/server/connection.rs, `handle_list_fonts` and `x11_font_pattern_match`.
pub mod Glob
pub mod Matching
pub mod Soundness
pub mod Termination
pub mod Listing
pub mod FontRequest
mod Tests
use psl_xserver.Connection.{ClientConnection, current_request_sequence}
use psl_xserver.Outcome.{Result, ok, protocol, require, slice, ◌>>=◌, ◌>>◌}
use psl_xserver.Prelude.{
  Bool, List, Option, [], drop, false, get_elem?, if◌then◌else◌, leb, length, none, replicate, some,
  suc, zero, ℕ, ◌%◌, ◌*◌, ◌++◌, ◌+◌, ◌/◌, ◌==◌, ◌||◌, ◌∷◌,
}
use psl_xserver.Server.{pad_of}
use psl_xserver.Utf8.{is_utf8}
use psl_xserver.Wire.{ByteOrder, u16_at, u16_bytes, u32_bytes}

-- The three places of the loop: in the pattern, in the text, and at the last star with the place
-- of the text where it stood (`usize::MAX` stands for no star).
pub record Cursor : Type 0 where
  pub pi : ℕ
  pub ti : ℕ
  pub star : Option (ℕ × ℕ)

-- Back to the last star, which takes one more byte.
pub retry : Cursor → Option Cursor
retry s = elim s.star [
  | some (star_pi, star_ti) ↦
      some (record { pi = suc star_pi; ti = suc star_ti; star = some (star_pi, suc star_ti) })
  | none ↦ none
]

-- One round of the loop at a byte of the text; `none` is `return false`.
pub match_step : List ℕ → Cursor → ℕ → Option Cursor
unfolding retry
match_step p s byte = elim (get_elem? p s.pi) [
  | some c ↦
      if c == 63 || c == byte
      then some (record s { pi = suc s.pi; ti = suc s.ti })
      else (if c == 42
          then some (record s { pi = suc s.pi; star = some (s.pi, s.ti) })
          else retry s)
  | none ↦ retry s
]

-- The first place from `i` on that holds no star.
pub skip_stars : List ℕ → ℕ → ℕ
skip_stars [] i = i
skip_stars (c ∷ rest) i = if c == 42 then skip_stars rest (suc i) else i

-- `none` is a loop that has run out of fuel.
pub match_loop : ℕ → List ℕ → List ℕ → Cursor → Option Bool
unfolding match_step skip_stars
match_loop zero p t s = none
match_loop (suc fuel) p t s = elim (get_elem? t s.ti) [
  | none ↦ some (skip_stars (drop s.pi p) s.pi == length p)
  | some byte ↦ elim (match_step p s byte) [
    | some next ↦ match_loop fuel p t next
    | none ↦ some false
  ]
]

pub x11_font_pattern_match : List ℕ → List ℕ → Option Bool
unfolding match_loop
x11_font_pattern_match p t =
    match_loop (length t * (length p + 1) + length p + 1) p t
      (record { pi = 0; ti = 0; star = none })

-- The fuel is enough, so `none` does not come up.
pub is_match : List ℕ → List ℕ → Bool
unfolding x11_font_pattern_match
is_match p t = elim (x11_font_pattern_match p t) [ some b ↦ b | none ↦ false ]

-- The names so far, and those that match, up to `max_names`. Each font comes with its name in lower
-- case.
pub collect : ℕ → List ℕ → List (List ℕ) → List (List ℕ × List ℕ) → List (List ℕ)
unfolding is_match
collect max_names pattern_lower matched [] = matched
collect max_names pattern_lower matched ((name, name_lower) ∷ fonts) =
    if leb max_names (length matched)
    then matched
    else collect max_names pattern_lower
        (if is_match pattern_lower name_lower then matched ++ name ∷ [] else matched) fonts

-- Each name behind its length, in one byte.
pub names_data : List (List ℕ) → List ℕ
names_data [] = []
names_data (name ∷ names) = (length name % 256) ∷ (name ++ names_data names)

pub fonts_reply : ByteOrder → ℕ → ℕ → List ℕ → List ℕ
fonts_reply order seq count padded =
    1
    ∷ 0
    ∷ (u16_bytes order seq
        ++ (u32_bytes order (length padded / 4)
            ++ (u16_bytes order count ++ (replicate 22 0 ++ padded))))

-- `from_utf8(..).unwrap_or("*")`, and the same for a request that is too short.
utf8_or_star : List ℕ → List ℕ
utf8_or_star bytes = if is_utf8 bytes then bytes else 42 ∷ []

pub pattern_of : List ℕ → ℕ → Result (List ℕ)
unfolding utf8_or_star
pattern_of request_data pattern_len =
    if leb (8 + pattern_len) (length request_data)
    then (do bytes ← slice request_data 8 (8 + pattern_len); ok (utf8_or_star bytes))
    else ok (42 ∷ [])

module _ (to_lowercase : List ℕ → List ℕ) where
  pub handle_list_fonts : List (List ℕ × List ℕ) → ClientConnection → List ℕ → Result (List ℕ)
  unfolding collect names_data fonts_reply pattern_of
  handle_list_fonts fonts conn request_data = do
    require (leb 8 (length request_data)) protocol
    max_names ← u16_at conn.byte_order request_data 4
    pattern_len ← u16_at conn.byte_order request_data 6
    pattern ← pattern_of request_data pattern_len
    let matched = collect max_names (to_lowercase pattern) [] fonts
    let body = names_data matched
    ok (
        fonts_reply conn.byte_order (current_request_sequence conn) (length matched)
          (body ++ replicate (pad_of (length body)) 0))
