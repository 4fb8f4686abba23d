-- ===== src/Fonts/FontRequest.antt =====
-- The request and the reply of ListFonts: src/server/connection.rs, `handle_list_fonts`.
-- The request for the names that match a pattern.
use psl_xserver.Connection.{ClientConnection, current_request_sequence}
use psl_xserver.Fonts.{
  collect, fonts_reply, handle_list_fonts, names_data, pattern_of, utf8_or_star,
}
use psl_xserver.Fonts.Listing.{
  AllShort, ShortNames, collect-matching, length-names_data, matching, parse_names,
  parse_names-names_data, take-AllShort,
}
use psl_xserver.Outcome.{ok, slice}
use psl_xserver.Prelude.{
  List, [], ap, arith, drop, leb, length, length-append, length-replicate, length-take, refl,
  replicate, some, subst, take, true, ℕ, ◌%◌, ◌*◌, ◌++◌, ◌+◌, ◌-◌, ◌/◌, ◌∙◌, ◌∷◌, ◌≡◌,
}
use psl_xserver.Server.{pad_of}
use psl_xserver.Utf8.{is_utf8}
use psl_xserver.Wire.{
  ByteOrder, IsU16, IsU32, big_endian, little_endian, u16_at, u16_bytes, u32_at, u32_bytes,
}
use psl_xserver.Wire.RoundTrip.{slice-append, u16_at-append, u32_at-append}

pub list_fonts_request : ByteOrder → ℕ → List ℕ → List ℕ → List ℕ
list_fonts_request order max_names pattern rest =
    49
    ∷ 0
    ∷ 0
    ∷ 0
    ∷ (u16_bytes order max_names ++ (u16_bytes order (length pattern) ++ (pattern ++ rest)))

request_reads :
    (order : ByteOrder) (max_names : ℕ) (pattern rest : List ℕ)
    → IsU16 max_names
    → IsU16 (length pattern)
    → (u16_at order (list_fonts_request order max_names pattern rest) 4 ≡ ok max_names)
      × (u16_at order (list_fonts_request order max_names pattern rest) 6 ≡ ok (length pattern))
unfolding list_fonts_request u16_bytes
request_reads big_endian max_names pattern rest hm hp = (
  u16_at-append big_endian (49 ∷ 0 ∷ 0 ∷ 0 ∷ []) _ max_names hm,
  u16_at-append big_endian (49 ∷ 0 ∷ 0 ∷ 0 ∷ (max_names / 256 % 256) ∷ (max_names % 256) ∷ []) _
      (length pattern) hp,
)
request_reads little_endian max_names pattern rest hm hp = (
  u16_at-append little_endian (49 ∷ 0 ∷ 0 ∷ 0 ∷ []) _ max_names hm,
  u16_at-append little_endian (49 ∷ 0 ∷ 0 ∷ 0 ∷ (max_names % 256) ∷ (max_names / 256 % 256) ∷ []) _
      (length pattern) hp,
)

pattern_of-append :
    (front pattern rest : List ℕ)
    → length front ≡ 8
    → is_utf8 pattern ≡ true
    → pattern_of (front ++ (pattern ++ rest)) (length pattern) ≡ ok pattern
unfolding pattern_of utf8_or_star
pattern_of-append front pattern rest eight valid =
    let room : leb (8 + length pattern) (length (front ++ (pattern ++ rest))) ≡ true =
      ground (arith, length-append front (pattern ++ rest), length-append pattern rest) in
    let cut : slice (front ++ (pattern ++ rest)) 8 (8 + length pattern) ≡ ok pattern =
      subst (λ k. slice (front ++ (pattern ++ rest)) k (k + length pattern) ≡ ok pattern) eight
        (slice-append front pattern rest (length pattern) refl) in
    rw (pattern_of, room, cut, utf8_or_star, valid) refl

request_pattern :
    (order : ByteOrder) (max_names : ℕ) (pattern rest : List ℕ)
    → is_utf8 pattern ≡ true
    → (leb 8 (length (list_fonts_request order max_names pattern rest)) ≡ true)
      × (pattern_of (list_fonts_request order max_names pattern rest) (length pattern) ≡ ok pattern)
unfolding list_fonts_request u16_bytes
request_pattern big_endian max_names pattern rest valid = (
  ground arith,
  pattern_of-append
      (49 ∷ 0 ∷ 0 ∷ 0 ∷ (u16_bytes big_endian max_names ++ u16_bytes big_endian (length pattern)))
      pattern rest refl valid,
)
request_pattern little_endian max_names pattern rest valid = (
  ground arith,
  pattern_of-append
      (49
        ∷ 0
        ∷ 0
        ∷ 0
        ∷ (u16_bytes little_endian max_names ++ u16_bytes little_endian (length pattern)))
      pattern rest refl valid,
)

pub record Lists (order : ByteOrder) (names : List (List ℕ)) (reply : List ℕ) : Type 0 where
  count : u16_at order reply 8 ≡ ok (length names)
  listed : parse_names (length names) (drop 32 reply) ≡ some names
  extent : (w : ℕ) × ((u32_at order reply 4 ≡ ok w) × (length reply ≡ 32 + 4 * w))

fonts_reply-Lists :
    (order : ByteOrder) (seq : ℕ) (names : List (List ℕ)) (padded : List ℕ)
    → IsU16 (length names)
    → IsU32 (length padded / 4)
    → length padded % 4 ≡ 0
    → parse_names (length names) padded ≡ some names
    → Lists order names (fonts_reply order seq (length names) padded)
unfolding fonts_reply u16_bytes u32_bytes
fonts_reply-Lists big_endian seq names padded fits small whole parsed =
    let head : List ℕ = 1 ∷ 0 ∷ u16_bytes big_endian seq in
    record {
      count =
          u16_at-append big_endian (head ++ u32_bytes big_endian (length padded / 4)) _
            (length names) fits;
      listed = parsed;
      extent = (
        length padded / 4,
        (u32_at-append big_endian head _ (length padded / 4) small, omega (arith, whole)),
      );
    }
fonts_reply-Lists little_endian seq names padded fits small whole parsed =
    let head : List ℕ = 1 ∷ 0 ∷ u16_bytes little_endian seq in
    record {
      count =
          u16_at-append little_endian (head ++ u32_bytes little_endian (length padded / 4)) _
            (length names) fits;
      listed = parsed;
      extent = (
        length padded / 4,
        (u32_at-append little_endian head _ (length padded / 4) small, omega (arith, whole)),
      );
    }

names_reply :
    (order : ByteOrder) (seq : ℕ) (names : List (List ℕ))
    → AllShort names
    → IsU16 (length names)
    → Lists order names (
        fonts_reply order seq
          (length names)
          (names_data names ++ replicate (pad_of (length (names_data names))) 0))
names_reply order seq names short fits =
    let body = names_data names in
    let size : length (body ++ replicate (pad_of (length body)) 0)
        ≡ length body + pad_of (length body) =
      omega (
        arith,
        length-append body (replicate (pad_of (length body)) 0),
        length-replicate {A = ℕ} (pad_of (length body)) 0,
      ) in
    fonts_reply-Lists order seq names (body ++ replicate (pad_of (length body)) 0) fits
      (omega (arith, size, length-names_data names short)) (omega (arith, size))
      (parse_names-names_data names (replicate (pad_of (length body)) 0) short)

-- A client asks in its byte order for the fonts that match a pattern in UTF-8, all lengths fitting
-- their fields, no name longer than 255 bytes, and no lower-case name with a star. Then the
-- request succeeds, and the client reads from the reply the first of the names whose lower-case
-- form the lower-case pattern stands for, in the server's order, as many as it asked for at most;
-- the reply is as long as its length field says.
pub handle_list_fonts_lem :
    (to_lowercase : List ℕ → List ℕ) (fonts : List (List ℕ × List ℕ)) (conn : ClientConnection)
    (max_names : ℕ) (pattern rest : List ℕ)
    → IsU16 max_names
    → IsU16 (length pattern)
    → is_utf8 pattern ≡ true
    → ShortNames fonts
    → (reply : List ℕ) × ((handle_list_fonts to_lowercase fonts conn
            (list_fonts_request conn.byte_order max_names pattern rest)
          ≡ ok reply)
        × Lists conn.byte_order (take max_names (matching (to_lowercase pattern) fonts)) reply)
unfolding handle_list_fonts
handle_list_fonts_lem to_lowercase fonts conn max_names pattern rest hm hp valid short =
    let reads = request_reads conn.byte_order max_names pattern rest hm hp in
    let text = request_pattern conn.byte_order max_names pattern rest valid in
    let all_room : max_names - 0 ≡ max_names = omega arith in
    let all : collect max_names (to_lowercase pattern) [] fonts
        ≡ take max_names (matching (to_lowercase pattern) fonts) =
      collect-matching max_names (to_lowercase pattern) [] fonts short
      ∙ ap (λ k. take k (matching (to_lowercase pattern) fonts)) all_room in
    let names = take max_names (matching (to_lowercase pattern) fonts) in
    (
      _,
      (
        rw (handle_list_fonts, text.0, reads.0, reads.1, text.1, all) refl,
        names_reply conn.byte_order (current_request_sequence conn) names
            (take-AllShort max_names (to_lowercase pattern) fonts short)
            (omega (arith, hm, length-take max_names (matching (to_lowercase pattern) fonts))),
      ),
    )
