-- ===== src/Fonts/Tests.antt =====
-- The font functions at concrete patterns and names.
-- Two fonts, with their names in lower case.
use psl_xserver.Fonts.{handle_list_fonts, x11_font_pattern_match}
use psl_xserver.Fonts.FontRequest.{Lists, handle_list_fonts_lem, list_fonts_request}
use psl_xserver.Fonts.Glob.{glob}
use psl_xserver.Fonts.Listing.{matching}
use psl_xserver.Fonts.Termination.{x11_font_pattern_match-glob, x11_font_pattern_match_ends}
use psl_xserver.Outcome.{ok}
use psl_xserver.Prelude.{
  Bool, List, [], arith, false, if◌then◌else◌, leb, map, refl, some, take, true, ℕ, ◌&&◌, ◌+◌, ◌∷◌,
  ◌≡◌,
}
use psl_xserver.Samples.{big_client}
use psl_xserver.Utf8.{is_utf8}
use psl_xserver.Wire.{big_endian}

abbrev two_fonts : List (List ℕ × List ℕ)
two_fonts = (70 ∷ 105 ∷ 120 ∷ [], 102 ∷ 105 ∷ 120 ∷ []) ∷ (102 ∷ 111 ∷ [], 102 ∷ 111 ∷ []) ∷ []

-- ASCII capitals to small letters.
lower_byte : ℕ → ℕ
lower_byte b = if leb 65 b && leb b 90 then b + 32 else b

abbrev ascii_lowercase : List ℕ → List ℕ
unfolding lower_byte
ascii_lowercase bytes = map lower_byte bytes

two_stars :
    x11_font_pattern_match (42 ∷ 1 ∷ 2 ∷ 42 ∷ 3 ∷ []) (1 ∷ 1 ∷ 2 ∷ 1 ∷ 3 ∷ 3 ∷ []) ≡ some true
unfolding x11_font_pattern_match
two_stars = refl

-- The pattern `*` does not match the text `*a`: the star of the text is taken for a plain byte.
star_in_text : x11_font_pattern_match (42 ∷ []) (42 ∷ 97 ∷ []) ≡ some false
unfolding x11_font_pattern_match
star_in_text = refl

star_text_ends : (b : Bool) × (x11_font_pattern_match (42 ∷ 1 ∷ []) (42 ∷ 1 ∷ []) ≡ some b)
star_text_ends = x11_font_pattern_match_ends (42 ∷ 1 ∷ []) (42 ∷ 1 ∷ [])

x11_font_pattern_match-glob_example :
    x11_font_pattern_match (42 ∷ 105 ∷ 63 ∷ []) (102 ∷ 105 ∷ 120 ∷ [])
    ≡ some (glob (42 ∷ 105 ∷ 63 ∷ []) (102 ∷ 105 ∷ 120 ∷ []))
x11_font_pattern_match-glob_example =
    x11_font_pattern_match-glob (42 ∷ 105 ∷ 63 ∷ []) (102 ∷ 105 ∷ 120 ∷ [])
      (refl, (refl, (refl, tt)))

handle_list_fonts_lem_example :
    (reply : List ℕ) × ((handle_list_fonts ascii_lowercase two_fonts big_client
          (list_fonts_request big_endian 5 (70 ∷ 42 ∷ []) [])
        ≡ ok reply)
      × Lists big_endian (take 5 (matching (ascii_lowercase (70 ∷ 42 ∷ [])) two_fonts)) reply)
handle_list_fonts_lem_example =
    handle_list_fonts_lem ascii_lowercase two_fonts big_client 5 (70 ∷ 42 ∷ []) [] (omega arith)
      (omega arith) (unfold is_utf8 in refl)
      (omega arith, ((refl, (refl, (refl, tt))), (omega arith, ((refl, (refl, tt)), tt))))
