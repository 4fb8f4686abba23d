-- ===== src/Fonts/Listing.antt =====
-- ListFonts (src/server/connection.rs, `handle_list_fonts`): what a client reads from the reply.
-- The names whose lower-case form matches, and what a client makes of the names in the reply.
use psl_xserver.Fonts.{collect, is_match, names_data}
use psl_xserver.Fonts.Glob.{glob}
use psl_xserver.Fonts.Matching.{NoStar}
use psl_xserver.Fonts.Termination.{x11_font_pattern_match-glob}
use psl_xserver.Prelude.{
  Bool-cases, List, Option, [], ap, append-nil, append_assoc, arith, drop, drop-append,
  if◌then◌else◌, inl, inr, leb, length, length-append, none, refl, some, suc, sym, take,
  take-append, zero, ℕ, ◌%◌, ◌*◌, ◌++◌, ◌-◌, ◌<◌, ◌∙◌, ◌∷◌, ◌≡◌, ◌≤◌,
}

pub matching : List ℕ → List (List ℕ × List ℕ) → List (List ℕ)
unfolding glob
matching p [] = []
matching p ((name, lower) ∷ fonts) =
    if glob p lower then name ∷ matching p fonts else matching p fonts

pub parse_names : ℕ → List ℕ → Option (List (List ℕ))
parse_names zero bytes = some []
parse_names (suc n) [] = none
parse_names (suc n) (size ∷ bytes) = elim (parse_names n (drop size bytes)) [
  | some names ↦ some (take size bytes ∷ names)
  | none ↦ none
]

abbrev pub ShortNames : List (List ℕ × List ℕ) → Type 0
ShortNames [] = Unit {0}
ShortNames ((name, lower) ∷ fonts) = (length name < 256) × (NoStar lower × ShortNames fonts)

abbrev pub AllShort : List (List ℕ) → Type 0
AllShort [] = Unit {0}
AllShort (name ∷ names) = (length name < 256) × AllShort names

pub parse_names-names_data :
    (names : List (List ℕ)) (rest : List ℕ)
    → AllShort names
    → parse_names (length names) (names_data names ++ rest) ≡ some names
unfolding parse_names names_data
parse_names-names_data [] rest short = refl
parse_names-names_data (name ∷ names) rest (size, short) =
    let same : length name % 256 ≡ length name = omega arith in
    rw
      (
        same,
        append_assoc name (names_data names) rest,
        drop-append name (names_data names ++ rest),
        parse_names-names_data names rest short,
        same,
        append_assoc name (names_data names) rest,
        take-append name (names_data names ++ rest),
      )
      refl

snoc : (xs : List (List ℕ)) (y : List ℕ) → length (xs ++ y ∷ []) ≡ suc (length xs)
snoc xs y = omega (arith, length-append xs (y ∷ []))

take-nil : (n : ℕ) → take {A = List ℕ} n [] ≡ []
take-nil zero = refl
take-nil (suc n) = refl

is_match-glob : (p t : List ℕ) → NoStar t → is_match p t ≡ glob p t
unfolding is_match
is_match-glob p t clean = rw (x11_font_pattern_match-glob p t clean, is_match) refl

taken_one :
    (matched names : List (List ℕ)) (name : List ℕ) (room less : ℕ)
    → room ≡ suc less
    → (matched ++ name ∷ []) ++ take less names ≡ matched ++ take room (name ∷ names)
taken_one matched names name room less e =
    append_assoc matched (name ∷ []) (take less names)
    ∙ ap (λ n. matched ++ take n (name ∷ names)) (sym e)

-- The loop takes the first matching names, as many as there is room for.
pub collect-matching :
    (max_names : ℕ) (p : List ℕ) (matched : List (List ℕ)) (fonts : List (List ℕ × List ℕ))
    → ShortNames fonts
    → collect max_names p matched fonts
      ≡ matched ++ take (max_names - length matched) (matching p fonts)
unfolding collect matching
collect-matching max_names p matched [] short =
    sym (append-nil matched) ∙ ap (◌++◌ matched) (sym (take-nil (max_names - length matched)))
collect-matching max_names p matched ((name, lower) ∷ fonts) (size, (clean, short)) =
    elim (Bool-cases (leb max_names (length matched))) [
      | inl full ↦
          let none_left : max_names - length matched ≡ 0 = ground arith in
          rw (full, collect, none_left) (sym (append-nil matched))
      | inr room ↦ elim (Bool-cases (glob p lower)) [
        | inl hit ↦
            let one_less : max_names - length matched
                ≡ suc (max_names - length (matched ++ name ∷ [])) =
              grind (arith, snoc matched name) in
            rw (room, collect, is_match-glob p lower clean, hit, matching)
              (collect-matching max_names p (matched ++ name ∷ []) fonts short
                ∙ taken_one matched (matching p fonts) name (max_names - length matched)
                    (max_names - length (matched ++ name ∷ [])) one_less)
        | inr miss ↦
            rw (room, collect, is_match-glob p lower clean, miss, matching)
              (collect-matching max_names p matched fonts short)
      ]
    ]

pub take-AllShort :
    (n : ℕ) (p : List ℕ) (fonts : List (List ℕ × List ℕ))
    → ShortNames fonts
    → AllShort (take n (matching p fonts))
unfolding matching
take-AllShort zero p fonts short = tt
take-AllShort (suc n) p [] short = tt
take-AllShort (suc n) p ((name, lower) ∷ fonts) (size, (clean, short)) =
    elim (Bool-cases (glob p lower)) [
      | inl hit ↦ rw (hit, matching) (size, take-AllShort n p fonts short)
      | inr miss ↦ rw (miss, matching) (take-AllShort (suc n) p fonts short)
    ]

pub length-names_data :
    (names : List (List ℕ)) → AllShort names → length (names_data names) ≤ 256 * length names
unfolding names_data
length-names_data [] short = omega arith
length-names_data (name ∷ names) (size, short) =
    omega (arith, length-names_data names short, length-append name (names_data names))
