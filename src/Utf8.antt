-- ===== src/Utf8.antt =====
-- `std::str::from_utf8`: is a list of bytes well-formed UTF-8? The table of the Unicode standard.
use psl_xserver.Prelude.{
  Bool, List, Option, [], false, if◌then◌else◌, leb, ltb, none, some, ℕ, ◌&&◌, ◌-◌, ◌==◌, ◌∷◌,
}

-- How many continuation bytes are due, and the range of the next one.
record Due : Type 0 where
  count : ℕ
  lowest : ℕ
  highest : ℕ

abbrev due : ℕ → ℕ → ℕ → Due
due count lowest highest = record { count = count; lowest = lowest; highest = highest }

within : ℕ → ℕ → ℕ → Bool
within lowest highest b = leb lowest b && leb b highest

lead : ℕ → Option Due
unfolding within
lead b =
    if ltb b 0x80
    then some (due 0 0 0)
    else if within 0xC2 0xDF b
    then some (due 1 0x80 0xBF)
    else if b == 0xE0
    then some (due 2 0xA0 0xBF)
    else if b == 0xED
    then some (due 2 0x80 0x9F)
    else if within 0xE1 0xEF b
    then some (due 2 0x80 0xBF)
    else if b == 0xF0
    then some (due 3 0x90 0xBF)
    else if within 0xF1 0xF3 b
    then some (due 3 0x80 0xBF)
    else if b == 0xF4
    then some (due 3 0x80 0x8F)
    else none

next_byte : Due → ℕ → Option Due
unfolding lead within
next_byte d b =
    if d.count == 0
    then lead b
    else if within d.lowest d.highest b
    then some (due (d.count - 1) 0x80 0xBF)
    else none

scan : Due → List ℕ → Bool
unfolding next_byte
scan d [] = d.count == 0
scan d (b ∷ bytes) = elim (next_byte d b) [ some d' ↦ scan d' bytes | none ↦ false ]

unfoldable pub is_utf8 : List ℕ → Bool
unfolding scan
is_utf8 = scan (due 0 0 0)
