-- ===== src/Server/PropertyRequests/Reported.antt =====
-- What a client reads in the reply to GetProperty: src/server/connection.rs, `handle_get_property`.
-- The fields of the first 32 bytes, and what follows them.
use psl_xserver.Outcome.{ok}
use psl_xserver.Prelude.{
  Bool-cases, List, Option, [], ap, arith, drop, get_elem?, inl, inr, length, length-append,
  length-replicate, none, refl, replicate, some, sym, take, take-append, unwrap_or, ℕ, ◌*◌, ◌++◌,
  ◌+◌, ◌/◌, ◌<◌, ◌==◌, ◌∙◌, ◌∷◌, ◌≡◌, ◌≤◌,
}
use psl_xserver.Resources.{Property}
use psl_xserver.Server.{pad_of}
use psl_xserver.Server.PropertyRequests.{bytes_per_element, elements_of, property_header}
use psl_xserver.Server.PropertyRequests.Requests.{PropertyFits, whole_reply}
use psl_xserver.Server.Replies.{IsReply}
use psl_xserver.Wire.{
  ByteOrder, IsU16, IsU32, big_endian, little_endian, u16_at, u16_bytes, u32_at, u32_bytes,
}
use psl_xserver.Wire.RoundTrip.{u16_at-append, u32_at-append}

abbrev IsHeader :
    ByteOrder → (seq format words type_atom remaining elements : ℕ) → List ℕ → List ℕ → Type 0
IsHeader order seq format words type_atom remaining elements tail reply =
    (get_elem? reply 0 ≡ some 1)
    × (get_elem? reply 1 ≡ some format)
    × (u16_at order reply 2 ≡ ok seq)
    × (u32_at order reply 4 ≡ ok words)
    × (u32_at order reply 8 ≡ ok type_atom)
    × (u32_at order reply 12 ≡ ok remaining)
    × (u32_at order reply 16 ≡ ok elements)
    × (drop 32 reply ≡ tail)

property_header-IsHeader :
    (order : ByteOrder) (seq format words type_atom remaining elements : ℕ) (tail : List ℕ)
    → IsU16 seq
    → IsU32 words
    → IsU32 type_atom
    → IsU32 remaining
    → IsU32 elements
    → IsHeader order seq format words type_atom remaining elements tail
        (property_header order seq format words type_atom remaining elements ++ tail)
unfolding property_header u16_bytes u32_bytes
property_header-IsHeader big_endian seq format words type_atom remaining elements tail hs hw ht hr
      he =
    (
      refl,
      refl,
      u16_at-append big_endian (1 ∷ format ∷ []) _ seq hs,
      u32_at-append big_endian (1 ∷ format ∷ (u16_bytes big_endian seq)) _ words hw,
      u32_at-append big_endian
          (1 ∷ format ∷ (u16_bytes big_endian seq ++ u32_bytes big_endian words)) _ type_atom ht,
      u32_at-append big_endian
          (1
            ∷ format
            ∷ (u16_bytes big_endian seq
                ++ (u32_bytes big_endian words ++ u32_bytes big_endian type_atom)))
          _ remaining hr,
      u32_at-append big_endian
          (1
            ∷ format
            ∷ (u16_bytes big_endian seq
                ++ (u32_bytes big_endian words
                    ++ (u32_bytes big_endian type_atom ++ u32_bytes big_endian remaining))))
          _ elements he,
      refl,
    )
property_header-IsHeader little_endian seq format words type_atom remaining elements tail hs hw ht
      hr he =
    (
      refl,
      refl,
      u16_at-append little_endian (1 ∷ format ∷ []) _ seq hs,
      u32_at-append little_endian (1 ∷ format ∷ (u16_bytes little_endian seq)) _ words hw,
      u32_at-append little_endian
          (1 ∷ format ∷ (u16_bytes little_endian seq ++ u32_bytes little_endian words)) _ type_atom
          ht,
      u32_at-append little_endian
          (1
            ∷ format
            ∷ (u16_bytes little_endian seq
                ++ (u32_bytes little_endian words ++ u32_bytes little_endian type_atom)))
          _ remaining hr,
      u32_at-append little_endian
          (1
            ∷ format
            ∷ (u16_bytes little_endian seq
                ++ (u32_bytes little_endian words
                    ++ (u32_bytes little_endian type_atom ++ u32_bytes little_endian remaining))))
          _ elements he,
      refl,
    )

-- The whole value of a property of `n` elements: its format and type, no bytes left over, the number
-- of elements, the bytes of the value, and less than a word to fill them up.
abbrev pub ReportsProperty : ByteOrder → (seq n : ℕ) → Property → List ℕ → Type 0
ReportsProperty order seq n prop reply =
    (words : ℕ) × IsReply order seq words reply
    × (get_elem? reply 1 ≡ some prop.format)
    × (u32_at order reply 8 ≡ ok prop.type_atom)
    × (u32_at order reply 12 ≡ ok 0)
    × (u32_at order reply 16 ≡ ok n)
    × (take (length prop.bytes) (drop 32 reply) ≡ prop.bytes)
    × (words * 4 < length prop.bytes + 4)

same_width : {a b : ℕ} → ◌≡◌ {A = Option ℕ} (some a) (some b) → a ≡ b
same_width e = ap (unwrap_or 0) e

-- A value of `n` elements has `n` elements, and a word for each at most.
elements_of_whole :
    (format width n size : ℕ)
    → bytes_per_element format ≡ some width
    → size ≡ n * width
    → (elements_of format size ≡ n) × (size ≤ n * 4)
unfolding elements_of
elements_of_whole format width n size known whole = elim (Bool-cases (format == 8)) [
  | inl is8 ↦
      let one : 1 ≡ width = same_width (sym (rw is8 refl) ∙ known) in
      let bytes : size ≡ n = whole ∙ ap (λ w. n * w) (sym one) ∙ omega arith in
      rw is8 (bytes, omega arith)
  | inr not8 ↦ elim (Bool-cases (format == 16)) [
    | inl is16 ↦
        let two : 2 ≡ width = same_width (sym (rw (not8, is16) refl) ∙ known) in
        let bytes : size ≡ n * 2 = whole ∙ ap (λ w. n * w) (sym two) in
        rw (not8, is16) (omega arith, omega arith)
    | inr not16 ↦ elim (Bool-cases (format == 32)) [
      | inl is32 ↦
          let four : 4 ≡ width = same_width (sym (rw (not8, not16, is32) refl) ∙ known) in
          let bytes : size ≡ n * 4 = whole ∙ ap (λ w. n * w) (sym four) in
          rw (not8, not16, is32) (omega arith, omega arith)
      | inr not32 ↦ absurd (none_ne_some (sym (rw (not8, not16, not32) refl) ∙ known))
    ]
  ]
]
  where
    none_ne_some : {a : ℕ} → ◌≡◌ {A = Option ℕ} none (some a) → ⊥
    none_ne_some e = cc

length-property_header :
    (order : ByteOrder) (seq format words type_atom remaining elements : ℕ)
    → length (property_header order seq format words type_atom remaining elements) ≡ 32
unfolding property_header u16_bytes u32_bytes
length-property_header big_endian seq format words type_atom remaining elements = refl
length-property_header little_endian seq format words type_atom remaining elements = refl

whole_length :
    (order : ByteOrder) (seq : ℕ) (prop : Property)
    → length (whole_reply order seq prop)
      ≡ 32 + (length prop.bytes + pad_of (length prop.bytes)) / 4 * 4
whole_length order seq prop =
    let size = length prop.bytes in
    let words = (size + pad_of size) / 4 in
    let count = elements_of prop.format size in
    omega (
      arith,
      length-append (property_header order seq prop.format words prop.type_atom 0 count)
          (prop.bytes ++ replicate (pad_of size) 0),
      length-property_header order seq prop.format words prop.type_atom 0 count,
      length-append prop.bytes (replicate (pad_of size) 0),
      length-replicate {A = ℕ} (pad_of size) 0,
    )

pub whole_reply-ReportsProperty :
    (order : ByteOrder) (seq n : ℕ) (prop : Property)
    → IsU16 seq
    → PropertyFits prop n
    → ReportsProperty order seq n prop (whole_reply order seq prop)
whole_reply-ReportsProperty order seq n prop hs f =
    let size = length prop.bytes in
    let (count, bound) = elements_of_whole prop.format f.width n size f.format_known f.whole in
    let words = (size + pad_of size) / 4 in
    let tail = prop.bytes ++ replicate (pad_of size) 0 in
    let (at0, at1, at2, at4, at8, at12, at16, behind) =
      property_header-IsHeader order seq prop.format words prop.type_atom 0
        (elements_of prop.format size) tail hs (omega (arith, f.count_fits)) f.type_fits
        (omega arith) (omega (arith, count, f.count_fits)) in
    (
      words,
      (whole_length order seq prop, at0, at2, at4),
      at1,
      at8,
      at12,
      at16 ∙ ap ok count,
      ap (take size) behind ∙ take-append prop.bytes (replicate (pad_of size) 0),
      omega arith,
    )
