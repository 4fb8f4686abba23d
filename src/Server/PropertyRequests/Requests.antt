-- ===== src/Server/PropertyRequests/Requests.antt =====
-- ChangeProperty and GetProperty as clients send them, and what the handlers read.
use psl_xserver.Outcome.{ok, slice}
use psl_xserver.Prelude.{
  List, [], arith, length, refl, replicate, some, take-length, ℕ, ◌*◌, ◌++◌, ◌+◌, ◌/◌, ◌∷◌, ◌≡◌,
}
use psl_xserver.Resources.{Property}
use psl_xserver.Server.{byte_at, pad_of}
use psl_xserver.Server.PropertyRequests.{bytes_per_element, elements_of, property_header}
use psl_xserver.Wire.{ByteOrder, IsU32, big_endian, little_endian, u32_at, u32_bytes}
use psl_xserver.Wire.RoundTrip.{read_u32-u32_bytes, u32_at-append}

-- ChangeProperty as a client sends it; `mode` is ignored by the server.
abbrev pub change_request :
    ByteOrder → (mode l0 l1 wid : ℕ) → Property → (num_elements : ℕ) → List ℕ
change_request order mode l0 l1 wid prop num_elements =
    18
    ∷ mode
    ∷ l0
    ∷ l1
    ∷ (u32_bytes order wid
        ++ (u32_bytes order prop.name
            ++ (u32_bytes order prop.type_atom
                ++ prop.format ∷ 0 ∷ 0 ∷ 0 ∷ (u32_bytes order num_elements ++ prop.bytes))))

-- GetProperty as a client sends it.
abbrev pub get_request :
    ByteOrder → (delete l0 l1 wid property type_atom long_offset long_length : ℕ) → List ℕ
get_request order delete l0 l1 wid property type_atom long_offset long_length =
    20
    ∷ delete
    ∷ l0
    ∷ l1
    ∷ (u32_bytes order wid
        ++ (u32_bytes order property
            ++ (u32_bytes order type_atom
                ++ (u32_bytes order long_offset ++ u32_bytes order long_length))))

-- A value that can be sent: its length is a number of elements of its format.
pub record PropertyFits (prop : Property) (num_elements : ℕ) : Type 0 where
  pub name_fits : IsU32 prop.name
  pub type_fits : IsU32 prop.type_atom
  pub count_fits : IsU32 num_elements
  pub width : ℕ
  pub format_known : bytes_per_element prop.format ≡ some width
  pub whole : length prop.bytes ≡ num_elements * width

-- The reply that carries the whole value, zero-filled to whole words.
abbrev pub whole_reply : ByteOrder → ℕ → Property → List ℕ
whole_reply order seq prop =
    let size = length prop.bytes in
    property_header order seq prop.format ((size + pad_of size) / 4) prop.type_atom 0
      (elements_of prop.format size)
    ++ (prop.bytes ++ replicate (pad_of size) 0)

pub get_reads :
    (order : ByteOrder) (delete l0 l1 wid property type_atom long_offset long_length : ℕ)
    → IsU32 wid
    → IsU32 property
    → IsU32 type_atom
    → IsU32 long_offset
    → IsU32 long_length
    → let bytes = get_request order delete l0 l1 wid property type_atom long_offset long_length in
      (length bytes ≡ 24)
      × (u32_at order bytes 4 ≡ ok wid)
      × (u32_at order bytes 8 ≡ ok property)
      × (u32_at order bytes 12 ≡ ok type_atom)
      × (u32_at order bytes 16 ≡ ok long_offset)
      × (u32_at order bytes 20 ≡ ok long_length)
unfolding u32_at u32_bytes
get_reads big_endian d l0 l1 w p t o l hw hp ht ho hl = (
  refl,
  read_u32-u32_bytes big_endian w [] hw,
  read_u32-u32_bytes big_endian p [] hp,
  read_u32-u32_bytes big_endian t [] ht,
  read_u32-u32_bytes big_endian o [] ho,
  read_u32-u32_bytes big_endian l [] hl,
)
get_reads little_endian d l0 l1 w p t o l hw hp ht ho hl = (
  refl,
  read_u32-u32_bytes little_endian w [] hw,
  read_u32-u32_bytes little_endian p [] hp,
  read_u32-u32_bytes little_endian t [] ht,
  read_u32-u32_bytes little_endian o [] ho,
  read_u32-u32_bytes little_endian l [] hl,
)

pub change_reads :
    (order : ByteOrder) (mode l0 l1 wid : ℕ) (prop : Property) (n : ℕ)
    → IsU32 wid
    → PropertyFits prop n
    → let bytes = change_request order mode l0 l1 wid prop n in
      (length bytes ≡ 24 + length prop.bytes)
      × (u32_at order bytes 4 ≡ ok wid)
      × (u32_at order bytes 8 ≡ ok prop.name)
      × (u32_at order bytes 12 ≡ ok prop.type_atom)
      × (byte_at bytes 16 ≡ ok prop.format)
      × (u32_at order bytes 20 ≡ ok n)
      × (slice bytes 24 (24 + length prop.bytes) ≡ ok prop.bytes)
unfolding u32_bytes byte_at
change_reads big_endian mode l0 l1 wid prop n hw f = (
  omega arith,
  u32_at-append big_endian (18 ∷ mode ∷ l0 ∷ l1 ∷ []) _ wid hw,
  u32_at-append big_endian (18 ∷ mode ∷ l0 ∷ l1 ∷ u32_bytes big_endian wid) _ prop.name f.name_fits,
  u32_at-append big_endian
      (18 ∷ mode ∷ l0 ∷ l1 ∷ (u32_bytes big_endian wid ++ u32_bytes big_endian prop.name)) _
      prop.type_atom f.type_fits,
  refl,
  u32_at-append big_endian
      (18
        ∷ mode
        ∷ l0
        ∷ l1
        ∷ (u32_bytes big_endian wid
            ++ (u32_bytes big_endian prop.name
                ++ (u32_bytes big_endian prop.type_atom ++ prop.format ∷ 0 ∷ 0 ∷ 0 ∷ []))))
      _ n f.count_fits,
  unfold slice in ground (arith, take-length prop.bytes),
)
change_reads little_endian mode l0 l1 wid prop n hw f = (
  omega arith,
  u32_at-append little_endian (18 ∷ mode ∷ l0 ∷ l1 ∷ []) _ wid hw,
  u32_at-append little_endian (18 ∷ mode ∷ l0 ∷ l1 ∷ u32_bytes little_endian wid) _ prop.name
      f.name_fits,
  u32_at-append little_endian
      (18 ∷ mode ∷ l0 ∷ l1 ∷ (u32_bytes little_endian wid ++ u32_bytes little_endian prop.name)) _
      prop.type_atom f.type_fits,
  refl,
  u32_at-append little_endian
      (18
        ∷ mode
        ∷ l0
        ∷ l1
        ∷ (u32_bytes little_endian wid
            ++ (u32_bytes little_endian prop.name
                ++ (u32_bytes little_endian prop.type_atom ++ prop.format ∷ 0 ∷ 0 ∷ 0 ∷ []))))
      _ n f.count_fits,
  unfold slice in ground (arith, take-length prop.bytes),
)
