-- ===== src/Server/GcRequests/Values.antt =====
-- What the requests leave in a graphics context.
use psl_xserver.Connection.{ClientConnection}
use psl_xserver.Outcome.{ok}
use psl_xserver.Prelude.{
  List, [], arith, false, if◌then◌else◌, leb, length, ltb, not, refl, some, subst, true, ℕ, ◌%◌,
  ◌++◌, ◌+◌, ◌==◌, ◌^◌, ◌∷◌, ◌≡◌, ◌≤◌,
}
use psl_xserver.Prelude.Assoc.{bytes_eq, insert, lookup, nat_eq}
use psl_xserver.Prelude.Bits.{test_bit}
use psl_xserver.Resources.{GContextState, gc_function, gcontext}
use psl_xserver.Server.{XServer}
use psl_xserver.Server.GcRequests.{
  as_gcontext, handle_change_gc, parse_gc_bits, parse_gc_values, set_gc_value,
}
use psl_xserver.Server.ValueLists.{
  apply_values, bits_from, field-apply_values, reads_values, value_bytes,
}
use psl_xserver.Wire.{ByteOrder, IsU32, big_endian, little_endian, u32_at, u32_bytes}
use psl_xserver.Wire.RoundTrip.{u32_at-append}

-- ChangeGC as a client sends it: the opcode, three bytes that are not read, the id, the mask and a
-- word for each set bit.
change_gc_head : ByteOrder → (pad l0 l1 gcid mask : ℕ) → List ℕ
change_gc_head order pad l0 l1 gcid mask =
    56 ∷ pad ∷ l0 ∷ l1 ∷ (u32_bytes order gcid ++ u32_bytes order mask)

pub change_gc_request : ByteOrder → (pad l0 l1 gcid mask : ℕ) → (ℕ → ℕ) → List ℕ
change_gc_request order pad l0 l1 gcid mask value =
    change_gc_head order pad l0 l1 gcid mask
    ++ (value_bytes order mask value (bits_from 0 23) ++ [])

-- The context after the values of the set bits are stored in the order of the bits.
abbrev pub with_values : (mask : ℕ) → (ℕ → ℕ) → GContextState → GContextState
with_values mask value gc = apply_values set_gc_value mask value (bits_from 0 23) gc

parse_gc_bits-set :
    (order : ByteOrder) (mask : ℕ) (d : List ℕ) (o : ℕ) (gc : GContextState) (bit : ℕ)
    (bits : List ℕ) (v : ℕ)
    → test_bit mask bit ≡ true
    → o + 4 ≤ length d
    → u32_at order d o ≡ ok v
    → parse_gc_bits order d o mask gc (bit ∷ bits)
      ≡ parse_gc_bits order d (o + 4) mask (set_gc_value bit v gc) bits
unfolding parse_gc_bits
parse_gc_bits-set order mask d o gc bit bits v is_set fits word =
    let long : ltb (length d) (o + 4) ≡ false = ground arith in rw (is_set, long, word) refl

parse_gc_bits-unset :
    (order : ByteOrder) (mask : ℕ) (d : List ℕ) (o : ℕ) (gc : GContextState) (bit : ℕ)
    (bits : List ℕ)
    → test_bit mask bit ≡ false
    → parse_gc_bits order d o mask gc (bit ∷ bits) ≡ parse_gc_bits order d o mask gc bits
unfolding parse_gc_bits
parse_gc_bits-unset order mask d o gc bit bits unset = rw unset refl

parse_gc_values-value_bytes :
    (order : ByteOrder) (front : List ℕ) (mask : ℕ) (value : ℕ → ℕ) (gc : GContextState)
    → ((bit : ℕ) → IsU32 (value bit))
    → parse_gc_values order
        (front ++ (value_bytes order mask value (bits_from 0 23) ++ []))
        (length front)
        mask
        gc
      ≡ ok (with_values mask value gc)
unfolding parse_gc_values
parse_gc_values-value_bytes order front mask value gc fits =
    reads_values order mask set_gc_value (λ d o a bits. parse_gc_bits order d o mask a bits)
      (λ d o a. unfold parse_gc_bits in refl) (parse_gc_bits-unset order mask)
      (parse_gc_bits-set order mask) front [] value gc (bits_from 0 23) fits

change_gc_reads :
    (order : ByteOrder) (pad l0 l1 gcid mask : ℕ) (value : ℕ → ℕ)
    → IsU32 gcid
    → IsU32 mask
    → let bytes = change_gc_request order pad l0 l1 gcid mask value in
      (12 ≤ length bytes) × (u32_at order bytes 4 ≡ ok gcid) × (u32_at order bytes 8 ≡ ok mask)
unfolding change_gc_request change_gc_head u32_bytes
change_gc_reads big_endian pad l0 l1 gcid mask value hg hm = (
  omega arith,
  u32_at-append big_endian (56 ∷ pad ∷ l0 ∷ l1 ∷ []) _ gcid hg,
  u32_at-append big_endian (56 ∷ pad ∷ l0 ∷ l1 ∷ u32_bytes big_endian gcid) _ mask hm,
)
change_gc_reads little_endian pad l0 l1 gcid mask value hg hm = (
  omega arith,
  u32_at-append little_endian (56 ∷ pad ∷ l0 ∷ l1 ∷ []) _ gcid hg,
  u32_at-append little_endian (56 ∷ pad ∷ l0 ∷ l1 ∷ u32_bytes little_endian gcid) _ mask hm,
)

length-change_gc_head :
    (order : ByteOrder) (pad l0 l1 gcid mask : ℕ)
    → length (change_gc_head order pad l0 l1 gcid mask) ≡ 12
unfolding change_gc_head u32_bytes
length-change_gc_head big_endian pad l0 l1 gcid mask = refl
length-change_gc_head little_endian pad l0 l1 gcid mask = refl

parse_gc_values-change_gc_request :
    (order : ByteOrder) (pad l0 l1 gcid mask : ℕ) (value : ℕ → ℕ) (gc : GContextState)
    → ((bit : ℕ) → IsU32 (value bit))
    → parse_gc_values order (change_gc_request order pad l0 l1 gcid mask value) 12 mask gc
      ≡ ok (with_values mask value gc)
unfolding change_gc_request
parse_gc_values-change_gc_request order pad l0 l1 gcid mask value gc fits =
    subst
      (λ start.
        parse_gc_values order (change_gc_request order pad l0 l1 gcid mask value) start mask gc
        ≡ ok (with_values mask value gc))
      (length-change_gc_head order pad l0 l1 gcid mask)
      (parse_gc_values-value_bytes order (change_gc_head order pad l0 l1 gcid mask) mask value gc
        fits)

-- The eight attributes that the server keeps, after the values of a mask: the value of its bit, cut to
-- the attribute's width, if the bit is set, and the old one if not. No other bit touches them.
abbrev pub Stores : (mask : ℕ) → (ℕ → ℕ) → (gc gc' : GContextState) → Type 0
Stores mask value gc gc' =
    (gc'.function ≡ (if test_bit mask 0 then gc_function (value 0 % 2 ^ 8) else gc.function))
    × (gc'.plane_mask ≡ (if test_bit mask 1 then value 1 else gc.plane_mask))
    × (gc'.foreground ≡ (if test_bit mask 2 then value 2 else gc.foreground))
    × (gc'.background ≡ (if test_bit mask 3 then value 3 else gc.background))
    × (gc'.line_width ≡ (if test_bit mask 4 then value 4 % 2 ^ 16 else gc.line_width))
    × (gc'.line_style ≡ (if test_bit mask 5 then value 5 % 2 ^ 8 else gc.line_style))
    × (gc'.font ≡ (if test_bit mask 14 then value 14 else gc.font))
    × (gc'.graphics_exposures
        ≡ (if test_bit mask 16 then not (value 16 == 0) else gc.graphics_exposures))

pub with_values_fields :
    (mask : ℕ) (value : ℕ → ℕ) (gc : GContextState)
    → ((with_values mask value gc).function
        ≡ (if test_bit mask 0 then gc_function (value 0 % 2 ^ 8) else gc.function))
      × ((with_values mask value gc).plane_mask
          ≡ (if test_bit mask 1 then value 1 else gc.plane_mask))
      × ((with_values mask value gc).foreground
          ≡ (if test_bit mask 2 then value 2 else gc.foreground))
      × ((with_values mask value gc).background
          ≡ (if test_bit mask 3 then value 3 else gc.background))
      × ((with_values mask value gc).line_width
          ≡ (if test_bit mask 4 then value 4 % 2 ^ 16 else gc.line_width))
      × ((with_values mask value gc).line_style
          ≡ (if test_bit mask 5 then value 5 % 2 ^ 8 else gc.line_style))
      × ((with_values mask value gc).font ≡ (if test_bit mask 14 then value 14 else gc.font))
      × ((with_values mask value gc).graphics_exposures
          ≡ (if test_bit mask 16 then not (value 16 == 0) else gc.graphics_exposures))
unfolding set_gc_value
with_values_fields mask value gc = (
  field-apply_values set_gc_value (λ (g : GContextState). g.function) (λ v. gc_function (v % 2 ^ 8))
      0 (λ v a. refl) (λ bit v a other. ground arith) mask value (bits_from 0 23) gc,
  field-apply_values set_gc_value (λ (g : GContextState). g.plane_mask) (λ v. v) 1 (λ v a. refl)
      (λ bit v a other. ground arith) mask value (bits_from 0 23) gc,
  field-apply_values set_gc_value (λ (g : GContextState). g.foreground) (λ v. v) 2 (λ v a. refl)
      (λ bit v a other. ground arith) mask value (bits_from 0 23) gc,
  field-apply_values set_gc_value (λ (g : GContextState). g.background) (λ v. v) 3 (λ v a. refl)
      (λ bit v a other. ground arith) mask value (bits_from 0 23) gc,
  field-apply_values set_gc_value (λ (g : GContextState). g.line_width) (λ v. v % 2 ^ 16) 4
      (λ v a. refl) (λ bit v a other. ground arith) mask value (bits_from 0 23) gc,
  field-apply_values set_gc_value (λ (g : GContextState). g.line_style) (λ v. v % 2 ^ 8) 5
      (λ v a. refl) (λ bit v a other. ground arith) mask value (bits_from 0 23) gc,
  field-apply_values set_gc_value (λ (g : GContextState). g.font) (λ v. v) 14 (λ v a. refl)
      (λ bit v a other. ground arith) mask value (bits_from 0 23) gc,
  field-apply_values set_gc_value (λ (g : GContextState). g.graphics_exposures) (λ v. not (v == 0))
      16 (λ v a. refl) (λ bit v a other. ground arith) mask value (bits_from 0 23) gc,
)

-- ChangeGC of an existing graphics context, with any mask and a value of 32 bits for each set bit,
-- succeeds, writes nothing, and stores in the table a context in which each of the eight attributes
-- that the server keeps (bits 0 to 5, 14 and 16) has the value of its bit if that is set, cut to
-- the attribute's width, and is as before if not, whatever the byte order. The values of all
-- other bits are read past and dropped.
pub handle_change_gc_lem :
    (server : XServer) (conn : ClientConnection) (pad l0 l1 gcid mask : ℕ) (value : ℕ → ℕ)
    (gc : GContextState)
    → as_gcontext (lookup gcid server.resources) ≡ some gc
    → IsU32 gcid
    → IsU32 mask
    → ((bit : ℕ) → IsU32 (value bit))
    → (gc' : GContextState) × (handle_change_gc server conn
          (change_gc_request conn.byte_order pad l0 l1 gcid mask value)
        ≡ ok (record server { resources = insert gcid (gcontext gc') server.resources }, []))
      × Stores mask value gc gc'
unfolding handle_change_gc
handle_change_gc_lem server conn pad l0 l1 gcid mask value gc found hg hm fits =
    let (size, at4, at8) = change_gc_reads conn.byte_order pad l0 l1 gcid mask value hg hm in
    let long : leb 12 (length (change_gc_request conn.byte_order pad l0 l1 gcid mask value))
        ≡ true =
      ground arith in
    let parsed =
      parse_gc_values-change_gc_request conn.byte_order pad l0 l1 gcid mask value gc fits in
    (
      with_values mask value gc,
      rw (long, at4, at8, found, parsed) refl,
      with_values_fields mask value gc,
    )
