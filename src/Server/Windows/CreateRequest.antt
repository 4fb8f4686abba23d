-- ===== src/Server/Windows/CreateRequest.antt =====
-- CreateWindow as a client sends it, and what the handler reads.
use psl_xserver.Outcome.{ok}
use psl_xserver.Prelude.{List, [], arith, length, refl, ℕ, ◌++◌, ◌∷◌, ◌≡◌, ◌≤◌}
use psl_xserver.Prelude.Int.{ℤ}
use psl_xserver.Server.{byte_at}
use psl_xserver.Server.ValueLists.{bits_from, value_bytes}
use psl_xserver.Wire.{
  ByteOrder, IsI16, IsU16, IsU32, big_endian, i16_at, i16_bytes, little_endian, u16_at, u16_bytes,
  u32_at, u32_bytes,
}
use psl_xserver.Wire.RoundTrip.{i16_at-append, u16_at-append, u32_at-append}

-- The fields of the request before the values.
pub record CreateFields : Type 0 where
  pub depth : ℕ
  pub wid : ℕ
  pub parent : ℕ
  pub x : ℤ
  pub y : ℤ
  pub width : ℕ
  pub height : ℕ
  pub border_width : ℕ
  pub class : ℕ
  pub visual : ℕ
  pub value_mask : ℕ

pub record FieldsFit (q : CreateFields) : Type 0 where
  pub wid_fits : IsU32 q.wid
  pub parent_fits : IsU32 q.parent
  pub x_fits : IsI16 q.x
  pub y_fits : IsI16 q.y
  pub width_fits : IsU16 q.width
  pub height_fits : IsU16 q.height
  pub border_width_fits : IsU16 q.border_width
  pub class_fits : IsU16 q.class
  pub visual_fits : IsU32 q.visual
  pub value_mask_fits : IsU32 q.value_mask

pub create_head : ByteOrder → (l0 l1 : ℕ) → CreateFields → List ℕ
create_head order l0 l1 q =
    1
    ∷ q.depth
    ∷ l0
    ∷ l1
    ∷ (u32_bytes order q.wid
        ++ (u32_bytes order q.parent
            ++ (i16_bytes order q.x
                ++ (i16_bytes order q.y
                    ++ (u16_bytes order q.width
                        ++ (u16_bytes order q.height
                            ++ (u16_bytes order q.border_width
                                ++ (u16_bytes order q.class
                                    ++ (u32_bytes order q.visual
                                        ++ (u32_bytes order q.value_mask))))))))))

-- CreateWindow with a word for each set bit of the mask.
unfoldable pub create_request : ByteOrder → (l0 l1 : ℕ) → CreateFields → (ℕ → ℕ) → List ℕ
create_request order l0 l1 q value =
    create_head order l0 l1 q ++ (value_bytes order q.value_mask value (bits_from 0 15) ++ [])

pub create_reads :
    (order : ByteOrder) (l0 l1 : ℕ) (q : CreateFields) (rest : List ℕ)
    → FieldsFit q
    → let bytes = create_head order l0 l1 q ++ rest in
      (32 ≤ length bytes)
      × (byte_at bytes 1 ≡ ok q.depth)
      × (u32_at order bytes 4 ≡ ok q.wid)
      × (u32_at order bytes 8 ≡ ok q.parent)
      × (i16_at order bytes 12 ≡ ok q.x)
      × (i16_at order bytes 14 ≡ ok q.y)
      × (u16_at order bytes 16 ≡ ok q.width)
      × (u16_at order bytes 18 ≡ ok q.height)
      × (u16_at order bytes 20 ≡ ok q.border_width)
      × (u16_at order bytes 22 ≡ ok q.class)
      × (u32_at order bytes 24 ≡ ok q.visual)
      × (u32_at order bytes 28 ≡ ok q.value_mask)
unfolding create_head byte_at u16_bytes u32_bytes i16_bytes
create_reads big_endian l0 l1 q rest f = (
  omega arith,
  refl,
  u32_at-append big_endian (1 ∷ q.depth ∷ l0 ∷ l1 ∷ []) _ q.wid f.wid_fits,
  u32_at-append big_endian (1 ∷ q.depth ∷ l0 ∷ l1 ∷ (u32_bytes big_endian q.wid)) _ q.parent
      f.parent_fits,
  i16_at-append big_endian
      (1 ∷ q.depth ∷ l0 ∷ l1 ∷ (u32_bytes big_endian q.wid ++ (u32_bytes big_endian q.parent))) _
      q.x f.x_fits,
  i16_at-append big_endian
      (1
        ∷ q.depth
        ∷ l0
        ∷ l1
        ∷ (u32_bytes big_endian q.wid
            ++ (u32_bytes big_endian q.parent ++ (i16_bytes big_endian q.x))))
      _ q.y f.y_fits,
  u16_at-append big_endian
      (1
        ∷ q.depth
        ∷ l0
        ∷ l1
        ∷ (u32_bytes big_endian q.wid
            ++ (u32_bytes big_endian q.parent
                ++ (i16_bytes big_endian q.x ++ (i16_bytes big_endian q.y)))))
      _ q.width f.width_fits,
  u16_at-append big_endian
      (1
        ∷ q.depth
        ∷ l0
        ∷ l1
        ∷ (u32_bytes big_endian q.wid
            ++ (u32_bytes big_endian q.parent
                ++ (i16_bytes big_endian q.x
                    ++ (i16_bytes big_endian q.y ++ (u16_bytes big_endian q.width))))))
      _ q.height f.height_fits,
  u16_at-append big_endian
      (1
        ∷ q.depth
        ∷ l0
        ∷ l1
        ∷ (u32_bytes big_endian q.wid
            ++ (u32_bytes big_endian q.parent
                ++ (i16_bytes big_endian q.x
                    ++ (i16_bytes big_endian q.y
                        ++ (u16_bytes big_endian q.width ++ (u16_bytes big_endian q.height)))))))
      _ q.border_width f.border_width_fits,
  u16_at-append big_endian
      (1
        ∷ q.depth
        ∷ l0
        ∷ l1
        ∷ (u32_bytes big_endian q.wid
            ++ (u32_bytes big_endian q.parent
                ++ (i16_bytes big_endian q.x
                    ++ (i16_bytes big_endian q.y
                        ++ (u16_bytes big_endian q.width
                            ++ (u16_bytes big_endian q.height
                                ++ (u16_bytes big_endian q.border_width))))))))
      _ q.class f.class_fits,
  u32_at-append big_endian
      (1
        ∷ q.depth
        ∷ l0
        ∷ l1
        ∷ (u32_bytes big_endian q.wid
            ++ (u32_bytes big_endian q.parent
                ++ (i16_bytes big_endian q.x
                    ++ (i16_bytes big_endian q.y
                        ++ (u16_bytes big_endian q.width
                            ++ (u16_bytes big_endian q.height
                                ++ (u16_bytes big_endian q.border_width
                                    ++ (u16_bytes big_endian q.class)))))))))
      _ q.visual f.visual_fits,
  u32_at-append big_endian
      (1
        ∷ q.depth
        ∷ l0
        ∷ l1
        ∷ (u32_bytes big_endian q.wid
            ++ (u32_bytes big_endian q.parent
                ++ (i16_bytes big_endian q.x
                    ++ (i16_bytes big_endian q.y
                        ++ (u16_bytes big_endian q.width
                            ++ (u16_bytes big_endian q.height
                                ++ (u16_bytes big_endian q.border_width
                                    ++ (u16_bytes big_endian q.class
                                        ++ (u32_bytes big_endian q.visual))))))))))
      _ q.value_mask f.value_mask_fits,
)
create_reads little_endian l0 l1 q rest f = (
  omega arith,
  refl,
  u32_at-append little_endian (1 ∷ q.depth ∷ l0 ∷ l1 ∷ []) _ q.wid f.wid_fits,
  u32_at-append little_endian (1 ∷ q.depth ∷ l0 ∷ l1 ∷ (u32_bytes little_endian q.wid)) _ q.parent
      f.parent_fits,
  i16_at-append little_endian
      (1
        ∷ q.depth
        ∷ l0
        ∷ l1
        ∷ (u32_bytes little_endian q.wid ++ (u32_bytes little_endian q.parent)))
      _ q.x f.x_fits,
  i16_at-append little_endian
      (1
        ∷ q.depth
        ∷ l0
        ∷ l1
        ∷ (u32_bytes little_endian q.wid
            ++ (u32_bytes little_endian q.parent ++ (i16_bytes little_endian q.x))))
      _ q.y f.y_fits,
  u16_at-append little_endian
      (1
        ∷ q.depth
        ∷ l0
        ∷ l1
        ∷ (u32_bytes little_endian q.wid
            ++ (u32_bytes little_endian q.parent
                ++ (i16_bytes little_endian q.x ++ (i16_bytes little_endian q.y)))))
      _ q.width f.width_fits,
  u16_at-append little_endian
      (1
        ∷ q.depth
        ∷ l0
        ∷ l1
        ∷ (u32_bytes little_endian q.wid
            ++ (u32_bytes little_endian q.parent
                ++ (i16_bytes little_endian q.x
                    ++ (i16_bytes little_endian q.y ++ (u16_bytes little_endian q.width))))))
      _ q.height f.height_fits,
  u16_at-append little_endian
      (1
        ∷ q.depth
        ∷ l0
        ∷ l1
        ∷ (u32_bytes little_endian q.wid
            ++ (u32_bytes little_endian q.parent
                ++ (i16_bytes little_endian q.x
                    ++ (i16_bytes little_endian q.y
                        ++ (u16_bytes little_endian q.width
                            ++ (u16_bytes little_endian q.height)))))))
      _ q.border_width f.border_width_fits,
  u16_at-append little_endian
      (1
        ∷ q.depth
        ∷ l0
        ∷ l1
        ∷ (u32_bytes little_endian q.wid
            ++ (u32_bytes little_endian q.parent
                ++ (i16_bytes little_endian q.x
                    ++ (i16_bytes little_endian q.y
                        ++ (u16_bytes little_endian q.width
                            ++ (u16_bytes little_endian q.height
                                ++ (u16_bytes little_endian q.border_width))))))))
      _ q.class f.class_fits,
  u32_at-append little_endian
      (1
        ∷ q.depth
        ∷ l0
        ∷ l1
        ∷ (u32_bytes little_endian q.wid
            ++ (u32_bytes little_endian q.parent
                ++ (i16_bytes little_endian q.x
                    ++ (i16_bytes little_endian q.y
                        ++ (u16_bytes little_endian q.width
                            ++ (u16_bytes little_endian q.height
                                ++ (u16_bytes little_endian q.border_width
                                    ++ (u16_bytes little_endian q.class)))))))))
      _ q.visual f.visual_fits,
  u32_at-append little_endian
      (1
        ∷ q.depth
        ∷ l0
        ∷ l1
        ∷ (u32_bytes little_endian q.wid
            ++ (u32_bytes little_endian q.parent
                ++ (i16_bytes little_endian q.x
                    ++ (i16_bytes little_endian q.y
                        ++ (u16_bytes little_endian q.width
                            ++ (u16_bytes little_endian q.height
                                ++ (u16_bytes little_endian q.border_width
                                    ++ (u16_bytes little_endian q.class
                                        ++ (u32_bytes little_endian q.visual))))))))))
      _ q.value_mask f.value_mask_fits,
)

pub length-create_head :
    (order : ByteOrder) (l0 l1 : ℕ) (q : CreateFields) → length (create_head order l0 l1 q) ≡ 32
unfolding create_head u16_bytes u32_bytes i16_bytes
length-create_head big_endian l0 l1 q = refl
length-create_head little_endian l0 l1 q = refl
