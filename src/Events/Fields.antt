-- ===== src/Events/Fields.antt =====
-- Where a client that reads in its own byte order finds each field of an event.
use psl_xserver.Connection.{ClientConnection, current_request_sequence}
use psl_xserver.Events.{KeyEvent, build_configure_notify, build_key_event, flag}
use psl_xserver.Outcome.{ok}
use psl_xserver.Prelude.{
  Bool, List, [], arith, drop, get_elem?, length, refl, some, take, ℕ, ◌∷◌, ◌≡◌,
}
use psl_xserver.Prelude.Int.{ℤ}
use psl_xserver.Wire.{
  ByteOrder, IsI16, IsU16, IsU32, big_endian, i16_at, little_endian, set_event_sequence, u16_at,
  u32_at,
}
use psl_xserver.Wire.RoundTrip.{read_i16-i16_bytes, read_u16-u16_bytes, read_u32-u32_bytes}

-- The layout of the protocol: what a client with the connection's byte order reads in the event.
abbrev pub HasKeyFields : ClientConnection → KeyEvent → List ℕ → Type 0
HasKeyFields conn k event =
    (length event ≡ 32)
    × (get_elem? event 0 ≡ some k.event_type)
    × (get_elem? event 1 ≡ some k.keycode)
    × (u16_at conn.byte_order event 2 ≡ ok (current_request_sequence conn))
    × (u32_at conn.byte_order event 4 ≡ ok k.time)
    × (u32_at conn.byte_order event 8 ≡ ok k.root)
    × (u32_at conn.byte_order event 12 ≡ ok k.event_window)
    × (u32_at conn.byte_order event 16 ≡ ok k.child)
    × (i16_at conn.byte_order event 20 ≡ ok k.root_x)
    × (i16_at conn.byte_order event 22 ≡ ok k.root_y)
    × (i16_at conn.byte_order event 24 ≡ ok k.event_x)
    × (i16_at conn.byte_order event 26 ≡ ok k.event_y)
    × (u16_at conn.byte_order event 28 ≡ ok k.state)
    × (get_elem? event 30 ≡ some (flag k.same_screen))

-- The values that fit the fields of a key event.
pub record KeyFits (k : KeyEvent) : Type 0 where
  pub time : IsU32 k.time
  pub root : IsU32 k.root
  pub event_window : IsU32 k.event_window
  pub child : IsU32 k.child
  pub root_x : IsI16 k.root_x
  pub root_y : IsI16 k.root_y
  pub event_x : IsI16 k.event_x
  pub event_y : IsI16 k.event_y
  pub state : IsU16 k.state

pub seq-IsU16 : (conn : ClientConnection) → IsU16 (current_request_sequence conn)
unfolding current_request_sequence
seq-IsU16 conn = omega arith

key_fields :
    (order : ByteOrder) (conn : ClientConnection) (k : KeyEvent)
    → KeyFits k
    → let c = record conn { byte_order = order } in HasKeyFields c k (build_key_event c k)
unfolding build_key_event u16_at u32_at i16_at
key_fields big_endian conn k f = (
  refl,
  refl,
  refl,
  read_u16-u16_bytes big_endian _ [] (seq-IsU16 conn),
  read_u32-u32_bytes big_endian k.time [] f.time,
  read_u32-u32_bytes big_endian k.root [] f.root,
  read_u32-u32_bytes big_endian k.event_window [] f.event_window,
  read_u32-u32_bytes big_endian k.child [] f.child,
  read_i16-i16_bytes big_endian k.root_x [] f.root_x,
  read_i16-i16_bytes big_endian k.root_y [] f.root_y,
  read_i16-i16_bytes big_endian k.event_x [] f.event_x,
  read_i16-i16_bytes big_endian k.event_y [] f.event_y,
  read_u16-u16_bytes big_endian k.state [] f.state,
  refl,
)
key_fields little_endian conn k f = (
  refl,
  refl,
  refl,
  read_u16-u16_bytes little_endian _ [] (seq-IsU16 conn),
  read_u32-u32_bytes little_endian k.time [] f.time,
  read_u32-u32_bytes little_endian k.root [] f.root,
  read_u32-u32_bytes little_endian k.event_window [] f.event_window,
  read_u32-u32_bytes little_endian k.child [] f.child,
  read_i16-i16_bytes little_endian k.root_x [] f.root_x,
  read_i16-i16_bytes little_endian k.root_y [] f.root_y,
  read_i16-i16_bytes little_endian k.event_x [] f.event_x,
  read_i16-i16_bytes little_endian k.event_y [] f.event_y,
  read_u16-u16_bytes little_endian k.state [] f.state,
  refl,
)

-- A key event whose values fit has 32 bytes, and whatever the byte order, a client reads back
-- every field at the offset of the protocol, and the sequence number of the current request.
pub build_key_event_fields :
    (conn : ClientConnection) (k : KeyEvent)
    → KeyFits k
    → HasKeyFields conn k (build_key_event conn k)
build_key_event_fields conn k f = key_fields conn.byte_order conn k f

-- The layout of ConfigureNotify.
abbrev pub HasConfigureFields :
    ClientConnection
    → (event_window window above_sibling : ℕ) (x y : ℤ) (width height border_width : ℕ) → Bool
    → List ℕ
    → Type 0
HasConfigureFields conn event_window window above_sibling x y width height border_width
      override_redirect event =
    (length event ≡ 32)
    × (get_elem? event 0 ≡ some 22)
    × (u16_at conn.byte_order event 2 ≡ ok (current_request_sequence conn))
    × (u32_at conn.byte_order event 4 ≡ ok event_window)
    × (u32_at conn.byte_order event 8 ≡ ok window)
    × (u32_at conn.byte_order event 12 ≡ ok above_sibling)
    × (i16_at conn.byte_order event 16 ≡ ok x)
    × (i16_at conn.byte_order event 18 ≡ ok y)
    × (u16_at conn.byte_order event 20 ≡ ok width)
    × (u16_at conn.byte_order event 22 ≡ ok height)
    × (u16_at conn.byte_order event 24 ≡ ok border_width)
    × (get_elem? event 26 ≡ some (flag override_redirect))

-- The values that fit the fields of a ConfigureNotify or an Expose.
pub record GeometryFits (x y : ℤ) (width height border_width : ℕ) : Type 0 where
  pub x_fits : IsI16 x
  pub y_fits : IsI16 y
  pub width_fits : IsU16 width
  pub height_fits : IsU16 height
  pub border_width_fits : IsU16 border_width

configure_fields :
    (order : ByteOrder) (conn : ClientConnection) (event_window window above_sibling : ℕ) (x y : ℤ)
    (width height border_width : ℕ) (override_redirect : Bool)
    → IsU32 event_window
    → IsU32 window
    → IsU32 above_sibling
    → GeometryFits x y width height border_width
    → let c = record conn { byte_order = order } in
      HasConfigureFields c event_window window above_sibling x y width height border_width
        override_redirect
        (build_configure_notify c event_window window above_sibling x y width height border_width
          override_redirect)
unfolding build_configure_notify u16_at u32_at i16_at
configure_fields big_endian conn e w a x y width height bw o he hw ha g = (
  refl,
  refl,
  read_u16-u16_bytes big_endian _ [] (seq-IsU16 conn),
  read_u32-u32_bytes big_endian e [] he,
  read_u32-u32_bytes big_endian w [] hw,
  read_u32-u32_bytes big_endian a [] ha,
  read_i16-i16_bytes big_endian x [] g.x_fits,
  read_i16-i16_bytes big_endian y [] g.y_fits,
  read_u16-u16_bytes big_endian width [] g.width_fits,
  read_u16-u16_bytes big_endian height [] g.height_fits,
  read_u16-u16_bytes big_endian bw [] g.border_width_fits,
  refl,
)
configure_fields little_endian conn e w a x y width height bw o he hw ha g = (
  refl,
  refl,
  read_u16-u16_bytes little_endian _ [] (seq-IsU16 conn),
  read_u32-u32_bytes little_endian e [] he,
  read_u32-u32_bytes little_endian w [] hw,
  read_u32-u32_bytes little_endian a [] ha,
  read_i16-i16_bytes little_endian x [] g.x_fits,
  read_i16-i16_bytes little_endian y [] g.y_fits,
  read_u16-u16_bytes little_endian width [] g.width_fits,
  read_u16-u16_bytes little_endian height [] g.height_fits,
  read_u16-u16_bytes little_endian bw [] g.border_width_fits,
  refl,
)

-- A client reads back every field of a ConfigureNotify whose values fit, in its own byte order.
pub build_configure_notify_fields :
    (conn : ClientConnection) (event_window window above_sibling : ℕ) (x y : ℤ)
    (width height border_width : ℕ) (override_redirect : Bool)
    → IsU32 event_window
    → IsU32 window
    → IsU32 above_sibling
    → GeometryFits x y width height border_width
    → HasConfigureFields conn event_window window above_sibling x y width height border_width
        override_redirect
        (build_configure_notify conn event_window window above_sibling x y width height border_width
          override_redirect)
build_configure_notify_fields conn = configure_fields conn.byte_order conn

-- Stamping an event with a 16-bit sequence number again makes a client with that byte order read that
-- number, and leaves the event's code, the byte after it, and everything behind the number alone.
pub set_event_sequence_lem :
    (order : ByteOrder) (a b c d : ℕ) (rest : List ℕ) (seq : ℕ)
    → IsU16 seq
    → let event = set_event_sequence order (a ∷ b ∷ c ∷ d ∷ rest) seq in
      (u16_at order event 2 ≡ ok seq) × (take 2 event ≡ a ∷ b ∷ []) × (drop 4 event ≡ rest)
unfolding set_event_sequence u16_at
set_event_sequence_lem big_endian a b c d rest seq h = (ground arith, refl, refl)
set_event_sequence_lem little_endian a b c d rest seq h = (ground arith, refl, refl)
