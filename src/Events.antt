-- ===== src/Events.antt =====
-- The 32-byte events: src/server/events.rs and the event codes of src/server/protocol.rs.
pub mod Fields
pub mod Focus
mod Tests
use psl_xserver.Connection.{ClientConnection, current_request_sequence}
use psl_xserver.Prelude.{Bool, List, if◌then◌else◌, replicate, set, ℕ}
use psl_xserver.Prelude.Int.{ℤ}
use psl_xserver.Wire.{ByteOrder, i16_bytes, store, u16_bytes, u32_bytes}

abbrev expose_code : ℕ
expose_code = 12

abbrev map_notify_code : ℕ
map_notify_code = 19

abbrev configure_notify_code : ℕ
configure_notify_code = 22

abbrev client_message_code : ℕ
client_message_code = 33

pub record EventBuilder : Type 0 where
  pub order : ByteOrder
  pub buf : List ℕ

-- A zeroed buffer with the event code and the current sequence number.
builder : ClientConnection → ℕ → EventBuilder
unfolding store u16_bytes current_request_sequence
builder conn event_type = record {
  order = conn.byte_order;
  buf =
      store (set (replicate 32 0) 0 event_type) 2
        (u16_bytes conn.byte_order (current_request_sequence conn));
}

-- The builder comes last, so that calls are chained by `|>`.
set_u8 : ℕ → ℕ → EventBuilder → EventBuilder
set_u8 offset v eb = record eb { buf = set eb.buf offset v }

set_u16 : ℕ → ℕ → EventBuilder → EventBuilder
unfolding store u16_bytes
set_u16 offset v eb = record eb { buf = store eb.buf offset (u16_bytes eb.order v) }

set_i16 : ℕ → ℤ → EventBuilder → EventBuilder
unfolding store i16_bytes
set_i16 offset v eb = record eb { buf = store eb.buf offset (i16_bytes eb.order v) }

set_u32 : ℕ → ℕ → EventBuilder → EventBuilder
unfolding store u32_bytes
set_u32 offset v eb = record eb { buf = store eb.buf offset (u32_bytes eb.order v) }

infixl 5 ◌|>◌
abbrev ◌|>◌ : EventBuilder → (EventBuilder → EventBuilder) → EventBuilder
eb |> f = f eb

abbrev pub flag : Bool → ℕ
flag b = if b then 1 else 0

-- What a key event carries.
pub record KeyEvent : Type 0 where
  pub event_type : ℕ
  pub keycode : ℕ
  pub time : ℕ
  pub root : ℕ
  pub event_window : ℕ
  pub child : ℕ
  pub root_x : ℤ
  pub root_y : ℤ
  pub event_x : ℤ
  pub event_y : ℤ
  pub state : ℕ
  pub same_screen : Bool

pub build_key_event : ClientConnection → KeyEvent → List ℕ
unfolding builder set_u8 set_u16 set_i16 set_u32
build_key_event conn k =
    (builder conn k.event_type
      |> set_u8 1 k.keycode
      |> set_u32 4 k.time
      |> set_u32 8 k.root
      |> set_u32 12 k.event_window
      |> set_u32 16 k.child
      |> set_i16 20 k.root_x
      |> set_i16 22 k.root_y
      |> set_i16 24 k.event_x
      |> set_i16 26 k.event_y
      |> set_u16 28 k.state
      |> set_u8 30 (flag k.same_screen)).buf

build_expose_event : ClientConnection → (window x y width height count : ℕ) → List ℕ
unfolding builder set_u16 set_u32
build_expose_event conn window x y width height count =
    (builder conn expose_code
      |> set_u32 4 window
      |> set_u16 8 x
      |> set_u16 10 y
      |> set_u16 12 width
      |> set_u16 14 height
      |> set_u16 16 count).buf

pub build_configure_notify :
    ClientConnection
    → (event_window window above_sibling : ℕ) (x y : ℤ) (width height border_width : ℕ) → Bool
    → List ℕ
unfolding builder set_u8 set_u16 set_i16 set_u32
build_configure_notify conn event_window window above_sibling x y width height border_width
      override_redirect =
    (builder conn configure_notify_code
      |> set_u32 4 event_window
      |> set_u32 8 window
      |> set_u32 12 above_sibling
      |> set_i16 16 x
      |> set_i16 18 y
      |> set_u16 20 width
      |> set_u16 22 height
      |> set_u16 24 border_width
      |> set_u8 26 (flag override_redirect)).buf

build_map_notify : ClientConnection → (event_window window : ℕ) → Bool → List ℕ
unfolding builder set_u8 set_u32
build_map_notify conn event_window window override_redirect =
    (builder conn map_notify_code
      |> set_u32 4 event_window
      |> set_u32 8 window
      |> set_u8 12 (flag override_redirect)).buf

-- The five words of data are five arguments.
build_client_message : ClientConnection → (format window message_type d0 d1 d2 d3 d4 : ℕ) → List ℕ
unfolding builder set_u8 set_u32
build_client_message conn format window message_type d0 d1 d2 d3 d4 =
    (builder conn client_message_code
      |> set_u8 1 format
      |> set_u32 4 window
      |> set_u32 8 message_type
      |> set_u32 12 d0
      |> set_u32 16 d1
      |> set_u32 20 d2
      |> set_u32 24 d3
      |> set_u32 28 d4).buf

-- A focus event of src/server/mod.rs, `send_focus_event`: the window itself, in the normal mode.
pub build_focus_event : ClientConnection → (event_type window : ℕ) → List ℕ
unfolding builder set_u8 set_u32
build_focus_event conn event_type window =
    (builder conn event_type |> set_u8 1 0 |> set_u32 4 window |> set_u8 8 0).buf
