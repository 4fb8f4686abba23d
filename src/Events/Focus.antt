-- ===== src/Events/Focus.antt =====
-- The focus events of src/server/mod.rs and the queue of a connection.
use psl_xserver.Connection.{ClientConnection, EventData, current_request_sequence}
use psl_xserver.Events.{build_focus_event, builder}
use psl_xserver.Events.Fields.{seq-IsU16}
use psl_xserver.Outcome.{ok}
use psl_xserver.Prelude.{List, [], get_elem?, length, refl, some, ℕ, ◌≡◌}
use psl_xserver.Wire.{ByteOrder, IsU32, big_endian, little_endian, u16_at, u32_at}
use psl_xserver.Wire.RoundTrip.{read_u16-u16_bytes, read_u32-u32_bytes}

-- What waits in the queue of a connection does not show in its events.
pub build_focus_event-event_tx :
    (conn : ClientConnection) (queue : List EventData) (event_type wid : ℕ)
    → build_focus_event (record conn { event_tx = queue }) event_type wid
      ≡ build_focus_event conn event_type wid
unfolding build_focus_event builder current_request_sequence
build_focus_event-event_tx conn queue event_type wid = refl

-- A focus event as a client of a byte order reads it: its code, the detail, the sequence number, the
-- window and the mode.
abbrev pub IsFocusEvent : ByteOrder → (seq event_type wid : ℕ) → List ℕ → Type 0
IsFocusEvent order seq event_type wid event =
    (length event ≡ 32)
    × (get_elem? event 0 ≡ some event_type)
    × (get_elem? event 1 ≡ some 0)
    × (u16_at order event 2 ≡ ok seq)
    × (u32_at order event 4 ≡ ok wid)
    × (get_elem? event 8 ≡ some 0)

focus_fields :
    (order : ByteOrder) (conn : ClientConnection) (event_type wid : ℕ)
    → IsU32 wid
    → let c = record conn { byte_order = order } in
      IsFocusEvent order
        (current_request_sequence c)
        event_type
        wid
        (build_focus_event c event_type wid)
unfolding build_focus_event u16_at u32_at
focus_fields big_endian conn event_type wid h = (
  refl,
  refl,
  refl,
  read_u16-u16_bytes big_endian _ [] (seq-IsU16 conn),
  read_u32-u32_bytes big_endian wid [] h,
  refl,
)
focus_fields little_endian conn event_type wid h = (
  refl,
  refl,
  refl,
  read_u16-u16_bytes little_endian _ [] (seq-IsU16 conn),
  read_u32-u32_bytes little_endian wid [] h,
  refl,
)

pub build_focus_event-IsFocusEvent :
    (conn : ClientConnection) (event_type wid : ℕ)
    → IsU32 wid
    → IsFocusEvent conn.byte_order
        (current_request_sequence conn)
        event_type
        wid
        (build_focus_event conn event_type wid)
build_focus_event-IsFocusEvent conn event_type wid h =
    focus_fields conn.byte_order conn event_type wid h
