-- ===== src/Server/PropertyRequests.antt =====
-- The property requests: src/server/connection.rs, `handle_change_property`,
-- `send_icon_from_property`, `handle_get_property`, `handle_delete_property` and
-- `handle_list_properties`.
pub mod Requests
pub mod Store
pub mod Reported
pub mod RoundTrip
mod Tests
use psl_xserver.Atoms.{get_name}
use psl_xserver.Connection.{ClientConnection, current_request_sequence}
use psl_xserver.Outcome.{Result, err, ok, protocol, require, slice, ◌>>=◌, ◌>>◌}
use psl_xserver.Prelude.{
  List, Option, [], if◌then◌else◌, leb, length, map, min, none, not, replicate, some, unwrap_or, ℕ,
  ◌&&◌, ◌*◌, ◌++◌, ◌+◌, ◌-◌, ◌/◌, ◌==◌, ◌∷◌,
}
use psl_xserver.Prelude.Assoc.{bytes_eq, lookup, nat_eq}
use psl_xserver.Resources.{Property, delete_property, get_property, set_property}
use psl_xserver.Server.{
  Reply, XServer, all_words, byte_at, find_window, pad_of, put_window, update_window,
}
use psl_xserver.Server.NativeHints.{answer_clipboard, follow_icon, follow_title}
use psl_xserver.Wire.{ByteOrder, u16_bytes, u32_at, u32_bytes}

-- `8 => 1, 16 => 2, 32 => 4`.
abbrev pub bytes_per_element : ℕ → Option ℕ
bytes_per_element format =
    if format == 8
    then some 1
    else if format == 16
    then some 2
    else if format == 32
    then some 4
    else none

-- The window gets the property, and the native window follows.
pub store_property : ByteOrder → ℕ → List ℕ → Property → XServer → XServer
store_property order wid prop_name prop server = elim (find_window server wid) [
  | none ↦ server
  | some w ↦
      let w' = set_property prop w in
      follow_icon order prop.name prop_name prop.format w'
        (follow_title prop.name prop_name w' (put_window wid w' server))
]

-- The mode (replace, prepend or append) is read by nothing: every change replaces.
pub handle_change_property : XServer → ClientConnection → List ℕ → Reply
handle_change_property server conn request_data = do
  require (leb 24 (length request_data)) protocol
  wid ← u32_at conn.byte_order request_data 4
  property ← u32_at conn.byte_order request_data 8
  type_atom ← u32_at conn.byte_order request_data 12
  format ← byte_at request_data 16
  num_elements ← u32_at conn.byte_order request_data 20
  width ← elim (bytes_per_element format) [ some n ↦ ok n | none ↦ err protocol ]
  require (leb (24 + num_elements * width) (length request_data)) protocol
  prop_data ← slice request_data 24 (24 + num_elements * width)
  let prop_name = unwrap_or [] (get_name property server.atoms)
  let prop : Property = record {
    name = property;
    type_atom = type_atom;
    format = format;
    bytes = prop_data;
  }
  ok (
    store_property conn.byte_order wid prop_name prop (answer_clipboard prop_name prop_data server),
    [],
  )

-- The 32 bytes before the value: format, length in words, type, bytes left and length in elements.
pub property_header : ByteOrder → (seq format words type_atom remaining elements : ℕ) → List ℕ
property_header order seq format words type_atom remaining elements =
    1
    ∷ format
    ∷ (u16_bytes order seq
        ++ (u32_bytes order words
            ++ (u32_bytes order type_atom
                ++ (u32_bytes order remaining ++ (u32_bytes order elements ++ replicate 12 0)))))

pub elements_of : ℕ → ℕ → ℕ
elements_of format bytes =
    if format == 8
    then bytes
    else if format == 16
    then bytes / 2
    else if format == 32
    then bytes / 4
    else 0

-- The reply for a property that is there and of the type asked for. A slice that begins behind the
-- value panics.
pub value_reply : ByteOrder → ℕ → Property → ℕ → ℕ → Result (List ℕ)
value_reply order seq prop long_offset long_length = do
  let byte_offset = long_offset * 4
  let available = length prop.bytes - byte_offset
  let actual = min available (long_length * 4)
  let remaining = length prop.bytes - (byte_offset + actual)
  value ← slice prop.bytes byte_offset (byte_offset + actual)
  ok (
      property_header order seq prop.format ((actual + pad_of actual) / 4) prop.type_atom remaining
        (elements_of prop.format actual)
      ++ (value ++ replicate (pad_of actual) 0))

-- The delete flag is read by nothing.
pub handle_get_property : XServer → ClientConnection → List ℕ → Reply
handle_get_property server conn request_data = do
  require (leb 24 (length request_data)) protocol
  wid ← u32_at conn.byte_order request_data 4
  property ← u32_at conn.byte_order request_data 8
  type_atom ← u32_at conn.byte_order request_data 12
  long_offset ← u32_at conn.byte_order request_data 16
  long_length ← u32_at conn.byte_order request_data 20
  let order = conn.byte_order
  let seq = current_request_sequence conn
  elim (find_window server wid) [
    | none ↦ ok (server, property_header order seq 0 0 0 0 0)
    | some w ↦ elim (get_property w property) [
      | none ↦ ok (server, property_header order seq 0 0 0 0 0)
      | some prop ↦
          if not (type_atom == 0) && not (type_atom == prop.type_atom)
          then ok (server, property_header order seq prop.format 0 prop.type_atom 0 0)
          else (do reply ← value_reply order seq prop long_offset long_length; ok (server, reply))
    ]
  ]

handle_delete_property : XServer → ClientConnection → List ℕ → Reply
handle_delete_property server conn request_data = do
  wid ← u32_at conn.byte_order request_data 4
  property ← u32_at conn.byte_order request_data 8
  ok (update_window wid (delete_property property) server, [])

-- A resource that is no window lists no property; a missing one is BadWindow.
handle_list_properties : XServer → ClientConnection → List ℕ → Reply
handle_list_properties server conn request_data = do
  wid ← u32_at conn.byte_order request_data 4
  let order = conn.byte_order
  let seq = current_request_sequence conn
  let names : List ℕ = elim (find_window server wid) [
    | some w ↦ map (λ (p : Property). p.name) w.properties
    | none ↦ []
  ]
  elim (lookup wid server.resources) [
    | none ↦ ok (
      server,
      0
          ∷ 3
          ∷ (u16_bytes order seq
              ++ (u32_bytes order wid ++ (u16_bytes order 0 ++ 21 ∷ replicate 21 0))),
    )
    | some _ ↦ ok (
      server,
      1
          ∷ 0
          ∷ (u16_bytes order seq
              ++ (u32_bytes order (length names)
                  ++ (u16_bytes order (length names)
                      ++ (replicate 22 0 ++ all_words order names)))),
    )
  ]
