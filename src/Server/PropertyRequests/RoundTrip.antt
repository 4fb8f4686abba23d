-- ===== src/Server/PropertyRequests/RoundTrip.antt =====
-- A property that a client changes, read back by requests.
use psl_xserver.Atoms.{get_name}
use psl_xserver.Connection.{ClientConnection, current_request_sequence}
use psl_xserver.Events.Fields.{seq-IsU16}
use psl_xserver.Outcome.{Result, ok, panic, slice, ◌>>=◌}
use psl_xserver.Prelude.{
  List, [], ap, arith, false, inl, inr, leb, length, min, not, refl, some, take-length, true,
  unwrap_or, ℕ, ◌&&◌, ◌*◌, ◌+◌, ◌-◌, ◌<◌, ◌==◌, ◌∙◌, ◌≡◌, ◌≤◌, ◌⊎◌,
}
use psl_xserver.Resources.{Property, WindowState, get_property, set_property}
use psl_xserver.Resources.Properties.{get_property-update}
use psl_xserver.Server.{XServer, find_window}
use psl_xserver.Server.NativeHints.{answer_clipboard}
use psl_xserver.Server.PropertyRequests.{
  handle_change_property, handle_get_property, store_property, value_reply,
}
use psl_xserver.Server.PropertyRequests.Reported.{ReportsProperty, whole_reply-ReportsProperty}
use psl_xserver.Server.PropertyRequests.Requests.{
  PropertyFits, change_request, get_reads, get_request, whole_reply,
}
use psl_xserver.Server.PropertyRequests.Store.{
  find_window-store_property, handle_change_property-request,
}
use psl_xserver.Wire.{ByteOrder, IsU32}

-- GetProperty on a window that has the property, from the start and long enough for all of it.
value_reply-whole :
    (order : ByteOrder) (seq : ℕ) (prop : Property) (long_length : ℕ)
    → length prop.bytes ≤ long_length * 4
    → value_reply order seq prop 0 long_length ≡ ok (whole_reply order seq prop)
unfolding value_reply slice
value_reply-whole order seq prop long_length long =
    let none_cut : length prop.bytes - 0 ≡ length prop.bytes = ground arith in
    let from_start : 0 + length prop.bytes - 0 ≡ length prop.bytes = ground arith in
    let all_fits : min (length prop.bytes) (long_length * 4) ≡ length prop.bytes = ground arith in
    let none_left : length prop.bytes - (0 + length prop.bytes) ≡ 0 = ground arith in
    let ordered : leb 0 (0 + length prop.bytes) ≡ true = ground arith in
    let in_bounds : leb (0 + length prop.bytes) (length prop.bytes) ≡ true = ground arith in
    rw (none_cut, all_fits, none_left, ordered, in_bounds, from_start, take-length prop.bytes) refl

value_reply-past_end :
    (order : ByteOrder) (seq : ℕ) (prop : Property) (long_offset long_length : ℕ)
    → length prop.bytes < long_offset * 4
    → value_reply order seq prop long_offset long_length ≡ panic
unfolding value_reply slice
value_reply-past_end order seq prop off ll past =
    let none_left : length prop.bytes - off * 4 ≡ 0 = ground arith in
    let ordered : leb (off * 4) (off * 4 + min 0 (ll * 4)) ≡ true = ground arith in
    let beyond : leb (off * 4 + min 0 (ll * 4)) (length prop.bytes) ≡ false = ground arith in
    rw (none_left, ordered, beyond) refl

-- GetProperty on a window that has the property, with no type or the stored one.
handle_get_property-request :
    (server : XServer) (conn : ClientConnection)
    (delete l0 l1 wid type_atom long_offset long_length : ℕ) (prop : Property) (w : WindowState)
    → IsU32 wid
    → IsU32 prop.name
    → IsU32 type_atom
    → IsU32 long_offset
    → IsU32 long_length
    → find_window server wid ≡ some w
    → get_property w prop.name ≡ some prop
    → (type_atom ≡ 0) ⊎ (type_atom ≡ prop.type_atom)
    → handle_get_property server conn
        (get_request conn.byte_order delete l0 l1 wid prop.name type_atom long_offset long_length)
      ≡ (value_reply conn.byte_order (current_request_sequence conn) prop long_offset long_length
          >>= λ reply. ok (server, reply))
unfolding handle_get_property
handle_get_property-request server conn d l0 l1 wid t off ll prop w hw hp ht ho hl found has same =
    let (size, at4, at8, at12, at16, at20) =
      get_reads conn.byte_order d l0 l1 wid prop.name t off ll hw hp ht ho hl in
    let matches : not (t == 0) && not (t == prop.type_atom) ≡ false = elim same [
      | inl e ↦ ground arith
      | inr e ↦ ground arith
    ] in
    rw (size, at4, at8, at12, at16, at20, found, has, matches) refl

-- GetProperty on a window that has the property, with no type or the stored one, all numbers fitting
-- their fields, panics when the offset in words is past the end of the value.
pub handle_get_property-past_end :
    (server : XServer) (conn : ClientConnection)
    (delete l0 l1 wid type_atom long_offset long_length : ℕ) (prop : Property) (w : WindowState)
    → IsU32 wid
    → IsU32 prop.name
    → IsU32 type_atom
    → IsU32 long_offset
    → IsU32 long_length
    → find_window server wid ≡ some w
    → get_property w prop.name ≡ some prop
    → (type_atom ≡ 0) ⊎ (type_atom ≡ prop.type_atom)
    → length prop.bytes < long_offset * 4
    → handle_get_property server conn
        (get_request conn.byte_order delete l0 l1 wid prop.name type_atom long_offset long_length)
      ≡ panic
handle_get_property-past_end server conn d l0 l1 wid t off ll prop w hw hp ht ho hl found has same
      past =
    handle_get_property-request server conn d l0 l1 wid t off ll prop w hw hp ht ho hl found has
      same
    ∙ ap (λ (r : Result (List ℕ)). r >>= λ reply. ok (server, reply))
        (value_reply-past_end conn.byte_order (current_request_sequence conn) prop off ll past)

-- A client replaces a property of a window that is on the server (mode 0), with a value of whole
-- elements of a format of 8, 16 or 32 bits, all numbers fitting their fields. Afterwards any client
-- asks for it from the start, with no type or the type it was stored with, and for at least as many
-- bytes as it has. Then the change succeeds and writes nothing, and the client reads in the reply,
-- in its own byte order, the type and format stored, no bytes left over and the number of elements,
-- and behind the first 32 bytes the bytes of the value as they were sent, filled up to whole words.
-- The bytes of an element are in the order of the client that sent them, whatever the reader's.
pub change-get :
    (server : XServer) (writer reader : ClientConnection)
    (delete l0 l1 l2 l3 wid n type_atom long_length : ℕ) (prop : Property) (w : WindowState)
    → find_window server wid ≡ some w
    → IsU32 wid
    → PropertyFits prop n
    → IsU32 type_atom
    → IsU32 long_length
    → (type_atom ≡ 0) ⊎ (type_atom ≡ prop.type_atom)
    → length prop.bytes ≤ long_length * 4
    → (server' : XServer) × (reply : List ℕ) × (handle_change_property server writer
          (change_request writer.byte_order 0 l0 l1 wid prop n)
        ≡ ok (server', []))
      × (handle_get_property server' reader
            (get_request reader.byte_order delete l2 l3 wid prop.name type_atom 0 long_length)
          ≡ ok (server', reply))
      × ReportsProperty reader.byte_order (current_request_sequence reader) n prop reply
change-get server writer reader d l0 l1 l2 l3 wid n t ll prop w found hw f ht hl same long =
    let name = unwrap_or [] (get_name prop.name server.atoms) in
    let server' =
      store_property writer.byte_order wid name prop (answer_clipboard name prop.bytes server) in
    let has =
      find_window-store_property writer.byte_order wid name prop.bytes prop w server found in
    let updated = (get_property-update w prop 0 prop.name).0 in
    let got : get_property (set_property prop w) prop.name ≡ some prop = ground (arith, updated) in
    let seq = current_request_sequence reader in
    (
      server',
      whole_reply reader.byte_order seq prop,
      handle_change_property-request server writer 0 l0 l1 wid prop n hw f,
      handle_get_property-request server' reader d l2 l3 wid t 0 ll prop (set_property prop w) hw
            f.name_fits ht (omega arith) hl has got same
          ∙ ap (λ (r : Result (List ℕ)). r >>= λ reply. ok (server', reply))
              (value_reply-whole reader.byte_order seq prop ll long),
      whole_reply-ReportsProperty reader.byte_order seq n prop (seq-IsU16 reader) f,
    )
