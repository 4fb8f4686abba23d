-- ===== src/Server/PropertyRequests/Store.antt =====
-- What ChangeProperty leaves in the table.
use psl_xserver.Atoms.{get_name}
use psl_xserver.Connection.{ClientConnection}
use psl_xserver.Outcome.{ok}
use psl_xserver.Prelude.{
  List, [], arith, leb, length, refl, some, true, unwrap_or, ℕ, ◌+◌, ◌∙◌, ◌≡◌,
}
use psl_xserver.Prelude.Assoc.{bytes_eq, insert, lookup-insert_same, nat_eq}
use psl_xserver.Resources.{Property, WindowState, set_property, window}
use psl_xserver.Server.{XServer, find_window, put_window}
use psl_xserver.Server.NativeHints.{answer_clipboard, follow_title}
use psl_xserver.Server.NativeHints.Frame.{
  answer_clipboard-resources, follow_icon-resources, follow_title-resources,
}
use psl_xserver.Server.PropertyRequests.{handle_change_property, store_property}
use psl_xserver.Server.PropertyRequests.Requests.{PropertyFits, change_reads, change_request}
use psl_xserver.Wire.{ByteOrder, IsU32}

pub handle_change_property-request :
    (server : XServer) (conn : ClientConnection) (mode l0 l1 wid : ℕ) (prop : Property) (n : ℕ)
    → IsU32 wid
    → PropertyFits prop n
    → let name = unwrap_or [] (get_name prop.name server.atoms) in
      handle_change_property server conn (change_request conn.byte_order mode l0 l1 wid prop n)
      ≡ ok (
        store_property conn.byte_order wid name prop (answer_clipboard name prop.bytes server),
        [],
      )
unfolding handle_change_property
handle_change_property-request server conn mode l0 l1 wid prop n hw f =
    let (size, at4, at8, at12, at16, at20, tail_bytes) =
      change_reads conn.byte_order mode l0 l1 wid prop n hw f in
    let long : leb 24 (24 + length prop.bytes) ≡ true = ground arith in
    let exact : leb (24 + length prop.bytes) (24 + length prop.bytes) ≡ true = ground arith in
    rw (size, at4, at8, at12, at16, at20, f.format_known, ← f.whole, long, exact, tail_bytes) refl

store_property-resources :
    (order : ByteOrder) (wid : ℕ) (name : List ℕ) (prop : Property) (w : WindowState)
    (server : XServer)
    → find_window server wid ≡ some w
    → XServer.resources (store_property order wid name prop server)
      ≡ insert wid (window (set_property prop w)) server.resources
unfolding store_property put_window
store_property-resources order wid name prop w server found =
    rw (found, store_property)
      (follow_icon-resources order prop.name name prop.format (set_property prop w) (
          follow_title prop.name name (set_property prop w)
            (put_window wid (set_property prop w) server))
        ∙ follow_title-resources prop.name name (set_property prop w)
            (put_window wid (set_property prop w) server))

-- The window under its id after the property is stored: the native window follows by commands only.
pub find_window-store_property :
    (order : ByteOrder) (wid : ℕ) (name bytes : List ℕ) (prop : Property) (w : WindowState)
    (server : XServer)
    → find_window server wid ≡ some w
    → find_window (store_property order wid name prop (answer_clipboard name bytes server)) wid
      ≡ some (set_property prop w)
unfolding find_window
find_window-store_property order wid name bytes prop w server found =
    let same = answer_clipboard-resources name bytes server in
    let stored =
      store_property-resources order wid name prop w (answer_clipboard name bytes server)
        (rw same found) in
    rw
      (
        stored,
        lookup-insert_same wid (window (set_property prop w))
            (XServer.resources (answer_clipboard name bytes server)),
      )
      refl
