-- ===== src/Server/Windows.antt =====
-- The window tree: src/server/connection.rs `handle_create_window`, `destroy_window_recursive`,
-- `handle_destroy_window`, `handle_reparent_window`, `handle_map_subwindows`, `handle_query_tree`
-- and `handle_get_geometry`.
pub mod Destroy
pub mod CreateRequest
pub mod Create
pub mod Selecting
pub mod Created
pub mod Cycle
pub mod Tree
pub mod Tests
use psl_xserver.Connection.{ClientConnection, current_request_sequence}
use psl_xserver.Outcome.{Result, err, ok, protocol, require, resource_not_found, ◌>>=◌, ◌>>◌}
use psl_xserver.Prelude.{
  List, Option, [], if◌then◌else◌, leb, length, none, not, replicate, some, suc, true, zero, ℕ, ◌%◌,
  ◌++◌, ◌+◌, ◌==◌, ◌^◌, ◌∷◌,
}
use psl_xserver.Prelude.Assoc.{bytes_eq, lookup, nat_eq, remove}
use psl_xserver.Prelude.Bits.{test_bit}
use psl_xserver.Prelude.Int.{pos, ℤ}
use psl_xserver.Resources.{
  NativeWindowHandle, WindowState, cursor, new_window, pixmap, window, window_class,
}
use psl_xserver.Server.{
  Reply, XServer, all_words, byte_at, command, destroy_native, find_window, put_window,
  update_window,
}
use psl_xserver.Server.ValueLists.{bits_from}
use psl_xserver.Wire.{ByteOrder, i16_at, i16_bytes, u16_at, u16_bytes, u32_at, u32_bytes}

-- The attribute of a bit of the value mask of CreateWindow; the others are read and dropped.
pub set_window_value : ℕ → ℕ → ℕ → WindowState → WindowState
set_window_value conn_id bit v w =
    if bit == 1
    then record w { background_pixel = some v }
    else if bit == 3
    then record w { border_pixel = some v }
    else if bit == 4
    then record w { bit_gravity = v % 2 ^ 8 }
    else if bit == 5
    then record w { win_gravity = v % 2 ^ 8 }
    else if bit == 6
    then record w { backing_store = v % 2 ^ 8 }
    else if bit == 9
    then record w { override_redirect = not (v == 0) }
    else if bit == 11
    then record w { event_mask = v; event_selections = w.event_selections ++ (conn_id, v) ∷ [] }
    else if bit == 12
    then record w { do_not_propagate_mask = v }
    else if bit == 13
    then record w { colormap = v }
    else if bit == 14
    then record w { cursor = v }
    else w

-- The values of the set bits, in their order; a list that is too short panics.
pub read_window_values :
    ByteOrder
    → (conn_id : ℕ) → List ℕ
    → (offset value_mask : ℕ) → WindowState
    → List ℕ
    → Result WindowState
read_window_values order conn_id request_data offset value_mask w [] = ok w
read_window_values order conn_id request_data offset value_mask w (bit ∷ bits) =
    if test_bit value_mask bit
    then (do
      v ← u32_at order request_data offset
      read_window_values order conn_id request_data (offset + 4) value_mask
          (set_window_value conn_id bit v w) bits)
    else read_window_values order conn_id request_data offset value_mask w bits

-- The visual 0 is CopyFromParent.
pub effective_visual : XServer → ℕ → ℕ → ℕ
effective_visual server parent visual =
    if visual == 0
    then elim (find_window server parent) [ some win ↦ win.visual | none ↦ 0x21 ]
    else visual

pub push_child : ℕ → WindowState → WindowState
push_child wid w = record w { children = w.children ++ wid ∷ [] }

-- The child joins its parent's list, and then the new window its table.
pub add_window : ℕ → ℕ → WindowState → XServer → XServer
add_window wid parent w server = put_window wid w (update_window parent (push_child wid) server)

pub handle_create_window : XServer → ClientConnection → List ℕ → Reply
handle_create_window server conn request_data = do
  require (leb 32 (length request_data)) protocol
  depth ← byte_at request_data 1
  wid ← u32_at conn.byte_order request_data 4
  parent ← u32_at conn.byte_order request_data 8
  x ← i16_at conn.byte_order request_data 12
  y ← i16_at conn.byte_order request_data 14
  width ← u16_at conn.byte_order request_data 16
  height ← u16_at conn.byte_order request_data 18
  border_width ← u16_at conn.byte_order request_data 20
  class ← u16_at conn.byte_order request_data 22
  visual ← u32_at conn.byte_order request_data 24
  value_mask ← u32_at conn.byte_order request_data 28
  w ←
      read_window_values conn.byte_order conn.id request_data 32 value_mask
        (new_window wid parent x y width height border_width (if depth == 0 then 24 else depth)
          (window_class class) (effective_visual server parent visual))
        (bits_from 0 15)
  ok (add_window wid parent w server, [])

-- `children.retain(|&c| c != wid)`.
pub without : ℕ → List ℕ → List ℕ
without wid [] = []
without wid (c ∷ cs) = if c == wid then without wid cs else c ∷ without wid cs

pub drop_child : ℕ → WindowState → WindowState
drop_child wid w = record w { children = without wid w.children }

unfoldable pub destroy_handle : Option NativeWindowHandle → XServer → XServer
destroy_handle none server = server
destroy_handle (some handle) server = command (destroy_native handle) server

-- The parent 0 is none.
unfoldable pub unlink_parent : ℕ → ℕ → XServer → XServer
unlink_parent wid parent server =
    if parent == 0 then server else update_window parent (drop_child wid) server

-- What is left to do for a window when its children are gone.
unfoldable pub take_out : ℕ → ℕ → Option NativeWindowHandle → XServer → XServer
take_out wid parent native server =
    let closed = destroy_handle native (unlink_parent wid parent server) in
    record closed { resources = remove wid closed.resources }

-- `for child in &children`.
unfoldable pub for_each : (ℕ → XServer → Option XServer) → List ℕ → XServer → Option XServer
for_each f [] server = some server
for_each f (child ∷ children) server = elim (f child server) [
  | none ↦ none
  | some server' ↦ for_each f children server'
]

-- The recursion goes to the depth of the tree; none is a recursion deeper than the fuel.
unfoldable pub destroy_window_recursive : ℕ → ℕ → XServer → Option XServer
destroy_window_recursive zero wid server = none
destroy_window_recursive (suc fuel) wid server = elim (find_window server wid) [
  | none ↦ some server
  | some w ↦ elim (for_each (λ child s. destroy_window_recursive fuel child s) w.children server) [
    | none ↦ none
    | some server' ↦ some (take_out wid w.parent w.native_window server')
  ]
]

pub handle_reparent_window : XServer → ClientConnection → List ℕ → Reply
handle_reparent_window server conn request_data = do
  require (leb 16 (length request_data)) protocol
  wid ← u32_at conn.byte_order request_data 4
  new_parent ← u32_at conn.byte_order request_data 8
  x ← i16_at conn.byte_order request_data 12
  y ← i16_at conn.byte_order request_data 14
  elim (find_window server wid) [
    | none ↦ ok (server, [])
    | some w ↦
        let moved = put_window wid (record w { parent = new_parent; x = x; y = y }) server in
        ok (
          update_window new_parent (push_child wid) (update_window w.parent (drop_child wid) moved),
          [],
        )
  ]

map_window_state : WindowState → WindowState
map_window_state w = record w { mapped = true; viewable = true }

map_children : List ℕ → XServer → XServer
map_children [] server = server
map_children (child ∷ children) server =
    map_children children (update_window child map_window_state server)

pub children_of : XServer → ℕ → List ℕ
children_of server wid = elim (find_window server wid) [ some w ↦ w.children | none ↦ [] ]

handle_map_subwindows : XServer → ClientConnection → List ℕ → Reply
handle_map_subwindows server conn request_data = do
  wid ← u32_at conn.byte_order request_data 4
  ok (map_children (children_of server wid) server, [])

pub parent_of : XServer → ℕ → ℕ
parent_of server wid = elim (find_window server wid) [ some w ↦ w.parent | none ↦ 0 ]

-- The tree reply; a window that is not there has the parent 0 and no children.
pub tree_reply : ByteOrder → (seq root parent : ℕ) → List ℕ → List ℕ
tree_reply order seq root parent children =
    1
    ∷ 0
    ∷ (u16_bytes order seq
        ++ (u32_bytes order (length children)
            ++ (u32_bytes order root
                ++ (u32_bytes order parent
                    ++ (u16_bytes order (length children)
                        ++ (replicate 14 0 ++ all_words order children))))))

pub handle_query_tree : XServer → ClientConnection → List ℕ → Reply
handle_query_tree server conn request_data = do
  wid ← u32_at conn.byte_order request_data 4
  ok (
    server,
    tree_reply conn.byte_order (current_request_sequence conn) server.screen.root_window
        (parent_of server wid) (children_of server wid),
  )

geometry_reply :
    ByteOrder → (seq root depth : ℕ) → (x y : ℤ) → (width height border_width : ℕ) → List ℕ
geometry_reply order seq root depth x y width height border_width =
    1
    ∷ depth
    ∷ (u16_bytes order seq
        ++ (u32_bytes order 0
            ++ (u32_bytes order root
                ++ (i16_bytes order x
                    ++ (i16_bytes order y
                        ++ (u16_bytes order width
                            ++ (u16_bytes order height
                                ++ (u16_bytes order border_width ++ replicate 10 0))))))))

-- The drawable 0 is the root window.
handle_get_geometry : XServer → ClientConnection → List ℕ → Reply
handle_get_geometry server conn request_data = do
  raw_drawable ← u32_at conn.byte_order request_data 4
  let root = server.screen.root_window
  let drawable = if raw_drawable == 0 then root else raw_drawable
  let order = conn.byte_order
  let seq = current_request_sequence conn
  (if drawable == root
      then ok (
        server,
        geometry_reply order seq root server.screen.root_depth (pos 0) (pos 0)
            server.screen.width_in_pixels server.screen.height_in_pixels 0,
      )
      else elim (lookup drawable server.resources) [
        | some (window w) ↦
            ok (
              server,
              geometry_reply order seq root w.depth w.x w.y w.width w.height w.border_width,
            )
        | some (pixmap p) ↦
            ok (server, geometry_reply order seq root p.depth (pos 0) (pos 0) p.width p.height 0)
        | _ ↦ err (resource_not_found drawable)
      ])
