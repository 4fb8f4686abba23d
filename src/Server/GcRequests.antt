-- ===== src/Server/GcRequests.antt =====
-- The graphics contexts: src/server/connection.rs `parse_gc_values`, `handle_create_gc`,
-- `handle_change_gc` and `handle_free_gc`.
pub mod Values
mod Tests
use psl_xserver.Connection.{ClientConnection}
use psl_xserver.Outcome.{Result, ok, protocol, require, ◌>>=◌, ◌>>◌}
use psl_xserver.Prelude.{
  List, Option, [], if◌then◌else◌, leb, length, ltb, none, not, some, ℕ, ◌%◌, ◌+◌, ◌==◌, ◌^◌, ◌∷◌,
}
use psl_xserver.Prelude.Assoc.{bytes_eq, insert, lookup, nat_eq, remove}
use psl_xserver.Prelude.Bits.{test_bit}
use psl_xserver.Resources.{
  GContextState, Resource, cursor, font, gc_function, gcontext, new_gcontext, pixmap, window,
}
use psl_xserver.Server.{Reply, XServer}
use psl_xserver.Server.ValueLists.{bits_from}
use psl_xserver.Wire.{ByteOrder, u32_at}

-- The attribute of a bit; the others of the 23 are skipped.
pub set_gc_value : ℕ → ℕ → GContextState → GContextState
set_gc_value bit val gc =
    if bit == 0
    then record gc { function = gc_function (val % 2 ^ 8) }
    else if bit == 1
    then record gc { plane_mask = val }
    else if bit == 2
    then record gc { foreground = val }
    else if bit == 3
    then record gc { background = val }
    else if bit == 4
    then record gc { line_width = val % 2 ^ 16 }
    else if bit == 5
    then record gc { line_style = val % 2 ^ 8 }
    else if bit == 14
    then record gc { font = val }
    else if bit == 16
    then record gc { graphics_exposures = not (val == 0) }
    else gc

-- The loop over the bits that are left; a value list that is too short ends it.
pub parse_gc_bits :
    ByteOrder → List ℕ → (offset value_mask : ℕ) → GContextState → List ℕ → Result GContextState
parse_gc_bits order request_data offset value_mask gc [] = ok gc
parse_gc_bits order request_data offset value_mask gc (bit ∷ bits) =
    if not (test_bit value_mask bit)
    then parse_gc_bits order request_data offset value_mask gc bits
    else if ltb (length request_data) (offset + 4)
    then ok gc
    else (do
      val ← u32_at order request_data offset
      parse_gc_bits order request_data (offset + 4) value_mask (set_gc_value bit val gc) bits)

pub parse_gc_values :
    ByteOrder → List ℕ → (start_offset value_mask : ℕ) → GContextState → Result GContextState
parse_gc_values order request_data start_offset value_mask gc =
    parse_gc_bits order request_data start_offset value_mask gc (bits_from 0 23)

handle_create_gc : XServer → ClientConnection → List ℕ → Reply
handle_create_gc server conn request_data = do
  require (leb 16 (length request_data)) protocol
  gcid ← u32_at conn.byte_order request_data 4
  drawable ← u32_at conn.byte_order request_data 8
  value_mask ← u32_at conn.byte_order request_data 12
  gc ← parse_gc_values conn.byte_order request_data 16 value_mask (new_gcontext gcid drawable)
  ok (record server { resources = insert gcid (gcontext gc) server.resources }, [])

pub as_gcontext : Option Resource → Option GContextState
as_gcontext (some (gcontext g)) = some g
as_gcontext (some (window w)) = none
as_gcontext (some (pixmap p)) = none
as_gcontext (some (font f)) = none
as_gcontext (some (cursor c)) = none
as_gcontext none = none

-- An id that is no graphics context is passed over.
pub handle_change_gc : XServer → ClientConnection → List ℕ → Reply
handle_change_gc server conn request_data = do
  require (leb 12 (length request_data)) protocol
  gcid ← u32_at conn.byte_order request_data 4
  value_mask ← u32_at conn.byte_order request_data 8
  elim (as_gcontext (lookup gcid server.resources)) [
    | none ↦ ok (server, [])
    | some g ↦ (do
      gc ← parse_gc_values conn.byte_order request_data 12 value_mask g
      ok (record server { resources = insert gcid (gcontext gc) server.resources }, []))
  ]

-- Any resource of that id is removed.
handle_free_gc : XServer → ClientConnection → List ℕ → Reply
handle_free_gc server conn request_data = do
  gcid ← u32_at conn.byte_order request_data 4
  ok (record server { resources = remove gcid server.resources }, [])
