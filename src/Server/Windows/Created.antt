-- ===== src/Server/Windows/Created.antt =====
-- The window that CreateWindow makes, field by field: src/server/connection.rs `handle_create_window`.
-- The visual of the parent, if that is a window of the table, and the visual of the root otherwise.
use psl_xserver.Prelude.{
  Option, [], false, if◌then◌else◌, none, not, some, ℕ, ◌%◌, ◌==◌, ◌^◌, ◌∷◌, ◌≡◌,
}
use psl_xserver.Prelude.Bits.{test_bit}
use psl_xserver.Resources.{WindowState, copy_from_parent, input_only, input_output}
use psl_xserver.Server.Windows.CreateRequest.{CreateFields}

abbrev inherited : Option WindowState → ℕ
inherited (some p) = p.visual
inherited none = 0x21

-- What the fields of the request say: a depth of 0 is 24, and a visual of 0 is the parent's.
abbrev pub HasGeometry : CreateFields → Option WindowState → WindowState → Type 0
HasGeometry q parent w =
    (w.id ≡ q.wid)
    × (w.parent ≡ q.parent)
    × (w.x ≡ q.x)
    × (w.y ≡ q.y)
    × (w.width ≡ q.width)
    × (w.height ≡ q.height)
    × (w.border_width ≡ q.border_width)
    × (w.depth ≡ (if q.depth == 0 then 24 else q.depth))
    × (w.class ≡ (
        if q.class == 1
        then input_output
        else if q.class == 2
        then input_only
        else copy_from_parent))
    × (w.visual ≡ (if q.visual == 0 then inherited parent else q.visual))
    × (w.children ≡ [])
    × (w.properties ≡ [])
    × (w.mapped ≡ false)

-- What the value list says: an attribute whose bit is not set has its default.
abbrev pub HasAttributes : (conn_id mask : ℕ) → (ℕ → ℕ) → WindowState → Type 0
HasAttributes conn_id mask value w =
    (w.background_pixel ≡ (if test_bit mask 1 then some (value 1) else none))
    × (w.border_pixel ≡ (if test_bit mask 3 then some (value 3) else none))
    × (w.bit_gravity ≡ (if test_bit mask 4 then value 4 % 2 ^ 8 else 0))
    × (w.win_gravity ≡ (if test_bit mask 5 then value 5 % 2 ^ 8 else 1))
    × (w.backing_store ≡ (if test_bit mask 6 then value 6 % 2 ^ 8 else 0))
    × (w.override_redirect ≡ (if test_bit mask 9 then not (value 9 == 0) else false))
    × (w.event_mask ≡ (if test_bit mask 11 then value 11 else 0))
    × (w.do_not_propagate_mask ≡ (if test_bit mask 12 then value 12 else 0))
    × (w.colormap ≡ (if test_bit mask 13 then value 13 else 0))
    × (w.cursor ≡ (if test_bit mask 14 then value 14 else 0))
    × (w.event_selections ≡ (if test_bit mask 11 then (conn_id, value 11) ∷ [] else []))
