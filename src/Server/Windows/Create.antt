-- ===== src/Server/Windows/Create.antt =====
-- What CreateWindow does on a request as a client sends it.
use psl_xserver.Connection.{ClientConnection}
use psl_xserver.Outcome.{ok}
use psl_xserver.Prelude.{
  List, [], arith, false, if◌then◌else◌, leb, length, refl, subst, true, ℕ, ◌++◌, ◌+◌, ◌==◌, ◌∷◌,
  ◌≡◌, ◌≤◌,
}
use psl_xserver.Prelude.Bits.{test_bit}
use psl_xserver.Resources.{WindowState, new_window, window_class}
use psl_xserver.Server.{XServer}
use psl_xserver.Server.ValueLists.{apply_values, bits_from, reads_values, value_bytes}
use psl_xserver.Server.Windows.{
  add_window, effective_visual, handle_create_window, read_window_values, set_window_value,
}
use psl_xserver.Server.Windows.CreateRequest.{
  CreateFields, FieldsFit, create_head, create_reads, create_request, length-create_head,
}
use psl_xserver.Wire.{ByteOrder, IsU32, u32_at}

read_window_values-set :
    (order : ByteOrder) (conn_id mask : ℕ) (d : List ℕ) (o : ℕ) (w : WindowState) (bit : ℕ)
    (bits : List ℕ) (v : ℕ)
    → test_bit mask bit ≡ true
    → o + 4 ≤ length d
    → u32_at order d o ≡ ok v
    → read_window_values order conn_id d o mask w (bit ∷ bits)
      ≡ read_window_values order conn_id d (o + 4) mask (set_window_value conn_id bit v w) bits
unfolding read_window_values
read_window_values-set order conn_id mask d o w bit bits v is_set fits word = rw (is_set, word) refl

read_window_values-unset :
    (order : ByteOrder) (conn_id mask : ℕ) (d : List ℕ) (o : ℕ) (w : WindowState) (bit : ℕ)
    (bits : List ℕ)
    → test_bit mask bit ≡ false
    → read_window_values order conn_id d o mask w (bit ∷ bits)
      ≡ read_window_values order conn_id d o mask w bits
unfolding read_window_values
read_window_values-unset order conn_id mask d o w bit bits unset = rw unset refl

-- The window that the request describes.
unfoldable pub created : XServer → (conn_id : ℕ) → CreateFields → (ℕ → ℕ) → WindowState
created server conn_id q value =
    apply_values (set_window_value conn_id) q.value_mask value (bits_from 0 15) (
      new_window q.wid q.parent q.x q.y q.width q.height q.border_width
        (if q.depth == 0 then 24 else q.depth) (window_class q.class)
        (effective_visual server q.parent q.visual))

read_window_values-create_head :
    (order : ByteOrder) (conn_id l0 l1 : ℕ) (q : CreateFields) (value : ℕ → ℕ) (w : WindowState)
    → ((bit : ℕ) → IsU32 (value bit))
    → read_window_values order conn_id
        (create_head order l0 l1 q ++ (value_bytes order q.value_mask value (bits_from 0 15) ++ []))
        32
        q.value_mask
        w
        (bits_from 0 15)
      ≡ ok (apply_values (set_window_value conn_id) q.value_mask value (bits_from 0 15) w)
read_window_values-create_head order conn_id l0 l1 q value w fits =
    subst
      (λ start.
        read_window_values order conn_id
          (create_head order l0 l1 q
            ++ (value_bytes order q.value_mask value (bits_from 0 15) ++ []))
          start q.value_mask w (bits_from 0 15)
        ≡ ok (apply_values (set_window_value conn_id) q.value_mask value (bits_from 0 15) w))
      (length-create_head order l0 l1 q)
      (reads_values order q.value_mask (set_window_value conn_id)
        (λ d o a bits. read_window_values order conn_id d o q.value_mask a bits)
        (λ d o a. unfold read_window_values in refl)
        (read_window_values-unset order conn_id q.value_mask)
        (read_window_values-set order conn_id q.value_mask) (create_head order l0 l1 q) [] value w
        (bits_from 0 15) fits)

-- The request adds the window that it describes.
pub handle_create_window-request :
    (server : XServer) (conn : ClientConnection) (l0 l1 : ℕ) (q : CreateFields) (value : ℕ → ℕ)
    → FieldsFit q
    → ((bit : ℕ) → IsU32 (value bit))
    → handle_create_window server conn (create_request conn.byte_order l0 l1 q value)
      ≡ ok (add_window q.wid q.parent (created server conn.id q value) server, [])
unfolding handle_create_window created
handle_create_window-request server conn l0 l1 q value f fits =
    let order = conn.byte_order in
    let rest = value_bytes order q.value_mask value (bits_from 0 15) ++ [] in
    let (size, at1, at4, at8, at12, at14, at16, at18, at20, at22, at24, at28) =
      create_reads order l0 l1 q rest f in
    let long : leb 32 (length (create_head order l0 l1 q ++ rest)) ≡ true = ground arith in
    let values =
      read_window_values-create_head order conn.id l0 l1 q value
        (new_window q.wid q.parent q.x q.y q.width q.height q.border_width
          (if q.depth == 0 then 24 else q.depth) (window_class q.class)
          (effective_visual server q.parent q.visual))
        fits in
    unfold create_request in
    rw (long, at1, at4, at8, at12, at14, at16, at18, at20, at22, at24, at28, values) refl
