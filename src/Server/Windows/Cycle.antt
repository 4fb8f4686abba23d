-- ===== src/Server/Windows/Cycle.antt =====
-- A window that ReparentWindow puts under itself: src/server/connection.rs,
-- `handle_reparent_window` and `destroy_window_recursive`.
use psl_xserver.Connection.{ClientConnection}
use psl_xserver.Outcome.{ok}
use psl_xserver.Prelude.{
  List, [], ap, arith, length, none, refl, some, suc, true, zero, ℕ, ◌++◌, ◌==◌, ◌∙◌, ◌∷◌, ◌≡◌, ◌≢◌,
}
use psl_xserver.Prelude.Int.{ℤ}
use psl_xserver.Resources.{WindowState}
use psl_xserver.Server.{XServer, find_window, put_window, update_window}
use psl_xserver.Server.Lookup.{
  find_window-put_window, find_window-update_other, find_window-update_same,
}
use psl_xserver.Server.Windows.{
  destroy_window_recursive, drop_child, for_each, handle_reparent_window, push_child,
}
use psl_xserver.Wire.{
  ByteOrder, IsI16, IsU32, big_endian, i16_at, i16_bytes, little_endian, u16_bytes, u32_at,
  u32_bytes,
}
use psl_xserver.Wire.RoundTrip.{i16_at-append, u32_at-append}

-- ReparentWindow as a client sends it.
pub reparent_request : ByteOrder → (pad l0 l1 wid new_parent : ℕ) → (x y : ℤ) → List ℕ
reparent_request order pad l0 l1 wid new_parent x y =
    7
    ∷ pad
    ∷ l0
    ∷ l1
    ∷ (u32_bytes order wid
        ++ (u32_bytes order new_parent ++ (i16_bytes order x ++ (i16_bytes order y ++ []))))

reparent_reads :
    (order : ByteOrder) (pad l0 l1 wid new_parent : ℕ) (x y : ℤ)
    → IsU32 wid
    → IsU32 new_parent
    → IsI16 x
    → IsI16 y
    → let bytes = reparent_request order pad l0 l1 wid new_parent x y in
      (length bytes ≡ 16)
      × (u32_at order bytes 4 ≡ ok wid)
      × (u32_at order bytes 8 ≡ ok new_parent)
      × (i16_at order bytes 12 ≡ ok x)
      × (i16_at order bytes 14 ≡ ok y)
unfolding reparent_request u16_bytes u32_bytes i16_bytes
reparent_reads big_endian pad l0 l1 wid new_parent x y hw hp hx hy = (
  refl,
  u32_at-append big_endian (7 ∷ pad ∷ l0 ∷ l1 ∷ []) _ wid hw,
  u32_at-append big_endian (7 ∷ pad ∷ l0 ∷ l1 ∷ u32_bytes big_endian wid) _ new_parent hp,
  i16_at-append big_endian
      (7 ∷ pad ∷ l0 ∷ l1 ∷ (u32_bytes big_endian wid ++ u32_bytes big_endian new_parent)) _ x hx,
  i16_at-append big_endian
      (7
        ∷ pad
        ∷ l0
        ∷ l1
        ∷ (u32_bytes big_endian wid ++ (u32_bytes big_endian new_parent ++ i16_bytes big_endian x)))
      _ y hy,
)
reparent_reads little_endian pad l0 l1 wid new_parent x y hw hp hx hy = (
  refl,
  u32_at-append little_endian (7 ∷ pad ∷ l0 ∷ l1 ∷ []) _ wid hw,
  u32_at-append little_endian (7 ∷ pad ∷ l0 ∷ l1 ∷ u32_bytes little_endian wid) _ new_parent hp,
  i16_at-append little_endian
      (7 ∷ pad ∷ l0 ∷ l1 ∷ (u32_bytes little_endian wid ++ u32_bytes little_endian new_parent)) _ x
      hx,
  i16_at-append little_endian
      (7
        ∷ pad
        ∷ l0
        ∷ l1
        ∷ (u32_bytes little_endian wid
            ++ (u32_bytes little_endian new_parent ++ i16_bytes little_endian x)))
      _ y hy,
)

destroy_loop :
    (fuel wid : ℕ) (w : WindowState) (server : XServer)
    → find_window server wid ≡ some w
    → w.children ≡ wid ∷ []
    → destroy_window_recursive fuel wid server ≡ none
unfolding destroy_window_recursive for_each
destroy_loop zero wid w server found loop = refl
destroy_loop (suc fuel) wid w server found loop =
    let deeper = destroy_loop fuel wid w server found loop in
    rw (found, destroy_window_recursive, loop, deeper) refl

-- A client may put a window without children, whose parent is another, under itself: the request
-- succeeds and writes nothing. From then on the destruction of the window never ends, however deep
-- it may recurse.
pub reparent-destroy_loop :
    (server : XServer) (conn : ClientConnection) (pad l0 l1 wid : ℕ) (x y : ℤ) (w : WindowState)
    → IsU32 wid
    → IsI16 x
    → IsI16 y
    → find_window server wid ≡ some w
    → w.children ≡ []
    → w.parent ≢ wid
    → (server' : XServer) × (handle_reparent_window server conn
          (reparent_request conn.byte_order pad l0 l1 wid wid x y)
        ≡ ok (server', []))
      × ((fuel : ℕ) → destroy_window_recursive fuel wid server' ≡ none)
unfolding handle_reparent_window
reparent-destroy_loop server conn pad l0 l1 wid x y w hw hx hy found leaf other =
    let (size, at4, at8, at12, at14) =
      reparent_reads conn.byte_order pad l0 l1 wid wid x y hw hw hx hy in
    let w' = record w { parent = wid; x = x; y = y } in
    let moved = put_window wid w' server in
    let left = update_window w.parent (drop_child wid) moved in
    let server' = update_window wid (push_child wid) left in
    let itself : (wid == wid) ≡ true = ground arith in
    let in_moved : find_window moved wid ≡ some w' =
      rw (find_window-put_window wid wid w' server, itself) refl in
    let in_left : find_window left wid ≡ some w' =
      find_window-update_other w.parent wid (drop_child wid) moved other ∙ in_moved in
    let in_result = find_window-update_same wid (push_child wid) w' left in_left in
    let loop : WindowState.children (push_child wid w') ≡ wid ∷ [] =
      unfold push_child in ap (λ cs. cs ++ wid ∷ []) leaf in
    (
      server',
      rw (size, at4, at8, at12, at14, found) refl,
      λ fuel. destroy_loop fuel wid (push_child wid w') server' in_result loop,
    )
