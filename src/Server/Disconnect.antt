-- ===== src/Server/Disconnect.antt =====
-- The end of a connection: src/server/connection.rs, the last part of `handle_connection`, and
-- src/server/mod.rs `alloc_resource_id_base`.
pub mod Release
pub mod Ranges
mod Tests
use psl_xserver.Connection.{ClientConnection, owns}
use psl_xserver.Prelude.{
  List, Option, [], if◌then◌else◌, none, not, some, ℕ, ◌%◌, ◌&&◌, ◌+◌, ◌==◌, ◌^◌, ◌∷◌,
}
use psl_xserver.Prelude.Assoc.{bytes_eq, nat_eq, remove, retain}
use psl_xserver.Resources.{Resource, window}
use psl_xserver.Server.{XServer}
use psl_xserver.Server.Windows.{destroy_window_recursive, for_each}

-- The windows of the client whose parent is the root window.
pub owned_toplevels : ClientConnection → ℕ → List (ℕ × Resource) → List ℕ
owned_toplevels conn root [] = []
owned_toplevels conn root ((xid, window w) ∷ rest) =
    if owns conn xid && w.parent == root
    then xid ∷ owned_toplevels conn root rest
    else owned_toplevels conn root rest
owned_toplevels conn root ((xid, _) ∷ rest) = owned_toplevels conn root rest

-- The fuel bounds the depth of the window trees.
pub disconnect : ℕ → ClientConnection → XServer → Option XServer
disconnect fuel conn server =
    let kept = retain (λ (sel : ℕ) (owner : ℕ × ℕ). not (owns conn owner.0)) server.selections in
    let toplevels = owned_toplevels conn server.screen.root_window server.resources in
    elim (for_each (destroy_window_recursive fuel) toplevels
      (record server { selections = kept })) [
        | none ↦ none
        | some server' ↦ some (record server' {
          resources = retain (λ xid r. not (owns conn xid)) server'.resources;
          connections = remove conn.id server'.connections;
        })
      ]

-- The id base of a new connection, and the counter after it, which wraps at 2 ^ 32.
pub alloc_resource_id_base : XServer → ℕ × XServer
alloc_resource_id_base server = (
  server.next_resource_id_base,
  record server { next_resource_id_base = (server.next_resource_id_base + 0x00200000) % 2 ^ 32 },
)
