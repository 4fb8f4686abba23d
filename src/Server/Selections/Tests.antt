-- ===== src/Server/Selections/Tests.antt =====
-- An owner set and read back, at a concrete server.
use psl_xserver.Connection.{current_request_sequence}
use psl_xserver.Outcome.{ok}
use psl_xserver.Prelude.{List, [], arith, ℕ, ◌≡◌}
use psl_xserver.Prelude.Assoc.{bytes_eq, lookup, nat_eq}
use psl_xserver.Samples.{big_client, client, sample_server}
use psl_xserver.Server.{XServer}
use psl_xserver.Server.Selections.{handle_get_selection_owner, handle_set_selection_owner, owner_of}
use psl_xserver.Server.Selections.Owners.{
  ReportsOwner, get_owner_request, set-get_selection_owner, set_owner_request,
}
use psl_xserver.Wire.{big_endian, little_endian}

set-get_selection_owner_example :
    (server' : XServer) × (reply : List ℕ) × (handle_set_selection_owner sample_server client
        (set_owner_request little_endian 0 4 0 0x00200002 2 0)
      ≡ ok (server', []))
    × (handle_get_selection_owner server' big_client (get_owner_request big_endian 0 4 0 2)
        ≡ ok (server', reply))
    × ReportsOwner big_endian (current_request_sequence big_client) 0x00200002 reply
unfolding owner_of lookup
set-get_selection_owner_example =
    set-get_selection_owner sample_server client big_client 0 4 0 0x00200002 2 0 2 (omega arith)
      (omega arith) (omega arith) (omega arith) (omega arith)
