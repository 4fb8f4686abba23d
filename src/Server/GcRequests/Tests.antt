-- ===== src/Server/GcRequests/Tests.antt =====
-- A graphics context changed, at a concrete server.
use psl_xserver.Outcome.{ok}
use psl_xserver.Prelude.{[], arith, refl, ℕ, ◌%◌, ◌+◌, ◌≡◌}
use psl_xserver.Prelude.Assoc.{bytes_eq, insert, lookup, nat_eq}
use psl_xserver.Resources.{GContextState, gcontext}
use psl_xserver.Samples.{client, plain_gc, sample_server}
use psl_xserver.Server.GcRequests.{as_gcontext, handle_change_gc}
use psl_xserver.Server.GcRequests.Values.{Stores, change_gc_request, handle_change_gc_lem}
use psl_xserver.Wire.{little_endian}

-- Foreground and font, and a bit that is skipped.
abbrev some_bits : ℕ
some_bits = 0x4044

abbrev some_values : ℕ → ℕ
some_values bit = bit % 23 + 10

handle_change_gc_lem_example :
    (gc' : GContextState) × (handle_change_gc sample_server client
        (change_gc_request little_endian 0 6 0 0x00200003 some_bits some_values)
      ≡ ok (
        record sample_server {
          resources = insert 0x00200003 (gcontext gc') sample_server.resources;
        },
        [],
      ))
    × Stores some_bits some_values plain_gc gc'
handle_change_gc_lem_example =
    handle_change_gc_lem sample_server client 0 6 0 0x00200003 some_bits some_values plain_gc
      (unfold as_gcontext lookup in refl) (omega arith) (omega arith) (λ bit. omega arith)
