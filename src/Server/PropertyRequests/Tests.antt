-- ===== src/Server/PropertyRequests/Tests.antt =====
-- A property changed and read back, at a concrete window.
use psl_xserver.Connection.{current_request_sequence}
use psl_xserver.Outcome.{ok, panic}
use psl_xserver.Prelude.{List, [], arith, inl, refl, ℕ, ◌∷◌, ◌≡◌}
use psl_xserver.Prelude.Assoc.{bytes_eq, lookup, nat_eq}
use psl_xserver.Resources.{Property, find_property, get_property, window}
use psl_xserver.Samples.{big_client, client, plain_window, sample_server}
use psl_xserver.Server.{XServer, find_window}
use psl_xserver.Server.PropertyRequests.{handle_change_property, handle_get_property}
use psl_xserver.Server.PropertyRequests.Reported.{ReportsProperty}
use psl_xserver.Server.PropertyRequests.Requests.{PropertyFits, change_request, get_request}
use psl_xserver.Server.PropertyRequests.RoundTrip.{change-get, handle_get_property-past_end}
use psl_xserver.Wire.{big_endian, little_endian}

abbrev name_property : Property
name_property = record {
  name = 300;
  type_atom = 31;
  format = 16;
  bytes = 1 ∷ 2 ∷ 3 ∷ 4 ∷ 5 ∷ 6 ∷ [];
}

name_property-PropertyFits : PropertyFits name_property 3
name_property-PropertyFits = record {
  name_fits = omega arith;
  type_fits = omega arith;
  count_fits = omega arith;
  width = 2;
  format_known = refl;
  whole = refl;
}

change-get_example :
    (server' : XServer) × (reply : List ℕ) × (handle_change_property sample_server client
        (change_request little_endian 0 6 0 0x00200001 name_property 3)
      ≡ ok (server', []))
    × (handle_get_property server' big_client (get_request big_endian 0 6 0 0x00200001 300 0 0 2)
        ≡ ok (server', reply))
    × ReportsProperty big_endian (current_request_sequence big_client) 3 name_property reply
change-get_example =
    change-get sample_server client big_client 0 6 0 6 0 0x00200001 3 0 2 name_property
      (plain_window 0x00200001 0x80 (0x00200002 ∷ [])) (unfold find_window lookup in refl)
      (omega arith) name_property-PropertyFits (omega arith) (omega arith) (inl refl) (omega arith)

abbrev with_name : XServer
with_name = record sample_server {
  resources =
      (
        0x00200001,
        window (record (plain_window 0x00200001 0x80 []) { properties = name_property ∷ [] }),
      )
      ∷ [];
}

handle_get_property-past_end_example :
    handle_get_property with_name client (get_request little_endian 0 6 0 0x00200001 300 0 2 1)
    ≡ panic
handle_get_property-past_end_example =
    handle_get_property-past_end with_name client 0 6 0 0x00200001 0 2 1 name_property
      (record (plain_window 0x00200001 0x80 []) { properties = name_property ∷ [] }) (omega arith)
      (omega arith) (omega arith) (omega arith) (omega arith) (unfold find_window lookup in refl)
      (unfold get_property find_property in refl) (inl refl) (omega arith)
