-- ===== src/Server/Focus/Tests.antt =====
-- A change of the focus on a concrete server.
-- Two windows: the first client listens to the one, the second to the other.
use psl_xserver.Connection.{current_request_sequence, fixed}
use psl_xserver.Events.Focus.{IsFocusEvent}
use psl_xserver.Outcome.{ok}
use psl_xserver.Prelude.{List, [], arith, refl, some, ℕ, ◌++◌, ◌∷◌, ◌≡◌, ◌≢◌}
use psl_xserver.Prelude.Assoc.{bytes_eq, lookup, nat_eq}
use psl_xserver.Resources.{WindowState, window}
use psl_xserver.Samples.{big_client, client, plain_window, sample_server}
use psl_xserver.Server.{XServer, find_window}
use psl_xserver.Server.Focus.{handle_get_input_focus, handle_set_input_focus}
use psl_xserver.Server.Focus.Delivery.{
  ReportsFocus, handle_set_input_focus_lem, set_focus_request, wanted,
}
use psl_xserver.Wire.{big_endian, little_endian}

abbrev old_window : WindowState
old_window = record (plain_window 0x00200001 0x80 []) {
  event_selections = (1, 0x200000) ∷ (2, 0x8000) ∷ [];
}

abbrev next_window : WindowState
next_window = record (plain_window 0x00200002 0x80 []) { event_selections = (2, 0x200000) ∷ [] }

abbrev focused : XServer
focused = record sample_server {
  resources = (0x00200001, window old_window) ∷ (0x00200002, window next_window) ∷ [];
  focus_window = 0x00200001;
}

handle_set_input_focus_lem_example :
    (server' : XServer) × (lost : List ℕ) × (gained : List ℕ) × (reply : List ℕ)
    × (handle_set_input_focus focused client (set_focus_request little_endian 2 3 0 0x00200002 0)
        ≡ ok (server', []))
    × (lookup 1 server'.connections
        ≡ some (record client { event_tx = client.event_tx ++ fixed lost ∷ [] }))
    × IsFocusEvent little_endian (current_request_sequence client) 10 0x00200001 lost
    × IsFocusEvent little_endian (current_request_sequence client) 9 0x00200002 gained
    × (handle_get_input_focus server' big_client [] ≡ ok (server', reply))
    × ReportsFocus big_endian (current_request_sequence big_client) 2 0x00200002 reply
unfolding lookup wanted
handle_set_input_focus_lem_example =
    handle_set_input_focus_lem focused client big_client 2 3 0 0x00200002 0 1 old_window next_window
      client (omega arith) (omega arith) (omega arith) (omega arith) (omega arith) apart
      (unfold find_window in refl) (unfold find_window in refl) refl
  where
    apart : focused.focus_window ≢ 0x00200002
    apart e = absurd (omega (arith, e))

-- The client that listens to the old window hears of the loss once.
heard_once :
    (wanted 1 old_window.event_selections ≡ 1) × (wanted 1 next_window.event_selections ≡ 0)
unfolding wanted
heard_once = (refl, refl)
