-- ===== src/Server/Focus.antt =====
-- The input focus: src/server/connection.rs `handle_set_input_focus` and `handle_get_input_focus`, and
-- src/server/mod.rs `send_focus_event`.
pub mod Delivery
pub mod Tests
use psl_xserver.Connection.{ClientConnection, current_request_sequence, fixed, send}
use psl_xserver.Events.{build_focus_event}
use psl_xserver.Outcome.{ok, ◌>>=◌, ◌>>◌}
use psl_xserver.Prelude.{
  List, [], if◌then◌else◌, ltb, none, not, replicate, some, ℕ, ◌%◌, ◌&&◌, ◌++◌, ◌==◌, ◌^◌, ◌∷◌,
}
use psl_xserver.Prelude.Assoc.{bytes_eq, insert, lookup, nat_eq}
use psl_xserver.Prelude.Bits.{test_bit}
use psl_xserver.Server.{Reply, XServer, byte_at, find_window}
use psl_xserver.Wire.{ByteOrder, u16_bytes, u32_at, u32_bytes}

-- The events of one kind for a window, sent to every client that selected FocusChange on it.
pub deliver_focus :
    (event_type wid : ℕ) → List (ℕ × ℕ) → List (ℕ × ClientConnection) → List (ℕ × ClientConnection)
unfolding send
deliver_focus event_type wid [] connections = connections
deliver_focus event_type wid ((conn_id, emask) ∷ selections) connections =
    deliver_focus event_type wid selections (
      if test_bit emask 21
      then elim (lookup conn_id connections) [
        | some conn ↦
            insert conn_id (send (fixed (build_focus_event conn event_type wid)) conn) connections
        | none ↦ connections
      ]
      else connections)

pub send_focus_event : (event_type wid : ℕ) → XServer → XServer
unfolding deliver_focus find_window
send_focus_event event_type wid server = elim (find_window server wid) [
  | some w ↦ record server {
    connections = deliver_focus event_type wid w.event_selections server.connections;
  }
  | none ↦ server
]

-- The new focus is stored; then FocusOut (10) goes to the old window and FocusIn (9) to the new one.
pub set_focus : (focus revert_to : ℕ) → XServer → XServer
unfolding send_focus_event
set_focus focus revert_to server =
    let old_focus = server.focus_window in
    let stored = record server { focus_window = focus; focus_revert_to = revert_to } in
    let left =
      if ltb 1 old_focus && not (old_focus == focus)
      then send_focus_event 10 old_focus stored
      else stored in
    if ltb 1 focus && not (focus == old_focus) then send_focus_event 9 focus left else left

pub handle_set_input_focus : XServer → ClientConnection → List ℕ → Reply
unfolding set_focus
handle_set_input_focus server conn request_data = do
  revert_to ← byte_at request_data 1
  focus ← u32_at conn.byte_order request_data 4
  ok (set_focus focus revert_to server, [])

pub focus_reply : ByteOrder → (seq revert_to focus : ℕ) → List ℕ
focus_reply order seq revert_to focus =
    1
    ∷ revert_to
    ∷ (u16_bytes order seq ++ (u32_bytes order 0 ++ (u32_bytes order focus ++ replicate 20 0)))

pub handle_get_input_focus : XServer → ClientConnection → List ℕ → Reply
unfolding focus_reply current_request_sequence
handle_get_input_focus server conn request_data = ok (
  server,
  focus_reply conn.byte_order (current_request_sequence conn) (server.focus_revert_to % 2 ^ 8)
      server.focus_window,
)
