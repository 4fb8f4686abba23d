-- ===== src/Server/Focus/Delivery.antt =====
-- Who hears of a change of the focus, and who is told of it: src/server/connection.rs,
-- `handle_set_input_focus`.
use psl_xserver.Connection.{ClientConnection, current_request_sequence, fixed, send}
use psl_xserver.Events.{build_focus_event}
use psl_xserver.Events.Fields.{seq-IsU16}
use psl_xserver.Events.Focus.{
  IsFocusEvent, build_focus_event-IsFocusEvent, build_focus_event-event_tx,
}
use psl_xserver.Outcome.{ok}
use psl_xserver.Prelude.{
  ==_iff, Bool-cases, List, Option-cases, [], ap, append-nil, append_assoc, arith, false, get_elem?,
  if◌then◌else◌, inl, inr, ltb, refl, replicate, some, suc, sym, true, ℕ, ◌%◌, ◌&&◌, ◌++◌, ◌<◌,
  ◌==◌, ◌^◌, ◌∙◌, ◌∷◌, ◌≡◌, ◌≢◌,
}
use psl_xserver.Prelude.Assoc.{bytes_eq, insert, lookup, lookup-insert, nat_eq}
use psl_xserver.Prelude.Bits.{test_bit}
use psl_xserver.Resources.{WindowState}
use psl_xserver.Server.{XServer, byte_at, find_window}
use psl_xserver.Server.Focus.{
  deliver_focus, focus_reply, handle_get_input_focus, handle_set_input_focus, send_focus_event,
  set_focus,
}
use psl_xserver.Server.Replies.{IsReply}
use psl_xserver.Wire.{
  ByteOrder, IsU16, IsU32, IsU8, big_endian, little_endian, u16_at, u16_bytes, u32_at, u32_bytes,
}
use psl_xserver.Wire.RoundTrip.{read_u16-u16_bytes, read_u32-u32_bytes, u32_at-append}

-- How many times a client selected FocusChange.
unfoldable pub wanted : ℕ → List (ℕ × ℕ) → ℕ
wanted id [] = 0
wanted id ((conn_id, emask) ∷ selections) =
    if test_bit emask 21 && conn_id == id then suc (wanted id selections) else wanted id selections

-- A connection with some more events of one kind in its queue.
queued : ℕ → (event_type wid : ℕ) → ClientConnection → ClientConnection
queued n event_type wid conn = record conn {
  event_tx = conn.event_tx ++ replicate n (fixed (build_focus_event conn event_type wid));
}

queued-send :
    (n event_type wid : ℕ) (conn : ClientConnection)
    → queued n event_type wid (send (fixed (build_focus_event conn event_type wid)) conn)
      ≡ queued (suc n) event_type wid conn
unfolding queued send
queued-send n event_type wid conn =
    let event = build_focus_event conn event_type wid in
    let same = build_focus_event-event_tx conn (conn.event_tx ++ fixed event ∷ []) event_type wid in
    ap
      (λ e. record conn { event_tx = (conn.event_tx ++ fixed event ∷ []) ++ replicate n (fixed e) })
      same
    ∙ ap (λ q. record conn { event_tx = q })
        (append_assoc conn.event_tx (fixed event ∷ []) (replicate n (fixed event)))

queued-none : (event_type wid : ℕ) (conn : ClientConnection) → queued 0 event_type wid conn ≡ conn
unfolding queued
queued-none event_type wid conn = ap (λ q. record conn { event_tx = q }) (append-nil conn.event_tx)

lookup-deliver_focus :
    (event_type wid id : ℕ) (selections : List (ℕ × ℕ)) (connections : List (ℕ × ClientConnection))
    (conn : ClientConnection)
    → lookup id connections ≡ some conn
    → lookup id (deliver_focus event_type wid selections connections)
      ≡ some (queued (wanted id selections) event_type wid conn)
unfolding deliver_focus wanted
lookup-deliver_focus event_type wid id [] connections conn known =
    known ∙ ap some (sym (queued-none event_type wid conn))
lookup-deliver_focus event_type wid id ((conn_id, emask) ∷ selections) connections conn known =
    elim (Bool-cases (test_bit emask 21)) [
      | inr unwanted ↦
          rw (unwanted, deliver_focus, wanted)
            (lookup-deliver_focus event_type wid id selections connections conn known)
      | inl selected ↦ elim (Bool-cases (conn_id == id)) [
        | inl self ↦
            let same : conn_id ≡ id = (==_iff conn_id id).0 self in
            let mine : lookup conn_id connections ≡ some conn =
              ap (λ k. lookup k connections) same ∙ known in
            let conn' = send (fixed (build_focus_event conn event_type wid)) conn in
            let found : lookup id (insert conn_id conn' connections) ≡ some conn' =
              lookup-insert conn_id id conn' connections ∙ rw self refl in
            rw (selected, self, mine, deliver_focus, wanted)
              (lookup-deliver_focus event_type wid id selections (insert conn_id conn' connections)
                  conn' found
                ∙ ap some (queued-send (wanted id selections) event_type wid conn))
        | inr other ↦ elim (Option-cases (lookup conn_id connections)) [
          | inl gone ↦
              rw (selected, other, gone, deliver_focus, wanted)
                (lookup-deliver_focus event_type wid id selections connections conn known)
          | inr (c, there) ↦
              let c' = send (fixed (build_focus_event c event_type wid)) c in
              let found : lookup id (insert conn_id c' connections) ≡ some conn =
                lookup-insert conn_id id c' connections ∙ rw other known in
              rw (selected, other, there, deliver_focus, wanted)
                (lookup-deliver_focus event_type wid id selections (insert conn_id c' connections)
                  conn found)
        ]
      ]
    ]

-- How a request to set the focus reads.
pub set_focus_request : ByteOrder → (revert_to l0 l1 focus time : ℕ) → List ℕ
set_focus_request order revert_to l0 l1 focus time =
    42 ∷ revert_to ∷ l0 ∷ l1 ∷ (u32_bytes order focus ++ u32_bytes order time)

send_focus_event-found :
    (event_type wid : ℕ) (server : XServer) (w : WindowState)
    → find_window server wid ≡ some w
    → send_focus_event event_type wid server ≡ record server {
      connections = deliver_focus event_type wid w.event_selections server.connections;
    }
unfolding send_focus_event
send_focus_event-found event_type wid server w found = rw (found, send_focus_event) refl

set_focus-moves :
    (server : XServer) (revert_to focus : ℕ) (old new : WindowState)
    → 1 < focus
    → 1 < server.focus_window
    → server.focus_window ≢ focus
    → find_window server server.focus_window ≡ some old
    → find_window server focus ≡ some new
    → set_focus focus revert_to server ≡ record server {
      focus_window = focus;
      focus_revert_to = revert_to;
      connections =
          deliver_focus 9 focus new.event_selections
            (deliver_focus 10 server.focus_window old.event_selections server.connections);
    }
unfolding set_focus find_window
set_focus-moves server revert_to focus old new inside was other found_old found_new =
    let old_focus = server.focus_window in
    let stored = record server { focus_window = focus; focus_revert_to = revert_to } in
    let left = record stored {
      connections = deliver_focus 10 old_focus old.event_selections server.connections;
    } in
    let old_window : ltb 1 old_focus ≡ true = ground arith in
    let new_window : ltb 1 focus ≡ true = ground arith in
    let one_way : (old_focus == focus) ≡ false = ground (arith, other) in
    let other_way : (focus == old_focus) ≡ false = ground (arith, other) in
    rw (set_focus, old_window, new_window, one_way, other_way)
      (ap (send_focus_event 9 focus) (send_focus_event-found 10 old_focus stored old found_old)
        ∙ send_focus_event-found 9 focus left new found_new)

handle_set_input_focus-request :
    (server : XServer) (conn : ClientConnection) (revert_to l0 l1 focus time : ℕ)
    → IsU32 focus
    → handle_set_input_focus server conn
        (set_focus_request conn.byte_order revert_to l0 l1 focus time)
      ≡ ok (set_focus focus revert_to server, [])
unfolding handle_set_input_focus set_focus_request byte_at
handle_set_input_focus-request server conn revert_to l0 l1 focus time hf =
    rw
      (u32_at-append conn.byte_order (42 ∷ revert_to ∷ l0 ∷ l1 ∷ [])
        (u32_bytes conn.byte_order time) focus hf)
      refl

-- The focus in a reply to GetInputFocus, as a client of a byte order reads it.
abbrev pub ReportsFocus : ByteOrder → (seq revert_to focus : ℕ) → List ℕ → Type 0
ReportsFocus order seq revert_to focus reply =
    IsReply order seq 0 reply
    × (get_elem? reply 1 ≡ some revert_to)
    × (u32_at order reply 8 ≡ ok focus)

focus_reply-ReportsFocus :
    (order : ByteOrder) (seq revert_to focus : ℕ)
    → IsU16 seq
    → IsU32 focus
    → ReportsFocus order seq revert_to focus (focus_reply order seq revert_to focus)
unfolding focus_reply u16_at u32_at u16_bytes u32_bytes
focus_reply-ReportsFocus big_endian seq revert_to focus hs hf = (
  (refl, refl, read_u16-u16_bytes big_endian seq [] hs, refl),
  refl,
  read_u32-u32_bytes big_endian focus [] hf,
)
focus_reply-ReportsFocus little_endian seq revert_to focus hs hf = (
  (refl, refl, read_u16-u16_bytes little_endian seq [] hs, refl),
  refl,
  read_u32-u32_bytes little_endian focus [] hf,
)

-- Two kinds of events in a queue, one behind the other.
queued-queued :
    (n m left wid : ℕ) (conn : ClientConnection)
    → queued m 9 wid (queued n 10 left conn) ≡ record conn {
      event_tx =
          conn.event_tx
          ++ (replicate n (fixed (build_focus_event conn 10 left))
              ++ replicate m (fixed (build_focus_event conn 9 wid)));
    }
unfolding queued
queued-queued n m left wid conn =
    let lost = replicate n (fixed (build_focus_event conn 10 left)) in
    ap (λ e. record conn { event_tx = (conn.event_tx ++ lost) ++ replicate m (fixed e) })
      (build_focus_event-event_tx conn (conn.event_tx ++ lost) 9 wid)
    ∙ ap (λ q. record conn { event_tx = q })
        (append_assoc conn.event_tx lost (replicate m (fixed (build_focus_event conn 9 wid))))

-- The focus moves from a window to another, both in the table, by a request whose numbers fit their
-- fields. Then the request succeeds and writes nothing; the queue of every connection has gained one
-- FocusOut (code 10) of the old window for each time that its client selected FocusChange there,
-- behind them one FocusIn (code 9) of the new window likewise, and nothing else, each event as the
-- connection's byte order reads it; and any client that asks reads the new focus in the reply.
pub handle_set_input_focus_lem :
    (server : XServer) (conn reader : ClientConnection) (revert_to l0 l1 focus time id : ℕ)
    (old new : WindowState) (client : ClientConnection)
    → IsU8 revert_to
    → IsU32 focus
    → IsU32 server.focus_window
    → 1 < focus
    → 1 < server.focus_window
    → server.focus_window ≢ focus
    → find_window server server.focus_window ≡ some old
    → find_window server focus ≡ some new
    → lookup id server.connections ≡ some client
    → (server' : XServer) × (lost : List ℕ) × (gained : List ℕ) × (reply : List ℕ)
      × (handle_set_input_focus server conn
            (set_focus_request conn.byte_order revert_to l0 l1 focus time)
          ≡ ok (server', []))
      × (lookup id server'.connections
          ≡ some (record client {
            event_tx =
                client.event_tx
                ++ (replicate (wanted id old.event_selections) (fixed lost)
                    ++ replicate (wanted id new.event_selections) (fixed gained));
          }))
      × IsFocusEvent client.byte_order (current_request_sequence client) 10 server.focus_window lost
      × IsFocusEvent client.byte_order (current_request_sequence client) 9 focus gained
      × (handle_get_input_focus server' reader [] ≡ ok (server', reply))
      × ReportsFocus reader.byte_order (current_request_sequence reader) revert_to focus reply
unfolding handle_get_input_focus
handle_set_input_focus_lem server conn reader revert_to l0 l1 focus time id old new client hr hf hw
      inside was other found_old found_new known =
    let left = deliver_focus 10 server.focus_window old.event_selections server.connections in
    let told =
      lookup-deliver_focus 10 server.focus_window id old.event_selections server.connections client
        known in
    let byte : revert_to % 2 ^ 8 ≡ revert_to = omega arith in
    let seq = current_request_sequence reader in
    (
      _,
      build_focus_event client 10 server.focus_window,
      build_focus_event client 9 focus,
      focus_reply reader.byte_order seq revert_to focus,
      handle_set_input_focus-request server conn revert_to l0 l1 focus time hf
          ∙ ap (λ (s : XServer). ok (s, []))
              (set_focus-moves server revert_to focus old new inside was other found_old found_new),
      lookup-deliver_focus 9 focus id new.event_selections left _ told
          ∙ ap some (
              queued-queued (wanted id old.event_selections) (wanted id new.event_selections)
                server.focus_window focus client),
      build_focus_event-IsFocusEvent client 10 server.focus_window hw,
      build_focus_event-IsFocusEvent client 9 focus hf,
      rw byte refl,
      focus_reply-ReportsFocus reader.byte_order seq revert_to focus (seq-IsU16 reader) hf,
    )
