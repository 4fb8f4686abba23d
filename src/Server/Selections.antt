-- ===== src/Server/Selections.antt =====
-- The owners of selections: src/server/connection.rs, `handle_set_selection_owner` and
-- `handle_get_selection_owner`.
pub mod Owners
mod Tests
use psl_xserver.Connection.{ClientConnection, current_request_sequence}
use psl_xserver.Outcome.{ok, protocol, require, ◌>>=◌, ◌>>◌}
use psl_xserver.Prelude.{
  List, Option, [], if◌then◌else◌, leb, length, none, replicate, some, ℕ, ◌++◌, ◌==◌, ◌∷◌,
}
use psl_xserver.Prelude.Assoc.{bytes_eq, insert, lookup, nat_eq, remove}
use psl_xserver.Server.{Reply, XServer}
use psl_xserver.Wire.{ByteOrder, u16_bytes, u32_at, u32_bytes}

-- The owner 0 gives the selection up; the time 0 is the time at which the server started.
pub set_owner : (owner selection time : ℕ) → XServer → XServer
set_owner owner selection time server =
    let ts = if time == 0 then server.startup_time else time in
    if owner == 0
    then record server { selections = remove selection server.selections }
    else record server { selections = insert selection (owner, ts) server.selections }

pub handle_set_selection_owner : XServer → ClientConnection → List ℕ → Reply
handle_set_selection_owner server conn request_data = do
  require (leb 16 (length request_data)) protocol
  owner ← u32_at conn.byte_order request_data 4
  selection ← u32_at conn.byte_order request_data 8
  time ← u32_at conn.byte_order request_data 12
  ok (set_owner owner selection time server, [])

-- `map(|e| e.0).unwrap_or(0)`.
abbrev owner_or_none : Option (ℕ × ℕ) → ℕ
owner_or_none (some (owner, ts)) = owner
owner_or_none none = 0

pub owner_of : XServer → ℕ → ℕ
owner_of server selection = owner_or_none (lookup selection server.selections)

pub owner_reply : ByteOrder → (seq owner : ℕ) → List ℕ
owner_reply order seq owner =
    1
    ∷ 0
    ∷ (u16_bytes order seq ++ (u32_bytes order 0 ++ (u32_bytes order owner ++ replicate 20 0)))

-- A request without a selection asks for the selection 0.
pub handle_get_selection_owner : XServer → ClientConnection → List ℕ → Reply
handle_get_selection_owner server conn request_data = do
  selection ← (if leb 8 (length request_data) then u32_at conn.byte_order request_data 4 else ok 0)
  ok (
    server,
    owner_reply conn.byte_order (current_request_sequence conn) (owner_of server selection),
  )
