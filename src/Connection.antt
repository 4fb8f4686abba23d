-- ===== src/Connection.antt =====
-- A client's connection: src/server/connection.rs, `EventData` and `ClientConnection`. The channel
-- `event_tx` is the list of the events sent and not yet received, oldest first.
pub mod Framing
use psl_xserver.Prelude.{Bool, List, [], bit_and, ℕ, ◌%◌, ◌++◌, ◌+◌, ◌-◌, ◌==◌, ◌^◌, ◌∷◌}
use psl_xserver.Prelude.Bits.{not_u32}
use psl_xserver.Wire.{ByteOrder}

pub data EventData : Type 0 where
  fixed : List ℕ → EventData
  extended : List ℕ → EventData

as_slice : EventData → List ℕ
as_slice (fixed buf) = buf
as_slice (extended vec) = vec

pub record ClientConnection : Type 0 where
  pub id : ℕ
  pub resource_id_base : ℕ
  pub resource_id_mask : ℕ
  pub byte_order : ByteOrder
  pub sequence_number : ℕ
  pub event_tx : List EventData
  pub mapping_gen : ℕ

-- `fetch_add(1)` wraps at 2 ^ 16 and returns the old value.
pub next_sequence : ClientConnection → ℕ × ClientConnection
next_sequence conn =
    (conn.sequence_number, record conn { sequence_number = (conn.sequence_number + 1) % 2 ^ 16 })

-- The number of the request being processed: the counter less one, wrapping.
unfoldable pub current_request_sequence : ClientConnection → ℕ
current_request_sequence conn = (conn.sequence_number + 2 ^ 16 - 1) % 2 ^ 16

-- `event_tx.send`.
unfoldable pub send : EventData → ClientConnection → ClientConnection
send event conn = record conn { event_tx = conn.event_tx ++ event ∷ [] }

-- Does a resource id lie in the range of this connection? `(xid & !mask) == (base & !mask)`.
unfoldable pub owns : ClientConnection → ℕ → Bool
owns conn xid =
    bit_and xid (not_u32 conn.resource_id_mask)
    == bit_and conn.resource_id_base (not_u32 conn.resource_id_mask)
