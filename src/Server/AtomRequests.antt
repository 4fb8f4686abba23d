-- ===== src/Server/AtomRequests.antt =====
-- InternAtom and GetAtomName: src/server/connection.rs, `handle_intern_atom` and
-- `handle_get_atom_name`.
use psl_xserver.Atoms.{get_name, intern}
use psl_xserver.Connection.{ClientConnection, current_request_sequence}
use psl_xserver.Outcome.{ok, protocol, require, slice, ◌>>=◌, ◌>>◌}
use psl_xserver.Prelude.{
  List, [], if◌then◌else◌, leb, length, none, not, replicate, some, unwrap_or, ℕ, ◌%◌, ◌++◌, ◌+◌,
  ◌/◌, ◌==◌, ◌∷◌,
}
use psl_xserver.Server.{Reply, XServer, byte_at, pad_of}
use psl_xserver.Utf8.{is_utf8}
use psl_xserver.Wire.{ByteOrder, u16_at, u16_bytes, u32_at, u32_bytes}

-- The error packet of GetAtomName: the atom and the sequence number are little-endian.
bad_atom_packet : ℕ → ℕ → List ℕ
bad_atom_packet atom seq =
    0
    ∷ 5
    ∷ (seq % 256)
    ∷ (seq / 256 % 256)
    ∷ (atom % 256)
    ∷ (atom / 256 % 256)
    ∷ (atom / 65536 % 256)
    ∷ (atom / 16777216 % 256)
    ∷ 0
    ∷ 0
    ∷ 17
    ∷ replicate 21 0

intern_reply : ByteOrder → ℕ → ℕ → List ℕ
intern_reply order seq atom =
    1 ∷ 0 ∷ (u16_bytes order seq ++ (u32_bytes order 0 ++ (u32_bytes order atom ++ replicate 20 0)))

-- A name that is not UTF-8 text counts as the empty one.
text_or_empty : List ℕ → List ℕ
text_or_empty bytes = if is_utf8 bytes then bytes else []

handle_intern_atom : XServer → ClientConnection → List ℕ → Reply
unfolding intern_reply text_or_empty
handle_intern_atom server conn request_data = do
  require (leb 8 (length request_data)) protocol
  flag_byte ← byte_at request_data 1
  name_len ← u16_at conn.byte_order request_data 4
  require (leb (8 + name_len) (length request_data)) protocol
  name_bytes ← slice request_data 8 (8 + name_len)
  let name = text_or_empty name_bytes
  let (atom, atoms') = intern name (not (flag_byte == 0)) server.atoms
  ok (
    record server { atoms = atoms' },
    intern_reply conn.byte_order (current_request_sequence conn) (unwrap_or 0 atom),
  )

name_reply : ByteOrder → ℕ → List ℕ → List ℕ
name_reply order seq name =
    1
    ∷ 0
    ∷ (u16_bytes order seq
        ++ (u32_bytes order ((length name + pad_of (length name)) / 4)
            ++ (u16_bytes order (length name)
                ++ (replicate 22 0 ++ (name ++ replicate (pad_of (length name)) 0)))))

handle_get_atom_name : XServer → ClientConnection → List ℕ → Reply
unfolding bad_atom_packet name_reply
handle_get_atom_name server conn request_data = do
  atom ← u32_at conn.byte_order request_data 4
  elim (get_name atom server.atoms) [
    | none ↦ ok (server, bad_atom_packet atom (current_request_sequence conn))
    | some name ↦ ok (server, name_reply conn.byte_order (current_request_sequence conn) name)
  ]
