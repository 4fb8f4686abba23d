-- ===== src/Server/Selections/Owners.antt =====
-- An owner that a request sets, read back by requests.
use psl_xserver.Connection.{ClientConnection, current_request_sequence}
use psl_xserver.Events.Fields.{seq-IsU16}
use psl_xserver.Outcome.{ok}
use psl_xserver.Prelude.{
  Bool-cases, List, [], arith, if◌then◌else◌, inl, inr, leb, length, length-append, refl, true, ℕ,
  ◌++◌, ◌==◌, ◌∷◌, ◌≡◌,
}
use psl_xserver.Prelude.Assoc.{lookup-insert, lookup-remove}
use psl_xserver.Server.{XServer}
use psl_xserver.Server.Replies.{IsReply}
use psl_xserver.Server.Selections.{
  handle_get_selection_owner, handle_set_selection_owner, owner_of, owner_reply, set_owner,
}
use psl_xserver.Wire.{
  ByteOrder, IsU16, IsU32, big_endian, little_endian, u16_at, u16_bytes, u32_at, u32_bytes,
}
use psl_xserver.Wire.RoundTrip.{
  length-u32_bytes, read_u16-u16_bytes, read_u32-u32_bytes, u32_at-append,
}

-- SetSelectionOwner as a client sends it.
pub set_owner_request : ByteOrder → (pad l0 l1 owner selection time : ℕ) → List ℕ
set_owner_request order pad l0 l1 owner selection time =
    22
    ∷ pad
    ∷ l0
    ∷ l1
    ∷ (u32_bytes order owner ++ (u32_bytes order selection ++ (u32_bytes order time ++ [])))

-- GetSelectionOwner as a client sends it.
pub get_owner_request : ByteOrder → (pad l0 l1 selection : ℕ) → List ℕ
get_owner_request order pad l0 l1 selection = 23 ∷ pad ∷ l0 ∷ l1 ∷ (u32_bytes order selection ++ [])

set_owner_reads :
    (order : ByteOrder) (pad l0 l1 owner selection time : ℕ)
    → IsU32 owner
    → IsU32 selection
    → IsU32 time
    → let bytes = set_owner_request order pad l0 l1 owner selection time in
      (length bytes ≡ 16)
      × (u32_at order bytes 4 ≡ ok owner)
      × (u32_at order bytes 8 ≡ ok selection)
      × (u32_at order bytes 12 ≡ ok time)
unfolding set_owner_request u32_bytes
set_owner_reads big_endian pad l0 l1 owner selection time ho hs ht = (
  refl,
  u32_at-append big_endian (22 ∷ pad ∷ l0 ∷ l1 ∷ []) _ owner ho,
  u32_at-append big_endian (22 ∷ pad ∷ l0 ∷ l1 ∷ u32_bytes big_endian owner) _ selection hs,
  u32_at-append big_endian
      (22 ∷ pad ∷ l0 ∷ l1 ∷ (u32_bytes big_endian owner ++ u32_bytes big_endian selection)) _ time
      ht,
)
set_owner_reads little_endian pad l0 l1 owner selection time ho hs ht = (
  refl,
  u32_at-append little_endian (22 ∷ pad ∷ l0 ∷ l1 ∷ []) _ owner ho,
  u32_at-append little_endian (22 ∷ pad ∷ l0 ∷ l1 ∷ u32_bytes little_endian owner) _ selection hs,
  u32_at-append little_endian
      (22 ∷ pad ∷ l0 ∷ l1 ∷ (u32_bytes little_endian owner ++ u32_bytes little_endian selection)) _
      time ht,
)

owner_of-set_owner :
    (owner selection time other : ℕ) (server : XServer)
    → owner_of (set_owner owner selection time server) other
      ≡ (if selection == other then owner else owner_of server other)
unfolding owner_of set_owner
owner_of-set_owner owner selection time other server =
    let ts = if time == 0 then server.startup_time else time in
    elim (Bool-cases (owner == 0)) [
      | inl gone ↦ elim (Bool-cases (selection == other)) [
        | inl e ↦
            let nobody : 0 ≡ owner = ground arith in
            rw (gone, lookup-remove selection other server.selections, e) nobody
        | inr e ↦ rw (gone, lookup-remove selection other server.selections, e) refl
      ]
      | inr kept ↦ elim (Bool-cases (selection == other)) [
        | inl e ↦ rw (kept, lookup-insert selection other (owner, ts) server.selections, e) refl
        | inr e ↦ rw (kept, lookup-insert selection other (owner, ts) server.selections, e) refl
      ]
    ]

-- The owner in a reply to GetSelectionOwner, as a client of a byte order reads it.
abbrev pub ReportsOwner : ByteOrder → (seq owner : ℕ) → List ℕ → Type 0
ReportsOwner order seq owner reply = IsReply order seq 0 reply × (u32_at order reply 8 ≡ ok owner)

owner_reply-ReportsOwner :
    (order : ByteOrder) (seq owner : ℕ)
    → IsU16 seq
    → IsU32 owner
    → ReportsOwner order seq owner (owner_reply order seq owner)
unfolding owner_reply u16_at u32_at u16_bytes u32_bytes
owner_reply-ReportsOwner big_endian seq owner hs ho = (
  (refl, refl, read_u16-u16_bytes big_endian seq [] hs, refl),
  read_u32-u32_bytes big_endian owner [] ho,
)
owner_reply-ReportsOwner little_endian seq owner hs ho = (
  (refl, refl, read_u16-u16_bytes little_endian seq [] hs, refl),
  read_u32-u32_bytes little_endian owner [] ho,
)

-- A client sets the owner of a selection, to a window or to none, all numbers fitting 32 bits. Then
-- the request succeeds and writes nothing, and any client, of either byte order, that asks for the
-- owner of any selection reads in a reply to its request, after the layout of the protocol, the new
-- owner for that selection, and for every other selection the owner it had, if that fits 32 bits.
pub set-get_selection_owner :
    (server : XServer) (conn reader : ClientConnection) (pad l0 l1 owner selection time other : ℕ)
    → IsU32 owner
    → IsU32 selection
    → IsU32 time
    → IsU32 other
    → IsU32 (owner_of server other)
    → (server' : XServer) × (reply : List ℕ) × (handle_set_selection_owner server conn
          (set_owner_request conn.byte_order pad l0 l1 owner selection time)
        ≡ ok (server', []))
      × (handle_get_selection_owner server' reader
            (get_owner_request reader.byte_order pad l0 l1 other)
          ≡ ok (server', reply))
      × ReportsOwner reader.byte_order
          (current_request_sequence reader)
          (if selection == other then owner else owner_of server other)
          reply
unfolding handle_set_selection_owner handle_get_selection_owner get_owner_request
set-get_selection_owner server conn reader pad l0 l1 owner selection time other ho hs ht hx had =
    let (size, at4, at8, at12) =
      set_owner_reads conn.byte_order pad l0 l1 owner selection time ho hs ht in
    let server' = set_owner owner selection time server in
    let now = if selection == other then owner else owner_of server other in
    let asked = u32_at-append reader.byte_order (23 ∷ pad ∷ l0 ∷ l1 ∷ []) [] other hx in
    let long : leb 8 (length (23 ∷ pad ∷ l0 ∷ l1 ∷ (u32_bytes reader.byte_order other ++ [])))
        ≡ true =
      ground (
        arith,
        length-append (u32_bytes reader.byte_order other) [],
        length-u32_bytes reader.byte_order other,
      ) in
    let fits : IsU32 now = ground arith in
    (
      server',
      owner_reply reader.byte_order (current_request_sequence reader) now,
      rw (size, at4, at8, at12) refl,
      rw (long, asked, owner_of-set_owner owner selection time other server) refl,
      owner_reply-ReportsOwner reader.byte_order (current_request_sequence reader) now
          (seq-IsU16 reader) fits,
    )
