-- ===== src/Server/Windows/Tree.antt =====
-- The window tree as requests build it and as QueryTree shows it.
use psl_xserver.Connection.{ClientConnection, current_request_sequence}
use psl_xserver.Events.Fields.{seq-IsU16}
use psl_xserver.Outcome.{ok}
use psl_xserver.Prelude.{
  List, Option-cases, [], ap, arith, drop, false, inl, inr, length, length-append, refl, some, true,
  ℕ, ◌++◌, ◌<◌, ◌==◌, ◌∷◌, ◌≡◌, ◌≢◌,
}
use psl_xserver.Resources.{WindowState, new_window}
use psl_xserver.Server.{Screen, XServer, find_window, put_window, update_window}
use psl_xserver.Server.Lookup.{find_window-put_window, find_window-update_same}
use psl_xserver.Server.Replies.{AllU32, HoldsWords, IsReply, all_words-HoldsWords, length-all_words}
use psl_xserver.Server.ValueLists.{bits_from, kept-apply_values}
use psl_xserver.Server.Windows.{
  add_window, children_of, handle_create_window, handle_query_tree, parent_of, push_child,
  set_window_value, tree_reply,
}
use psl_xserver.Server.Windows.Create.{created, handle_create_window-request}
use psl_xserver.Server.Windows.CreateRequest.{CreateFields, FieldsFit, create_request}
use psl_xserver.Wire.{
  ByteOrder, IsU16, IsU32, big_endian, little_endian, u16_at, u16_bytes, u32_at, u32_bytes,
}
use psl_xserver.Wire.RoundTrip.{u16_at-append, u32_at-append}

-- QueryTree as a client sends it.
pub query_tree_request : ByteOrder → (pad l0 l1 wid : ℕ) → List ℕ
query_tree_request order pad l0 l1 wid = 15 ∷ pad ∷ l0 ∷ l1 ∷ (u32_bytes order wid ++ [])

handle_query_tree-request :
    (server : XServer) (conn : ClientConnection) (pad l0 l1 wid : ℕ) (w : WindowState)
    (root parent : ℕ) (children : List ℕ)
    → IsU32 wid
    → find_window server wid ≡ some w
    → server.screen.root_window ≡ root
    → w.parent ≡ parent
    → w.children ≡ children
    → handle_query_tree server conn (query_tree_request conn.byte_order pad l0 l1 wid)
      ≡ ok (server, tree_reply conn.byte_order (current_request_sequence conn) root parent children)
unfolding handle_query_tree query_tree_request parent_of children_of
handle_query_tree-request server conn pad l0 l1 wid w root parent children hw found hr hp hc =
    let parent_is : parent_of server wid ≡ parent = rw (found, parent_of) hp in
    let children_are : children_of server wid ≡ children = rw (found, children_of) hc in
    rw
      (
        u32_at-append conn.byte_order (15 ∷ pad ∷ l0 ∷ l1 ∷ []) [] wid hw,
        parent_is,
        children_are,
        hr,
      )
      refl

created-parent :
    (server : XServer) (conn_id : ℕ) (q : CreateFields) (value : ℕ → ℕ)
    → WindowState.parent (created server conn_id q value) ≡ q.parent
unfolding created new_window set_window_value
created-parent server conn_id q value =
    kept-apply_values (set_window_value conn_id) (λ w. WindowState.parent w)
      (λ bit v w. ground arith) q.value_mask value (bits_from 0 15) _

created-children :
    (server : XServer) (conn_id : ℕ) (q : CreateFields) (value : ℕ → ℕ)
    → WindowState.children (created server conn_id q value) ≡ []
unfolding created new_window set_window_value
created-children server conn_id q value =
    kept-apply_values (set_window_value conn_id) (λ w. WindowState.children w)
      (λ bit v w. ground arith) q.value_mask value (bits_from 0 15) _

add_window-find :
    (wid parent : ℕ) (w p : WindowState) (server : XServer)
    → wid ≢ parent
    → find_window server parent ≡ some p
    → (find_window (add_window wid parent w server) wid ≡ some w)
      × (find_window (add_window wid parent w server) parent ≡ some (push_child wid p))
unfolding add_window
add_window-find wid parent w p server other found =
    let linked = update_window parent (push_child wid) server in
    let itself : (wid == wid) ≡ true = ground arith in
    let differs : (wid == parent) ≡ false = ground arith in
    (
      rw (find_window-put_window wid wid w linked, itself) refl,
      rw (find_window-put_window wid parent w linked, differs)
          (find_window-update_same parent (push_child wid) p server found),
    )

add_window-screen :
    (wid parent : ℕ) (w : WindowState) (server : XServer)
    → XServer.screen (add_window wid parent w server) ≡ server.screen
unfolding add_window put_window update_window
add_window-screen wid parent w server = elim (Option-cases (find_window server parent)) [
  | inl e ↦ rw (e, update_window) refl
  | inr (p, e) ↦ rw (e, update_window) refl
]

-- What a reply to QueryTree tells a client of a byte order: the root, the parent, the number of
-- children, and the children in order behind the first 32 bytes.
abbrev pub ReportsTree : ByteOrder → (seq root parent : ℕ) → List ℕ → List ℕ → Type 0
ReportsTree order seq root parent children reply =
    IsReply order seq (length children) reply
    × (u32_at order reply 8 ≡ ok root)
    × (u32_at order reply 12 ≡ ok parent)
    × (u16_at order reply 16 ≡ ok (length children))
    × HoldsWords order children (drop 32 reply)

tree_reply-ReportsTree :
    (order : ByteOrder) (seq root parent : ℕ) (children : List ℕ)
    → IsU16 seq
    → IsU32 root
    → IsU32 parent
    → IsU16 (length children)
    → AllU32 children
    → ReportsTree order seq root parent children (tree_reply order seq root parent children)
unfolding tree_reply u16_bytes u32_bytes
tree_reply-ReportsTree big_endian seq root parent children hs hr hp hn hc = (
  (
    omega (arith, length-all_words big_endian children),
    refl,
    u16_at-append big_endian (1 ∷ 0 ∷ []) _ seq hs,
    u32_at-append big_endian (1 ∷ 0 ∷ u16_bytes big_endian seq) _ (length children) (omega arith),
  ),
  u32_at-append big_endian
      (1 ∷ 0 ∷ (u16_bytes big_endian seq ++ u32_bytes big_endian (length children))) _ root hr,
  u32_at-append big_endian
      (1
        ∷ 0
        ∷ (u16_bytes big_endian seq
            ++ (u32_bytes big_endian (length children) ++ u32_bytes big_endian root)))
      _ parent hp,
  u16_at-append big_endian
      (1
        ∷ 0
        ∷ (u16_bytes big_endian seq
            ++ (u32_bytes big_endian (length children)
                ++ (u32_bytes big_endian root ++ u32_bytes big_endian parent))))
      _ (length children) hn,
  all_words-HoldsWords big_endian children hc,
)
tree_reply-ReportsTree little_endian seq root parent children hs hr hp hn hc = (
  (
    omega (arith, length-all_words little_endian children),
    refl,
    u16_at-append little_endian (1 ∷ 0 ∷ []) _ seq hs,
    u32_at-append little_endian (1 ∷ 0 ∷ u16_bytes little_endian seq) _ (length children)
        (omega arith),
  ),
  u32_at-append little_endian
      (1 ∷ 0 ∷ (u16_bytes little_endian seq ++ u32_bytes little_endian (length children))) _ root
      hr,
  u32_at-append little_endian
      (1
        ∷ 0
        ∷ (u16_bytes little_endian seq
            ++ (u32_bytes little_endian (length children) ++ u32_bytes little_endian root)))
      _ parent hp,
  u16_at-append little_endian
      (1
        ∷ 0
        ∷ (u16_bytes little_endian seq
            ++ (u32_bytes little_endian (length children)
                ++ (u32_bytes little_endian root ++ u32_bytes little_endian parent))))
      _ (length children) hn,
  all_words-HoldsWords little_endian children hc,
)

-- Behind the children that a window has comes the new one.
append-AllU32 : (vs : List ℕ) (v : ℕ) → AllU32 vs → IsU32 v → AllU32 (vs ++ v ∷ [])
append-AllU32 [] v fits fit = (fit, tt)
append-AllU32 (w ∷ vs) v (first, fits) fit = (first, append-AllU32 vs v fits fit)

-- A client creates a window whose numbers fit their fields, with any mask and a value for each set
-- bit, under a window that is there, is not the new one and has fewer than 65535 children, the ids
-- of all of them and of the root fitting 32 bits. Then any client, of either byte order, that asks
-- for the tree reads in the reply, after the layout of the protocol: of the new window, its parent
-- and no children; of the parent, its own parent as before and its children as before with the new
-- window at the end; of both, the root.
pub create-query_tree :
    (server : XServer) (conn reader : ClientConnection) (pad l0 l1 : ℕ) (q : CreateFields)
    (value : ℕ → ℕ) (p : WindowState)
    → FieldsFit q
    → ((bit : ℕ) → IsU32 (value bit))
    → q.wid ≢ q.parent
    → find_window server q.parent ≡ some p
    → IsU32 server.screen.root_window
    → IsU32 p.parent
    → AllU32 p.children
    → length p.children < 65535
    → let order = reader.byte_order in
      let seq = current_request_sequence reader in
      let root = server.screen.root_window in
      (server' : XServer) × (of_new : List ℕ) × (of_parent : List ℕ) × (handle_create_window server
          conn
          (create_request conn.byte_order l0 l1 q value)
        ≡ ok (server', []))
      × (handle_query_tree server' reader (query_tree_request order pad l0 l1 q.wid)
          ≡ ok (server', of_new))
      × ReportsTree order seq root q.parent [] of_new
      × (handle_query_tree server' reader (query_tree_request order pad l0 l1 q.parent)
          ≡ ok (server', of_parent))
      × ReportsTree order seq root p.parent (p.children ++ q.wid ∷ []) of_parent
unfolding push_child
create-query_tree server conn reader pad l0 l1 q value p f fits other found hr hp hc few =
    let w = created server conn.id q value in
    let order = reader.byte_order in
    let seq = current_request_sequence reader in
    let server' = add_window q.wid q.parent w server in
    let (at_wid, at_parent) = add_window-find q.wid q.parent w p server other found in
    let root = server.screen.root_window in
    let screen = ap Screen.root_window (add_window-screen q.wid q.parent w server) in
    let family = p.children ++ q.wid ∷ [] in
    (
      server',
      tree_reply order seq root q.parent [],
      tree_reply order seq root p.parent family,
      handle_create_window-request server conn l0 l1 q value f fits,
      handle_query_tree-request server' reader pad l0 l1 q.wid w root q.parent [] f.wid_fits at_wid
          screen (created-parent server conn.id q value) (created-children server conn.id q value),
      tree_reply-ReportsTree order seq root q.parent [] (seq-IsU16 reader) hr f.parent_fits
          (omega arith) tt,
      handle_query_tree-request server' reader pad l0 l1 q.parent (push_child q.wid p) root p.parent
          family f.parent_fits at_parent screen refl refl,
      tree_reply-ReportsTree order seq root p.parent family (seq-IsU16 reader) hr hp
          (omega (arith, length-append p.children (q.wid ∷ []), few))
          (append-AllU32 p.children q.wid hc f.wid_fits),
    )
