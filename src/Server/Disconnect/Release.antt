-- ===== src/Server/Disconnect/Release.antt =====
-- What a client leaves behind when its connection ends.
use psl_xserver.Connection.{ClientConnection, owns}
use psl_xserver.Prelude.{
  List, Option, Option-cases, [], ap, arith, bit_and, false, inl, inr, none, not, refl, some, suc,
  sym, true, unwrap_or, zero, ℕ, ◌%◌, ◌*◌, ◌/◌, ◌<◌, ◌^◌, ◌↔◌, ◌∙◌, ◌∷◌, ◌≡◌,
}
use psl_xserver.Prelude.Assoc.{
  bytes_eq, lookup, lookup-remove, lookup-retain, nat_eq, remove, retain, retain-keeps,
}
use psl_xserver.Prelude.Bits.{bit_and-ones, bit_and-shifted}
use psl_xserver.Resources.{NativeWindowHandle}
use psl_xserver.Server.{XServer, command, find_window, put_window, update_window}
use psl_xserver.Server.Disconnect.{disconnect, owned_toplevels}
use psl_xserver.Server.Windows.{
  destroy_handle, destroy_window_recursive, for_each, take_out, unlink_parent,
}
use psl_xserver.Server.Windows.Destroy.{
  HasDepth, HasDepth-Shrinks, IsIn, destroy_window_recursive_total, for_each_total,
}

-- A connection whose ids are told apart by the 11 bits above the last 21, as the setup makes them.
pub record HasRange (conn : ClientConnection) (range : ℕ) : Type 0 where
  pub mask_is : conn.resource_id_mask ≡ 0x001FFFFF
  pub base_is : conn.resource_id_base ≡ range * 2 ^ 21
  pub range_fits : range < 2 ^ 11

masked : (xid : ℕ) → bit_and xid (2047 * 2 ^ 21) ≡ xid / 2 ^ 21 % 2 ^ 11 * 2 ^ 21
masked xid = bit_and-shifted 21 xid 2047 ∙ ap (λ t. t * 2 ^ 21) (bit_and-ones 11 (xid / 2 ^ 21))

-- A connection with the mask and a base of such a range owns exactly the ids whose 11 bits above
-- the last 21 are those of its base.
pub owns_iff :
    (conn : ClientConnection) (range xid : ℕ)
    → HasRange conn range
    → (owns conn xid ≡ true) ↔ (xid / 2 ^ 21 % 2 ^ 11 ≡ range)
unfolding owns
owns_iff conn range xid r =
    let id_part = masked xid in
    let base_part = masked (range * 2 ^ 21) in
    rw (r.mask_is, r.base_is, id_part, base_part) (ground arith)

-- Destroying windows leaves the selections alone.
module _ (step : ℕ → XServer → Option XServer)
    (step_keeps : (wid : ℕ) (a b : XServer)
      → step wid a ≡ some b
      → XServer.selections b ≡ a.selections) where
  for_each-selections :
      (cs : List ℕ) (a b : XServer)
      → for_each step cs a ≡ some b
      → XServer.selections b ≡ a.selections
  unfolding for_each
  for_each-selections [] a b e = ap XServer.selections (sym (ap (unwrap_or a) e))
  for_each-selections (c ∷ cs) a b e = elim (Option-cases (step c a)) [
    | inl fails ↦ absurd (cc (rw (fails, for_each) at e))
    | inr (mid, done) ↦
        for_each-selections cs mid b (rw (done, for_each) at e) ∙ step_keeps c a mid done
  ]

take_out-selections :
    (wid parent : ℕ) (native : Option NativeWindowHandle) (server : XServer)
    → XServer.selections (take_out wid parent native server) ≡ server.selections
unfolding take_out unlink_parent update_window put_window destroy_handle command
take_out-selections wid parent none server = ground arith
take_out-selections wid parent (some handle) server = ground arith

destroy-selections :
    (fuel wid : ℕ) (a b : XServer)
    → destroy_window_recursive fuel wid a ≡ some b
    → XServer.selections b ≡ a.selections
unfolding destroy_window_recursive
destroy-selections zero wid a b e = absurd (cc e)
destroy-selections (suc fuel) wid a b e = elim (Option-cases (find_window a wid)) [
  | inl gone ↦
      ap XServer.selections (sym (ap (unwrap_or a) (rw (gone, destroy_window_recursive) at e)))
  | inr (w, found) ↦
      let e' = rw (found, destroy_window_recursive) at e in
      elim (Option-cases (for_each (destroy_window_recursive fuel) w.children a)) [
        | inl fails ↦ absurd (cc (rw fails at e'))
        | inr (mid, done) ↦
            ap XServer.selections (sym (ap (unwrap_or a) (rw done at e')))
            ∙ take_out-selections wid w.parent w.native_window mid
            ∙ for_each-selections (destroy_window_recursive fuel) (destroy-selections fuel)
                w.children a mid done
      ]
]

-- Every window of the client that hangs off the root has a tree that is no deeper than the fuel.
-- Then the clean-up ends, and after it no id of the client's range is in the table, every
-- selection that is left has an owner outside the range, and the connection is gone.
pub disconnect_releases :
    (fuel : ℕ) (conn : ClientConnection) (server : XServer)
    → ((c : ℕ)
        → IsIn c (owned_toplevels conn server.screen.root_window server.resources)
        → HasDepth fuel server c)
    → (server' : XServer) × (disconnect fuel conn server ≡ some server')
      × ((xid : ℕ) → owns conn xid ≡ true → lookup xid server'.resources ≡ none)
      × ((sel owner time : ℕ)
          → lookup sel server'.selections ≡ some (owner, time)
          → owns conn owner ≡ false)
      × (lookup conn.id server'.connections ≡ none)
unfolding disconnect
disconnect_releases fuel conn server depths =
    let kept = retain (λ (sel : ℕ) (owner : ℕ × ℕ). not (owns conn owner.0)) server.selections in
    let start = record server { selections = kept } in
    let toplevels = owned_toplevels conn server.screen.root_window server.resources in
    let depths' : (c : ℕ) → IsIn c toplevels → HasDepth fuel start c = λ c i.
      HasDepth-Shrinks fuel server start c
        (λ xid w found. (w, unfold find_window in found, λ d here'. here')) (depths c i) in
    let (mid, done, shrunk) =
      for_each_total (destroy_window_recursive fuel) fuel (destroy_window_recursive_total fuel)
        toplevels start depths' in
    let kept_is : mid.selections ≡ kept =
      for_each-selections (destroy_window_recursive fuel) (destroy-selections fuel) toplevels start
        mid done in
    (
      record mid {
        resources = retain (λ xid r. not (owns conn xid)) mid.resources;
        connections = remove conn.id mid.connections;
      },
      rw (done, disconnect) refl,
      λ xid owned. rw (lookup-retain (λ x. not (owns conn x)) xid mid.resources, owned) refl,
      λ sel owner time found.
          let passes =
            retain-keeps (λ (s : ℕ) (o : ℕ × ℕ). not (owns conn o.0)) sel server.selections
              (owner, time) (rw kept_is at found) in
          ground arith,
      rw (lookup-remove conn.id conn.id mid.connections) (ground arith),
    )
