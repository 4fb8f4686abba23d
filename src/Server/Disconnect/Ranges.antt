-- ===== src/Server/Disconnect/Ranges.antt =====
-- The id ranges of connections that are accepted one after the other.
use psl_xserver.Connection.{ClientConnection, owns}
use psl_xserver.Prelude.{
  Bool-cases, arith, false, inl, inr, refl, suc, true, zero, ℕ, ◌*◌, ◌+◌, ◌<◌, ◌^◌, ◌∙◌, ◌≡◌, ◌≢◌,
}
use psl_xserver.Server.{XServer}
use psl_xserver.Server.Disconnect.{alloc_resource_id_base}
use psl_xserver.Server.Disconnect.Release.{owns_iff}

-- The server once that many bases are given away.
unfoldable pub after_allocs : ℕ → XServer → XServer
after_allocs zero server = server
after_allocs (suc n) server = after_allocs n (alloc_resource_id_base server).1

-- The base of the connection that comes after that many others.
abbrev pub nth_base : ℕ → XServer → ℕ
nth_base n server = (alloc_resource_id_base (after_allocs n server)).0

-- A connection as the setup makes it.
abbrev pub with_base : ℕ → ClientConnection → ClientConnection
with_base base conn = record conn { resource_id_base = base; resource_id_mask = 0x001FFFFF }

nth_base_lem :
    (n range : ℕ) (server : XServer)
    → server.next_resource_id_base ≡ range * 2 ^ 21
    → range + n < 2 ^ 11
    → nth_base n server ≡ (range + n) * 2 ^ 21
unfolding after_allocs alloc_resource_id_base
nth_base_lem zero range server start fits = omega (arith, start)
nth_base_lem (suc n) range server start fits =
    nth_base_lem n (range + 1) (alloc_resource_id_base server).1 (omega (arith, start))
      (omega arith)
    ∙ omega arith

-- Connections are accepted one after the other by a server whose counter is a multiple of 2 ^ 21.
-- Two that are accepted at different times, both before the counter reaches 2 ^ 32, own no id in
-- common.
pub ranges_disjoint :
    (m n range xid : ℕ) (server : XServer) (c d : ClientConnection)
    → server.next_resource_id_base ≡ range * 2 ^ 21
    → range + m < 2 ^ 11
    → range + n < 2 ^ 11
    → m ≢ n
    → owns (with_base (nth_base m server) c) xid ≡ true
    → owns (with_base (nth_base n server) d) xid ≡ false
ranges_disjoint m n range xid server c d start fits_m fits_n differ owned =
    let of_m = owns_iff (with_base (nth_base m server) c) (range + m) xid (record {
      mask_is = refl;
      base_is = nth_base_lem m range server start fits_m;
      range_fits = fits_m;
    }) in
    let of_n = owns_iff (with_base (nth_base n server) d) (range + n) xid (record {
      mask_is = refl;
      base_is = nth_base_lem n range server start fits_n;
      range_fits = fits_n;
    }) in
    let bits_m = of_m.0 owned in
    elim (Bool-cases (owns (with_base (nth_base n server) d) xid)) [
      | inr free ↦ free
      | inl shared ↦ absurd (differ (omega (arith, bits_m, of_n.0 shared)))
    ]
