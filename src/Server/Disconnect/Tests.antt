-- ===== src/Server/Disconnect/Tests.antt =====
-- The end of a connection of a concrete server.
use psl_xserver.Connection.{owns}
use psl_xserver.Prelude.{
  arith, false, inl, inr, none, refl, some, subst, sym, true, ℕ, ◌%◌, ◌/◌, ◌^◌, ◌↔◌, ◌≡◌,
}
use psl_xserver.Prelude.Assoc.{bytes_eq, lookup, nat_eq}
use psl_xserver.Samples.{big_client, client, sample_server}
use psl_xserver.Server.{XServer}
use psl_xserver.Server.Disconnect.{alloc_resource_id_base, disconnect, owned_toplevels}
use psl_xserver.Server.Disconnect.Ranges.{after_allocs, nth_base, ranges_disjoint, with_base}
use psl_xserver.Server.Disconnect.Release.{HasRange, disconnect_releases, owns_iff}
use psl_xserver.Server.Windows.Destroy.{HasDepth, IsIn}
use psl_xserver.Server.Windows.Tests.{tree-HasDepth}

client-HasRange : HasRange client 1
client-HasRange = record { mask_is = refl; base_is = refl; range_fits = omega arith }

owns_iff_example : (owns client 0x00200003 ≡ true) ↔ (0x00200003 / 2 ^ 21 % 2 ^ 11 ≡ 1)
owns_iff_example = owns_iff client 1 0x00200003 client-HasRange

toplevels-HasDepth :
    (c : ℕ)
    → IsIn c (owned_toplevels client 0x80 sample_server.resources)
    → HasDepth 2 sample_server c
unfolding owned_toplevels owns
toplevels-HasDepth c (inl e) = subst (HasDepth 2 sample_server) (sym e) tree-HasDepth
toplevels-HasDepth c (inr none_left) = absurd none_left

disconnect_releases_example :
    (server' : XServer) × (disconnect 2 client sample_server ≡ some server')
    × ((xid : ℕ) → owns client xid ≡ true → lookup xid server'.resources ≡ none)
    × ((sel owner time : ℕ)
        → lookup sel server'.selections ≡ some (owner, time)
        → owns client owner ≡ false)
    × (lookup 1 server'.connections ≡ none)
disconnect_releases_example = disconnect_releases 2 client sample_server toplevels-HasDepth

ranges_disjoint_example : owns (with_base (nth_base 1 sample_server) client) 0x00600001 ≡ false
ranges_disjoint_example =
    ranges_disjoint 0 1 3 0x00600001 sample_server big_client client refl (omega arith)
      (omega arith) (λ e. omega arith) (unfold owns alloc_resource_id_base after_allocs in refl)
