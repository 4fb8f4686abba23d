-- ===== src/Server/Windows/Tests.antt =====
-- The window tree of a concrete server.
use psl_xserver.Connection.{current_request_sequence}
use psl_xserver.Outcome.{ok}
use psl_xserver.Prelude.{
  List, [], ap, arith, inl, inr, none, refl, some, subst, sym, unwrap_or, ℕ, ◌∷◌, ◌≡◌,
}
use psl_xserver.Prelude.Assoc.{bytes_eq, lookup, nat_eq}
use psl_xserver.Prelude.Int.{negsuc, pos}
use psl_xserver.Resources.{WindowState}
use psl_xserver.Samples.{big_client, client, plain_window, sample_server}
use psl_xserver.Server.{XServer, find_window}
use psl_xserver.Server.Windows.{
  destroy_window_recursive, handle_create_window, handle_query_tree, handle_reparent_window,
}
use psl_xserver.Server.Windows.CreateRequest.{CreateFields, FieldsFit, create_request}
use psl_xserver.Server.Windows.Cycle.{reparent-destroy_loop, reparent_request}
use psl_xserver.Server.Windows.Destroy.{HasDepth, IsIn, Shrinks, destroy_window_recursive_total}
use psl_xserver.Server.Windows.Tree.{ReportsTree, create-query_tree, query_tree_request}
use psl_xserver.Wire.{big_endian, little_endian}

abbrev new_fields : CreateFields
new_fields = record {
  depth = 0;
  wid = 0x00400001;
  parent = 0x00200001;
  x = negsuc 2;
  y = pos 7;
  width = 30;
  height = 40;
  border_width = 0;
  class = 1;
  visual = 0;
  value_mask = 0x0802;
}

new_fields-FieldsFit : FieldsFit new_fields
new_fields-FieldsFit = record {
  wid_fits = omega arith;
  parent_fits = omega arith;
  x_fits = omega arith;
  y_fits = omega arith;
  width_fits = omega arith;
  height_fits = omega arith;
  border_width_fits = omega arith;
  class_fits = omega arith;
  visual_fits = omega arith;
  value_mask_fits = omega arith;
}

abbrev same_value : ℕ → ℕ
same_value bit = 0x8000

create-query_tree_example :
    let seq = current_request_sequence client in
    (server' : XServer) × (of_new : List ℕ) × (of_parent : List ℕ) × (handle_create_window
        sample_server big_client
        (create_request big_endian 10 0 new_fields same_value)
      ≡ ok (server', []))
    × (handle_query_tree server' client (query_tree_request little_endian 0 10 0 0x00400001)
        ≡ ok (server', of_new))
    × ReportsTree little_endian seq 0x80 0x00200001 [] of_new
    × (handle_query_tree server' client (query_tree_request little_endian 0 10 0 0x00200001)
        ≡ ok (server', of_parent))
    × ReportsTree little_endian seq 0x80 0x80 (0x00200002 ∷ 0x00400001 ∷ []) of_parent
create-query_tree_example =
    create-query_tree sample_server big_client client 0 10 0 new_fields same_value
      (plain_window 0x00200001 0x80 (0x00200002 ∷ [])) new_fields-FieldsFit (λ bit. omega arith)
      (λ e. omega arith) (unfold find_window lookup in refl) (omega arith) (omega arith)
      (omega arith, tt) (omega arith)

reparent-destroy_loop_example :
    (server' : XServer) × (handle_reparent_window sample_server client
        (reparent_request little_endian 0 4 0 0x00200002 0x00200002 (pos 0) (pos 0))
      ≡ ok (server', []))
    × ((fuel : ℕ) → destroy_window_recursive fuel 0x00200002 server' ≡ none)
reparent-destroy_loop_example =
    reparent-destroy_loop sample_server client 0 4 0 0x00200002 (pos 0) (pos 0)
      (plain_window 0x00200002 0x00200001 []) (omega arith) (omega arith) (omega arith)
      (unfold find_window lookup in refl) refl (λ e. omega arith)

leaf-HasDepth : HasDepth 1 sample_server 0x00200002
unfolding find_window lookup
leaf-HasDepth w found c i =
    let is_leaf : plain_window 0x00200002 0x00200001 [] ≡ w =
      ap (unwrap_or (plain_window 0x00200002 0x00200001 [])) found in
    absurd (subst (λ v. IsIn c (WindowState.children v)) (sym is_leaf) i)

pub tree-HasDepth : HasDepth 2 sample_server 0x00200001
unfolding find_window lookup
tree-HasDepth w found c i =
    let branch = plain_window 0x00200001 0x80 (0x00200002 ∷ []) in
    let is_branch : branch ≡ w = ap (unwrap_or branch) found in
    elim (subst (λ v. IsIn c (WindowState.children v)) (sym is_branch) i) [
      | inl e ↦ subst (HasDepth 1 sample_server) (sym e) leaf-HasDepth
      | inr none_left ↦ absurd none_left
    ]

destroy_window_recursive_total_example :
    (server' : XServer) × (destroy_window_recursive 2 0x00200001 sample_server ≡ some server')
    × Shrinks sample_server server'
    × (find_window server' 0x00200001 ≡ none)
destroy_window_recursive_total_example =
    destroy_window_recursive_total 2 0x00200001 sample_server tree-HasDepth
