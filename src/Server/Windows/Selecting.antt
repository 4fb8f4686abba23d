-- ===== src/Server/Windows/Selecting.antt =====
-- The events that a new window's creator selects: src/server/connection.rs, `handle_create_window`.
-- The bits of a list are others than the target.
use psl_xserver.Prelude.{
  Bool-cases, List, [], ap, arith, false, if◌then◌else◌, inl, inr, refl, ℕ, ◌++◌, ◌==◌, ◌∙◌, ◌∷◌,
  ◌≡◌,
}
use psl_xserver.Prelude.Bits.{test_bit}
use psl_xserver.Resources.{WindowState}
use psl_xserver.Server.ValueLists.{apply_values, bits_from}
use psl_xserver.Server.Windows.{set_window_value}

abbrev IsFree : (target : ℕ) → List ℕ → Type 0
IsFree target [] = Unit {0}
IsFree target (bit ∷ bits) = ((bit == target) ≡ false) × IsFree target bits

one_kept :
    (conn_id mask v bit : ℕ) (w : WindowState)
    → (bit == 11) ≡ false
    → WindowState.event_selections
        (if test_bit mask bit then set_window_value conn_id bit v w else w)
      ≡ w.event_selections
unfolding set_window_value
one_kept conn_id mask v bit w other = elim (Bool-cases (test_bit mask bit)) [
  | inl is_set ↦ rw is_set (ground arith)
  | inr unset ↦ rw unset refl
]

selected :
    (conn_id mask v : ℕ) (w : WindowState)
    → w.event_selections ≡ []
    → WindowState.event_selections (if test_bit mask 11 then set_window_value conn_id 11 v w else w)
      ≡ (if test_bit mask 11 then (conn_id, v) ∷ [] else [])
unfolding set_window_value
selected conn_id mask v w empty = elim (Bool-cases (test_bit mask 11)) [
  | inl is_set ↦ rw is_set (ap (λ es. es ++ (conn_id, v) ∷ []) empty)
  | inr unset ↦ rw unset empty
]

kept_selections :
    (conn_id mask : ℕ) (value : ℕ → ℕ) (bits : List ℕ) (w : WindowState)
    → IsFree 11 bits
    → WindowState.event_selections (apply_values (set_window_value conn_id) mask value bits w)
      ≡ w.event_selections
unfolding apply_values set_window_value
kept_selections conn_id mask value [] w free = refl
kept_selections conn_id mask value (bit ∷ bits) w (other, free) =
    kept_selections conn_id mask value bits _ free ∙ one_kept conn_id mask (value bit) bit w other

pub created-event_selections :
    (conn_id mask : ℕ) (value : ℕ → ℕ) (w : WindowState)
    → w.event_selections ≡ []
    → WindowState.event_selections
        (apply_values (set_window_value conn_id) mask value (bits_from 0 15) w)
      ≡ (if test_bit mask 11 then (conn_id, value 11) ∷ [] else [])
unfolding apply_values set_window_value
created-event_selections conn_id mask value w none_yet =
    let before = apply_values (set_window_value conn_id) mask value (bits_from 0 11) w in
    let empty : before.event_selections ≡ [] =
      kept_selections conn_id mask value (bits_from 0 11) w
        (refl, (refl, (refl, (refl, (refl, (refl, (refl, (refl, (refl, (refl, (refl, tt)))))))))))
      ∙ none_yet in
    kept_selections conn_id mask value (bits_from 12 3)
      (if test_bit mask 11 then set_window_value conn_id 11 (value 11) before else before)
      (refl, (refl, (refl, tt)))
    ∙ selected conn_id mask (value 11) before empty
