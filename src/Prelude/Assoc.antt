-- ===== src/Prelude/Assoc.antt =====
-- The program's hash maps as association lists, over any type of keys with an equality test.
-- Iteration goes in the order of the list; the program's map promises no order.
use mathlib.Core.Path.{◌≡◌, refl, ap, subst}
use mathlib.Core.Bool.{Bool, true, false, ◌&&◌}
use mathlib.Core.Logic.{◌↔◌, inl, inr}
use mathlib.Core.Option.{Option, none, some}
use mathlib.Core.List.{List, [], ◌∷◌}
use Prim.Native.Nat.{ℕ}
use native.Mathlib.Omega.{arith}
use psl_xserver.Prelude.Tests.{◌==◌, ==_iff, if◌then◌else◌, Bool-cases, unwrap_or}

pub record Eq {ℓ} (A : Type ℓ) : Type ℓ where
  pub beq : A → A → Bool
  pub beq_iff : (a b : A) → (beq a b ≡ true) ↔ (a ≡ b)

instance abbrev pub nat_eq : Eq ℕ
nat_eq = record { beq = ◌==◌; beq_iff = ==_iff }

unfoldable pub list_beq : List ℕ → List ℕ → Bool
list_beq [] [] = true
list_beq (x ∷ xs) (y ∷ ys) = x == y && list_beq xs ys
list_beq _ _ = false

pub list_beq_iff : (xs ys : List ℕ) → (list_beq xs ys ≡ true) ↔ (xs ≡ ys)
unfolding list_beq
list_beq_iff [] [] = (λ e. refl, λ e. refl)
list_beq_iff [] (y ∷ ys) = (λ e. cc, λ e. cc)
list_beq_iff (x ∷ xs) [] = (λ e. cc, λ e. cc)
list_beq_iff (x ∷ xs) (y ∷ ys) = ground (arith, list_beq_iff xs ys)

instance abbrev pub bytes_eq : Eq (List ℕ)
bytes_eq = record { beq = list_beq; beq_iff = list_beq_iff }

module _ {ℓ κ} {K : Type ℓ} {V : Type κ} ⦃e : Eq K⦄ where
  unfoldable pub lookup : K → List (K × V) → Option V
  lookup k [] = none
  lookup k ((j, v) ∷ m) = if e.beq j k then some v else lookup k m

  unfoldable pub insert : K → V → List (K × V) → List (K × V)
  insert k v [] = (k, v) ∷ []
  insert k v ((j, w) ∷ m) = if e.beq j k then (k, v) ∷ m else (j, w) ∷ insert k v m

  unfoldable pub remove : K → List (K × V) → List (K × V)
  remove k [] = []
  remove k ((j, v) ∷ m) = if e.beq j k then remove k m else (j, v) ∷ remove k m

  -- `retain`: the entries whose key and value pass a test.
  unfoldable pub retain : (K → V → Bool) → List (K × V) → List (K × V)
  retain keep [] = []
  retain keep ((j, v) ∷ m) = if keep j v then (j, v) ∷ retain keep m else retain keep m

  pub lookup-insert :
      (k j : K) (v : V) (m : List (K × V))
      → lookup j (insert k v m) ≡ (if e.beq k j then some v else lookup j m)
  unfolding lookup insert
  lookup-insert k j v [] = refl
  lookup-insert k j v ((i, w) ∷ m) =
      ground (arith, e.beq_iff k j, e.beq_iff i k, e.beq_iff i j, lookup-insert k j v m)

  pub lookup-insert_same : (k : K) (v : V) (m : List (K × V)) → lookup k (insert k v m) ≡ some v
  lookup-insert_same k v m = ground (arith, e.beq_iff k k, lookup-insert k k v m)

  pub lookup-remove :
      (k j : K) (m : List (K × V))
      → lookup j (remove k m) ≡ (if e.beq k j then none else lookup j m)
  unfolding lookup remove
  lookup-remove k j [] = ground arith
  lookup-remove k j ((i, w) ∷ m) =
      ground (arith, e.beq_iff k j, e.beq_iff i k, e.beq_iff i j, lookup-remove k j m)

  -- A test on the keys alone keeps or drops all that a key is bound to.
  pub lookup-retain :
      (keep : K → Bool) (j : K) (m : List (K × V))
      → lookup j (retain (λ k v. keep k) m) ≡ (if keep j then lookup j m else none)
  unfolding lookup retain
  lookup-retain keep j [] = ground arith
  lookup-retain keep j ((i, w) ∷ m) = ground (arith, e.beq_iff i j, lookup-retain keep j m)

  -- What is found after `retain` passes the test.
  pub retain-keeps :
      (keep : K → V → Bool) (k : K) (m : List (K × V)) (v : V)
      → lookup k (retain keep m) ≡ some v
      → keep k v ≡ true
  unfolding lookup retain
  retain-keeps keep k [] v found = cc
  retain-keeps keep k ((j, w) ∷ m) v found = elim (Bool-cases (keep j w)) [
    | inr dropped ↦ retain-keeps keep k m v (rw dropped at found)
    | inl kept ↦ elim (Bool-cases (e.beq j k)) [
      | inr other ↦ retain-keeps keep k m v (rw (kept, other) at found)
      | inl same ↦
          let here' : some w ≡ some v = rw (kept, same) at found in
          let key : j ≡ k = (e.beq_iff j k).0 same in
          let entry : w ≡ v = ap (unwrap_or v) here' in
          subst (λ x. keep k x ≡ true) entry (subst (λ x. keep x w ≡ true) key kept)
    ]
  ]
