-- ===== src/Server/ValueLists.antt =====
-- The value lists of the requests that carry a mask: one word for each set bit, in the order of the
-- bits. The requests that read them: src/server/connection.rs `parse_gc_values` and
-- `handle_create_window`.
use psl_xserver.Outcome.{Result, ok}
use psl_xserver.Prelude.{
  Bool-cases, List, [], ap, append_assoc, arith, false, if◌then◌else◌, inl, inr, length,
  length-append, refl, subst, suc, true, zero, ℕ, ◌++◌, ◌+◌, ◌==◌, ◌∙◌, ◌∷◌, ◌≡◌, ◌≢◌, ◌≤◌,
}
use psl_xserver.Prelude.Bits.{test_bit}
use psl_xserver.Wire.{ByteOrder, IsU32, u32_at, u32_bytes}
use psl_xserver.Wire.RoundTrip.{length-u32_bytes, u32_at-append}

-- The bits of a mask, from the first on.
abbrev pub bits_from : ℕ → ℕ → List ℕ
bits_from first zero = []
bits_from first (suc n) = first ∷ bits_from (suc first) n

-- The value list as a client encodes it.
pub value_bytes : ByteOrder → ℕ → (ℕ → ℕ) → List ℕ → List ℕ
value_bytes order mask value [] = []
value_bytes order mask value (bit ∷ bits) =
    if test_bit mask bit
    then u32_bytes order (value bit) ++ value_bytes order mask value bits
    else value_bytes order mask value bits

-- What the attributes come to when every set bit stores its value.
unfoldable pub apply_values {ℓ} :
    {A : Type ℓ} → (ℕ → ℕ → A → A) → (mask : ℕ) → (ℕ → ℕ) → List ℕ → A → A
apply_values put mask value [] a = a
apply_values put mask value (bit ∷ bits) a =
    apply_values put mask value bits (if test_bit mask bit then put bit (value bit) a else a)

value_bytes-set :
    (order : ByteOrder) (mask : ℕ) (value : ℕ → ℕ) (bit : ℕ) (bits : List ℕ)
    → test_bit mask bit ≡ true
    → value_bytes order mask value (bit ∷ bits)
      ≡ u32_bytes order (value bit) ++ value_bytes order mask value bits
unfolding value_bytes
value_bytes-set order mask value bit bits is_set = rw is_set refl

value_bytes-unset :
    (order : ByteOrder) (mask : ℕ) (value : ℕ → ℕ) (bit : ℕ) (bits : List ℕ)
    → test_bit mask bit ≡ false
    → value_bytes order mask value (bit ∷ bits) ≡ value_bytes order mask value bits
unfolding value_bytes
value_bytes-unset order mask value bit bits unset = rw unset refl

apply_values-cons {ℓ} :
    {A : Type ℓ} (put : ℕ → ℕ → A → A) (mask : ℕ) (value : ℕ → ℕ) (bit : ℕ) (bits : List ℕ) (a : A)
    → apply_values put mask value (bit ∷ bits) a
      ≡ apply_values put mask value bits (if test_bit mask bit then put bit (value bit) a else a)
unfolding apply_values
apply_values-cons put mask value bit bits a = refl

-- A reader that goes over the bits as the requests do reads what a client encodes.
module _ {ℓ} {A : Type ℓ} (order : ByteOrder) (mask : ℕ) (put : ℕ → ℕ → A → A)
    (reader : List ℕ → ℕ → A → List ℕ → Result A)
    (at_end : (d : List ℕ) (o : ℕ) (a : A) → reader d o a [] ≡ ok a)
    (at_unset : (d : List ℕ) (o : ℕ) (a : A) (bit : ℕ) (bits : List ℕ)
      → test_bit mask bit ≡ false
      → reader d o a (bit ∷ bits) ≡ reader d o a bits)
    (at_set : (d : List ℕ) (o : ℕ) (a : A) (bit : ℕ) (bits : List ℕ) (v : ℕ)
      → test_bit mask bit ≡ true
      → o + 4 ≤ length d
      → u32_at order d o ≡ ok v
      → reader d o a (bit ∷ bits) ≡ reader d (o + 4) (put bit v a) bits) where
  pub reads_values :
      (front rest : List ℕ) (value : ℕ → ℕ) (a : A) (bits : List ℕ)
      → ((bit : ℕ) → IsU32 (value bit))
      → reader (front ++ (value_bytes order mask value bits ++ rest)) (length front) a bits
        ≡ ok (apply_values put mask value bits a)
  reads_values front rest value a [] fits =
      unfold value_bytes apply_values in at_end (front ++ rest) (length front) a
  reads_values front rest value a (bit ∷ bits) fits = elim (Bool-cases (test_bit mask bit)) [
    | inr unset ↦
        rw (value_bytes-unset order mask value bit bits unset, apply_values-cons, unset)
          (at_unset (front ++ (value_bytes order mask value bits ++ rest)) (length front) a bit bits
              unset
            ∙ reads_values front rest value a bits fits)
    | inl is_set ↦
        let word = u32_bytes order (value bit) in
        let more = value_bytes order mask value bits ++ rest in
        let size : length (front ++ (word ++ more)) ≡ length front + (4 + length more) =
          rw
            (
              length-append front (word ++ more),
              length-append word more,
              length-u32_bytes order (value bit),
            )
            refl in
        let next = reads_values (front ++ word) rest value (put bit (value bit) a) bits fits in
        let read_to : length (front ++ word) ≡ length front + 4 =
          rw (length-append front word, length-u32_bytes order (value bit)) refl in
        let next' : reader (front ++ (word ++ more)) (length front + 4) (put bit (value bit) a) bits
            ≡ ok (apply_values put mask value bits (put bit (value bit) a)) =
          rw (← append_assoc front word more, ← read_to) next in
        let assoc = append_assoc word (value_bytes order mask value bits) rest in
        rw (value_bytes-set order mask value bit bits is_set, apply_values-cons, is_set, assoc)
          (at_set (front ++ (word ++ more)) (length front) a bit bits (value bit) is_set
              (rw size (omega arith)) (u32_at-append order front more (value bit) (fits bit))
            ∙ next')
  ]

-- An attribute that one bit stores, and that the other bits leave alone, ends with the value of its
-- bit if the bit is set, and as it was otherwise.
module _ {ℓ κ} {A : Type ℓ} {B : Type κ} (put : ℕ → ℕ → A → A) (field : A → B) (convert : ℕ → B)
    (target : ℕ) (stores : (v : ℕ) (a : A) → field (put target v a) ≡ convert v)
    (leaves : (bit v : ℕ) (a : A) → bit ≢ target → field (put bit v a) ≡ field a) where
  -- What the attribute comes to, walking the bits.
  abbrev pick : (mask : ℕ) → (ℕ → ℕ) → List ℕ → B → B
  pick mask value [] old = old
  pick mask value (bit ∷ bits) old =
      pick mask value bits (
        if bit == target then if test_bit mask target then convert (value target) else old else old)

  StepAt : (mask : ℕ) → (ℕ → ℕ) → A → ℕ → Type κ
  StepAt mask value a bit = field (if test_bit mask bit then put bit (value bit) a else a) ≡ (
      if bit == target
      then if test_bit mask target then convert (value target) else field a
      else field a)

  field-put_target : (mask : ℕ) (value : ℕ → ℕ) (a : A) → StepAt mask value a target
  unfolding StepAt
  field-put_target mask value a =
      let itself : (target == target) ≡ true = ground arith in
      elim (Bool-cases (test_bit mask target)) [
        | inl is_set ↦ rw (is_set, itself) (stores (value target) a)
        | inr unset ↦ rw (unset, itself) refl
      ]

  field-put : (mask : ℕ) (value : ℕ → ℕ) (a : A) (bit : ℕ) → StepAt mask value a bit
  field-put mask value a bit = elim (Bool-cases (bit == target)) [
    | inl same ↦
        let equal : target ≡ bit = ground arith in
        subst (StepAt mask value a) equal (field-put_target mask value a)
    | inr other ↦
        let different : bit ≢ target = ground arith in
        unfold StepAt in
        rw other (elim (Bool-cases (test_bit mask bit)) [
          | inl is_set ↦ rw is_set (leaves bit (value bit) a different)
          | inr unset ↦ rw unset refl
        ])
  ]

  pub field-apply_values :
      (mask : ℕ) (value : ℕ → ℕ) (bits : List ℕ) (a : A)
      → field (apply_values put mask value bits a) ≡ pick mask value bits (field a)
  unfolding apply_values StepAt
  field-apply_values mask value [] a = refl
  field-apply_values mask value (bit ∷ bits) a =
      field-apply_values mask value bits (if test_bit mask bit then put bit (value bit) a else a)
      ∙ ap (pick mask value bits) (field-put mask value a bit)

-- An attribute that no bit stores.
pub kept-apply_values {ℓ κ} :
    {A : Type ℓ} {B : Type κ} (put : ℕ → ℕ → A → A) (field : A → B)
    → ((bit v : ℕ) (a : A) → field (put bit v a) ≡ field a)
    → (mask : ℕ) (value : ℕ → ℕ) (bits : List ℕ) (a : A)
    → field (apply_values put mask value bits a) ≡ field a
unfolding apply_values
kept-apply_values put field keeps mask value [] a = refl
kept-apply_values put field keeps mask value (bit ∷ bits) a =
    elim (Bool-cases (test_bit mask bit)) [
      | inl is_set ↦ rw is_set (
          kept-apply_values put field keeps mask value bits (put bit (value bit) a)
          ∙ keeps bit (value bit) a)
      | inr unset ↦ rw unset (kept-apply_values put field keeps mask value bits a)
    ]
