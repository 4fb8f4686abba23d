-- ===== src/Outcome.antt =====
-- How a request handler ends (src/server/mod.rs `ServerError`, src/server/connection.rs).
-- A slice or an index out of bounds is a Rust panic, an outcome of its own.
use psl_xserver.Prelude.{
  Bool, List, drop, false, if◌then◌else◌, inl, inr, leb, length, refl, take, true, ℕ, ◌&&◌, ◌-◌,
  ◌≡◌, ◌⊎◌,
}

pub data ServerError : Type 0 where
  io : ServerError
  protocol : ServerError
  resource_not_found : ℕ → ServerError
  atom_not_found : ServerError
  not_implemented : ServerError

-- The error code of the X11 error packet.
unfoldable pub x11_error_code : ServerError → ℕ
x11_error_code protocol = 1
x11_error_code (resource_not_found xid) = 9
x11_error_code atom_not_found = 5
x11_error_code not_implemented = 17
x11_error_code io = 17

pub data Result {ℓ} (A : Type ℓ) : Type ℓ where
  ok : A → Result A
  err : ServerError → Result A
  panic : Result A

-- `if !test { return Err(fault) }`.
abbrev pub require : Bool → ServerError → Result (Unit {0})
require true fault = ok tt
require false fault = err fault

infixl 5 ◌>>=◌ ◌>>◌
-- `?`: an error or a panic ends the handler.
abbrev pub ◌>>=◌ {ℓ κ} : {X : Type ℓ} {Y : Type κ} (outcome : Result X) → (X → Result Y) → Result Y
ok x >>= next = next x
err fault >>= next = err fault
panic >>= next = panic

abbrev pub ◌>>◌ {κ} : {Y : Type κ} (check : Result (Unit {0})) → Result Y → Result Y
check >> later = check >>= λ passed. later

-- `&data[first..last]`.
unfoldable pub slice : List ℕ → ℕ → ℕ → Result (List ℕ)
slice bytes first last =
    if leb first last && leb last (length bytes)
    then ok (take (last - first) (drop first bytes))
    else panic

pub >>=-assoc {ℓ κ μ} :
    {A : Type ℓ} {B : Type κ} {C : Type μ} (m : Result A) (f : A → Result B) (g : B → Result C)
    → (m >>= λ a. f a >>= g) ≡ (m >>= f >>= g)
>>=-assoc (ok a) f g = refl
>>=-assoc (err e) f g = refl
>>=-assoc panic f g = refl

pub Result-cases {ℓ} :
    {A : Type ℓ} (r : Result A)
    → ((a : A) × (r ≡ ok a)) ⊎ ((e : ServerError) × (r ≡ err e)) ⊎ (r ≡ panic)
Result-cases (ok a) = inl (a, refl)
Result-cases (err e) = inr (inl (e, refl))
Result-cases panic = inr (inr refl)
