-- ===== src/Result.antt =====
-- The outcome of statements that may raise and that change no state.
pub mod Gives
use pipeline_server.Prelude.{Bool, true, false, Option, some, none}
use pipeline_server.Domain.Errors.{Exc}

pub data Result {ℓ} (A : Type ℓ) : Type ℓ where
  ok : A → Result A
  err : Exc → Result A

abbrev pub is_ok {ℓ} : {A : Type ℓ} → Result A → Bool
is_ok (ok a) = true
is_ok (err e) = false

abbrev pub or_raise {ℓ} : {A : Type ℓ} → Option A → Exc → Result A
or_raise none e = err e
or_raise (some a) e = ok a

-- `if failed: raise e`
abbrev pub raise_if : Bool → Exc → Result (Unit {0})
raise_if true e = err e
raise_if false e = ok tt

infixl 5 ◌>>=◌ ◌>>◌
-- the statements after one that returns
abbrev pub ◌>>=◌ {ℓ κ} : {A : Type ℓ} {B : Type κ} → Result A → (A → Result B) → Result B
result >>= rest = elim result [ ok value ↦ rest value | err e ↦ err e ]

abbrev pub ◌>>◌ {ℓ} : {B : Type ℓ} → Result (Unit {0}) → Result B → Result B
first >> second = first >>= (λ _. second)
