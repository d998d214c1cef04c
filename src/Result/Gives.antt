-- ===== src/Result/Gives.antt =====
-- What statements that may raise return, if they return, and the rules for it.
use pipeline_server.Prelude.{◌≡◌, refl, Bool, true, false}
use pipeline_server.Domain.Errors.{Exc}
use pipeline_server.Result.{Result, ok, err, ◌>>=◌, ◌>>◌, raise_if}
use pipeline_server.Effects.Keeps.{OnOk}

-- what a computation returns, if it returns
pub data Gives {A : Type 0} (P : A → Type 0) : Result A → Type 0 where
  gives : {a : A} → P a → Gives P (ok a)
  raises : {e : Exc} → Gives P (err e)

pub Gives-OnOk : {A : Type 0} {P : A → Type 0} {r : Result A} → Gives P r → OnOk P r
Gives-OnOk (gives p) = p
Gives-OnOk raises = tt

pub Gives-bind :
    {A B : Type 0} {P : A → Type 0} {Q : B → Type 0} {r : Result A} (f : A → Result B)
    → Gives P r
    → ((a : A) → P a → Gives Q (f a))
    → Gives Q (r >>= f)
Gives-bind f (gives p) h = h _ p
Gives-bind f raises h = raises

pub anything : {A : Type 0} (r : Result A) → Gives (λ _. Unit) r
anything (ok a) = gives tt
anything (err e) = raises

-- after `if failed: raise e`, the test has failed
pub Gives-raise_if :
    {B : Type 0} {Q : B → Type 0} (failed : Bool) (e : Exc) {r : Result B}
    → (failed ≡ false → Gives Q r)
    → Gives Q (raise_if failed e >> r)
Gives-raise_if true e h = raises
Gives-raise_if false e h = h refl

-- what a computation returns, and what it raises
pub data Yields {A : Type 0} (E : Exc → Type 0) (P : A → Type 0) : Result A → Type 0 where
  yields : {a : A} → P a → Yields E P (ok a)
  fails : {e : Exc} → E e → Yields E P (err e)

pub Yields-bind :
    {E : Exc → Type 0} {A B : Type 0} {P : A → Type 0} {Q : B → Type 0} {r : Result A}
    (f : A → Result B)
    → Yields E P r
    → ((a : A) → P a → Yields E Q (f a))
    → Yields E Q (r >>= f)
Yields-bind f (yields p) h = h _ p
Yields-bind f (fails q) h = fails q

pub Yields-raise_if :
    {E : Exc → Type 0} {B : Type 0} {Q : B → Type 0} (failed : Bool) (e : Exc) {r : Result B}
    → E e
    → (failed ≡ false → Yields E Q r)
    → Yields E Q (raise_if failed e >> r)
Yields-raise_if true e q h = fails q
Yields-raise_if false e q h = h refl
