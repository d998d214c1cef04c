-- ===== src/Effects.antt =====
-- Statements that change state and may raise. What was written before a raise stays written, so
-- the state comes back beside the exception too.
pub mod Keeps
pub mod Results
pub mod Returns
use pipeline_server.Domain.Errors.{Exc}
use pipeline_server.Result.{Result, ok, err}

abbrev pub Action : Type 0 → Type 0 → Type 0
Action S A = S → Result A × S

module _ {S A : Type 0} where
  unfoldable pub pure : A → Action S A
  pure a s = (ok a, s)

  unfoldable pub raise : Exc → Action S A
  raise e s = (err e, s)

  unfoldable pub lift : Result A → Action S A
  lift r s = (r, s)

  abbrev pub handle : Result A → (Exc → Action S A) → Action S A
  handle (ok a) handler s = (ok a, s)
  handle (err e) handler s = handler e s

  -- `try: body` / `except Exception: handler`
  unfoldable pub try_except : Action S A → (Exc → Action S A) → Action S A
  try_except body handler s = let (result, after) = body s in handle result handler after

module _ {S A B : Type 0} where
  abbrev pub and_then : Result A → (A → Action S B) → Action S B
  and_then (ok a) f s = f a s
  and_then (err e) f s = (err e, s)

  infixl 5 ◌>>=◌ ◌>>◌
  -- opening this opens the other statements too
  unfoldable pub ◌>>=◌ : Action S A → (A → Action S B) → Action S B
  unfolding pure raise lift try_except
  ◌>>=◌ m f s = let (result, after) = m s in and_then result f after

  abbrev pub ◌>>◌ : Action S A → Action S B → Action S B
  m >> n = m >>= λ _. n
