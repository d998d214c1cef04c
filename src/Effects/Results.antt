-- ===== src/Effects/Results.antt =====
-- What a block returns and leaves behind, from what its first statement does.
use pipeline_server.Prelude.{◌≡◌, refl, ap}
use pipeline_server.Domain.Errors.{Exc}
use pipeline_server.Result.{Result, ok, err}
use pipeline_server.Effects.{Action, pure, try_except, and_then, ◌>>=◌}

module _ {S A B : Type 0} where
  then_pure : (r : Result A) (f : A → B) (s : S) → (and_then r (λ a. pure (f a)) s).1 ≡ s
  unfolding pure
  then_pure (ok a) f s = refl
  then_pure (err e) f s = refl

  pub state-bind_pure :
      (m : Action S A) (f : A → B) (s : S) → ((m >>= λ a. pure (f a)) s).1 ≡ (m s).1
  unfolding ◌>>=◌
  state-bind_pure m f s = then_pure (m s).0 f (m s).1

  pub and_then-eq-ok :
      (r : Result A) (f : A → Action S B) (s : S) {b : B}
      → (and_then r f s).0 ≡ ok b
      → (a : A) × (r ≡ ok a) × ((f a s).0 ≡ ok b)
  and_then-eq-ok (ok a) f s h = (a, refl, h)
  and_then-eq-ok (err e) f s h = cc

  pub ok-bind_pure :
      (m : Action S A) (f : A → B) (s : S) {b : B}
      → ((m >>= λ a. pure (f a)) s).0 ≡ ok b
      → (a : A) × ((m s).0 ≡ ok a) × (f a ≡ b)
  unfolding ◌>>=◌
  ok-bind_pure m f s h =
      let (a, e, q) = and_then-eq-ok (m s).0 (λ a. pure (f a)) (m s).1 h in (a, e, cc)

module _ {S A B : Type 0} where
  and_then-parts :
      (r : Result A) (f : A → Action S B) (t : S) {b : B} {u : S}
      → and_then r f t ≡ (ok b, u)
      → (a : A) × (r ≡ ok a) × (f a t ≡ (ok b, u))
  and_then-parts (ok a) f t h = (a, refl, h)
  and_then-parts (err e) f t h = cc

  -- the first statement of a block that returns, and the block after it
  pub bind-parts :
      (m : Action S A) (f : A → Action S B) (s : S) {b : B} {u : S}
      → (m >>= f) s ≡ (ok b, u)
      → (a : A) × (t : S) × (m s ≡ (ok a, t)) × (f a t ≡ (ok b, u))
  unfolding ◌>>=◌
  bind-parts m f s h =
      let (a, e, k) = and_then-parts (m s).0 f (m s).1 h in
      (a, (m s).1, ap (λ r. (r, (m s).1)) e, k)

  pub bind-to_ok :
      (m : Action S A) (f : A → Action S B) (s : S) {a : A} {after : S}
      → m s ≡ (ok a, after)
      → (m >>= f) s ≡ f a after
  unfolding ◌>>=◌
  bind-to_ok m f s e = rw e

  pub bind-to_err :
      (m : Action S A) (f : A → Action S B) (s : S) {e : Exc} {after : S}
      → m s ≡ (err e, after)
      → (m >>= f) s ≡ (err e, after)
  unfolding ◌>>=◌
  bind-to_err m f s h = rw h

module _ {S A : Type 0} where
  pub try-to_ok :
      (m : Action S A) (handler : Exc → Action S A) (s : S) {a : A} {after : S}
      → m s ≡ (ok a, after)
      → try_except m handler s ≡ (ok a, after)
  unfolding try_except
  try-to_ok m handler s h = rw h

  pub try-to_err :
      (m : Action S A) (handler : Exc → Action S A) (s : S) {e : Exc} {after : S}
      → m s ≡ (err e, after)
      → try_except m handler s ≡ handler e after
  unfolding try_except
  try-to_err m handler s h = rw h

  -- the two parts of a run
  pub run-parts : (r : Result A × S) {a : Result A} → r.0 ≡ a → r ≡ (a, r.1)
  run-parts r e = ap (λ a. (a, r.1)) e
