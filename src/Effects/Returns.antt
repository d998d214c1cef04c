-- ===== src/Effects/Returns.antt =====
-- Rules for what a program returns, whatever its statements do to the state.
use pipeline_server.Prelude.{◌≡◌, refl, Bool, true, false, Option, some, none, if◌then◌else◌}
use pipeline_server.Result.{Result, ok, err, or_raise}
use pipeline_server.Domain.Errors.{Exc}
use pipeline_server.Effects.{Action, pure, lift, try_except, handle, and_then, ◌>>=◌}
use pipeline_server.Effects.Keeps.{OnOk}

pub record Returns {S A : Type 0} (Q : A → Type 0) (m : Action S A) : Type 0 where
  pub on : (s : S) → OnOk Q (m s).0

module _ {S A : Type 0} {Q : A → Type 0} where
  pub Returns-pure : (a : A) → Q a → Returns {S = S} Q (pure a)
  unfolding pure
  Returns-pure a q = record { on = λ s. q }

  Returns-handle :
      (r : Result A) (handler : Exc → Action S A) (s : S)
      → OnOk Q r
      → ((e : Exc) → Returns Q (handler e))
      → OnOk Q (handle r handler s).0
  Returns-handle (ok a) handler s q k = q
  Returns-handle (err e) handler s q k = (k e).on s

  pub Returns-try :
      (m : Action S A) (handler : Exc → Action S A)
      → Returns Q m
      → ((e : Exc) → Returns Q (handler e))
      → Returns Q (try_except m handler)
  unfolding try_except
  Returns-try m handler rm rh = record {
    on = λ s. let (r, s') = m s in Returns-handle r handler s' (rm.on s) rh;
  }

any_result : {A : Type 0} (r : Result A) → OnOk (λ _. Unit) r
any_result (ok a) = tt
any_result (err e) = tt

module _ {S A B : Type 0} {Q : B → Type 0} where
  Returns-and_then :
      (P : A → Type 0) (r : Result A) (f : A → Action S B) (s : S)
      → OnOk P r
      → ((a : A) → P a → Returns Q (f a))
      → OnOk Q (and_then r f s).0
  Returns-and_then P (ok a) f s p k = (k a p).on s
  Returns-and_then P (err e) f s p k = tt

  pub Returns-bind_knowing :
      (P : A → Type 0) (m : Action S A) (f : A → Action S B)
      → Returns P m
      → ((a : A) → P a → Returns Q (f a))
      → Returns Q (m >>= f)
  unfolding ◌>>=◌
  Returns-bind_knowing P m f rm rf = record {
    on = λ s. let (r, s') = m s in Returns-and_then P r f s' (rm.on s) rf;
  }

  pub Returns-bind :
      (m : Action S A) (f : A → Action S B) → ((a : A) → Returns Q (f a)) → Returns Q (m >>= f)
  Returns-bind m f rf =
      Returns-bind_knowing (λ _. Unit) m f (record { on = λ s. any_result (m s).0 }) (λ a _. rf a)

OnOk-weaken :
    {A : Type 0} {P Q : A → Type 0} (r : Result A) → ((a : A) → P a → Q a) → OnOk P r → OnOk Q r
OnOk-weaken (ok a) h p = h a p
OnOk-weaken (err e) h p = tt

some-or_raise : {A : Type 0} (o : Option A) (e : Exc) → OnOk (λ a. o ≡ some a) (or_raise o e)
some-or_raise none e = tt
some-or_raise (some a) e = refl

module _ {S A : Type 0} where
  pub Returns-if :
      {Q : A → Type 0} (b : Bool) (m n : Action S A)
      → (b ≡ true → Returns Q m)
      → (b ≡ false → Returns Q n)
      → Returns Q (if b then m else n)
  Returns-if true m n rm rn = rm refl
  Returns-if false m n rm rn = rn refl

  pub Returns-weaken :
      {P Q : A → Type 0} (m : Action S A) → ((a : A) → P a → Q a) → Returns P m → Returns Q m
  Returns-weaken m h rm = record { on = λ s. OnOk-weaken (m s).0 h (rm.on s) }

  pub Returns-or_raise :
      (o : Option A) (e : Exc) → Returns {S = S} (λ a. o ≡ some a) (lift (or_raise o e))
  unfolding lift
  Returns-or_raise o e = record { on = λ s. some-or_raise o e }
