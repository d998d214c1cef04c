-- ===== src/Effects/Keeps.antt =====
-- Rules for programs that keep a predicate on the state, whether they return or raise.
use pipeline_server.Prelude.{◌≡◌, refl, Bool, true, false, if◌then◌else◌}
use pipeline_server.Result.{Result, ok, err}
use pipeline_server.Domain.Errors.{Exc}
use pipeline_server.Effects.{Action, pure, lift, try_except, handle, and_then, ◌>>=◌}

-- A predicate on what an action returns, if it returns.
abbrev pub OnOk : {A : Type 0} → (A → Type 0) → Result A → Type 0
OnOk Q (ok a) = Q a
OnOk Q (err e) = Unit

pub record Keeps {S A : Type 0} (P : S → Type 0) (m : Action S A) : Type 0 where
  pub at : (s : S) → P s → P (m s).1

module _ {S A : Type 0} {P : S → Type 0} where
  pub Keeps-lift : (r : Result A) → Keeps P (lift r)
  unfolding lift
  Keeps-lift r = record { at = λ s p. p }

  -- what leaves the state as it is keeps everything
  pub Keeps-pure : (value : A) → Keeps P (pure value)
  unfolding pure
  Keeps-pure value = record { at = λ _ p. p }

  Keeps-handle :
      (r : Result A) (handler : Exc → Action S A) (s : S)
      → P s
      → ((e : Exc) → Keeps P (handler e))
      → P (handle r handler s).1
  Keeps-handle (ok a) handler s p k = p
  Keeps-handle (err e) handler s p k = (k e).at s p

  pub Keeps-try :
      (m : Action S A) (handler : Exc → Action S A)
      → Keeps P m
      → ((e : Exc) → Keeps P (handler e))
      → Keeps P (try_except m handler)
  unfolding try_except
  Keeps-try m handler km kh = record {
    at = λ s p. let (r, s') = m s in Keeps-handle r handler s' (km.at s p) kh;
  }

module _ {S A : Type 0} {P : S → Type 0} where
  pub Keeps-if :
      (test : Bool) (kept dropped : Action S A)
      → (test ≡ true → Keeps P kept)
      → (test ≡ false → Keeps P dropped)
      → Keeps P (if test then kept else dropped)
  Keeps-if true kept dropped keeps _ = keeps refl
  Keeps-if false kept dropped _ keeps = keeps refl

known : {A : Type 0} (r : Result A) → OnOk (λ _. Unit) r
known (ok a) = tt
known (err e) = tt

module _ {S A B : Type 0} {P : S → Type 0} where
  Keeps-and_then :
      (Q : A → Type 0) (r : Result A) (f : A → Action S B) (s : S)
      → P s
      → OnOk Q r
      → ((a : A) → Q a → Keeps P (f a))
      → P (and_then r f s).1
  Keeps-and_then Q (ok a) f s p q k = (k a q).at s p
  Keeps-and_then Q (err e) f s p q k = p

  -- The rest of the block may use what is known of the value that `m` returned.
  pub Keeps-bind_knowing :
      (Q : A → Type 0) (m : Action S A) (f : A → Action S B)
      → Keeps P m
      → ((s : S) → P s → OnOk Q (m s).0)
      → ((a : A) → Q a → Keeps P (f a))
      → Keeps P (m >>= f)
  unfolding ◌>>=◌
  Keeps-bind_knowing Q m f km post kf = record {
    at = λ s p. let (r, s') = m s in Keeps-and_then Q r f s' (km.at s p) (post s p) kf;
  }

  pub Keeps-bind :
      (m : Action S A) (f : A → Action S B)
      → Keeps P m
      → ((a : A) → Keeps P (f a))
      → Keeps P (m >>= f)
  Keeps-bind m f km kf = Keeps-bind_knowing (λ _. Unit) m f km (λ s p. known (m s).0) (λ a _. kf a)

pub ruleset keeps_rules = (Keeps-pure, Keeps-lift, Keeps-if, Keeps-try, Keeps-bind)
