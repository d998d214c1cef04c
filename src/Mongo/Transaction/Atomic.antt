-- ===== src/Mongo/Transaction/Atomic.antt =====
-- app/adapter/outbound/mongodb/transaction.py: what a transaction leaves stored, where the statements
-- inside it hand the current session to the driver.
use pipeline_server.Prelude.{◌≡◌, refl, ap, sym, subst, ◌∙◌, Option, some, none, ◌⊎◌, inl, inr}
use pipeline_server.Result.{Result, ok, err}
use pipeline_server.Domain.Errors.{Exc}
use pipeline_server.Effects.{Action, and_then, ◌>>=◌}
use pipeline_server.Mongo.Transaction.{
  Client, ClientLaws, in_current, ended, leave, run_in, execute,
}

module _ {S Session View : Type 0} (client : Client S Session) (laws : ClientLaws client View) where
  open client use {start, commit, abort, set_current, get_current}
  open laws use {stored, pending}

  -- A statement that, while a session is current, stores nothing for other readers and leaves the
  -- session current.
  pub record Confined {A : Type 0} (fn : Action S A) : Type 0 where
    pub keeps :
        (c : Session) (s : S)
        → get_current s ≡ some c
        → (stored (fn s).1 ≡ stored s) × (get_current (fn s).1 ≡ some c)

  -- what the driver documents of a call with a session: it writes in the session's transaction
  pub record InSession {A : Type 0} (call : Session → Action S A) : Type 0 where
    pub stores : (c : Session) (s : S) → stored (call c s).1 ≡ stored s
    pub current : (c : Session) (s : S) → get_current (call c s).1 ≡ get_current s

  -- a call that is handed the current session
  pub Confined-in_current :
      {A : Type 0} (call : Option Session → Action S A)
      → InSession (λ c. call (some c))
      → Confined (in_current client call)
  unfolding in_current
  Confined-in_current call inside = record {
    keeps = λ c s h.
        subst (λ o. (stored (call o s).1 ≡ stored s) × (get_current (call o s).1 ≡ some c)) (sym h)
          (inside.stores c s, inside.current c s ∙ h);
  }

  Confined-next :
      {A B : Type 0} (c : Session) (r : Result A) (k : A → Action S B) (s : S)
      → ((a : A) → Confined (k a))
      → get_current s ≡ some c
      → (stored (and_then r k s).1 ≡ stored s) × (get_current (and_then r k s).1 ≡ some c)
  Confined-next c (ok a) k s next h = (next a).keeps c s h
  Confined-next c (err e) k s next h = (refl, h)

  pub Confined-bind :
      {A B : Type 0} (m : Action S A) (k : A → Action S B)
      → Confined m
      → ((a : A) → Confined (k a))
      → Confined (m >>= k)
  unfolding ◌>>=◌
  Confined-bind m k first next = record {
    keeps = λ c s h.
        let (same, current) = first.keeps c s h in
        let (same', current') = Confined-next c (m s).0 k (m s).1 next current in
        (same' ∙ same, current');
  }

  -- How a transaction that raises may have stored what it wrote: its body has returned, and the commit
  -- has raised after it was applied.
  abbrev pub LostAnswer : {A : Type 0} → Action S A → S → S → Exc → Type 0
  LostAnswer {A} fn s u e =
      (c : Session) × (t : S) × (t' : S) × (a : A) × (start s ≡ (ok c, t))
      × (fn (set_current (some c) t) ≡ (ok a, t'))
      × (commit c (set_current none t') ≡ (err e, u))
      × (stored u ≡ pending c t')

  module _ {A : Type 0} (fn : Action S A) (confined : Confined fn) where
    leave-err :
        (s t t' u : S) (c : Session) (r : Result A) (e : Exc)
        → start s ≡ (ok c, t)
        → fn (set_current (some c) t) ≡ (r, t')
        → stored t' ≡ stored s
        → leave client c r (set_current none t') ≡ (err e, u)
        → (get_current u ≡ none) × ((stored u ≡ stored s) ⊎ LostAnswer fn s u e)
    leave-err s t t' u c (ok a) e begun ran same h = ends (commit c (set_current none t')) refl h
      where
        applied :
            (v : S)
            → commit c (set_current none t') ≡ (err e, v)
            → (stored v ≡ stored (set_current none t'))
              ⊎ (stored v ≡ pending c (set_current none t'))
            → (stored v ≡ stored s) ⊎ LostAnswer fn s v e
        applied v k (inl p) = inl (p ∙ laws.set_keeps none t' ∙ same)
        applied v k (inr p) = inr (c, t, t', a, begun, ran, k, p ∙ laws.set_pending none c t')

        ends :
            (x : Result (Unit {0}) × S)
            → commit c (set_current none t') ≡ x
            → ended client a x ≡ (err e, u)
            → (get_current u ≡ none) × ((stored u ≡ stored s) ⊎ LostAnswer fn s u e)
        ends (ok tt, v) k h = cc
        ends (err e', v) k h =
            let k' : commit c (set_current none t') ≡ (err e, u) = k ∙ raised e' v h in
            (
              laws.commit_current _ u c (err e) k' ∙ laws.set_get none t',
              applied u k' (laws.commit_err _ u c e k'),
            )
          where
            raised :
                (e' : Exc) (v : S)
                → ended client a (err e', v) ≡ (err e, u)
                → ◌≡◌ {A = Result (Unit {0}) × S} (err e', v) (err e, u)
            raised e' v h = cc
    leave-err s t t' u c (err e') e begun ran same h =
        let left = sym (ap (λ (x : Result A × S). x.1) h) in
        (
          ap get_current left ∙ laws.abort_current c (set_current none t') ∙ laws.set_get none t',
          inl (
              ap stored left
              ∙ laws.abort_keeps c (set_current none t')
              ∙ laws.set_keeps none t'
              ∙ same),
        )

    -- Of a body that hands the current session to each of its calls: a transaction that raises leaves
    -- what is stored as it was and no session current, unless the body has returned and the commit has
    -- raised after it was applied; then all that the body has written is stored.
    pub execute-rolls_back :
        (s u : S) (e : Exc)
        → get_current s ≡ none
        → execute client A fn s ≡ (err e, u)
        → (get_current u ≡ none) × ((stored u ≡ stored s) ⊎ LostAnswer fn s u e)
    unfolding execute
    execute-rolls_back s u e idle h = started (start s) refl h
      where
        started :
            (x : Result Session × S)
            → start s ≡ x
            → and_then x.0 (run_in client fn) x.1 ≡ (err e, u)
            → (get_current u ≡ none) × ((stored u ≡ stored s) ⊎ LostAnswer fn s u e)
        started (ok c, t) k h =
            let inside = set_current (some c) t in
            let (same, _) = confined.keeps c inside (laws.set_get (some c) t) in
            leave-err s t (fn inside).1 u c (fn inside).0 e k refl
              (same ∙ laws.set_keeps (some c) t ∙ (laws.start_keeps s t (ok c) k).0) h
        started (err e', t) k h =
            let left = sym (ap (λ (x : Result A × S). x.1) h) in
            let (same, current) = laws.start_keeps s t (err e') k in
            (ap get_current left ∙ current ∙ idle, inl (ap stored left ∙ same))
