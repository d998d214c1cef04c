-- ===== src/Mongo/Transaction.antt =====
-- app/adapter/outbound/mongodb/transaction.py: a transaction around a function, and the session that
-- the statements of the function find in the context. The client of the library is a parameter.
pub mod Atomic
use pipeline_server.Prelude.{◌≡◌, ◌⊎◌, Option, some, none}
use pipeline_server.Result.{Result, ok, err}
use pipeline_server.Domain.Errors.{Exc}
use pipeline_server.Effects.{Action, and_then}

pub record Client (S Session : Type 0) : Type 0 where
  -- `start_session()` with `start_transaction()`
  pub start : Action S Session
  -- the exit of the two `with`s where the body has returned, and where it has raised
  pub commit : Session → Action S (Unit {0})
  pub abort : Session → S → S
  -- the context variable
  pub set_current : Option Session → S → S
  pub get_current : S → Option Session

-- What the library documents: there is what is stored, which every reader sees, and what each
-- session's transaction has before it, which begins as what is stored and is stored by the commit. A
-- commit that raises may have been applied all the same.
pub record ClientLaws {S Session : Type 0} (client : Client S Session) (View : Type 0)
    : Type 0 where
  pub stored : S → View
  pub pending : Session → S → View
  pub start_keeps :
      (s t : S) (r : Result Session)
      → client.start s ≡ (r, t)
      → (stored t ≡ stored s) × (client.get_current t ≡ client.get_current s)
  pub start_begins : (s t : S) (c : Session) → client.start s ≡ (ok c, t) → pending c t ≡ stored s
  pub commit_ok : (s t : S) (c : Session) → client.commit c s ≡ (ok tt, t) → stored t ≡ pending c s
  pub commit_err :
      (s t : S) (c : Session) (e : Exc)
      → client.commit c s ≡ (err e, t)
      → (stored t ≡ stored s) ⊎ (stored t ≡ pending c s)
  pub abort_keeps : (c : Session) (s : S) → stored (client.abort c s) ≡ stored s
  pub set_keeps : (o : Option Session) (s : S) → stored (client.set_current o s) ≡ stored s
  pub set_pending :
      (o : Option Session) (c : Session) (s : S) → pending c (client.set_current o s) ≡ pending c s
  pub set_get : (o : Option Session) (s : S) → client.get_current (client.set_current o s) ≡ o
  pub commit_current :
      (s t : S) (c : Session) (r : Result (Unit {0}))
      → client.commit c s ≡ (r, t)
      → client.get_current t ≡ client.get_current s
  pub abort_current :
      (c : Session) (s : S) → client.get_current (client.abort c s) ≡ client.get_current s

module _ {S Session : Type 0} (client : Client S Session) where
  open client use {start, commit, abort, set_current, get_current}

  -- `call(..., session=get_current_session())`
  unfoldable pub in_current : {A : Type 0} → (Option Session → Action S A) → Action S A
  in_current call s = call (get_current s) s

  abbrev pub ended : {A : Type 0} → A → Result (Unit {0}) × S → Result A × S
  ended a (ok _, t) = (ok a, t)
  ended a (err e, t) = (err e, t)

  -- the end of the `with`, after the `finally`
  abbrev pub leave : {A : Type 0} → Session → Result A → S → Result A × S
  leave c (ok a) s = ended a (commit c s)
  leave c (err e) s = (err e, abort c s)

  -- the body of the `with`: `_current_session` is set, and unset whatever `fn` does
  abbrev pub run_in : {A : Type 0} → Action S A → Session → Action S A
  run_in fn c s = let (r, after) = fn (set_current (some c) s) in leave c r (set_current none after)

  unfoldable pub execute : (A : Type 0) → Action S A → Action S A
  execute A fn s = let (c, t) = start s in and_then c (run_in fn) t
