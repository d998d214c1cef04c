-- ===== src/Worker/Tasks.antt =====
-- app/adapter/inbound/worker/pipeline_task.py and outbox_poller_task.py, and `get_db_session` of
-- app/rest_dependencies.py. The broker's `self.retry` and the SQL session are parameters.
pub mod Retries
use pipeline_server.Prelude.{ℕ, zero, suc, ◌*◌, ◌^◌, String, Bool, true, false, if◌then◌else◌}
use pipeline_server.Result.{Result, ok, err}
use pipeline_server.Domain.Errors.{Exc, is_domain}
use pipeline_server.Effects.{Action, pure, raise, and_then, handle, try_except, ◌>>=◌, ◌>>◌}
use pipeline_server.Domain.Outbox.{OutboxMessage}
use pipeline_server.Application.Relay.{OutboxRelayService, relay, recover_zombies}

pub record SqlSession (S : Type 0) : Type 0 where
  pub commit : Action S (Unit {0})
  pub rollback : Action S (Unit {0})
  pub close : Action S (Unit {0})

abbrev pub after_finally : {A : Type 0} → Result A → Result (Unit {0}) → Result A
after_finally r (ok _) = r
after_finally r (err e) = err e

module _ {S A : Type 0} where
  -- `try: body` / `finally: last`: what `last` raises takes the place of what the body did
  unfoldable pub try_finally : Action S A → Action S (Unit {0}) → Action S A
  try_finally body last s = let (r, t) = body s in let (f, u) = last t in (after_finally r f, u)

-- `countdown=10 * (2 ** self.request.retries)`
abbrev pub countdown : ℕ → ℕ
countdown retries = 10 * 2 ^ retries

module _ {S : Type 0} (session : SqlSession S) where
  open session use {commit, rollback, close}

  -- `get_db_session` around the statements of a request
  unfoldable pub with_db_session : {A : Type 0} → Action S A → Action S A
  unfolding try_finally
  with_db_session {A = A} request =
      try_finally (try_except (do a ← request; commit; pure a) (λ e. do rollback; raise e)) close

  module _ (setup : Action S (Unit {0})) (execute : String → Action S (Unit {0}))
      (retry : Exc → ℕ → Action S Exc) (retries : ℕ) where
    -- `except DomainError` and `except Exception`, which raises what
    -- `self.retry` returns, unless that call raises by itself
    unfoldable pub on_failure : Exc → Action S (Unit {0})
    on_failure e =
        if is_domain e then rollback else (do rollback; x ← retry e (countdown retries); raise x)

    -- `setup` takes the connections and creates the tables, before the `try`.
    unfoldable pub process_analysis : String → Action S (Unit {0})
    unfolding try_finally on_failure
    process_analysis task_id = do
      setup
      try_finally (try_except (do execute task_id; commit) on_failure) close

module _ {S : Type 0} (service : OutboxRelayService S) where
  unfoldable pub relay_outbox_messages : Action S (Unit {0})
  relay_outbox_messages = do _ ← relay service; pure tt

  unfoldable pub recover_zombie_messages : Action S (Unit {0})
  recover_zombie_messages = do _ ← recover_zombies service 5; pure tt
