-- ===== src/Worker/Tasks/Retries.antt =====
-- app/adapter/inbound/worker/pipeline_task.py: how the task of an analysis ends.
use pipeline_server.Prelude.{ℕ, ◌*◌, ◌^◌, String, ◌≡◌, ◌⊎◌, inl, inr, refl}
use pipeline_server.Result.{Result, ok, err}
use pipeline_server.Domain.Errors.{Exc, domain, builtin, external}
use pipeline_server.Effects.{Action, ◌>>=◌, try_except, raise}
use pipeline_server.Worker.Tasks.{SqlSession, on_failure, process_analysis, try_finally}

Result-cases : {A : Type 0} (r : Result A) → ((x : A) × (r ≡ ok x)) ⊎ ((e : Exc) × (r ≡ err e))
Result-cases (ok x) = inl (x, refl)
Result-cases (err e) = inr (e, refl)

-- The calls of the session return.
pub record IsSteady {S : Type 0} (session : SqlSession S) : Type 0 where
  pub commit_returns : (s : S) → (session.commit s).0 ≡ ok tt
  pub rollback_returns : (s : S) → (session.rollback s).0 ≡ ok tt
  pub close_returns : (s : S) → (session.close s).0 ≡ ok tt

-- what `self.retry` returned or raised
abbrev pub given_up : Result Exc → Exc
given_up (ok x) = x
given_up (err x) = x

module _ {S : Type 0} (session : SqlSession S) (retry : Exc → ℕ → Action S Exc) (retries : ℕ) where
  -- what follows the pipeline, up to the close of the session
  abbrev pub after_run : Result (Unit {0}) → S → Result (Unit {0}) × S
  after_run (ok _) t = (ok tt, (session.commit t).1)
  after_run (err (domain c message)) t = (ok tt, (session.rollback t).1)
  after_run (err e) t =
      let (x, w) = retry e (10 * 2 ^ retries) (session.rollback t).1 in (err (given_up x), w)

-- Where the calls of the session return and the connections are made: if the pipeline returns, the
-- task commits and returns; if it raises a domain error, the task rolls back and returns; if it raises
-- anything else, the task rolls back, asks the broker for a retry after 10 * 2 ^ retries seconds, and
-- raises what that call gives or raises. The session is closed last.
pub process_analysis-ends :
    {S : Type 0} (session : SqlSession S) (setup : Action S (Unit {0}))
    (execute : String → Action S (Unit {0})) (retry : Exc → ℕ → Action S Exc) (retries : ℕ)
    (task_id : String) (s s1 t : S) (r : Result (Unit {0}))
    → IsSteady session
    → setup s ≡ (ok tt, s1)
    → execute task_id s1 ≡ (r, t)
    → process_analysis session setup execute retry retries task_id s ≡ (
      (after_run session retry retries r t).0,
      (session.close (after_run session retry retries r t).1).1,
    )
unfolding process_analysis try_finally on_failure ◌>>=◌ try_except raise
process_analysis-ends session setup execute retry retries task_id s s1 t (ok _) steady made ran =
    rw made (rw ran (rw (steady.commit_returns t) (rw (steady.close_returns _) refl)))
process_analysis-ends session setup execute retry retries task_id s s1 t (err (domain c message))
      steady made ran =
    rw made (rw ran (rw (steady.rollback_returns t) (rw (steady.close_returns _) refl)))
process_analysis-ends session setup execute retry retries task_id s s1 t (err (builtin b message))
      steady made ran =
    rw made (
      rw ran (
        rw (steady.rollback_returns t)
          (elim (Result-cases
            (retry (builtin b message) (10 * 2 ^ retries) (session.rollback t).1).0) [
              | inl (x, h) ↦ rw h (rw (steady.close_returns _) refl)
              | inr (x, h) ↦ rw h (rw (steady.close_returns _) refl)
            ])))
process_analysis-ends session setup execute retry retries task_id s s1 t (err (external message))
      steady made ran =
    rw made (
      rw ran (
        rw (steady.rollback_returns t)
          (elim (Result-cases
            (retry (external message) (10 * 2 ^ retries) (session.rollback t).1).0) [
              | inl (x, h) ↦ rw h (rw (steady.close_returns _) refl)
              | inr (x, h) ↦ rw h (rw (steady.close_returns _) refl)
            ])))
