-- ===== src/Tests/Worker.antt =====
-- The theorem on the task of the worker, at a run that is retried.
use pipeline_server.Prelude.{ℕ, String, ◌≡◌, refl, List, [], ◌∷◌}
use pipeline_server.Result.{ok, err}
use pipeline_server.Effects.{Action}
use pipeline_server.Domain.Errors.{Exc, external}
use pipeline_server.Worker.Tasks.{SqlSession, process_analysis}
use pipeline_server.Worker.Tasks.Retries.{process_analysis-ends}

-- A session that writes down its calls.
abbrev noted : SqlSession (List String)
noted = record {
  commit = λ s. (ok tt, "commit" ∷ s);
  rollback = λ s. (ok tt, "rollback" ∷ s);
  close = λ s. (ok tt, "close" ∷ s);
}

abbrev retry : Exc → ℕ → Action (List String) Exc
retry e countdown s = (err (external "Retry"), "retry" ∷ s)

process_analysis-ends_example :
    process_analysis noted
      (λ s. (ok tt, s))
      (λ id s. (err (external "lost"), "run" ∷ s))
      retry
      2
      "t1"
      []
    ≡ (err (external "Retry"), "close" ∷ "retry" ∷ "rollback" ∷ "run" ∷ [])
process_analysis-ends_example =
    process_analysis-ends noted (λ s. (ok tt, s)) (λ id s. (err (external "lost"), "run" ∷ s)) retry
      2 "t1" [] [] ("run" ∷ []) (err (external "lost"))
      (record {
        commit_returns = λ s. refl;
        rollback_returns = λ s. refl;
        close_returns = λ s. refl;
      })
      refl refl
