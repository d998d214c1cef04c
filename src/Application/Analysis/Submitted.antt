-- ===== src/Application/Analysis/Submitted.antt =====
-- app/application/analysis_service.py: what a submission leaves in the stores.
use pipeline_server.Prelude.{String, ◌≡◌, Option, some, [], ◌∷◌}
use pipeline_server.Result.{Result, ok, err}
use pipeline_server.Domain.Errors.{Exc}
use pipeline_server.Effects.{◌>>◌}
use pipeline_server.Domain.Enums.{TaskStatus, OutboxStatus}
use pipeline_server.Domain.Outbox.{OutboxMessage}
use pipeline_server.Domain.Task.{AnalyzeTask}
use pipeline_server.Application.Analysis.{AnalysisService, submit_body, submit}

-- What a reader sees of the tasks and of the messages, and what the two writes promise of it.
pub record Stores {S Row : Type 0} (service : AnalysisService S Row) : Type 0 where
  pub task_at : service.tx_manager.View → String → Option AnalyzeTask
  pub message_at : service.tx_manager.View → String → Option OutboxMessage
  pub created :
      (task : AnalyzeTask) (s t : S)
      → service.create_if_not_active task s ≡ (ok tt, t)
      → task_at (service.tx_manager.view t) task.task_id ≡ some task
  pub saved :
      (m : OutboxMessage) (s t : S)
      → service.save_message m s ≡ (ok tt, t)
      → message_at (service.tx_manager.view t) m.message_id ≡ some m
  -- messages and tasks are stored apart
  pub apart :
      (m : OutboxMessage) (s t : S) (k : String)
      → service.save_message m s ≡ (ok tt, t)
      → task_at (service.tx_manager.view t) k ≡ task_at (service.tx_manager.view s) k

-- A pending task of an id, and a pending message that names it, are stored.
pub record IsSubmitted {S Row : Type 0} (service : AnalysisService S Row) (stores : Stores service)
    (task_id : String) (v : service.tx_manager.View) : Type 0 where
  pub task : AnalyzeTask
  pub message : OutboxMessage
  pub task_stored : stores.task_at v task_id ≡ some task
  pub message_stored : stores.message_at v message.message_id ≡ some message
  pub of_task : task.task_id ≡ task_id
  pub names_task : message.payload ≡ ("task_id", task_id) ∷ []
  pub task_pending : task.status ≡ TaskStatus.pending
  pub message_pending : message.status ≡ OutboxStatus.pending

-- A submission that raises leaves what is stored as it was: no raw row, no task and no message.
pub submit-rolls_back :
    {S Row : Type 0} (service : AnalysisService S Row) (s u : S) (e : Exc)
    → submit service s ≡ (err e, u)
    → service.tx_manager.view u ≡ service.tx_manager.view s
unfolding submit
submit-rolls_back service s u e h =
    service.tx_manager.rolls_back String (submit_body service) s u e h
