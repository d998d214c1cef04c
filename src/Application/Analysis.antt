-- ===== src/Application/Analysis.antt =====
-- app/application/analysis_service.py and app/application/decorators.py: a request for an analysis
-- stores the raw rows, the task and the message of the outbox in one transaction.
pub mod Submitted
pub mod OneTask
use pipeline_server.Prelude.{ℕ, String}
use pipeline_server.Effects.{Action, pure, ◌>>=◌, ◌>>◌}
use pipeline_server.Domain.Outbox.{OutboxMessage, create_analyze_event}
use pipeline_server.Domain.Ports.{TransactionManager, IdGenerator, Clock, now}
use pipeline_server.Domain.Task.{AnalyzeTask, create_new}
use pipeline_server.Application.Ingestion.{DataIngestor, ingest}

pub record AnalysisService (S Row : Type 0) : Type 1 where
  pub data_ingestor : DataIngestor S Row
  pub id_generator : IdGenerator S
  -- `create_if_not_active` of the task repository and `save` of the outbox repository
  pub create_if_not_active : AnalyzeTask → Action S (Unit {0})
  pub save_message : OutboxMessage → Action S (Unit {0})
  pub tx_manager : TransactionManager S
  pub clock : Clock S

-- `@transactional`: `wrapper` gives the method to `execute`, and returns the result that it left
unfoldable pub transactional : {S A : Type 0} → TransactionManager S → Action S A → Action S A
transactional {A = A} tx_manager method = tx_manager.execute A method

module _ {S Row : Type 0} (service : AnalysisService S Row) where
  open service use {
    data_ingestor, id_generator, create_if_not_active, save_message, tx_manager, clock,
  }

  -- the statements of `submit`
  unfoldable pub submit_body : Action S String
  unfolding ingest create_new create_analyze_event
  submit_body = do
    ingestion ← ingest data_ingestor
    t ← now clock
    let task =
        create_new ingestion.task_id ingestion.selection_count ingestion.odd_count
          ingestion.label_count t
    message_id ← id_generator.generate
    t' ← now clock
    let outbox = create_analyze_event message_id ingestion.task_id t'
    create_if_not_active task
    save_message outbox
    pure ingestion.task_id

  unfoldable pub submit : Action S String
  unfolding transactional submit_body
  submit = transactional tx_manager submit_body
