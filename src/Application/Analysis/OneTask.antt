-- ===== src/Application/Analysis/OneTask.antt =====
-- app/application/analysis_service.py over the tasks of app/adapter/outbound/mongodb/repositories.py:
-- one submission after the other.
use pipeline_server.Prelude.{String, ◌≡◌, Option}
use pipeline_server.Result.{Result}
use pipeline_server.Effects.{Action}
use pipeline_server.Effects.Keeps.{Keeps}
use pipeline_server.Domain.Outbox.{OutboxMessage}
use pipeline_server.Domain.Ports.{TransactionManager, IdGenerator, Clock, now}
use pipeline_server.Python.{Runtime, Entries}
use pipeline_server.Application.Ingestion.{DataIngestor, ingest}
use pipeline_server.Application.Analysis.{AnalysisService}
use pipeline_server.Mongo.Driver.{Collection}
use pipeline_server.Mongo.Tasks.{create_if_not_active}

-- A statement leaves the documents of a collection as they are.
pub record Leaves {S F A : Type 0} (collection : Collection S F) (m : Action S A) : Type 0 where
  pub same : (s : S) (k : String) → collection.document (m s).1 k ≡ collection.document s k

-- The parts of a service whose tasks are those of a collection. A reader sees the documents of that
-- collection, and what the service does other than to create the task leaves them as they are.
pub record Submissions (S F Row : Type 0) (tasks : Collection S F) : Type 1 where
  pub data_ingestor : DataIngestor S Row
  pub id_generator : IdGenerator S
  pub save_message : OutboxMessage → Action S (Unit {0})
  pub tx_manager : TransactionManager S
  pub clock : Clock S
  pub documents : tx_manager.View → String → Option (Entries F)
  pub documents_seen : (s : S) (k : String) → tasks.document s k ≡ documents (tx_manager.view s) k
  pub ingest_leaves : Leaves tasks (ingest data_ingestor)
  pub generate_leaves : Leaves tasks id_generator.generate
  pub save_leaves : (m : OutboxMessage) → Leaves tasks (save_message m)
  pub clock_leaves : Leaves tasks (now clock)

module _ {S F Row : Type 0} ⦃py : Runtime F⦄ (tasks : Collection S F)
    (parts : Submissions S F Row tasks) where
  open parts use {tx_manager}

  abbrev pub service_of : AnalysisService S Row
  service_of = record {
    data_ingestor = parts.data_ingestor;
    id_generator = parts.id_generator;
    create_if_not_active = create_if_not_active tasks;
    save_message = parts.save_message;
    tx_manager = tx_manager;
    clock = parts.clock;
  }
