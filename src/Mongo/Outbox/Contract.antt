-- ===== src/Mongo/Outbox/Contract.antt =====
-- The MongoDB repository keeps what the port promises of an outbox.
use pipeline_server.Prelude.{String, ◌≡◌}
use pipeline_server.Domain.Ports.{OutboxRepository, Clock}
use pipeline_server.Python.{Runtime}
use pipeline_server.Mongo.Driver.{Collection}
use pipeline_server.Mongo.Outbox.{save, save_if_status, find_by}
use pipeline_server.Mongo.Outbox.Written.{decoded, stored, Intact, stored-rewrite}
use pipeline_server.Mongo.Outbox.Saves.{
  save_cases, save-Intact, save_ok, save_if_status-Intact, save_if_status_writes,
  save_if_status_true, save_if_status_false,
}
use pipeline_server.Mongo.Outbox.Finds.{find_by-Intact, find_by_reads, find_by_found, find_by_limit}

module _ {S F : Type 0} ⦃py : Runtime F⦄ (collection : Collection S F) (clock : Clock S)
    (clock_reads : (s : S) (k : String)
      → collection.document (clock.read s).1 k ≡ collection.document s k) where
  open collection use {document}

  -- The port over a collection whose documents a reading of the clock does not change.
  unfoldable pub mongo_outbox : OutboxRepository S
  unfolding stored decoded
  mongo_outbox = record {
    stored = stored collection;
    intact = Intact collection;
    save = save collection clock;
    save_if_status = save_if_status collection clock;
    find_by = find_by collection clock;
    save_intact = save-Intact collection clock;
    save_if_status_intact = save_if_status-Intact collection clock;
    find_by_intact = find_by-Intact collection clock clock_reads;
    save_ok = save_ok collection clock;
    save_writes = λ m s k. stored-rewrite collection m k (save_cases collection clock m s k);
    save_if_status_true = save_if_status_true collection clock;
    save_if_status_false = save_if_status_false collection clock;
    save_if_status_writes = save_if_status_writes collection clock;
    find_by_reads = find_by_reads collection clock clock_reads;
    find_by_found = find_by_found collection clock clock_reads;
    find_by_limit = find_by_limit collection clock clock_reads;
  }
