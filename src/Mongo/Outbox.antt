-- ===== src/Mongo/Outbox.antt =====
-- app/adapter/outbound/mongodb/repositories.py, `MongoOutboxRepository`.
pub mod Written
mod Saves
mod Finds
pub mod Contract
pub mod Exclusive
use pipeline_server.Prelude.{
  ℕ, String, Bool, true, false, ◌&&◌, Option, some, none, List, [], ◌∷◌, str_eq, ltb,
}
use pipeline_server.Domain.Enums.{OutboxStatus, outbox_status_enum}
use pipeline_server.Domain.Models.{OutboxCriteria}
use pipeline_server.Domain.Outbox.{OutboxMessage}
use pipeline_server.Domain.Ports.{Clock, now}
use pipeline_server.Python.{Entries, Value, string, date, Runtime, Datetime, find_key}
use pipeline_server.Result.{Result, ok, err}
use pipeline_server.Effects.{Action, pure, lift, ◌>>=◌, ◌>>◌}
use pipeline_server.Mongo.Driver.{Collection}
use pipeline_server.Mongo.Mappers.{write_message, read_message}

module _ {F : Type 0} where
  -- the query `{"status": status.value}`
  unfoldable pub status_is : OutboxStatus → Entries F → Bool
  unfolding find_key
  status_is status d = elim (find_key "status" d) [
    | some (string v) ↦ str_eq v (outbox_status_enum.value status)
    | _ ↦ false
  ]

  -- the query `{"updated_at": {"$lt": before}}`, which no missing or null date meets
  unfoldable pub updated_before : Option Datetime → Entries F → Bool
  unfolding find_key
  updated_before none d = true
  updated_before (some before) d = elim (find_key "updated_at" d) [
    | some (date t) ↦ ltb t before
    | _ ↦ false
  ]

module _ {S F : Type 0} ⦃py : Runtime F⦄ (collection : Collection S F) (clock : Clock S) where
  open collection use {replace_one, find}

  unfoldable pub save : OutboxMessage → Action S (Unit {0})
  save message = do
    _ ← replace_one message.message_id (λ _. true) (write_message message) true
    pure tt

  unfoldable pub save_if_status : OutboxMessage → OutboxStatus → Action S Bool
  save_if_status message expected = do
    modified_count ←
        replace_one message.message_id (status_is expected) (write_message message) false
    pure (ltb 0 modified_count)

  -- `[to_domain(from_dict(doc)) for doc in cursor]`; `from_dict` reads the clock
  unfoldable pub read_messages : List (Entries F) → Action S (List OutboxMessage)
  read_messages [] = pure []
  read_messages (doc ∷ docs) = do
    t ← now clock
    m ← lift (read_message doc t)
    ms ← read_messages docs
    pure (m ∷ ms)

  unfoldable pub find_by : OutboxCriteria → Action S (List OutboxMessage)
  unfolding read_messages
  find_by criteria = do
    docs ←
        find (λ d. status_is criteria.status d && updated_before criteria.before d) "created_at"
          criteria.limit
    read_messages docs
