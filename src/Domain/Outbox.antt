-- ===== src/Domain/Outbox.antt =====
-- app/domain/models.py, `OutboxMessage`: an event to publish and its transitions. Each reading of
-- the clock is an argument `now`. The payload of a message is a dict from text to text.
pub mod Lifecycle
use pipeline_server.Prelude.{
  ℕ, ◌+◌, String, Bool, Option, some, none, List, [], ◌∷◌, str_eq, ltb, if◌then◌else◌,
}
use pipeline_server.Domain.Enums.{OutboxStatus, published}
use pipeline_server.Python.{Datetime}

abbrev pub Payload : Type 0
Payload = List (String × String)

pub record OutboxMessage : Type 0 where
  pub message_id : String
  pub message_type : String
  pub payload : Payload
  pub status : OutboxStatus
  pub retry_count : ℕ
  pub max_retries : ℕ
  pub created_at : Option Datetime
  pub updated_at : Option Datetime

unfoldable pub create_analyze_event : String → String → Datetime → OutboxMessage
create_analyze_event message_id task_id now = record {
  message_id = message_id;
  message_type = "ANALYZE";
  payload = ("task_id", task_id) ∷ [];
  status = OutboxStatus.pending;
  retry_count = 0;
  max_retries = 3;
  created_at = some now;
  updated_at = some now;
}

unfoldable pub is_retriable : OutboxMessage → Bool
is_retriable msg = ltb msg.retry_count msg.max_retries

unfoldable pub mark_processing : OutboxMessage → Datetime → OutboxMessage
mark_processing msg now = record msg { status = OutboxStatus.processing; updated_at = some now }

unfoldable pub mark_published : OutboxMessage → Datetime → OutboxMessage
mark_published msg now = record msg { status = published; updated_at = some now }

unfoldable pub mark_failed : OutboxMessage → Datetime → OutboxMessage
mark_failed msg now = record msg { status = OutboxStatus.failed; updated_at = some now }

unfoldable pub back_to_pending : OutboxMessage → Datetime → OutboxMessage
back_to_pending msg now = record msg { status = OutboxStatus.pending; updated_at = some now }

unfoldable pub with_retry_incremented : OutboxMessage → Datetime → OutboxMessage
with_retry_incremented msg now = record msg {
  retry_count = msg.retry_count + 1;
  updated_at = some now;
}

-- `payload[key]`: `none` is the KeyError.
unfoldable pub payload_item : Payload → String → Option String
payload_item [] key = none
payload_item ((k, v) ∷ rest) key = if str_eq k key then some v else payload_item rest key
