-- ===== src/Domain/Outbox/Lifecycle.antt =====
-- The life of an outbox message: how the status goes with the number of retries.
use pipeline_server.Prelude.{ℕ, ◌<◌, ◌≡◌, ◌≢◌, refl, String, arith}
use pipeline_server.Domain.Enums.{OutboxStatus}
use pipeline_server.Domain.Outbox.{OutboxMessage, create_analyze_event}
use pipeline_server.Python.{Datetime}

-- Retries are left while the message is not failed, and a failed message has used them up.
abbrev pub SoundAt : OutboxStatus → ℕ → ℕ → Type 0
SoundAt OutboxStatus.failed used most = used ≡ most
SoundAt _ used most = used < most

abbrev pub IsSound : OutboxMessage → Type 0
IsSound m = SoundAt m.status m.retry_count m.max_retries

pub create_analyze_event-IsSound :
    (message_id task_id : String) (now : Datetime)
    → IsSound (create_analyze_event message_id task_id now)
unfolding create_analyze_event
create_analyze_event-IsSound message_id task_id now = omega arith

pub retries_left :
    (m : OutboxMessage) → IsSound m → m.status ≢ OutboxStatus.failed → m.retry_count < m.max_retries
retries_left m sound live = at_status m.status sound live
  where
    at_status :
        (status : OutboxStatus)
        → SoundAt status m.retry_count m.max_retries
        → status ≢ OutboxStatus.failed
        → m.retry_count < m.max_retries
    at_status OutboxStatus.failed h n = absurd (n refl)
    at_status _ h n = h
