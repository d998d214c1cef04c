-- ===== src/Mongo/Outbox/Exclusive.antt =====
-- The optimistic lock of the outbox: who loses a race over a message is told so.
use pipeline_server.Prelude.{◌≡◌, ◌≢◌, ◌∙◌, sym, subst, ap, inl, inr, true, some, none}
use pipeline_server.Result.{ok}
use pipeline_server.Domain.Enums.{OutboxStatus}
use pipeline_server.Domain.Outbox.{OutboxMessage}
use pipeline_server.Domain.Ports.{Clock, IfStored}
use pipeline_server.Python.{Runtime}
use pipeline_server.Mongo.Driver.{Collection}
use pipeline_server.Mongo.Outbox.{save_if_status}
use pipeline_server.Mongo.Outbox.Written.{stored, Intact}
use pipeline_server.Mongo.Outbox.Saves.{
  save_if_status-Intact, save_if_status_writes, save_if_status_true,
}

same_message : (m m' : OutboxMessage) → some m ≡ some m' → m ≡ m'
same_message m m' e = ap (λ o. elim o [ some x ↦ x | none ↦ m ]) e

-- In a collection that holds what the repository has written: of two different messages of the
-- same id, each saved under the condition that the stored one has the expected status, the second
-- is refused if the first has been saved and has another status.
pub save_if_status-exclusive :
    {S F : Type 0} ⦃py : Runtime F⦄ (collection : Collection S F) (clock : Clock S)
    (m m' : OutboxMessage) (expected : OutboxStatus) (s : S)
    → Intact collection s
    → m.message_id ≡ m'.message_id
    → m ≢ m'
    → m.status ≢ expected
    → (save_if_status collection clock m expected s).0 ≡ ok true
    → (save_if_status collection clock m' expected
        (save_if_status collection clock m expected s).1).0
      ≢ ok true
save_if_status-exclusive collection clock m m' expected s h same differ other first second =
    let after = (save_if_status collection clock m expected s).1 in
    let holds = save_if_status_true collection clock m expected s first in
    let holds' = save_if_status_true collection clock m' expected after second in
    let before = subst (λ k. stored collection after k ≡ some m) same holds in
    elim (save_if_status_writes collection clock m' expected after m'.message_id
      (save_if_status-Intact collection clock m expected s h)) [
        | inl e ↦ differ (same_message m m' (sym before ∙ sym e ∙ holds'))
        | inr (_, was, _) ↦ other (subst (IfStored (λ n. n.status ≡ expected)) before was)
      ]
