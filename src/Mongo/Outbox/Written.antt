-- ===== src/Mongo/Outbox/Written.antt =====
-- The documents that `MongoOutboxRepository` writes, and the message that each stands for.
use pipeline_server.Prelude.{
  String, ◌≡◌, refl, ◌∙◌, ap, ◌⊎◌, inl, inr, true, Option, some, none, eq_iff,
}
use pipeline_server.Domain.Enums.{OutboxStatus, outbox_status_enum}
use pipeline_server.Domain.Outbox.{OutboxMessage}
use pipeline_server.Domain.Ports.{IfStored}
use pipeline_server.Python.{Entries, Runtime}
use pipeline_server.Result.{Result, ok, err}
use pipeline_server.Mongo.Driver.{Collection, id_of, IfFound}
use pipeline_server.Mongo.Mappers.{write_message, read_message}
use pipeline_server.Domain.Enums.RoundTrip.{OutboxStatus-IsInverse, value-injective}
use pipeline_server.Mongo.Mappers.RoundTrip.{read_message-write_message}
use pipeline_server.Mongo.Outbox.{status_is}

unfoldable pub kept : Result OutboxMessage → Option OutboxMessage
kept (ok m) = some m
kept (err e) = none

module _ (F : Type 0) ⦃py : Runtime F⦄ where
  -- The message that a document stands for. The time is used by no document of the program.
  unfoldable pub decoded : Option (Entries F) → Option OutboxMessage
  unfolding kept
  decoded none = none
  decoded (some d) = kept (read_message d 0)

  pub decoded-write_message : (m : OutboxMessage) → decoded (some (write_message m)) ≡ some m
  unfolding decoded
  decoded-write_message m = rw (read_message-write_message F m 0)

  pub id_of-write_message : (m : OutboxMessage) → id_of {F = F} (write_message m) ≡ m.message_id
  unfolding id_of write_message
  id_of-write_message m = refl

  pub status_is-write_message :
      (expected : OutboxStatus) (m : OutboxMessage)
      → status_is {F = F} expected (write_message m) ≡ true
      → m.status ≡ expected
  unfolding status_is write_message
  status_is-write_message expected m h =
      value-injective outbox_status_enum OutboxStatus-IsInverse m.status expected ((eq_iff _ _).0 h)

  -- A document that the repository has written under its id.
  abbrev pub Written : String → Option (Entries F) → Type 0
  Written k none = Unit
  Written k (some d) = (m : OutboxMessage) × (d ≡ write_message m) × (m.message_id ≡ k)

  pub Written-decoded :
      (expected : OutboxStatus) (k : String) (o : Option (Entries F))
      → Written k o
      → IfFound (status_is expected) o
      → IfStored (λ n. n.status ≡ expected) (decoded o)
  unfolding decoded
  Written-decoded expected k none w h = tt
  Written-decoded expected k (some d) (m, e, i) h =
      rw (e, decoded-write_message) (status_is-write_message expected m (rw e at h))

module _ {S F : Type 0} ⦃py : Runtime F⦄ (collection : Collection S F) where
  open collection use {document}

  unfoldable pub stored : S → String → Option OutboxMessage
  unfolding decoded
  stored s k = decoded F (document s k)

  abbrev pub Intact : S → Type 0
  Intact s = (k : String) → Written F k (document s k)

  pub Written-rewrite :
      (m : OutboxMessage) (k : String) {before after : Option (Entries F)}
      → Written F k before
      → (after ≡ before) ⊎ ((m.message_id ≡ k) × (after ≡ some (write_message m)))
      → Written F k after
  Written-rewrite m k w (inl e) = rw e w
  Written-rewrite m k w (inr (i, e)) = rw e (m, refl, i)

  pub stored-rewrite :
      (m : OutboxMessage) (k : String) {before after : Option (Entries F)}
      → (after ≡ before) ⊎ ((m.message_id ≡ k) × (after ≡ some (write_message m)))
      → (decoded F after ≡ decoded F before) ⊎ ((m.message_id ≡ k) × (decoded F after ≡ some m))
  stored-rewrite m k (inl e) = inl (ap (decoded F) e)
  stored-rewrite m k (inr (i, e)) = inr (i, ap (decoded F) e ∙ decoded-write_message F m)
