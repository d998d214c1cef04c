-- ===== src/Mongo/Outbox/Saves.antt =====
-- What `save` and `save_if_status` leave in the collection.
use pipeline_server.Prelude.{
  ℕ, zero, suc, String, ◌≡◌, ◌∙◌, ap, ◌⊎◌, inl, inr, true, false, some, arith, ltb,
}
use pipeline_server.Domain.Enums.{OutboxStatus}
use pipeline_server.Domain.Outbox.{OutboxMessage}
use pipeline_server.Domain.Ports.{Clock, IfStored}
use pipeline_server.Python.{Runtime}
use pipeline_server.Result.{Result, ok}
use pipeline_server.Effects.Results.{state-bind_pure, ok-bind_pure}
use pipeline_server.Mongo.Driver.{Collection, IfFound}
use pipeline_server.Mongo.Mappers.{write_message}
use pipeline_server.Mongo.Outbox.{status_is, save, save_if_status}
use pipeline_server.Mongo.Outbox.Written.{
  decoded, decoded-write_message, Written-decoded, stored, Intact, Written-rewrite,
}

module _ {S F : Type 0} ⦃py : Runtime F⦄ (collection : Collection S F) (clock : Clock S) where
  open collection use {document}

  -- `save`
  module _ (m : OutboxMessage) (s : S) where
    abbrev replaced : Result ℕ × S
    replaced = collection.replace_one m.message_id (λ _. true) (write_message m) true s

    state-save : (save collection clock m s).1 ≡ replaced.1
    unfolding save
    state-save = state-bind_pure _ _ s

    pub save_cases :
        (k : String)
        → (document (save collection clock m s).1 k ≡ document s k)
          ⊎ ((m.message_id ≡ k)
              × (document (save collection clock m s).1 k ≡ some (write_message m)))
    save_cases k =
        rw state-save
          (elim (collection.replace_writes m.message_id (λ _. true) (write_message m) true s k) [
            | inl e ↦ inl e
            | inr (i, _, e) ↦ inr (i, e)
          ])

    pub save-Intact : Intact collection s → Intact collection (save collection clock m s).1
    save-Intact h k = Written-rewrite collection m k (h k) (save_cases k)

    pub save_ok :
        (save collection clock m s).0 ≡ ok tt
        → stored collection (save collection clock m s).1 m.message_id ≡ some m
    unfolding save stored
    save_ok h =
        let (n, e, _) = ok-bind_pure _ _ s h in
        ap (λ t. decoded F (document t m.message_id)) (state-bind_pure _ _ s)
        ∙ ap (decoded F) (collection.replace_upserts m.message_id (write_message m) n s e)
        ∙ decoded-write_message F m

  -- `save_if_status`
  module _ (m : OutboxMessage) (expected : OutboxStatus) (s : S) where
    abbrev tried : Result ℕ × S
    tried = collection.replace_one m.message_id (status_is expected) (write_message m) false s

    state-save_if_status : (save_if_status collection clock m expected s).1 ≡ tried.1
    unfolding save_if_status
    state-save_if_status = state-bind_pure _ _ s

    save_if_status_cases :
        (k : String)
        → (document (save_if_status collection clock m expected s).1 k ≡ document s k)
          ⊎ ((m.message_id ≡ k)
              × IfFound (status_is expected) (document s k)
              × (document (save_if_status collection clock m expected s).1 k
                  ≡ some (write_message m)))
    save_if_status_cases k =
        rw state-save_if_status
          (collection.replace_writes m.message_id (status_is expected) (write_message m) false s k)

    pub save_if_status-Intact :
        Intact collection s → Intact collection (save_if_status collection clock m expected s).1
    save_if_status-Intact h k =
        Written-rewrite collection m k (h k)
          (elim (save_if_status_cases k) [ inl e ↦ inl e | inr (i, _, e) ↦ inr (i, e) ])

    pub save_if_status_writes :
        (k : String)
        → Intact collection s
        → (stored collection (save_if_status collection clock m expected s).1 k
            ≡ stored collection s k)
          ⊎ ((m.message_id ≡ k)
              × IfStored (λ n. n.status ≡ expected) (stored collection s k)
              × (stored collection (save_if_status collection clock m expected s).1 k ≡ some m))
    unfolding stored
    save_if_status_writes k h = elim (save_if_status_cases k) [
      | inl e ↦ inl (ap (decoded F) e)
      | inr (i, t, e) ↦
          inr (
            i,
            Written-decoded F expected k _ (h k) t,
            ap (decoded F) e ∙ decoded-write_message F m,
          )
    ]

    modified_true :
        (n : ℕ)
        → tried.0 ≡ ok n
        → ltb 0 n ≡ true
        → document tried.1 m.message_id ≡ some (write_message m)
    modified_true zero e h = cc
    modified_true (suc n) e h =
        collection.replace_modified m.message_id (status_is expected) (write_message m) n s e

    modified_false :
        (n : ℕ)
        → tried.0 ≡ ok n
        → ltb 0 n ≡ false
        → document tried.1 m.message_id ≡ document s m.message_id
    modified_false zero e h =
        collection.replace_unmodified m.message_id (status_is expected) (write_message m) s e
    modified_false (suc n) e h = ground arith

    pub save_if_status_true :
        (save_if_status collection clock m expected s).0 ≡ ok true
        → stored collection (save_if_status collection clock m expected s).1 m.message_id ≡ some m
    unfolding stored save_if_status
    save_if_status_true h =
        let (n, e, q) = ok-bind_pure _ _ s h in
        ap (λ t. decoded F (document t m.message_id)) (state-bind_pure _ _ s)
        ∙ ap (decoded F) (modified_true n e q)
        ∙ decoded-write_message F m

    pub save_if_status_false :
        (save_if_status collection clock m expected s).0 ≡ ok false
        → stored collection (save_if_status collection clock m expected s).1 m.message_id
          ≡ stored collection s m.message_id
    unfolding stored save_if_status
    save_if_status_false h =
        let (n, e, q) = ok-bind_pure _ _ s h in
        ap (λ t. decoded F (document t m.message_id)) (state-bind_pure _ _ s)
        ∙ ap (decoded F) (modified_false n e q)
