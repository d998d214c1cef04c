-- ===== src/Mongo/Outbox/Finds.antt =====
-- What `find_by` returns, and that it only reads.
use pipeline_server.Prelude.{
  suc, ◌≤◌, ◌<◌, String, ◌≡◌, refl, ◌∙◌, subst, ap, Bool, true, ◌&&◌, Option, some, List, [], ◌∷◌,
  All, length, map, arith,
}
use pipeline_server.Domain.Models.{OutboxCriteria}
use pipeline_server.Domain.Outbox.{OutboxMessage}
use pipeline_server.Domain.Ports.{Clock, now}
use pipeline_server.Python.{Entries, Runtime}
use pipeline_server.Result.{Result, ok, err}
use pipeline_server.Effects.{◌>>=◌, and_then}
use pipeline_server.Effects.Keeps.{OnOk, Keeps, Keeps-pure, Keeps-lift, Keeps-bind}
use pipeline_server.Mongo.Driver.{Collection, id_of}
use pipeline_server.Mongo.Mappers.{write_message}
use pipeline_server.Mongo.Mappers.RoundTrip.{read_message-write_message}
use pipeline_server.Mongo.Outbox.{status_is, updated_before, read_messages, find_by}
use pipeline_server.Mongo.Outbox.Written.{
  decoded, decoded-write_message, status_is-write_message, Written, stored, Intact,
}

module _ {S F : Type 0} ⦃py : Runtime F⦄ (collection : Collection S F) (clock : Clock S)
    (clock_reads : (s : S) (k : String)
      → collection.document (clock.read s).1 k ≡ collection.document s k) where
  open collection use {document}

  -- `find_by`
  module _ (k : String) (held : Option (Entries F)) where
    abbrev Holds : S → Type 0
    Holds s = document s k ≡ held

    now-Holds : Keeps Holds (now clock)
    unfolding now
    now-Holds = record { at = λ s h. clock_reads s k ∙ h }

    read_messages-Holds :
        (docs : List (Entries F)) → Keeps Holds (read_messages collection clock docs)
    unfolding read_messages
    read_messages-Holds [] = Keeps-pure []
    read_messages-Holds (d ∷ docs) = Keeps-bind _ _ now-Holds λ t.
        Keeps-bind _ _ (Keeps-lift _)
          λ m. Keeps-bind _ _ (read_messages-Holds docs) (λ ms. Keeps-pure _)

    find_by-Holds : (c : OutboxCriteria) → Keeps Holds (find_by collection clock c)
    unfolding find_by
    find_by-Holds c =
        Keeps-bind _ _ (record { at = λ s h. collection.find_reads _ _ _ s k ∙ h })
          (λ docs. read_messages-Holds docs)

  pub find_by-Intact :
      (c : OutboxCriteria) (s : S)
      → Intact collection s
      → Intact collection (find_by collection clock c s).1
  find_by-Intact c s h k = rw ((find_by-Holds k (document s k) c).at s refl) (h k)

  pub find_by_reads :
      (c : OutboxCriteria) (s : S) (k : String)
      → stored collection (find_by collection clock c s).1 k ≡ stored collection s k
  unfolding stored
  find_by_reads c s k = ap (decoded F) ((find_by-Holds k (document s k) c).at s refl)

  read_messages-map :
      (ms : List OutboxMessage) (s : S)
      → (read_messages collection clock (map write_message ms) s).0 ≡ ok ms
  unfolding read_messages ◌>>=◌ now
  read_messages-map [] s = refl
  read_messages-map (m ∷ ms) s =
      rw (read_message-write_message F m, ◌>>=◌) (rw (read_messages-map ms (clock.read s).1))

  abbrev pub Matches : OutboxCriteria → S → OutboxMessage → Type 0
  Matches c s m = (stored collection s m.message_id ≡ some m) × (m.status ≡ c.status)

  abbrev query : OutboxCriteria → Entries F → Bool
  query c d = status_is c.status d && updated_before c.before d

  -- The documents that were found are those of messages.
  messages_of :
      (c : OutboxCriteria) (s : S) (docs : List (Entries F))
      → Intact collection s
      → All (λ d. (document s (id_of d) ≡ some d) × (query c d ≡ true)) docs
      → (ms : List OutboxMessage) × (docs ≡ map write_message ms)
        × All (Matches c s) ms
        × (length ms ≡ length docs)
  messages_of c s [] h found = ([], refl, tt, refl)
  messages_of c s (d ∷ docs) h found =
      let (m, e, i) = subst (Written F (id_of d)) found.0.0 (h (id_of d)) in
      let (ms, es, all, n) = messages_of c s docs h found.1 in
      (m ∷ ms, cc, ((stored_at m e i, status_at m e), all), ap suc n)
    where
      stored_at :
          (m : OutboxMessage)
          → d ≡ write_message m
          → m.message_id ≡ id_of d
          → stored collection s m.message_id ≡ some m
      stored_at m e i =
          ap (λ k. stored collection s k) i
          ∙ unfold stored in
            (ap (decoded F) found.0.0) ∙ ap (λ x. decoded F (some x)) e ∙ decoded-write_message F m

      status_at : (m : OutboxMessage) → d ≡ write_message m → m.status ≡ c.status
      status_at m e =
          status_is-write_message F c.status m
            (subst (λ x. status_is c.status x ≡ true) e (ground arith))

  read_found :
      (c : OutboxCriteria) (s s' : S) (r : Result (List (Entries F)))
      → Intact collection s
      → OnOk (All (λ d. (document s (id_of d) ≡ some d) × (query c d ≡ true))) r
      → OnOk (All (Matches c s)) (and_then r (read_messages collection clock) s').0
  read_found c s s' (err e) h found = tt
  read_found c s s' (ok docs) h found =
      let (ms, e, all, n) = messages_of c s docs h found in rw (e, read_messages-map ms s') all

  pub find_by_found :
      (c : OutboxCriteria) (s : S)
      → Intact collection s
      → OnOk (All (Matches c s)) (find_by collection clock c s).0
  unfolding find_by ◌>>=◌
  find_by_found c s h = read_found c s _ _ h (collection.find_found _ _ _ s)

  read_limit :
      (c : OutboxCriteria) (s s' : S) (r : Result (List (Entries F)))
      → Intact collection s
      → OnOk (All (λ d. (document s (id_of d) ≡ some d) × (query c d ≡ true))) r
      → OnOk (λ docs. length docs ≤ c.limit) r
      → OnOk (λ ms. length ms ≤ c.limit) (and_then r (read_messages collection clock) s').0
  read_limit c s s' (err e) h found fits = tt
  read_limit c s s' (ok docs) h found fits =
      let (ms, e, all, n) = messages_of c s docs h found in
      rw (e, read_messages-map ms s') (rw n fits)

  pub find_by_limit :
      (c : OutboxCriteria) (s : S)
      → Intact collection s
      → 0 < c.limit
      → OnOk (λ ms. length ms ≤ c.limit) (find_by collection clock c s).0
  unfolding find_by ◌>>=◌
  find_by_limit c s h pos =
      read_limit c s _ _ h (collection.find_found _ _ _ s) (collection.find_limit _ _ _ s pos)
