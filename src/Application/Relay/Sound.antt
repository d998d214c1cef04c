-- ===== src/Application/Relay/Sound.antt =====
-- Whatever fails on the way, the relay and the recovery keep every stored message sound.
use pipeline_server.Prelude.{
  ℕ, ◌≡◌, sym, ◌⊎◌, inl, inr, String, Option, some, none, List, [], ◌∷◌, All, arith, subst,
}
use pipeline_server.Result.{Result, ok, err}
use pipeline_server.Effects.{Action, ◌>>=◌}
use pipeline_server.Effects.Keeps.{
  OnOk, Keeps, Keeps-bind, Keeps-bind_knowing, Keeps-lift, Keeps-pure, Keeps-try, keeps_rules,
}
use pipeline_server.Domain.Enums.{OutboxStatus}
use pipeline_server.Domain.Models.{OutboxCriteria}
use pipeline_server.Domain.Outbox.{
  OutboxMessage, mark_processing, mark_published, with_retry_incremented,
}
use pipeline_server.Domain.Outbox.Lifecycle.{IsSound, retries_left}
use pipeline_server.Domain.Ports.{OutboxRepository, now}
use pipeline_server.Application.Relay.{
  OutboxRelayService, dispatch_message, publish, relay_one, relay_loop, relay, settle, recover,
  recover_one, recover_loop, recover_zombies,
}
use pipeline_server.Python.{Datetime}

abbrev pub SoundIn : Option OutboxMessage → Type 0
SoundIn none = Unit
SoundIn (some m) = IsSound m

abbrev Found : OutboxStatus → OutboxMessage → Type 0
Found status m = IsSound m × (m.status ≡ status)

module _ {S : Type 0} (repo : OutboxRepository S) where
  -- The store is the repository's, and every stored message is sound.
  abbrev pub AllSound : S → Type 0
  AllSound s = repo.intact s × ((k : String) → SoundIn (repo.stored s k))

  written :
      (m : OutboxMessage) {before after : Option OutboxMessage}
      → IsSound m
      → SoundIn before
      → (after ≡ before) ⊎ (after ≡ some m)
      → SoundIn after
  written m sound held (inl e) = subst SoundIn (sym e) held
  written m sound held (inr e) = subst SoundIn (sym e) sound

  pub save-AllSound : (m : OutboxMessage) → IsSound m → Keeps AllSound (repo.save m)
  save-AllSound m sound = record {
    at = λ s all. (
      repo.save_intact m s all.0,
      λ k.
          written m sound (all.1 k)
            (elim (repo.save_writes m s k) [ inl e ↦ inl e | inr (_, e) ↦ inr e ]),
    );
  }

  save_if_status-AllSound :
      (m : OutboxMessage) (expected : OutboxStatus)
      → IsSound m
      → Keeps AllSound (repo.save_if_status m expected)
  save_if_status-AllSound m expected sound = record {
    at = λ s all. (
      repo.save_if_status_intact m expected s all.0,
      λ k. written m sound (all.1 k) (elim (repo.save_if_status_writes m expected s k all.0) [
        | inl e ↦ inl e
        | inr (_, _, e) ↦ inr e
      ]),
    );
  }

  find_by-AllSound : (c : OutboxCriteria) → Keeps AllSound (repo.find_by c)
  find_by-AllSound c = record {
    at = λ s all. (
      repo.find_by_intact c s all.0,
      λ k. subst SoundIn (sym (repo.find_by_reads c s k)) (all.1 k),
    );
  }

  found :
      (c : OutboxCriteria) (s : S) (ms : List OutboxMessage)
      → AllSound s
      → All (λ m. (repo.stored s m.message_id ≡ some m) × (m.status ≡ c.status)) ms
      → All (Found c.status) ms
  found c s [] all h = tt
  found c s (m ∷ ms) all h =
      ((subst SoundIn h.0.0 (all.1 m.message_id), h.0.1), found c s ms all h.1)

  find_by-Found :
      (c : OutboxCriteria) (s : S) → AllSound s → OnOk (All (Found c.status)) (repo.find_by c s).0
  find_by-Found c s all = go (repo.find_by c s).0 (repo.find_by_found c s all.0)
    where
      go :
          (r : Result (List OutboxMessage))
          → OnOk (All (λ m. (repo.stored s m.message_id ≡ some m) × (m.status ≡ c.status))) r
          → OnOk (All (Found c.status)) r
      go (ok ms) h = found c s ms all h
      go (err e) h = tt

processing-IsSound :
    (m : OutboxMessage) (t : Datetime)
    → Found OutboxStatus.pending m
    → IsSound (mark_processing m t)
unfolding mark_processing
processing-IsSound m t h = retries_left m h.0 (λ e. cc)

published-IsSound :
    (m : OutboxMessage) (t t' : Datetime)
    → Found OutboxStatus.pending m
    → IsSound (mark_published (mark_processing m t) t')
unfolding mark_processing mark_published
published-IsSound m t t' h = retries_left m h.0 (λ e. cc)

module _ {S : Type 0} (service : OutboxRelayService S) where
  abbrev pub Sound : S → Type 0
  Sound = AllSound service.outbox_repo

  settle-IsSound :
      (m : OutboxMessage) (t t' : Datetime)
      → Found OutboxStatus.processing m
      → IsSound (settle service (with_retry_incremented m t) t')
  unfolding settle with_retry_incremented
  settle-IsSound m t t' h = let left = retries_left m h.0 (λ e. cc) in ground arith

  module _ (clock_keeps : Keeps Sound (now service.clock))
      (dispatch_keeps : (task_id : String)
        → Keeps Sound (service.task_dispatcher.dispatch task_id)) where
    dispatch_message-Sound : (m : OutboxMessage) → Keeps Sound (dispatch_message service m)
    unfolding dispatch_message
    dispatch_message-Sound m = search (keeps_rules, dispatch_keeps)

    publish-Sound :
        (m : OutboxMessage) (published : ℕ)
        → ((t : Datetime) → IsSound (mark_published m t))
        → Keeps Sound (publish service m published)
    unfolding publish
    publish-Sound m published h = Keeps-bind _ _ (dispatch_message-Sound m) λ _.
        Keeps-bind _ _ clock_keeps λ t.
          Keeps-bind _ _ (save_if_status-AllSound service.outbox_repo _ _ (h t))
            λ updated. Keeps-pure _

    relay_one-Sound :
        (m : OutboxMessage) (published : ℕ)
        → Found OutboxStatus.pending m
        → Keeps Sound (relay_one service m published)
    unfolding relay_one
    relay_one-Sound m published h = Keeps-bind _ _ clock_keeps λ t.
        Keeps-bind _ _ (save-AllSound service.outbox_repo _ (processing-IsSound m t h)) λ _.
          Keeps-try _ _
            (publish-Sound (mark_processing m t) published (λ t'. published-IsSound m t t' h))
            (λ e. Keeps-pure published)

    relay_loop-Sound :
        (messages : List OutboxMessage) (published : ℕ)
        → All (Found OutboxStatus.pending) messages
        → Keeps Sound (relay_loop service messages published)
    unfolding relay_loop
    relay_loop-Sound [] published h = search keeps_rules
    relay_loop-Sound (m ∷ rest) published h =
        Keeps-bind _ _ (relay_one-Sound m published h.0) (λ n. relay_loop-Sound rest n h.1)

    recover_one-Sound :
        (m : OutboxMessage) (recovered : ℕ)
        → Found OutboxStatus.processing m
        → Keeps Sound (recover_one service m recovered)
    unfolding recover_one recover
    recover_one-Sound m recovered h =
        Keeps-try _ _
          (Keeps-bind _ _ clock_keeps λ t. Keeps-bind _ _ clock_keeps λ t'.
            Keeps-bind _ _
              (save_if_status-AllSound service.outbox_repo _ _ (settle-IsSound m t t' h))
              λ updated. Keeps-pure _)
          (λ e. Keeps-pure recovered)

    recover_loop-Sound :
        (zombies : List OutboxMessage) (recovered : ℕ)
        → All (Found OutboxStatus.processing) zombies
        → Keeps Sound (recover_loop service zombies recovered)
    unfolding recover_loop
    recover_loop-Sound [] recovered h = search keeps_rules
    recover_loop-Sound (m ∷ rest) recovered h =
        Keeps-bind _ _ (recover_one-Sound m recovered h.0) (λ n. recover_loop-Sound rest n h.1)

    find_by-then-Sound :
        (c : OutboxCriteria) (f : List OutboxMessage → Action S ℕ)
        → ((ms : List OutboxMessage) → All (Found c.status) ms → Keeps Sound (f ms))
        → Keeps Sound (service.outbox_repo.find_by c >>= f)
    find_by-then-Sound c f h =
        Keeps-bind_knowing (All (Found c.status)) _ f (find_by-AllSound service.outbox_repo c)
          (find_by-Found service.outbox_repo c) h

    pub relay-Sound : Keeps Sound (relay service)
    unfolding relay
    relay-Sound = find_by-then-Sound _ _ (λ ms h. relay_loop-Sound ms 0 h)

    pub recover_zombies-Sound : (minutes : ℕ) → Keeps Sound (recover_zombies service minutes)
    unfolding recover_zombies
    recover_zombies-Sound minutes = Keeps-bind _ _ clock_keeps λ t.
        Keeps-bind _ _ (Keeps-lift _)
          λ cutoff. find_by-then-Sound _ _ (λ ms h. recover_loop-Sound ms 0 h)
