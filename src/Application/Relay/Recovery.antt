-- ===== src/Application/Relay/Recovery.antt =====
-- What the recovery of zombies does to the messages of the outbox.
use pipeline_server.Prelude.{
  ℕ, zero, suc, ◌+◌, String, ◌≡◌, ◌≢◌, ◌∙◌, subst, inl, inr, some, List, [], ◌∷◌, arith, ltb,
  if◌then◌else◌,
}
use pipeline_server.Effects.Keeps.{Keeps, Keeps-pure, Keeps-lift, Keeps-try, Keeps-bind}
use pipeline_server.Domain.Enums.{OutboxStatus}
use pipeline_server.Domain.Models.{OutboxCriteria}
use pipeline_server.Domain.Outbox.{OutboxMessage, mark_processing, with_retry_incremented}
use pipeline_server.Domain.Ports.{now, IfStored, LeavesOutbox}
use pipeline_server.Application.Relay.{
  OutboxRelayService, settle, recover, recover_one, recover_loop, recover_zombies,
}
use pipeline_server.Python.{Datetime}

module _ {S : Type 0} (service : OutboxRelayService S)
    (clock_reads : LeavesOutbox service.outbox_repo service.clock.read) (k : String)
    (n : OutboxMessage) (settled : n.status ≢ OutboxStatus.processing) where
  open service use {outbox_repo as repo, clock}

  abbrev Stays : S → Type 0
  Stays s = repo.intact s × (repo.stored s k ≡ some n)

  now-Stays : Keeps Stays (now clock)
  unfolding now
  now-Stays = record { at = λ s h. (clock_reads.still_intact s h.0, clock_reads.same s k ∙ h.1) }

  find_by-Stays : (c : OutboxCriteria) → Keeps Stays (repo.find_by c)
  find_by-Stays c = record {
    at = λ s h. (repo.find_by_intact c s h.0, repo.find_by_reads c s k ∙ h.1);
  }

  save_if_status-Stays :
      (m : OutboxMessage) → Keeps Stays (repo.save_if_status m OutboxStatus.processing)
  save_if_status-Stays m = record {
    at = λ s h. (
      repo.save_if_status_intact m OutboxStatus.processing s h.0,
      elim (repo.save_if_status_writes m OutboxStatus.processing s k h.0) [
        | inl e ↦ e ∙ h.1
        | inr (_, was, _) ↦
            absurd (settled (subst (IfStored (λ x. x.status ≡ OutboxStatus.processing)) h.1 was))
      ],
    );
  }

  recover_one-Stays : (m : OutboxMessage) (count : ℕ) → Keeps Stays (recover_one service m count)
  unfolding recover_one recover
  recover_one-Stays m count =
      Keeps-try _ _
        (Keeps-bind _ _ now-Stays λ t.
          Keeps-bind _ _ now-Stays
            λ t'. Keeps-bind _ _ (save_if_status-Stays _) (λ updated. Keeps-pure _))
        (λ e. Keeps-pure count)

  recover_loop-Stays :
      (zombies : List OutboxMessage) (count : ℕ) → Keeps Stays (recover_loop service zombies count)
  unfolding recover_loop
  recover_loop-Stays [] count = Keeps-pure count
  recover_loop-Stays (m ∷ rest) count =
      Keeps-bind _ _ (recover_one-Stays m count) (λ count'. recover_loop-Stays rest count')

  recover_zombies-Stays : (minutes : ℕ) → Keeps Stays (recover_zombies service minutes)
  unfolding recover_zombies
  recover_zombies-Stays minutes = Keeps-bind _ _ now-Stays λ t.
      Keeps-bind _ _ (Keeps-lift _)
        λ cutoff. Keeps-bind _ _ (find_by-Stays _) (λ zombies. recover_loop-Stays zombies 0)

-- Over an intact store and a clock that leaves the outbox alone, the recovery leaves every stored
-- message that is not PROCESSING as it is, whatever the recovery has read and whatever fails on
-- the way.
pub recover_zombies-stored :
    {S : Type 0} (service : OutboxRelayService S)
    (clock_reads : LeavesOutbox service.outbox_repo service.clock.read) (minutes : ℕ) (k : String)
    (n : OutboxMessage) (s : S)
    → n.status ≢ OutboxStatus.processing
    → service.outbox_repo.intact s
    → service.outbox_repo.stored s k ≡ some n
    → service.outbox_repo.stored (recover_zombies service minutes s).1 k ≡ some n
recover_zombies-stored service clock_reads minutes k n s settled h e =
    ((recover_zombies-Stays service clock_reads k n settled minutes).at s (h, e)).1

-- What becomes of a message that is published `n` times without an end and recovered each time, at
-- the times `t` and `t'` of the clock.
abbrev pub rounds :
    {S : Type 0} → OutboxRelayService S → ℕ → OutboxMessage → Datetime → Datetime → OutboxMessage
rounds service zero m t t' = m
rounds service (suc n) m t t' =
    settle service (with_retry_incremented (mark_processing (rounds service n m t t') t) t) t'

rounds-counts :
    {S : Type 0} (service : OutboxRelayService S) (n : ℕ) (m : OutboxMessage) (t t' : Datetime)
    → ((rounds service n m t t').retry_count ≡ m.retry_count + n)
      × ((rounds service n m t t').max_retries ≡ m.max_retries)
unfolding settle with_retry_incremented mark_processing
rounds-counts service zero m t t' = omega arith
rounds-counts service (suc n) m t t' = ground (arith, rounds-counts service n m t t')

-- After `n + 1` rounds, a message is PENDING if its first number of retries and `n + 1` more stay
-- below its limit, and FAILED otherwise.
pub rounds-status :
    {S : Type 0} (service : OutboxRelayService S) (n : ℕ) (m : OutboxMessage) (t t' : Datetime)
    → (rounds service (suc n) m t t').status ≡ (
        if ltb (m.retry_count + suc n) m.max_retries
        then OutboxStatus.pending
        else OutboxStatus.failed)
unfolding settle with_retry_incremented mark_processing
rounds-status service n m t t' = ground (arith, rounds-counts service n m t t')
