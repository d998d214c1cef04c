-- ===== src/Domain/Ports.antt =====
-- app/domain/ports.py: the ports as records of operations on a state `S`, each with what its
-- documentation promises. The promises are what the services rely on, and what the adapters are
-- shown to keep.
use pipeline_server.Prelude.{
  ℕ, ◌≤◌, ◌<◌, String, ◌≡◌, ◌⊎◌, Bool, true, false, Option, some, none, List, All, length,
}
use pipeline_server.Result.{ok, err}
use pipeline_server.Domain.Errors.{Exc}
use pipeline_server.Effects.{Action}
use pipeline_server.Effects.Keeps.{OnOk}
use pipeline_server.Domain.Enums.{OutboxStatus}
use pipeline_server.Domain.Models.{
  OutboxCriteria, Rejection, RejectionCriteria, DataSearchCriteria, SearchResult,
}
use pipeline_server.Domain.Outbox.{OutboxMessage}
use pipeline_server.Domain.Task.{AnalyzeTask}
use pipeline_server.Python.{Datetime}

-- What is stored, if anything is, satisfies the predicate.
abbrev pub IfStored : (OutboxMessage → Type 0) → Option OutboxMessage → Type 0
IfStored P none = Unit
IfStored P (some m) = P m

pub record OutboxRepository (S : Type 0) : Type 1 where
  -- the stored message of an id, as a reader of the store sees it
  pub stored : S → String → Option OutboxMessage
  -- the store holds what this repository has written, and nothing else
  pub intact : S → Type 0
  pub save : OutboxMessage → Action S (Unit {0})
  pub save_if_status : OutboxMessage → OutboxStatus → Action S Bool
  pub find_by : OutboxCriteria → Action S (List OutboxMessage)
  pub save_intact : (m : OutboxMessage) (s : S) → intact s → intact (save m s).1
  pub save_if_status_intact :
      (m : OutboxMessage) (expected : OutboxStatus) (s : S)
      → intact s
      → intact (save_if_status m expected s).1
  pub find_by_intact : (c : OutboxCriteria) (s : S) → intact s → intact (find_by c s).1
  -- a save that returns has stored the message
  pub save_ok :
      (m : OutboxMessage) (s : S) → (save m s).0 ≡ ok tt → stored (save m s).1 m.message_id ≡ some m
  -- whether it returns or raises, it has written that message or nothing
  pub save_writes :
      (m : OutboxMessage) (s : S) (k : String)
      → (stored (save m s).1 k ≡ stored s k)
        ⊎ ((m.message_id ≡ k) × (stored (save m s).1 k ≡ some m))
  pub save_if_status_true :
      (m : OutboxMessage) (expected : OutboxStatus) (s : S)
      → (save_if_status m expected s).0 ≡ ok true
      → stored (save_if_status m expected s).1 m.message_id ≡ some m
  pub save_if_status_false :
      (m : OutboxMessage) (expected : OutboxStatus) (s : S)
      → (save_if_status m expected s).0 ≡ ok false
      → stored (save_if_status m expected s).1 m.message_id ≡ stored s m.message_id
  -- what is overwritten had the expected status
  pub save_if_status_writes :
      (m : OutboxMessage) (expected : OutboxStatus) (s : S) (k : String)
      → intact s
      → (stored (save_if_status m expected s).1 k ≡ stored s k)
        ⊎ ((m.message_id ≡ k)
            × IfStored (λ n. n.status ≡ expected) (stored s k)
            × (stored (save_if_status m expected s).1 k ≡ some m))
  pub find_by_reads :
      (c : OutboxCriteria) (s : S) (k : String) → stored (find_by c s).1 k ≡ stored s k
  pub find_by_found :
      (c : OutboxCriteria) (s : S)
      → intact s
      → OnOk (All (λ m. (stored s m.message_id ≡ some m) × (m.status ≡ c.status))) (find_by c s).0
  -- a limit of 0 is no limit
  pub find_by_limit :
      (c : OutboxCriteria) (s : S)
      → intact s
      → 0 < c.limit
      → OnOk (λ ms. length ms ≤ c.limit) (find_by c s).0

pub record TaskRepository (S : Type 0) : Type 0 where
  -- the stored task of an id, as a reader of the store sees it
  pub stored : S → String → Option AnalyzeTask
  pub save : AnalyzeTask → Action S (Unit {0})
  pub find_by_id : String → Action S (Option AnalyzeTask)
  -- a save that returns has stored the task, in the place of what was there
  pub save_ok :
      (task : AnalyzeTask) (s : S)
      → (save task s).0 ≡ ok tt
      → stored (save task s).1 task.task_id ≡ some task

-- `search` returns the items of the page and the number of all that match.
pub record RejectionRepository (S : Type 0) : Type 0 where
  pub save_all : List Rejection → Action S (Unit {0})
  pub search : RejectionCriteria → Action S (List Rejection × ℕ)

pub record DataSearchRepository (S F : Type 0) : Type 0 where
  pub search : DataSearchCriteria F → Action S (List (SearchResult F) × ℕ)

pub record TaskDispatcher (S : Type 0) : Type 0 where
  pub dispatch : String → Action S (Unit {0})

-- `execute` runs the statements as one transaction: what a reader of the store sees (`view`) is what
-- they have written if it returns, and as it was if it raises. The value is that of the statements,
-- which the closure of the source leaves in a variable.
pub record TransactionManager (S : Type 0) : Type 1 where
  pub View : Type 0
  pub view : S → View
  pub execute : (A : Type 0) → Action S A → Action S A
  pub commits :
      (A : Type 0) (fn : Action S A) (s u : S) (a : A)
      → execute A fn s ≡ (ok a, u)
      → (t : S) × (t' : S) × (view t ≡ view s) × (fn t ≡ (ok a, t')) × (view u ≡ view t')
  pub rolls_back :
      (A : Type 0) (fn : Action S A) (s u : S) (e : Exc)
      → execute A fn s ≡ (err e, u)
      → view u ≡ view s

pub record IdGenerator (S : Type 0) : Type 0 where
  pub generate : Action S String

-- `datetime.now()`
pub record Clock (S : Type 0) : Type 0 where
  pub read : S → Datetime × S

unfoldable pub now : {S : Type 0} → Clock S → Action S Datetime
now clock s = let (t, after) = clock.read s in (ok t, after)

-- A call that leaves the outbox as it is.
pub record LeavesOutbox {S A : Type 0} (repo : OutboxRepository S) (m : S → A × S) : Type 0 where
  pub same : (s : S) (k : String) → repo.stored (m s).1 k ≡ repo.stored s k
  pub still_intact : (s : S) → repo.intact s → repo.intact (m s).1
