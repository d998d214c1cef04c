-- ===== src/Application/Relay/Delivery.antt =====
-- What the relay does with one message, by what the dispatch and the last save answer.
use pipeline_server.Prelude.{
  ℕ, ◌+◌, String, ◌≡◌, ◌∙◌, refl, ap, Bool, true, some, eq_iff, if◌then◌else◌,
}
use pipeline_server.Result.{Result, ok, err}
use pipeline_server.Domain.Errors.{Exc}
use pipeline_server.Effects.{Action, pure, try_except, ◌>>=◌}
use pipeline_server.Effects.Results.{bind-to_ok, bind-to_err, try-to_ok, try-to_err, run-parts}
use pipeline_server.Domain.Enums.{OutboxStatus, published}
use pipeline_server.Domain.Outbox.{OutboxMessage, payload_item, mark_processing, mark_published}
use pipeline_server.Domain.Ports.{Clock, now, LeavesOutbox}
use pipeline_server.Application.Relay.{OutboxRelayService, dispatch_message, publish, relay_one}
use pipeline_server.Python.{Datetime}

bind-now :
    {S A : Type 0} (clock : Clock S) (f : Datetime → Action S A) (s : S)
    → (now clock >>= f) s ≡ f (clock.read s).0 (clock.read s).1
unfolding now ◌>>=◌
bind-now clock f s = refl

pure-run : {S A : Type 0} (a : A) (s : S) → pure {S = S} a s ≡ (ok a, s)
unfolding pure
pure-run a s = refl

-- An analysis message as the relay meets it, and the states that it goes through until the
-- dispatch has answered.
module _ {S : Type 0} (service : OutboxRelayService S) (msg : OutboxMessage) (task_id : String)
    (s : S) where
  open service use {outbox_repo as repo, task_dispatcher as dispatcher, clock}

  pub record IsAnalysis : Type 0 where
    pub type : msg.message_type ≡ "ANALYZE"
    pub payload : payload_item msg.payload "task_id" ≡ some task_id

  abbrev pub marked : OutboxMessage
  marked = mark_processing msg (clock.read s).0

  abbrev pub saved : Result (Unit {0}) × S
  saved = repo.save marked (clock.read s).1

  abbrev pub dispatched : Result (Unit {0}) × S
  dispatched = dispatcher.dispatch task_id saved.1

  abbrev pub finished : OutboxMessage
  finished = mark_published marked (clock.read dispatched.1).0

  abbrev pub closed : Result Bool × S
  closed = repo.save_if_status finished OutboxStatus.processing (clock.read dispatched.1).1

  dispatch_message-of_analysis :
      (m : OutboxMessage) (t : S)
      → m.message_type ≡ "ANALYZE"
      → payload_item m.payload "task_id" ≡ some task_id
      → dispatch_message service m t ≡ dispatcher.dispatch task_id t
  unfolding dispatch_message ◌>>=◌
  dispatch_message-of_analysis m t e h =
      let yes_type = (eq_iff m.message_type "ANALYZE").1 e in rw (yes_type, h)

  dispatch-marked :
      (r : Result (Unit {0}))
      → IsAnalysis
      → dispatched.0 ≡ r
      → dispatch_message service marked saved.1 ≡ (r, dispatched.1)
  unfolding mark_processing
  dispatch-marked r a q =
      dispatch_message-of_analysis marked saved.1 a.type a.payload ∙ run-parts dispatched q

  -- The first statements of `relay_one`, up to the `try`.
  relay_one-tries :
      (n : ℕ)
      → saved.0 ≡ ok tt
      → relay_one service msg n s ≡ try_except (publish service marked n) (λ e. pure n) saved.1
  unfolding relay_one
  relay_one-tries n p =
      bind-now clock _ s ∙ bind-to_ok (repo.save marked) _ (clock.read s).1 (run-parts saved p)

  publish-done :
      (n : ℕ) (updated : Bool)
      → IsAnalysis
      → dispatched.0 ≡ ok tt
      → closed.0 ≡ ok updated
      → publish service marked n saved.1 ≡ (ok (if updated then n + 1 else n), closed.1)
  unfolding publish
  publish-done n updated a q c =
      bind-to_ok (dispatch_message service marked) _ saved.1 (dispatch-marked (ok tt) a q)
      ∙ bind-now clock _ dispatched.1
      ∙ bind-to_ok (repo.save_if_status finished OutboxStatus.processing) _
          (clock.read dispatched.1).1 (run-parts closed c)
      ∙ pure-run _ closed.1

  pub relay_one-failing :
      (n : ℕ) (e : Exc)
      → IsAnalysis
      → saved.0 ≡ ok tt
      → dispatched.0 ≡ err e
      → relay_one service msg n s ≡ (ok n, dispatched.1)
  unfolding publish
  relay_one-failing n e a p q =
      relay_one-tries n p
      ∙ try-to_err _ _ saved.1
          (bind-to_err (dispatch_message service marked) _ saved.1 (dispatch-marked (err e) a q))
      ∙ pure-run n dispatched.1

  pub relay_one-done :
      (n : ℕ) (updated : Bool)
      → IsAnalysis
      → saved.0 ≡ ok tt
      → dispatched.0 ≡ ok tt
      → closed.0 ≡ ok updated
      → relay_one service msg n s ≡ (ok (if updated then n + 1 else n), closed.1)
  relay_one-done n updated a p q c =
      relay_one-tries n p ∙ try-to_ok _ _ saved.1 (publish-done n updated a q c)

-- For an analysis message whose first save returns, a dispatch that raises is not counted and leaves
-- the message stored as PROCESSING, where the dispatcher itself leaves the outbox alone.
pub relay_one-undelivered :
    {S : Type 0} (service : OutboxRelayService S) (msg : OutboxMessage) (task_id : String) (s : S)
    (n : ℕ) (e : Exc)
    → IsAnalysis service msg task_id s
    → LeavesOutbox service.outbox_repo (service.task_dispatcher.dispatch task_id)
    → (saved service msg task_id s).0 ≡ ok tt
    → (dispatched service msg task_id s).0 ≡ err e
    → ((relay_one service msg n s).0 ≡ ok n)
      × (service.outbox_repo.stored (relay_one service msg n s).1 msg.message_id
          ≡ some (mark_processing msg (service.clock.read s).0))
unfolding mark_processing
relay_one-undelivered service msg task_id s n e a leaves p q =
    let run = relay_one-failing service msg task_id s n e a p q in
    (
      ap (λ r. r.0) run,
      ap (λ r. service.outbox_repo.stored r.1 msg.message_id) run
          ∙ leaves.same (saved service msg task_id s).1 msg.message_id
          ∙ service.outbox_repo.save_ok (marked service msg task_id s) (service.clock.read s).1 p,
    )

-- For an analysis message whose first save and dispatch return, a last save that finds the message
-- still PROCESSING has the message counted, and stored as PUBLISHED.
pub relay_one-delivered :
    {S : Type 0} (service : OutboxRelayService S) (msg : OutboxMessage) (task_id : String) (s : S)
    (n : ℕ)
    → IsAnalysis service msg task_id s
    → (saved service msg task_id s).0 ≡ ok tt
    → (dispatched service msg task_id s).0 ≡ ok tt
    → (closed service msg task_id s).0 ≡ ok true
    → ((relay_one service msg n s).0 ≡ ok (n + 1))
      × (published_message : OutboxMessage) × (service.outbox_repo.stored
            (relay_one service msg n s).1
            msg.message_id
          ≡ some published_message)
      × (published_message.status ≡ published)
unfolding mark_processing mark_published
relay_one-delivered service msg task_id s n a p q c =
    let run = relay_one-done service msg task_id s n true a p q c in
    (
      ap (λ r. r.0) run,
      finished service msg task_id s,
      ap (λ r. service.outbox_repo.stored r.1 msg.message_id) run
          ∙ service.outbox_repo.save_if_status_true (finished service msg task_id s)
              OutboxStatus.processing _ c,
      refl,
    )
