-- ===== src/Application/Relay.antt =====
-- app/application/outbox_relay_service.py: publishing the pending messages of the outbox, and
-- recovering those whose publication was never finished.
pub mod Sound
pub mod Delivery
pub mod Recovery
pub mod Counts
pub mod Reach
use pipeline_server.Prelude.{
  ℕ, ◌+◌, ◌-◌, ◌*◌, String, Bool, true, false, Option, some, none, List, [], ◌∷◌, str_eq, ltb,
  if◌then◌else◌,
}
use pipeline_server.Result.{Result, ok, err, or_raise}
use pipeline_server.Effects.{Action, pure, lift, try_except, ◌>>=◌, ◌>>◌}
use pipeline_server.Domain.Errors.{builtin, key_error, overflow_error}
use pipeline_server.Domain.Enums.{OutboxStatus}
use pipeline_server.Domain.Models.{OutboxCriteria}
use pipeline_server.Domain.Outbox.{
  OutboxMessage, payload_item, is_retriable, mark_processing, mark_published, mark_failed,
  back_to_pending, with_retry_incremented,
}
use pipeline_server.Domain.Ports.{OutboxRepository, TaskDispatcher, Clock, now}
use pipeline_server.Python.{Datetime}

abbrev pub default_fetch_limit : ℕ
default_fetch_limit = 10

abbrev pub default_zombie_threshold_minutes : ℕ
default_zombie_threshold_minutes = 5

abbrev pub default_zombie_limit : ℕ
default_zombie_limit = 50

-- `t - timedelta(minutes=m)`, which overflows below `datetime.min`
unfoldable pub minus_minutes : Datetime → ℕ → Result Datetime
minus_minutes t m =
    if ltb t (m * 60000)
    then err (builtin overflow_error "date value out of range")
    else ok (t - m * 60000)

pub record OutboxRelayService (S : Type 0) : Type 1 where
  pub outbox_repo : OutboxRepository S
  pub task_dispatcher : TaskDispatcher S
  pub fetch_limit : ℕ
  pub clock : Clock S

module _ {S : Type 0} (service : OutboxRelayService S) where
  open service use {outbox_repo as repo, task_dispatcher as dispatcher, fetch_limit, clock}

  -- `if msg.message_type == "ANALYZE": dispatch(msg.payload["task_id"])`
  unfoldable pub dispatch_message : OutboxMessage → Action S (Unit {0})
  dispatch_message msg =
      if str_eq msg.message_type "ANALYZE"
      then (do
        task_id ←
            lift (or_raise (payload_item msg.payload "task_id") (builtin key_error "'task_id'"))
        dispatcher.dispatch task_id)
      else pure tt

  -- the body of the `try` of `relay`
  unfoldable pub publish : OutboxMessage → ℕ → Action S ℕ
  unfolding mark_published
  publish msg published = do
    dispatch_message msg
    t ← now clock
    updated ← repo.save_if_status (mark_published msg t) OutboxStatus.processing
    pure (if updated then published + 1 else published)

  -- the body of the loop of `relay`; an exception of the first save ends the loop
  unfoldable pub relay_one : OutboxMessage → ℕ → Action S ℕ
  unfolding mark_processing
  relay_one msg published = do
    t ← now clock
    repo.save (mark_processing msg t)
    try_except (publish (mark_processing msg t) published) (λ e. pure published)

  unfoldable pub relay_loop : List OutboxMessage → ℕ → Action S ℕ
  relay_loop [] published = pure published
  relay_loop (msg ∷ rest) published = do
    published' ← relay_one msg published
    relay_loop rest published'

  unfoldable pub relay : Action S ℕ
  relay = do
    messages ←
        repo.find_by (record { status = OutboxStatus.pending; before = none; limit = fetch_limit })
    relay_loop messages 0

  -- `msg` once its retry count is incremented: back to PENDING, or FAILED
  unfoldable pub settle : OutboxMessage → Datetime → OutboxMessage
  unfolding is_retriable back_to_pending mark_failed
  settle msg t = if is_retriable msg then back_to_pending msg t else mark_failed msg t

  -- the body of the `try` of `recover_zombies`
  unfoldable pub recover : OutboxMessage → ℕ → Action S ℕ
  unfolding with_retry_incremented settle
  recover msg recovered = do
    t ← now clock
    t' ← now clock
    updated ← repo.save_if_status (settle (with_retry_incremented msg t) t') OutboxStatus.processing
    pure (if updated then recovered + 1 else recovered)

  unfoldable pub recover_one : OutboxMessage → ℕ → Action S ℕ
  recover_one msg recovered = try_except (recover msg recovered) (λ e. pure recovered)

  unfoldable pub recover_loop : List OutboxMessage → ℕ → Action S ℕ
  recover_loop [] recovered = pure recovered
  recover_loop (msg ∷ rest) recovered = do
    recovered' ← recover_one msg recovered
    recover_loop rest recovered'

  unfoldable pub recover_zombies : ℕ → Action S ℕ
  recover_zombies threshold_minutes = do
    t ← now clock
    cutoff ← lift (minus_minutes t threshold_minutes)
    zombies ← repo.find_by (record {
      status = OutboxStatus.processing;
      before = some cutoff;
      limit = default_zombie_limit;
    })
    recover_loop zombies 0
