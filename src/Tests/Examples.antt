-- ===== src/Tests/Examples.antt =====
-- Runs of the program in the small world, and the theorems applied to them.
use pipeline_server.Prelude.{
  ◌≤◌, String, ◌≡◌, ◌≢◌, refl, Bool, true, false, some, none, [], ◌∷◌, arith,
}
use pipeline_server.Prelude.Int.{ℤ}
use pipeline_server.Result.{ok, err}
use pipeline_server.Domain.Errors.{external}
use pipeline_server.Effects.{◌>>=◌}
use pipeline_server.Effects.Keeps.{OnOk, Keeps}
use pipeline_server.Domain.Enums.{OutboxStatus, published, completed, auto_labeling}
use pipeline_server.Domain.Outbox.{
  OutboxMessage, create_analyze_event, mark_processing, mark_published, payload_item,
}
use pipeline_server.Domain.Task.{AnalyzeTask}
use pipeline_server.Domain.Ports.{OutboxRepository, LeavesOutbox, now}
use pipeline_server.Application.Relay.{OutboxRelayService, relay, relay_one, recover_zombies}
use pipeline_server.Application.Relay.Counts.{relay-le_fetch_limit}
use pipeline_server.Application.Relay.Recovery.{recover_zombies-stored, rounds, rounds-status}
use pipeline_server.Application.Relay.Delivery.{
  IsAnalysis, saved, dispatched, closed, relay_one-undelivered, relay_one-delivered,
}
use pipeline_server.Application.Relay.Reach.{Reaches-Sound, begin, relayed, recovered, submitted}
use pipeline_server.Application.Relay.Sound.{Sound}
use pipeline_server.Mongo.Tasks.{save_task, find_task, find_task-save_task}
use pipeline_server.Mongo.Driver.{id_of}
use pipeline_server.Mongo.Outbox.{status_is}
use pipeline_server.Mongo.Outbox.Exclusive.{save_if_status-exclusive}
use pipeline_server.Mongo.Outbox.Contract.{mongo_outbox}
use pipeline_server.Mongo.Mappers.{write_message, read_message, write_task, read_task}
use pipeline_server.Mongo.Mappers.RoundTrip.{read_message-write_message, read_task-write_task}
use pipeline_server.Tests.World.{hundredths_runtime, World, collection, clock, dispatcher}

abbrev event : OutboxMessage
event = record {
  message_id = "m1";
  message_type = "ANALYZE";
  payload = ("task_id", "t1") ∷ [];
  status = OutboxStatus.pending;
  retry_count = 0;
  max_retries = 3;
  created_at = some 7;
  updated_at = none;
}

abbrev zombie : OutboxMessage
zombie = record event { status = OutboxStatus.processing; retry_count = 1; updated_at = some 9 }

abbrev done_task : AnalyzeTask
done_task = record {
  task_id = "t1";
  status = completed;
  selection_progress = record { total = 5; processed = 4; rejected = 1 };
  odd_tagging_progress = record { total = 6; processed = 6; rejected = 0 };
  auto_labeling_progress = record { total = 7; processed = 2; rejected = 5 };
  last_completed_phase = some auto_labeling;
  result = some (record {
    selection = record { total = 5; loaded = 4; rejected = 1 };
    odd_tagging = record { total = 6; loaded = 6; rejected = 0 };
    auto_labeling = record { total = 7; loaded = 2; rejected = 5 };
    fully_linked = 2;
    partial = 2;
  });
  error = none;
  created_at = some 3;
  completed_at = some 8;
}

read_message-write_message_example :
    read_message ⦃py = hundredths_runtime⦄ (write_message ⦃py = hundredths_runtime⦄ zombie) 11
    ≡ ok zombie
read_message-write_message_example =
    read_message-write_message ℤ ⦃py = hundredths_runtime⦄ zombie 11

read_task-write_task_example :
    read_task ⦃py = hundredths_runtime⦄ (write_task ⦃py = hundredths_runtime⦄ done_task)
    ≡ ok done_task
read_task-write_task_example = read_task-write_task ℤ ⦃py = hundredths_runtime⦄ done_task

abbrev repo : OutboxRepository World
repo = mongo_outbox ⦃py = hundredths_runtime⦄ collection clock (λ s k. refl)

abbrev service : OutboxRelayService World
service = record {
  outbox_repo = repo;
  task_dispatcher = dispatcher;
  fetch_limit = 10;
  clock = clock;
}

abbrev empty_world : Bool → World
empty_world up = record { slot = none; time = 600000; sent = []; broker_up = up }

abbrev with_message : OutboxMessage → Bool → World
with_message m up = (repo.save m (empty_world up)).1

empty-Intact : (up : Bool) → repo.intact (empty_world up)
unfolding mongo_outbox
empty-Intact up = λ k. tt

with_message-Intact : (m : OutboxMessage) (up : Bool) → repo.intact (with_message m up)
with_message-Intact m up = repo.save_intact m (empty_world up) (empty-Intact up)

relay-le_fetch_limit_example : OnOk (λ n. n ≤ 10) (relay service (with_message event true)).0
relay-le_fetch_limit_example =
    relay-le_fetch_limit service (with_message event true) (with_message-Intact event true)
      (omega arith)

leaves_clock : LeavesOutbox repo clock.read
unfolding mongo_outbox
leaves_clock = record { same = λ s k. refl; still_intact = λ s h. h }

with_event-stored : repo.stored (with_message event true) "m1" ≡ some event
unfolding mongo_outbox pipeline_server.Mongo.Outbox.save ◌>>=◌ id_of write_message
with_event-stored = repo.save_ok event (empty_world true) refl

recover_zombies-stored_example :
    repo.stored (recover_zombies service 5 (with_message event true)).1 "m1" ≡ some event
recover_zombies-stored_example =
    recover_zombies-stored service leaves_clock 5 "m1" event (with_message event true) (λ e. cc)
      (with_message-Intact event true) with_event-stored

rounds-status_example : (rounds service 3 event 20 30).status ≡ OutboxStatus.failed
rounds-status_example = rounds-status service 2 event 20 30

event-IsAnalysis : (s : World) → IsAnalysis service event "t1" s
unfolding payload_item
event-IsAnalysis s = record { type = refl; payload = refl }

abbrev down : World
down = with_message event false

abbrev up : World
up = with_message event true

leaves_dispatch : LeavesOutbox repo (dispatcher.dispatch "t1")
unfolding mongo_outbox
leaves_dispatch = record { same = λ s k. ground arith; still_intact = λ s h k. ground (arith, h k) }

down-saved : (saved service event "t1" down).0 ≡ ok tt
unfolding mongo_outbox pipeline_server.Mongo.Outbox.save pipeline_server.Mongo.Outbox.save_if_status
    ◌>>=◌ id_of write_message mark_processing mark_published status_is
down-saved = refl

down-dispatched : (dispatched service event "t1" down).0 ≡ err (external "broker is down")
unfolding mongo_outbox pipeline_server.Mongo.Outbox.save pipeline_server.Mongo.Outbox.save_if_status
    ◌>>=◌ id_of write_message mark_processing mark_published status_is
down-dispatched = refl

relay_one-undelivered_example :
    ((relay_one service event 4 down).0 ≡ ok 4)
    × (repo.stored (relay_one service event 4 down).1 event.message_id
        ≡ some (mark_processing event (clock.read down).0))
relay_one-undelivered_example =
    relay_one-undelivered service event "t1" down 4 (external "broker is down")
      (event-IsAnalysis down) leaves_dispatch down-saved down-dispatched

up-saved : (saved service event "t1" up).0 ≡ ok tt
unfolding mongo_outbox pipeline_server.Mongo.Outbox.save pipeline_server.Mongo.Outbox.save_if_status
    ◌>>=◌ id_of write_message mark_processing mark_published status_is
up-saved = refl

up-dispatched : (dispatched service event "t1" up).0 ≡ ok tt
unfolding mongo_outbox pipeline_server.Mongo.Outbox.save pipeline_server.Mongo.Outbox.save_if_status
    ◌>>=◌ id_of write_message mark_processing mark_published status_is
up-dispatched = refl

up-closed : (closed service event "t1" up).0 ≡ ok true
unfolding mongo_outbox pipeline_server.Mongo.Outbox.save pipeline_server.Mongo.Outbox.save_if_status
    ◌>>=◌ id_of write_message mark_processing mark_published status_is
up-closed = refl

relay_one-delivered_example :
    ((relay_one service event 4 up).0 ≡ ok 5)
    × (m : OutboxMessage) × (repo.stored (relay_one service event 4 up).1 event.message_id ≡ some m)
    × (m.status ≡ published)
relay_one-delivered_example =
    relay_one-delivered service event "t1" up 4 (event-IsAnalysis up) up-saved up-dispatched
      up-closed

clock-Keeps : Keeps (Sound service) (now service.clock)
unfolding mongo_outbox now
clock-Keeps = record { at = λ s h. h }

dispatch-Keeps : (task_id : String) → Keeps (Sound service) (dispatcher.dispatch task_id)
unfolding mongo_outbox
dispatch-Keeps task_id = record {
  at = λ s h. (λ k. ground (arith, h.0 k), λ k. ground (arith, h.1 k));
}

empty-Sound : Sound service (empty_world true)
unfolding mongo_outbox
empty-Sound = (λ k. tt, λ k. tt)

-- A submission, a relay, and a recovery.
Reaches-Sound_example :
    Sound service
      (recover_zombies service 5
        (relay service
          (service.outbox_repo.save (create_analyze_event "m1" "t1" 3) (empty_world true)).1).1).1
Reaches-Sound_example =
    Reaches-Sound service (empty_world true) _ clock-Keeps dispatch-Keeps empty-Sound
      (recovered 5 _ (relayed _ (submitted "m1" "t1" 3 _ begin)))

-- Two workers close the same message after its publication: the second is told that it is late.
abbrev closed_message : OutboxMessage
closed_message = record zombie { status = published }

abbrev reopened_message : OutboxMessage
reopened_message = record zombie { status = OutboxStatus.pending; retry_count = 2 }

abbrev shared_world : World
shared_world = with_message zombie true

first-closes :
    (pipeline_server.Mongo.Outbox.save_if_status ⦃py = hundredths_runtime⦄ collection clock
      closed_message OutboxStatus.processing shared_world).0
    ≡ ok true
unfolding mongo_outbox pipeline_server.Mongo.Outbox.save pipeline_server.Mongo.Outbox.save_if_status
    ◌>>=◌ id_of write_message status_is
first-closes = refl

shared-Intact :
    pipeline_server.Mongo.Outbox.Written.Intact ⦃py = hundredths_runtime⦄ collection shared_world
unfolding mongo_outbox
shared-Intact = with_message-Intact zombie true

save_if_status-exclusive_example :
    (pipeline_server.Mongo.Outbox.save_if_status ⦃py = hundredths_runtime⦄ collection clock
      reopened_message OutboxStatus.processing
      (pipeline_server.Mongo.Outbox.save_if_status ⦃py = hundredths_runtime⦄ collection clock
        closed_message OutboxStatus.processing shared_world).1).0
    ≢ ok true
save_if_status-exclusive_example =
    save_if_status-exclusive ⦃py = hundredths_runtime⦄ collection clock closed_message
      reopened_message OutboxStatus.processing shared_world shared-Intact refl (λ e. cc) (λ e. cc)
      first-closes

task-saved : (save_task ⦃py = hundredths_runtime⦄ collection done_task (empty_world true)).0 ≡ ok tt
unfolding save_task ◌>>=◌ id_of write_task
task-saved = refl

find_task-save_task_example :
    OnOk
      (λ found. found ≡ some done_task)
      (find_task ⦃py = hundredths_runtime⦄ collection "t1"
        (save_task ⦃py = hundredths_runtime⦄ collection done_task (empty_world true)).1).0
find_task-save_task_example =
    find_task-save_task ⦃py = hundredths_runtime⦄ collection done_task (empty_world true) task-saved
