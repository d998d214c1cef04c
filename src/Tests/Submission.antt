-- ===== src/Tests/Submission.antt =====
-- The theorems on the submission of an analysis, at a desk with room for one task and one message.
use pipeline_server.Prelude.{
  ℕ, ◌+◌, String, ◌≡◌, ◌≢◌, refl, sym, ap, ◌∙◌, true, ◌⊎◌, inr, Option, some, none, [], ◌∷◌, length,
  str_eq, if◌then◌else◌,
}
use pipeline_server.Prelude.Int.{ℤ}
use pipeline_server.Result.{Result, ok, err}
use pipeline_server.Effects.{Action, pure, ◌>>=◌}
use pipeline_server.Effects.Keeps.{Keeps}
use pipeline_server.Domain.Errors.{Exc, external}
use pipeline_server.Python.{Runtime}
use pipeline_server.Domain.Outbox.{OutboxMessage}
use pipeline_server.Domain.Ports.{TransactionManager}
use pipeline_server.Domain.Task.{AnalyzeTask, create_new, is_active}
use pipeline_server.Application.Ingestion.{DataIngestor}
use pipeline_server.Application.Analysis.{AnalysisService}
use pipeline_server.Mongo.Driver.{id_of}
use pipeline_server.Mongo.Mappers.{write_task}
use pipeline_server.Mongo.Tasks.{create_if_not_active}
use pipeline_server.Mongo.Tasks.Active.{
  OneActive, create_if_not_active-OneActive, create_if_not_active-conflict,
}
use pipeline_server.Mongo.Transaction.{Client, ClientLaws, in_current, execute}
use pipeline_server.Mongo.Transaction.Atomic.{
  Confined, Confined-in_current, Confined-bind, LostAnswer, execute-rolls_back,
}
use pipeline_server.Tests.World.{clock, World, collection, document_in, hundredths_runtime}

instance abbrev runtime : Runtime ℤ
runtime = hundredths_runtime

abbrev first_task : AnalyzeTask
first_task = create_new "t1" 3 4 5 7

abbrev second_task : AnalyzeTask
second_task = create_new "t2" 3 4 5 9

abbrev busy : World
busy = record { slot = some (write_task first_task); time = 5; sent = []; broker_up = true }

create_if_not_active-OneActive_example :
    Keeps (OneActive collection) (create_if_not_active collection second_task)
create_if_not_active-OneActive_example = create_if_not_active-OneActive collection second_task

create_if_not_active-conflict_example :
    ((create_if_not_active collection second_task busy).0 ≢ ok tt)
    × ((l : String)
        → document_in (create_if_not_active collection second_task busy).1.slot l
          ≡ document_in busy.slot l)
unfolding create_new write_task id_of is_active
create_if_not_active-conflict_example =
    create_if_not_active-conflict collection second_task busy "t1" first_task refl refl

record Desk : Type 0 where
  task : Option AnalyzeTask
  message : Option OutboxMessage
  time : ℕ

abbrev Seen : Type 0
Seen = Option AnalyzeTask × Option OutboxMessage

abbrev desk : Desk
desk = record { task = none; message = none; time = 5 }

-- A transaction that puts back what was seen when it began, where its body raises.
module _ {S V A : Type 0} (view : S → V) (put : V → S → S)
    (put_view : (v : V) (s : S) → view (put v s) ≡ v) where
  abbrev rolled : V → Result A × S → Result A × S
  rolled v (ok a, t) = (ok a, t)
  rolled v (err e, t) = (err e, put v t)

  rolled-ok : (v : V) (x : Result A × S) (a : A) (u : S) → rolled v x ≡ (ok a, u) → x ≡ (ok a, u)
  rolled-ok v (ok b, t) a u h = h
  rolled-ok v (err e, t) a u h = cc

  rolled-err : (v : V) (x : Result A × S) (e : Exc) (u : S) → rolled v x ≡ (err e, u) → view u ≡ v
  rolled-err v (ok b, t) e u h = cc
  rolled-err v (err e', t) e u h = ap (λ (x : Result A × S). view x.1) (sym h) ∙ put_view v t

abbrev snapshots :
    {S V : Type 0} (view : S → V) (put : V → S → S)
    → ((v : V) (s : S) → view (put v s) ≡ v)
    → TransactionManager S
snapshots {S} {V} view put put_view = record {
  View = V;
  view = view;
  execute = λ A fn s. rolled view put put_view (view s) (fn s);
  commits = λ A fn s u a h. (s, u, refl, rolled-ok view put put_view (view s) (fn s) a u h, refl);
  rolls_back = λ A fn s u e h. rolled-err view put put_view (view s) (fn s) e u h;
}

abbrev desk_ingestor : DataIngestor Desk ℕ
desk_ingestor = record {
  generate = pure "t9";
  save_raw_selections = λ task_id chunk. pure (length chunk);
  save_raw_odds = λ task_id chunk. pure (length chunk);
  save_raw_labels = λ task_id chunk. pure (length chunk);
  load = λ path. pure (ok 5 ∷ ok 6 ∷ ok 7 ∷ []);
  chunk_size = 2;
}

abbrev service : AnalysisService Desk ℕ
service = record {
  data_ingestor = desk_ingestor;
  id_generator = record { generate = pure "m1" };
  create_if_not_active = λ task s. (ok tt, record s { task = some task });
  save_message = λ m s. (ok tt, record s { message = some m });
  tx_manager =
      snapshots {V = Seen} (λ s. (s.task, s.message))
        (λ v s. record s { task = v.0; message = v.1 }) (λ v s. refl);
  clock = record { read = λ s. (s.time, record s { time = s.time + 1 }) };
}

abbrev found_in : {A : Type 0} → (A → String) → Option A → String → Option A
found_in key none k = none
found_in key (some a) k = if str_eq (key a) k then some a else none

-- Submissions in the world of one document: what is seen is the document.
abbrev world_ingestor : DataIngestor World ℕ
world_ingestor = record {
  generate = pure "t9";
  save_raw_selections = λ task_id chunk. pure (length chunk);
  save_raw_odds = λ task_id chunk. pure (length chunk);
  save_raw_labels = λ task_id chunk. pure (length chunk);
  load = λ path. pure (ok 5 ∷ []);
  chunk_size = 2;
}

-- A server with one number stored, and the number that the one transaction has before it.
record Server : Type 0 where
  stored : ℕ
  pending : ℕ
  current : Option (Unit {0})

-- Its commit is applied, and then raises.
abbrev server_client : Client Server (Unit {0})
server_client = record {
  start = λ s. (ok tt, record s { pending = s.stored });
  commit = λ c s. (err (external "lost answer"), record s { stored = s.pending });
  abort = λ c s. record s { pending = 0 };
  set_current = λ o s. record s { current = o };
  get_current = λ s. s.current;
}

abbrev server_laws : ClientLaws server_client ℕ
server_laws = record {
  stored = λ s. s.stored;
  pending = λ c s. s.pending;
  start_keeps = λ s t r h. (
    ap (λ (x : Result (Unit {0}) × Server). x.1.stored) (sym h),
    ap (λ (x : Result (Unit {0}) × Server). x.1.current) (sym h),
  );
  start_begins = λ s t c h. ap (λ (x : Result (Unit {0}) × Server). x.1.pending) (sym h);
  commit_ok = λ s t c h. cc;
  commit_err = λ s t c e h. inr (ap (λ (x : Result (Unit {0}) × Server). x.1.stored) (sym h));
  abort_keeps = λ c s. refl;
  set_keeps = λ o s. refl;
  set_pending = λ o c s. refl;
  set_get = λ o s. refl;
  commit_current = λ s t c r h. ap (λ (x : Result (Unit {0}) × Server). x.1.current) (sym h);
  abort_current = λ c s. refl;
}

-- a write, in the transaction of the session that it is handed
abbrev write : ℕ → Option (Unit {0}) → Action Server (Unit {0})
write n none s = (ok tt, record s { stored = n })
write n (some c) s = (ok tt, record s { pending = n })

abbrev written : Action Server (Unit {0})
written = in_current server_client (write 3) >>= (λ _. in_current server_client (write 4))

write-Confined : (n : ℕ) → Confined server_client server_laws (in_current server_client (write n))
write-Confined n =
    Confined-in_current server_client server_laws (write n)
      (record { stores = λ c s. refl; current = λ c s. refl })

abbrev server : Server
server = record { stored = 1; pending = 0; current = none }

abbrev after_execute : Server
after_execute = (execute server_client (Unit {0}) written server).1

execute-rolls_back_example :
    (after_execute.current ≡ none)
    × ((after_execute.stored ≡ 1)
        ⊎ LostAnswer server_client server_laws written server after_execute
            (external "lost answer"))
unfolding execute in_current ◌>>=◌
execute-rolls_back_example =
    execute-rolls_back server_client server_laws written
      (Confined-bind server_client server_laws (in_current server_client (write 3))
        (λ _. in_current server_client (write 4)) (write-Confined 3) (λ _. write-Confined 4))
      server after_execute (external "lost answer") refl refl
