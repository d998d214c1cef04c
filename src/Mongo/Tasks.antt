-- ===== src/Mongo/Tasks.antt =====
-- app/adapter/outbound/mongodb/repositories.py, `MongoTaskRepository`.
pub mod Active
use pipeline_server.Prelude.{
  List, [], ◌∷◌, Bool, false, any_of, str_eq, String, ◌≡◌, refl, ap, subst, ◌∙◌, true, Option, some,
  none,
}
use pipeline_server.Result.{Result, ok, err}
use pipeline_server.Effects.{Action, pure, lift, and_then, ◌>>=◌, ◌>>◌}
use pipeline_server.Effects.Keeps.{OnOk}
use pipeline_server.Effects.Results.{state-bind_pure, ok-bind_pure}
use pipeline_server.Domain.Enums.{TaskStatus, task_status_value}
use pipeline_server.Domain.Errors.{domain, conflict_error}
use Prim.Native.String.{◌++◌ as str_append}
use pipeline_server.Domain.Task.{AnalyzeTask}
use pipeline_server.Domain.Ports.{TaskRepository}
use pipeline_server.Python.{Runtime, Entries, end, string, find_key}
use pipeline_server.Mongo.Driver.{Collection, id_of}
use pipeline_server.Mongo.Mappers.{write_task, read_task}
use pipeline_server.Mongo.Mappers.RoundTrip.{read_task-write_task}

abbrev pub found_task : Result AnalyzeTask → Result (Option AnalyzeTask)
found_task (ok task) = ok (some task)
found_task (err e) = err e

abbrev pub if_read : Result (Option AnalyzeTask) → Option AnalyzeTask
if_read (ok o) = o
if_read (err e) = none

abbrev pub active_statuses : List TaskStatus
active_statuses = TaskStatus.pending ∷ TaskStatus.processing ∷ []

module _ {F : Type 0} where
  -- `{"status": {"$in": [s.value for s in statuses]}}`
  unfoldable pub status_in : List TaskStatus → Entries F → Bool
  status_in statuses doc = elim (find_key "status" doc) [
    | some (string v) ↦ any_of (λ s. str_eq v (task_status_value s)) statuses
    | _ ↦ false
  ]

  -- `if existing is not None: raise ConflictError(…)`
  abbrev pub refuse_existing : Option (Entries F) → Result (Unit {0})
  refuse_existing none = ok tt
  refuse_existing (some existing) =
      err (domain conflict_error (str_append "이미 진행 중인 작업이 있습니다: " (id_of existing)))

module _ {F : Type 0} ⦃py : Runtime F⦄ where
  -- what `find_by_id` makes of a document: none, or an empty one, is no task
  unfoldable pub task_of : Option (Entries F) → Result (Option AnalyzeTask)
  task_of none = ok none
  task_of (some end) = ok none
  task_of (some doc) = found_task (read_task doc)

pub task_of-write_task :
    (F : Type 0) ⦃py : Runtime F⦄ (task : AnalyzeTask)
    → task_of {F = F} (some (write_task task)) ≡ ok (some task)
unfolding task_of write_task
task_of-write_task F task = ap found_task (read_task-write_task F task)

module _ {S F : Type 0} ⦃py : Runtime F⦄ (collection : Collection S F) where
  open collection use {document, replace_one, find_one, find_first}

  unfoldable pub save_task : AnalyzeTask → Action S (Unit {0})
  save_task task = do _ ← replace_one task.task_id (λ _. true) (write_task task) true; pure tt

  unfoldable pub find_task : String → Action S (Option AnalyzeTask)
  unfolding task_of
  find_task task_id = do doc ← find_one task_id; lift (task_of doc)

  -- `[s.value for s in statuses]`, and the filter with `$in`
  unfoldable pub find_by_statuses : List TaskStatus → Action S (Option AnalyzeTask)
  unfolding task_of status_in
  find_by_statuses statuses = do
    doc ← find_first (status_in statuses) (some "created_at")
    lift (task_of doc)

  -- the part of `create_if_not_active` before the save
  unfoldable pub check_not_active : Action S (Unit {0})
  unfolding status_in
  check_not_active = do
    existing ← find_first (status_in active_statuses) none
    lift (refuse_existing existing)

  unfoldable pub create_if_not_active : AnalyzeTask → Action S (Unit {0})
  unfolding check_not_active save_task
  create_if_not_active task = do check_not_active; save_task task

  pub saved-document :
      (task : AnalyzeTask) (s : S)
      → (save_task task s).0 ≡ ok tt
      → document (save_task task s).1 task.task_id ≡ some (write_task task)
  unfolding save_task
  saved-document task s h =
      let (n, e, _) = ok-bind_pure _ _ s h in
      ap (λ t. document t task.task_id) (state-bind_pure _ _ s)
      ∙ collection.replace_upserts task.task_id (write_task task) n s e

  -- The port over a collection.
  unfoldable pub mongo_tasks : TaskRepository S
  unfolding task_of save_task find_task
  mongo_tasks = record {
    stored = λ s k. if_read (task_of (document s k));
    save = save_task;
    find_by_id = find_task;
    save_ok = λ task s h.
        ap (λ d. if_read (task_of d)) (saved-document task s h)
        ∙ ap if_read (task_of-write_task F task);
  }

  read_back :
      (task : AnalyzeTask) (r : Result (Option (Entries F))) (s : S)
      → OnOk (λ found. found ≡ some (write_task task)) r
      → OnOk (λ found. found ≡ some task) (and_then r (λ doc. lift (task_of doc)) s).0
  unfolding lift
  read_back task (ok found) s h = rw (h, task_of-write_task F task) refl
  read_back task (err e) s h = tt

-- Once the save of a task, whose times are whole milliseconds, has returned, a search for its id
-- finds that task, if it returns.
pub find_task-save_task :
    {S F : Type 0} ⦃py : Runtime F⦄ (collection : Collection S F) (task : AnalyzeTask) (s : S)
    → (save_task collection task s).0 ≡ ok tt
    → OnOk
        (λ found. found ≡ some task)
        (find_task collection task.task_id (save_task collection task s).1).0
unfolding find_task ◌>>=◌
find_task-save_task collection task s h =
    let after = (save_task collection task s).1 in
    read_back collection task (collection.find_one task.task_id after).0 _ (
      subst (λ d. OnOk (λ found. found ≡ d) (collection.find_one task.task_id after).0)
        (saved-document collection task s h) (collection.find_one_found task.task_id after))
