-- ===== src/Application/Pipeline/Failure.antt =====
-- What an execution leaves stored, whether it returns or raises.
use pipeline_server.Python.{Datetime}
use pipeline_server.Domain.Models.{AnalysisResult}
use pipeline_server.Prelude.{String, ◌≡◌, ◌≢◌, ◌∙◌, refl, ap, Option, some, none}
use pipeline_server.Result.{Result, ok, err, or_raise}
use pipeline_server.Domain.Errors.{Exc, exc_text}
use pipeline_server.Effects.{Action, pure, raise, lift, ◌>>=◌}
use pipeline_server.Effects.Results.{and_then-eq-ok, bind-to_ok, run-parts}
use pipeline_server.Domain.Enums.{Stage, selection, odd_tagging, auto_labeling, TaskStatus}
use pipeline_server.Domain.Task.{
  AnalyzeTask, get_progress_for, start_processing, complete_with, fail_with,
}
use pipeline_server.Domain.Ports.{now}
use pipeline_server.Application.Pipeline.{
  PipelineService, Results, fail, settled, while_task, run_phases, process, execute,
}

module _ {S : Type 0} (service : PipelineService S) where
  open service use {task_repo, clock}

  bind-ok :
      {A B : Type 0} (m : Action S A) (f : A → Action S B) (s : S) {b : B}
      → ((m >>= f) s).0 ≡ ok b
      → (a : A) × ((m s).0 ≡ ok a) × ((f a (m s).1).0 ≡ ok b) × ((m >>= f) s ≡ f a (m s).1)
  unfolding ◌>>=◌
  bind-ok m f s h = let (a, e, q) = and_then-eq-ok (m s).0 f (m s).1 h in (a, e, q, rw e)

  fail-raises :
      (task : AnalyzeTask) (e : Exc) (s : S) {u : Unit {0}} → (fail service task e s).0 ≢ ok u
  unfolding fail raise
  fail-raises task e s h =
      let (t, _, h', _) = bind-ok (now clock) _ s h in
      let (_, _, h'', _) = bind-ok (task_repo.save (fail_with task (exc_text e) t)) _ _ h' in cc

  settled-ok :
      {A : Type 0} (task : AnalyzeTask) (r : Result A) (rest : A → Action S (Unit {0})) (s : S)
      {u : Unit {0}}
      → (settled service task r rest s).0 ≡ ok u
      → (a : A) × (r ≡ ok a) × ((rest a s).0 ≡ ok u) × (settled service task r rest s ≡ rest a s)
  settled-ok task (ok a) rest s h = (a, refl, h, refl)
  settled-ok task (err e) rest s h = absurd (fail-raises task e s h)

  while_task-ok :
      {A : Type 0} (task : AnalyzeTask) (m : Action S A) (rest : A → Action S (Unit {0})) (s : S)
      {u : Unit {0}}
      → (while_task service task m rest s).0 ≡ ok u
      → (a : A) × ((m s).0 ≡ ok a)
        × ((rest a (m s).1).0 ≡ ok u)
        × (while_task service task m rest s ≡ rest a (m s).1)
  unfolding while_task
  while_task-ok task m rest s h = settled-ok task (m s).0 rest (m s).1 h

  -- the `try` returned: the last thing it did was to store the completed task
  process-ok :
      (task : AnalyzeTask) (task_id : String) (s : S) {u : Unit {0}}
      → (process service task task_id s).0 ≡ ok u
      → (done : Results × AnalyzeTask) × ((run_phases service task task_id s).0 ≡ ok done)
        × (result : AnalysisResult) × (t : Datetime) × (task_repo.stored
              (process service task task_id s).1
              done.1.task_id
            ≡ some (complete_with done.1 result t))
  unfolding process complete_with pure
  process-ok task task_id s h =
      let (done, ran, h1, e1) = while_task-ok _ _ _ s h in
      let (result, _, h2, e2) = while_task-ok _ _ _ _ h1 in
      let (t, _, h3, e3) = while_task-ok _ _ _ _ h2 in
      let (_, saved, h4, e4) = while_task-ok _ _ _ _ h3 in
      (
        done,
        ran,
        result,
        t,
        ap (λ r. task_repo.stored r.1 done.1.task_id) (e1 ∙ e2 ∙ e3 ∙ e4)
            ∙ task_repo.save_ok _ _ saved,
      )

-- The states that an execution goes through: from the start to the end of its phases, and over a
-- failure of them.
module _ {S : Type 0} (service : PipelineService S) (task_id : String) (task : AnalyzeTask)
    (s : S) where
  open service use {task_repo, clock}

  abbrev pub found : Result (Option AnalyzeTask) × S
  found = task_repo.find_by_id task_id s

  abbrev pub started : AnalyzeTask
  started = start_processing task

  abbrev pub saved_start : Result (Unit {0}) × S
  saved_start = task_repo.save started found.1

  abbrev pub phases : Result (Results × AnalyzeTask) × S
  phases = run_phases service started task_id saved_start.1

  abbrev pub failed_task : Exc → AnalyzeTask
  failed_task e = fail_with started (exc_text e) (clock.read phases.1).0

  abbrev pub saved_failure : Exc → Result (Unit {0}) × S
  saved_failure e = task_repo.save (failed_task e) (clock.read phases.1).1

  fail-run :
      (e : Exc)
      → (saved_failure e).0 ≡ ok tt
      → fail service started e phases.1 ≡ (err e, (saved_failure e).1)
  unfolding fail now ◌>>=◌ raise
  fail-run e h = rw h

  while_task-failing :
      {A : Type 0} (now_task : AnalyzeTask) (m : Action S A) (rest : A → Action S (Unit {0}))
      (t : S) {e : Exc}
      → (m t).0 ≡ err e
      → while_task service now_task m rest t ≡ fail service now_task e (m t).1
  unfolding while_task
  while_task-failing now_task m rest t h = rw h

  process-failing :
      (e : Exc)
      → phases.0 ≡ err e
      → (saved_failure e).0 ≡ ok tt
      → process service started task_id saved_start.1 ≡ (err e, (saved_failure e).1)
  unfolding process
  process-failing e raised h =
      while_task-failing started (run_phases service started task_id) _ saved_start.1 raised
      ∙ fail-run e h

  execute-failing :
      (e : Exc)
      → found.0 ≡ ok (some task)
      → saved_start.0 ≡ ok tt
      → phases.0 ≡ err e
      → (saved_failure e).0 ≡ ok tt
      → execute service task_id s ≡ (err e, (saved_failure e).1)
  unfolding execute lift
  execute-failing e f p raised h =
      bind-to_ok (task_repo.find_by_id task_id) _ s (run-parts found f)
      ∙ bind-to_ok (lift (ok task)) _ found.1 refl
      ∙ bind-to_ok (task_repo.save started) _ found.1 (run-parts saved_start p)
      ∙ process-failing e raised h

-- If the task is found, the phases raise, and the two saves of the task return, then the
-- execution raises the same exception and has stored the task as failed with the exception's
-- text, its progress and its last completed phase being those that it had before the execution.
pub execute-stores_failed :
    {S : Type 0} (service : PipelineService S) (task_id : String) (task : AnalyzeTask) (s : S)
    (e : Exc)
    → (found service task_id task s).0 ≡ ok (some task)
    → (saved_start service task_id task s).0 ≡ ok tt
    → (phases service task_id task s).0 ≡ err e
    → (saved_failure service task_id task s e).0 ≡ ok tt
    → ((execute service task_id s).0 ≡ err e)
      × (failed : AnalyzeTask) × (service.task_repo.stored
            (execute service task_id s).1
            task.task_id
          ≡ some failed)
      × (failed.status ≡ TaskStatus.failed)
      × (failed.error ≡ some (exc_text e))
      × (failed.last_completed_phase ≡ task.last_completed_phase)
      × ((stage : Stage) → get_progress_for failed stage ≡ get_progress_for task stage)
unfolding start_processing fail_with get_progress_for
execute-stores_failed service task_id task s e f p raised h =
    let run = execute-failing service task_id task s e f p raised h in
    (
      ap (λ r. r.0) run,
      failed_task service task_id task s e,
      ap (λ r. service.task_repo.stored r.1 task.task_id) run
          ∙ service.task_repo.save_ok (failed_task service task_id task s e) _ h,
      refl,
      refl,
      refl,
      λ stage. same_progress stage,
    )
  where
    same_progress :
        (stage : Stage)
        → get_progress_for (failed_task service task_id task s e) stage
          ≡ get_progress_for task stage
    same_progress selection = refl
    same_progress odd_tagging = refl
    same_progress auto_labeling = refl

or_raise-some : {A : Type 0} (o : Option A) (e : Exc) {a : A} → or_raise o e ≡ ok a → o ≡ some a
or_raise-some none e h = cc
or_raise-some (some a) e h = cc

-- If an execution returns, then it found its task, its phases returned, and the task that they
-- returned is stored as completed with a result.
pub execute-stores_completed :
    {S : Type 0} (service : PipelineService S) (task_id : String) (s : S)
    → (execute service task_id s).0 ≡ ok tt
    → (task : AnalyzeTask) × ((found service task_id task s).0 ≡ ok (some task))
      × (done : Results × AnalyzeTask) × ((phases service task_id task s).0 ≡ ok done)
      × (result : AnalysisResult) × (t : Datetime) × (service.task_repo.stored
            (execute service task_id s).1
            done.1.task_id
          ≡ some (complete_with done.1 result t))
unfolding execute lift
execute-stores_completed service task_id s h =
    let (looked, e0, h1, e1) = bind-ok service (service.task_repo.find_by_id task_id) _ s h in
    let (task, e0', h2, e2) = bind-ok service (lift (or_raise looked _)) _ _ h1 in
    let (_, _, h3, e3) = bind-ok service (service.task_repo.save (start_processing task)) _ _ h2 in
    let (done, ran, result, t, e) = process-ok service (start_processing task) task_id _ h3 in
    (
      task,
      e0 ∙ ap ok (or_raise-some looked _ e0'),
      done,
      ran,
      result,
      t,
      ap (λ r. service.task_repo.stored r.1 done.1.task_id) (e1 ∙ e2 ∙ e3) ∙ e,
    )
