-- ===== src/Application/Pipeline.antt =====
-- app/application/pipeline_service.py: the phases of one analysis in order, and the task that
-- records how far it is.
pub mod Checkpoint
pub mod Resume
pub mod Failure
use Prim.Native.String.{◌++◌ as str_append}
use pipeline_server.Prelude.{
  ℕ, ◌+◌, ◌-◌, String, Bool, true, false, ◌&&◌, Option, some, none, List, [], ◌∷◌, length, select,
  if◌then◌else◌,
}
use pipeline_server.Prelude.Int.{ℤ, leb_ℤ}
use pipeline_server.Result.{Result, ok, err, or_raise}
use pipeline_server.Effects.{Action, pure, raise, lift, ◌>>=◌, ◌>>◌}
use pipeline_server.Domain.Errors.{Exc, builtin, key_error, value_error, attribute_error, exc_text}
use pipeline_server.Domain.Enums.{
  Stage, selection, odd_tagging, auto_labeling, stage_enum, stage_value, enum_eq,
}
use pipeline_server.Domain.Values.{StageProgress, StageResult}
use pipeline_server.Domain.Models.{AnalysisResult}
use pipeline_server.Domain.Task.{
  AnalyzeTask, stage_order, should_run_phase, get_progress_for, start_processing, complete_with,
  fail_with,
}
use pipeline_server.Domain.Ports.{TaskRepository, Clock, now}
use pipeline_server.Application.Phases.{is_linked}

-- `PhaseRunner.run` of a registered runner
abbrev pub Run : Type 0 → Type 0
Run S = AnalyzeTask → String → List ℤ → Action S (StageResult × AnalyzeTask)

-- A dict under stages: what it holds for each.
abbrev pub PhaseRunnerProvider : Type 0 → Type 0
PhaseRunnerProvider S = Stage → Option (Run S)

abbrev pub register : {S : Type 0} → Stage → Run S → PhaseRunnerProvider S → PhaseRunnerProvider S
register stage runner provider x = if enum_eq stage_enum x stage then some runner else provider x

abbrev pub get_runner : {S : Type 0} → PhaseRunnerProvider S → Stage → Result (Run S)
get_runner provider stage =
    or_raise (provider stage)
      (builtin value_error (str_append "등록되지 않은 Phase: " (stage_value stage)))

abbrev pub Results : Type 0
Results = Stage → Option StageResult

abbrev pub set_result : Stage → StageResult → Results → Results
set_result stage result results x = if enum_eq stage_enum x stage then some result else results x

abbrev pub result_at : Results → Stage → Result StageResult
result_at results stage = or_raise (results stage) (builtin key_error "Stage")

-- the result of a phase that an earlier run has completed
abbrev pub recorded : StageProgress → StageResult
recorded progress = record {
  total = progress.total;
  loaded = progress.processed;
  rejected = progress.rejected;
}

-- the size of `a & b & c`
abbrev pub common : List ℤ → List ℤ → List ℤ → ℕ
common a b c = length (select (λ id. is_linked id b && is_linked id c) a)

pub record PipelineService (S : Type 0) : Type 0 where
  pub task_repo : TaskRepository S
  -- the sets of ids, each id once
  pub find_all_ids_by_task : String → Action S (List ℤ)
  pub find_odd_video_ids : String → Action S (List ℤ)
  pub find_label_video_ids : String → Action S (List ℤ)
  pub phase_runner_provider : PhaseRunnerProvider S
  pub clock : Clock S

module _ {S : Type 0} (service : PipelineService S) where
  open service use {
    task_repo, find_all_ids_by_task, find_odd_video_ids, find_label_video_ids,
    phase_runner_provider, clock,
  }

  -- what the loop does for a stage: run it, or take what is recorded
  unfoldable pub run_or_skip :
      Stage → AnalyzeTask → String → List ℤ → Action S (StageResult × AnalyzeTask)
  unfolding should_run_phase get_progress_for
  run_or_skip stage task task_id valid_selection_ids =
      if should_run_phase task stage
      then (do
        run ← lift (get_runner phase_runner_provider stage)
        run task task_id valid_selection_ids)
      else pure (recorded (get_progress_for task stage), task)

  -- `valid_selection_ids` after the stage
  unfoldable pub ids_after : Stage → String → List ℤ → Action S (List ℤ)
  ids_after selection task_id valid_selection_ids = find_all_ids_by_task task_id
  ids_after _ task_id valid_selection_ids = pure valid_selection_ids

  unfoldable pub phases_loop :
      List Stage → AnalyzeTask → String → List ℤ → Results → Action S (Results × AnalyzeTask)
  phases_loop [] task task_id valid_selection_ids results = pure (results, task)
  phases_loop (stage ∷ stages) task task_id valid_selection_ids results = do
    done ← run_or_skip stage task task_id valid_selection_ids
    ids ← ids_after stage task_id valid_selection_ids
    phases_loop stages done.1 task_id ids (set_result stage done.0 results)

  unfoldable pub run_phases : AnalyzeTask → String → Action S (Results × AnalyzeTask)
  run_phases task task_id = phases_loop stage_order task task_id [] (λ _. none)

  unfoldable pub build_result : String → Results → Action S AnalysisResult
  build_result task_id results = do
    valid_selection_ids ← find_all_ids_by_task task_id
    odd_video_ids ← find_odd_video_ids task_id
    label_video_ids ← find_label_video_ids task_id
    let fully_linked = common valid_selection_ids odd_video_ids label_video_ids
    s ← lift (result_at results selection)
    o ← lift (result_at results odd_tagging)
    l ← lift (result_at results auto_labeling)
    pure (record {
      selection = s;
      odd_tagging = o;
      auto_labeling = l;
      fully_linked = fully_linked;
      partial = length valid_selection_ids - fully_linked;
    })

  -- the `except` clause, where the variable `task` holds this task
  unfoldable pub fail : AnalyzeTask → Exc → Action S (Unit {0})
  unfolding fail_with
  fail task e = do t ← now clock; task_repo.save (fail_with task (exc_text e) t); raise e

  abbrev pub settled :
      {A : Type 0} → AnalyzeTask → Result A → (A → Action S (Unit {0})) → Action S (Unit {0})
  settled task (ok a) rest = rest a
  settled task (err e) rest = fail task e

  -- a statement of the `try` that runs while the variable `task` holds this task, and the
  -- statements after it
  unfoldable pub while_task :
      {A : Type 0} → AnalyzeTask → Action S A → (A → Action S (Unit {0})) → Action S (Unit {0})
  while_task task m rest s = let (r, after) = m s in settled task r rest after

  -- the statements of the `try`
  unfoldable pub process : AnalyzeTask → String → Action S (Unit {0})
  unfolding complete_with
  process task task_id = while_task task (run_phases task task_id) λ done.
      while_task done.1 (build_result task_id done.0) λ result. while_task done.1 (now clock) λ t.
        while_task (complete_with done.1 result t) (task_repo.save (complete_with done.1 result t))
          pure

  unfoldable pub execute : String → Action S (Unit {0})
  unfolding start_processing
  execute task_id = do
    found ← task_repo.find_by_id task_id
    task ← lift (
        or_raise found
          (builtin attribute_error "'NoneType' object has no attribute 'start_processing'"))
    task_repo.save (start_processing task)
    process (start_processing task) task_id
