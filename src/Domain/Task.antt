-- ===== src/Domain/Task.antt =====
-- app/domain/models.py, `AnalyzeTask`: the state of one analysis and its transitions. Each reading
-- of the clock is an argument `now`.
use pipeline_server.Prelude.{ℕ, String, Bool, true, Option, some, none, List, [], ◌∷◌, ltb}
use pipeline_server.Domain.Enums.{
  Stage, selection, odd_tagging, auto_labeling, TaskStatus, completed, task_status_enum, enum_in,
}
use pipeline_server.Domain.Values.{StageProgress}
use pipeline_server.Domain.Models.{AnalysisResult}
use pipeline_server.Python.{Datetime}

pub record AnalyzeTask : Type 0 where
  pub task_id : String
  pub status : TaskStatus
  pub selection_progress : StageProgress
  pub odd_tagging_progress : StageProgress
  pub auto_labeling_progress : StageProgress
  pub last_completed_phase : Option Stage
  pub result : Option AnalysisResult
  pub error : Option String
  pub created_at : Option Datetime
  pub completed_at : Option Datetime

-- `StageProgress(total=n)`
abbrev pub progress_of : ℕ → StageProgress
progress_of n = record { total = n; processed = 0; rejected = 0 }

unfoldable pub create_new : String → ℕ → ℕ → ℕ → Datetime → AnalyzeTask
create_new task_id selection_count odd_count label_count now = record {
  task_id = task_id;
  status = TaskStatus.pending;
  selection_progress = progress_of selection_count;
  odd_tagging_progress = progress_of odd_count;
  auto_labeling_progress = progress_of label_count;
  last_completed_phase = none;
  result = none;
  error = none;
  created_at = some now;
  completed_at = none;
}

abbrev pub stage_order : List Stage
stage_order = selection ∷ odd_tagging ∷ auto_labeling ∷ []

-- `_STAGE_ORDER.index(stage)`
abbrev pub stage_index : Stage → ℕ
stage_index selection = 0
stage_index odd_tagging = 1
stage_index auto_labeling = 2

unfoldable pub is_active : AnalyzeTask → Bool
is_active task =
    enum_in task_status_enum task.status (TaskStatus.pending ∷ TaskStatus.processing ∷ [])

abbrev runs_after : Option Stage → Stage → Bool
runs_after none phase = true
runs_after (some last) phase = ltb (stage_index last) (stage_index phase)

unfoldable pub should_run_phase : AnalyzeTask → Stage → Bool
should_run_phase task phase = runs_after task.last_completed_phase phase

-- The map of the source has every stage as a key, so its default is never taken.
unfoldable pub get_progress_for : AnalyzeTask → Stage → StageProgress
get_progress_for task selection = task.selection_progress
get_progress_for task odd_tagging = task.odd_tagging_progress
get_progress_for task auto_labeling = task.auto_labeling_progress

unfoldable pub start_processing : AnalyzeTask → AnalyzeTask
start_processing task = record task { status = TaskStatus.processing }

unfoldable pub complete_with : AnalyzeTask → AnalysisResult → Datetime → AnalyzeTask
complete_with task result now = record task {
  status = completed;
  result = some result;
  completed_at = some now;
}

unfoldable pub fail_with : AnalyzeTask → String → Datetime → AnalyzeTask
fail_with task error now = record task {
  status = TaskStatus.failed;
  error = some error;
  completed_at = some now;
}

unfoldable pub with_progress : AnalyzeTask → Stage → StageProgress → AnalyzeTask
with_progress task selection progress = record task { selection_progress = progress }
with_progress task odd_tagging progress = record task { odd_tagging_progress = progress }
with_progress task auto_labeling progress = record task { auto_labeling_progress = progress }

unfoldable pub with_completed_phase : AnalyzeTask → Stage → AnalyzeTask
with_completed_phase task phase = record task { last_completed_phase = some phase }
