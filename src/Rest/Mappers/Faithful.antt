-- ===== src/Rest/Mappers/Faithful.antt =====
-- app/adapter/inbound/rest/mappers.py: what the responses keep of the records.
use pipeline_server.Prelude.{◌≡◌, refl, ap, sym, arith, ◌∙◌, Option, some, none}
use pipeline_server.Domain.Enums.{task_status_enum}
use pipeline_server.Domain.Enums.RoundTrip.{value-injective, TaskStatus-IsInverse}
use pipeline_server.Domain.Values.{StageProgress, StageResult}
use pipeline_server.Domain.Models.{AnalysisResult}
use pipeline_server.Domain.Task.{AnalyzeTask}
use pipeline_server.Python.{Runtime}
use pipeline_server.Rest.Schemas.{
  StageProgressResponse, StageResultResponse, AnalysisResponse, TaskResponse,
}
use pipeline_server.Rest.Mappers.{task_response, analysis_response, if_some}

-- what a response still tells of the task
abbrev result_of : StageResultResponse → StageResult
result_of r = record { total = r.total; loaded = r.loaded; rejected = r.rejected }

abbrev analysis_of : AnalysisResponse → AnalysisResult
analysis_of r = record {
  selection = result_of r.selection;
  odd_tagging = result_of r.odd_tagging;
  auto_labeling = result_of r.auto_labeling;
  fully_linked = r.fully_linked;
  partial = r.partial;
}

abbrev progress_in : {F : Type 0} → StageProgressResponse F → StageProgress
progress_in p = record { total = p.total; processed = p.processed; rejected = p.rejected }

analysis_of_response :
    (o : Option AnalysisResult) → if_some analysis_of (if_some analysis_response o) ≡ o
unfolding analysis_response
analysis_of_response none = refl
analysis_of_response (some r) = refl

-- The response of a task forgets nothing but its last completed phase: tasks with the same response
-- and the same last completed phase are the same task.
pub task_response-injective :
    (F : Type 0) ⦃py : Runtime F⦄ (t u : AnalyzeTask)
    → task_response {F = F} t ≡ task_response u
    → t.last_completed_phase ≡ u.last_completed_phase
    → t ≡ u
unfolding task_response
task_response-injective F t u h k =
    let status =
      value-injective task_status_enum TaskStatus-IsInverse t.status u.status
        (ap (λ (r : TaskResponse F). r.status) h) in
    let result =
      sym (analysis_of_response t.result)
      ∙ ap (λ (r : TaskResponse F). if_some analysis_of r.result) h
      ∙ analysis_of_response u.result in
    ground (arith, status, result)
