-- ===== src/Rest/Mappers.antt =====
-- app/adapter/inbound/rest/mappers.py: the responses that records of the domain are shown as, and
-- the criteria that requests stand for.
pub mod Faithful
use pipeline_server.Prelude.{String, Option, some, none, map}
use pipeline_server.Domain.Enums.{
  task_status_value, stage_value, rejection_reason_value, weather_value, time_of_day_value,
  road_surface_value, object_class_value,
}
use pipeline_server.Domain.Values.{StageProgress, StageResult, percent}
use pipeline_server.Domain.Models.{
  AnalysisResult, Rejection, RejectionCriteria, DataSearchCriteria, SearchResult, OddTag, Label,
}
use pipeline_server.Domain.Task.{AnalyzeTask}
use pipeline_server.Python.{Runtime}
use pipeline_server.Rest.Schemas.{
  StageProgressResponse, TaskProgressResponse, StageResultResponse, AnalysisResponse, TaskResponse,
  RejectionResponse, LabelResponse, SearchResultResponse,
}
use pipeline_server.Rest.Requests.{RejectionSearchRequest, DataSearchRequest}

-- `f(x) if x else None`
abbrev pub if_some : {A B : Type 0} → (A → B) → Option A → Option B
if_some f none = none
if_some f (some a) = some (f a)

abbrev pub stage_result_response : StageResult → StageResultResponse
stage_result_response r = record { total = r.total; loaded = r.loaded; rejected = r.rejected }

unfoldable pub analysis_response : AnalysisResult → AnalysisResponse
analysis_response result = record {
  selection = stage_result_response result.selection;
  odd_tagging = stage_result_response result.odd_tagging;
  auto_labeling = stage_result_response result.auto_labeling;
  fully_linked = result.fully_linked;
  partial = result.partial;
}

unfoldable pub rejection_response : Rejection → RejectionResponse
rejection_response r = record {
  stage = stage_value r.stage;
  reason = rejection_reason_value r.reason;
  source_id = r.source_id;
  field = r.field;
  detail = r.detail;
  created_at = some r.created_at;
}

abbrev pub label_response : {F : Type 0} → Label F → LabelResponse F
label_response lb = record {
  object_class = object_class_value lb.object_class;
  obj_count = lb.obj_count.value;
  avg_confidence = lb.confidence.value;
}

unfoldable pub search_result_response : {F : Type 0} → SearchResult F → SearchResultResponse F
search_result_response result = record {
  video_id = result.selection.id.value;
  recorded_at = result.selection.recorded_at;
  temperature_celsius = result.selection.temperature.celsius;
  wiper_active = result.selection.wiper.active;
  wiper_level = result.selection.wiper.level;
  headlights_on = result.selection.headlights_on;
  source_path = result.selection.source_path.value;
  weather = if_some (λ (o : OddTag). weather_value o.weather) result.odd_tag;
  time_of_day = if_some (λ (o : OddTag). time_of_day_value o.time_of_day) result.odd_tag;
  road_surface = if_some (λ (o : OddTag). road_surface_value o.road_surface) result.odd_tag;
  labels = map label_response result.labels;
}

unfoldable pub rejection_criteria : RejectionSearchRequest → RejectionCriteria
rejection_criteria request = record {
  task_id = request.task_id;
  stage = request.stage;
  reason = request.reason;
  source_id = request.source_id;
  field = request.field;
  page = request.page;
  size = request.size;
  after = request.after;
}

unfoldable pub data_search_criteria : {F : Type 0} → DataSearchRequest F → DataSearchCriteria F
data_search_criteria request = record {
  task_id = request.task_id;
  recorded_at_from = request.recorded_at_from;
  recorded_at_to = request.recorded_at_to;
  min_temperature = request.min_temperature;
  max_temperature = request.max_temperature;
  headlights_on = request.headlights_on;
  weather = request.weather;
  time_of_day = request.time_of_day;
  road_surface = request.road_surface;
  object_class = request.object_class;
  min_obj_count = request.min_obj_count;
  min_confidence = request.min_confidence;
  page = request.page;
  size = request.size;
  after = request.after;
}

module _ {F : Type 0} ⦃py : Runtime F⦄ where
  abbrev pub stage_progress_response : StageProgress → StageProgressResponse F
  stage_progress_response p = record {
    total = p.total;
    processed = p.processed;
    rejected = p.rejected;
    percent = percent p;
  }

  unfoldable pub task_response : AnalyzeTask → TaskResponse F
  unfolding analysis_response
  task_response task = record {
    task_id = task.task_id;
    status = task_status_value task.status;
    progress = record {
      selection = stage_progress_response task.selection_progress;
      odd_tagging = stage_progress_response task.odd_tagging_progress;
      auto_labeling = stage_progress_response task.auto_labeling_progress;
    };
    result = if_some analysis_response task.result;
    error = task.error;
    created_at = task.created_at;
    completed_at = task.completed_at;
  }
