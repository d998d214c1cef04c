-- ===== src/Mongo/Mappers.antt =====
-- app/adapter/outbound/mongodb/mappers.py: domain objects to documents and back.
pub mod RoundTrip
use pipeline_server.Prelude.{ℕ, String, Bool, Option, some, none, if◌then◌else◌, str_eq}
use pipeline_server.Domain.Enums.{
  Stage, TaskStatus, OutboxStatus, stage_enum, task_status_enum, outbox_status_enum, from_value,
}
use pipeline_server.Domain.Errors.{Exc, value_error, builtin}
use pipeline_server.Domain.Values.{StageProgress, StageResult}
use pipeline_server.Domain.Models.{AnalysisResult}
use pipeline_server.Domain.Task.{AnalyzeTask}
use pipeline_server.Domain.Outbox.{OutboxMessage}
use pipeline_server.Python.{
  Value, string, dict, Entries, end, entry, Runtime, Datetime, fault, item, find_key,
}
use pipeline_server.Result.{Result, ok, err, ◌>>=◌, or_raise}
use pipeline_server.Mongo.Documents.{
  StageProgressDocument, AnalyzeTaskDocument, OutboxDocument, number, as_number, as_dict,
  task_to_dict, task_from_dict, outbox_to_dict, outbox_from_dict,
}

abbrev pub progress_to_document : StageProgress → StageProgressDocument
progress_to_document p = record { total = p.total; processed = p.processed; rejected = p.rejected }

abbrev pub progress_to_domain : StageProgressDocument → StageProgress
progress_to_domain d = record { total = d.total; processed = d.processed; rejected = d.rejected }

-- `p.value if p else None`
unfoldable pub stage_or_none : Option Stage → Option String
stage_or_none none = none
stage_or_none (some p) = some (stage_enum.value p)

module _ {F : Type 0} where
  -- `dataclasses.asdict` of a result, and of the three results in it
  unfoldable pub stage_result_dict : StageResult → Entries F
  stage_result_dict r =
      entry "total" (number r.total)
        (entry "loaded" (number r.loaded) (entry "rejected" (number r.rejected) end))

  unfoldable pub result_dict : AnalysisResult → Entries F
  unfolding stage_result_dict
  result_dict r = entry "selection" (dict (stage_result_dict r.selection)) (
      entry "odd_tagging" (dict (stage_result_dict r.odd_tagging)) (
        entry "auto_labeling" (dict (stage_result_dict r.auto_labeling))
          (entry "fully_linked" (number r.fully_linked) (entry "partial" (number r.partial) end))))

  -- `asdict(r) if r else None`
  unfoldable pub result_or_none : Option AnalysisResult → Option (Entries F)
  unfolding result_dict
  result_or_none none = none
  result_or_none (some r) = some (result_dict r)

  unfoldable pub task_to_document : AnalyzeTask → AnalyzeTaskDocument F
  task_to_document domain = record {
    task_id = domain.task_id;
    status = task_status_enum.value domain.status;
    selection_progress = progress_to_document domain.selection_progress;
    odd_tagging_progress = progress_to_document domain.odd_tagging_progress;
    auto_labeling_progress = progress_to_document domain.auto_labeling_progress;
    last_completed_phase = stage_or_none domain.last_completed_phase;
    result = result_or_none domain.result;
    error = domain.error;
    created_at = domain.created_at;
    completed_at = domain.completed_at;
  }

-- `doc.last_completed_phase` and `doc.result` are tested for truth: an empty text or dict is none.
module _ (F : Type 0) ⦃py : Runtime F⦄ where
  unfoldable pub optional_stage : Option String → Result (Option Stage)
  optional_stage none = ok none
  optional_stage (some raw) = if str_eq raw "" then ok none else do
    p ← or_raise (from_value stage_enum raw) (fault {F = F} value_error (string raw))
    ok (some p)

module _ {F : Type 0} ⦃py : Runtime F⦄ where
  unfoldable pub stage_result_of : Entries F → Result StageResult
  unfolding item find_key
  stage_result_of d = do
    total ← item d "total" >>= as_number
    loaded ← item d "loaded" >>= as_number
    rejected ← item d "rejected" >>= as_number
    ok (record { total = total; loaded = loaded; rejected = rejected })

  -- `_to_analysis_result`
  unfoldable pub analysis_result_of : Entries F → Result AnalysisResult
  unfolding item find_key stage_result_of
  analysis_result_of d = do
    selection ← item d "selection" >>= as_dict >>= stage_result_of
    odd_tagging ← item d "odd_tagging" >>= as_dict >>= stage_result_of
    auto_labeling ← item d "auto_labeling" >>= as_dict >>= stage_result_of
    fully_linked ← item d "fully_linked" >>= as_number
    partial ← item d "partial" >>= as_number
    ok (record {
      selection = selection;
      odd_tagging = odd_tagging;
      auto_labeling = auto_labeling;
      fully_linked = fully_linked;
      partial = partial;
    })

  unfoldable pub optional_result : Option (Entries F) → Result (Option AnalysisResult)
  unfolding analysis_result_of
  optional_result none = ok none
  optional_result (some end) = ok none
  optional_result (some (entry k v rest)) = do r ← analysis_result_of (entry k v rest); ok (some r)

  unfoldable pub task_to_domain : AnalyzeTaskDocument F → Result AnalyzeTask
  task_to_domain doc = do
    status ←
        or_raise (from_value task_status_enum doc.status)
          (fault {F = F} value_error (string doc.status))
    last_completed_phase ← optional_stage F doc.last_completed_phase
    result ← optional_result doc.result
    ok (record {
      task_id = doc.task_id;
      status = status;
      selection_progress = progress_to_domain doc.selection_progress;
      odd_tagging_progress = progress_to_domain doc.odd_tagging_progress;
      auto_labeling_progress = progress_to_domain doc.auto_labeling_progress;
      last_completed_phase = last_completed_phase;
      result = result;
      error = doc.error;
      created_at = doc.created_at;
      completed_at = doc.completed_at;
    })

unfoldable pub outbox_to_document : OutboxMessage → OutboxDocument
outbox_to_document domain = record {
  message_id = domain.message_id;
  message_type = domain.message_type;
  payload = domain.payload;
  status = outbox_status_enum.value domain.status;
  retry_count = domain.retry_count;
  max_retries = domain.max_retries;
  created_at = domain.created_at;
  updated_at = domain.updated_at;
}

module _ (F : Type 0) ⦃py : Runtime F⦄ where
  unfoldable pub outbox_to_domain : OutboxDocument → Result OutboxMessage
  outbox_to_domain doc = do
    status ←
        or_raise (from_value outbox_status_enum doc.status)
          (fault {F = F} value_error (string doc.status))
    ok (record {
      message_id = doc.message_id;
      message_type = doc.message_type;
      payload = doc.payload;
      status = status;
      retry_count = doc.retry_count;
      max_retries = doc.max_retries;
      created_at = doc.created_at;
      updated_at = doc.updated_at;
    })

-- The two conversions in a row, as the repositories write and read.
module _ {F : Type 0} ⦃py : Runtime F⦄ where
  unfoldable pub write_task : AnalyzeTask → Entries F
  unfolding task_to_document task_to_dict
  write_task task = task_to_dict (task_to_document task)

  unfoldable pub read_task : Entries F → Result AnalyzeTask
  unfolding task_from_dict task_to_domain
  read_task doc = task_from_dict doc >>= task_to_domain

  unfoldable pub write_message : OutboxMessage → Entries F
  unfolding outbox_to_document outbox_to_dict
  write_message m = outbox_to_dict (outbox_to_document m)

  unfoldable pub read_message : Entries F → Datetime → Result OutboxMessage
  unfolding outbox_from_dict outbox_to_domain
  read_message doc now = outbox_from_dict doc now >>= outbox_to_domain F
