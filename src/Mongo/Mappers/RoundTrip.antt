-- ===== src/Mongo/Mappers/RoundTrip.antt =====
-- app/adapter/outbound/mongodb/mappers.py with documents.py: the document made of a record, read again.
use pipeline_server.Prelude.{◌≡◌, refl, Option, some, none, [], ◌∷◌, String}
use pipeline_server.Domain.Enums.{Stage, selection, odd_tagging, auto_labeling, from_value}
use pipeline_server.Domain.Enums.RoundTrip.{OutboxStatus-IsInverse, TaskStatus-IsInverse}
use pipeline_server.Domain.Models.{AnalysisResult}
use pipeline_server.Domain.Task.{AnalyzeTask}
use pipeline_server.Domain.Outbox.{OutboxMessage, Payload}
use pipeline_server.Python.{Entries, Runtime, Datetime}
use pipeline_server.Result.{ok}
use pipeline_server.Mongo.Documents.{
  payload_entries, payload_of, as_optional_date, as_optional_text, as_optional_dict, date_or_null,
  text_or_null, dict_or_null,
}
use pipeline_server.Mongo.Mappers.{
  write_task, read_task, optional_stage, stage_or_none, optional_result, result_or_none,
  write_message, read_message,
}

module _ (F : Type 0) ⦃py : Runtime F⦄ where
  payload_back : (p : Payload) → payload_of {F = F} (payload_entries p) ≡ ok p
  unfolding payload_of payload_entries
  payload_back [] = refl
  payload_back ((k, v) ∷ p) = rw (payload_back p)

  date_back : (o : Option Datetime) → as_optional_date {F = F} (date_or_null o) ≡ ok o
  date_back none = refl
  date_back (some d) = refl

  text_back : (o : Option String) → as_optional_text {F = F} (text_or_null o) ≡ ok o
  text_back none = refl
  text_back (some s) = refl

  dict_back : (o : Option (Entries F)) → as_optional_dict (dict_or_null o) ≡ ok o
  dict_back none = refl
  dict_back (some d) = refl

  stage_back : (o : Option Stage) → optional_stage F (stage_or_none o) ≡ ok o
  unfolding optional_stage stage_or_none from_value
  stage_back none = refl
  stage_back (some selection) = refl
  stage_back (some odd_tagging) = refl
  stage_back (some auto_labeling) = refl

  result_back : (o : Option AnalysisResult) → optional_result {F = F} (result_or_none o) ≡ ok o
  unfolding optional_result result_or_none
  result_back none = refl
  result_back (some r) = refl

-- The document made of a message is read as that message, at whatever time it is read.
pub read_message-write_message :
    (F : Type 0) ⦃py : Runtime F⦄ (m : OutboxMessage) (now : Datetime)
    → read_message {F = F} (write_message m) now ≡ ok m
unfolding read_message write_message
read_message-write_message F m now =
    simp (payload_back F m.payload, date_back F, OutboxStatus-IsInverse)

-- The document made of a task is read as that task: its progress, the phase that it completed last
-- and its result, if it has one, included.
pub read_task-write_task :
    (F : Type 0) ⦃py : Runtime F⦄ (task : AnalyzeTask)
    → read_task {F = F} (write_task task) ≡ ok task
unfolding read_task write_task
read_task-write_task F task =
    simp (text_back F, date_back F, dict_back F, stage_back F, result_back F, TaskStatus-IsInverse)
