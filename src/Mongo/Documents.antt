-- ===== src/Mongo/Documents.antt =====
-- app/adapter/outbound/mongodb/documents.py: the documents of the collections, as the dicts that
-- the driver stores. A dataclass of the source does not look at the types of its fields; the
-- records here have them, and a stored value of another type, which the program never writes, is
-- a TypeError of `from_dict`.
use pipeline_server.Prelude.{ℕ, String, Option, some, none, [], ◌∷◌}
use pipeline_server.Prelude.Int.{pos}
use pipeline_server.Domain.Errors.{type_error}
use pipeline_server.Domain.Values.{percent}
use pipeline_server.Domain.Outbox.{Payload}
use pipeline_server.Python.{
  Value, null, int, float, string, date, dict, Entries, end, entry, Runtime, Datetime, fault, item,
  get, find_key,
}
use pipeline_server.Result.{Result, ok, err, ◌>>=◌}

pub record StageProgressDocument : Type 0 where
  pub total : ℕ
  pub processed : ℕ
  pub rejected : ℕ

pub record AnalyzeTaskDocument (F : Type 0) : Type 0 where
  pub task_id : String
  pub status : String
  pub selection_progress : StageProgressDocument
  pub odd_tagging_progress : StageProgressDocument
  pub auto_labeling_progress : StageProgressDocument
  pub last_completed_phase : Option String
  pub result : Option (Entries F)
  pub error : Option String
  pub created_at : Option Datetime
  pub completed_at : Option Datetime

pub record OutboxDocument : Type 0 where
  pub message_id : String
  pub message_type : String
  pub payload : Payload
  pub status : String
  pub retry_count : ℕ
  pub max_retries : ℕ
  pub created_at : Option Datetime
  pub updated_at : Option Datetime

pub record RawDataDocument (F : Type 0) : Type 0 where
  pub task_id : String
  pub source : String
  pub row : Entries F
  pub created_at : Datetime

-- What a field of a document is as a stored value.
module _ {F : Type 0} where
  abbrev pub number : ℕ → Value F
  number n = int (pos n)

  abbrev pub text_or_null : Option String → Value F
  text_or_null none = null
  text_or_null (some s) = string s

  abbrev pub date_or_null : Option Datetime → Value F
  date_or_null none = null
  date_or_null (some d) = date d

  abbrev pub dict_or_null : Option (Entries F) → Value F
  dict_or_null none = null
  dict_or_null (some d) = dict d

  unfoldable pub payload_entries : Payload → Entries F
  payload_entries [] = end
  payload_entries ((k, v) ∷ rest) = entry k (string v) (payload_entries rest)

module _ {F : Type 0} ⦃py : Runtime F⦄ where
  abbrev pub as_text : Value F → Result String
  as_text (string s) = ok s
  as_text v = err (fault type_error v)

  abbrev pub as_number : Value F → Result ℕ
  as_number (int (pos n)) = ok n
  as_number v = err (fault type_error v)

  abbrev pub as_optional_text : Value F → Result (Option String)
  as_optional_text null = ok none
  as_optional_text (string s) = ok (some s)
  as_optional_text v = err (fault type_error v)

  abbrev pub as_optional_date : Value F → Result (Option Datetime)
  as_optional_date null = ok none
  as_optional_date (date d) = ok (some d)
  as_optional_date v = err (fault type_error v)

  abbrev pub as_optional_dict : Value F → Result (Option (Entries F))
  as_optional_dict null = ok none
  as_optional_dict (dict d) = ok (some d)
  as_optional_dict v = err (fault type_error v)

  abbrev pub as_dict : Value F → Result (Entries F)
  as_dict (dict d) = ok d
  as_dict v = err (fault type_error v)

  unfoldable pub payload_of : Entries F → Result Payload
  payload_of end = ok []
  payload_of (entry k v rest) = do s ← as_text v; p ← payload_of rest; ok ((k, s) ∷ p)

-- `StageProgressDocument`
module _ {F : Type 0} ⦃py : Runtime F⦄ where
  -- the property `percent`, which is computed as that of the domain object is
  abbrev pub document_percent : StageProgressDocument → F
  document_percent d =
      percent (record { total = d.total; processed = d.processed; rejected = d.rejected })

  unfoldable pub progress_to_dict : StageProgressDocument → Entries F
  progress_to_dict d = entry "total" (number d.total) (
      entry "processed" (number d.processed)
        (entry "rejected" (number d.rejected) (entry "percent" (float (document_percent d)) end)))

  unfoldable pub progress_from_dict : Entries F → Result StageProgressDocument
  unfolding find_key
  progress_from_dict d = do
    total ← as_number (get d "total" (number 0))
    processed ← as_number (get d "processed" (number 0))
    rejected ← as_number (get d "rejected" (number 0))
    ok (record { total = total; processed = processed; rejected = rejected })

-- `AnalyzeTaskDocument`
module _ {F : Type 0} ⦃py : Runtime F⦄ where
  unfoldable pub task_to_dict : AnalyzeTaskDocument F → Entries F
  unfolding progress_to_dict
  task_to_dict d = entry "_id" (string d.task_id) (
      entry "status" (string d.status) (
        entry "progress"
          (dict (
            entry "selection" (dict (progress_to_dict d.selection_progress)) (
              entry "odd_tagging" (dict (progress_to_dict d.odd_tagging_progress))
                (entry "auto_labeling" (dict (progress_to_dict d.auto_labeling_progress)) end))))
          (entry "last_completed_phase" (text_or_null d.last_completed_phase) (
            entry "result" (dict_or_null d.result) (
              entry "error" (text_or_null d.error) (
                entry "created_at" (date_or_null d.created_at)
                  (entry "completed_at" (date_or_null d.completed_at) end)))))))

  -- `StageProgressDocument.from_dict(p.get(name, {}))`
  unfoldable pub progress_at : Entries F → String → Result StageProgressDocument
  unfolding progress_from_dict find_key
  progress_at p name = do d ← as_dict (get p name (dict end)); progress_from_dict d

  unfoldable pub task_from_dict : Entries F → Result (AnalyzeTaskDocument F)
  unfolding progress_at item find_key
  task_from_dict doc = do
    p ← as_dict (get doc "progress" (dict end))
    task_id ← item doc "_id" >>= as_text
    status ← item doc "status" >>= as_text
    selection_progress ← progress_at p "selection"
    odd_tagging_progress ← progress_at p "odd_tagging"
    auto_labeling_progress ← progress_at p "auto_labeling"
    last_completed_phase ← as_optional_text (get doc "last_completed_phase" null)
    result ← as_optional_dict (get doc "result" null)
    error ← as_optional_text (get doc "error" null)
    created_at ← as_optional_date (get doc "created_at" null)
    completed_at ← as_optional_date (get doc "completed_at" null)
    ok (record {
      task_id = task_id;
      status = status;
      selection_progress = selection_progress;
      odd_tagging_progress = odd_tagging_progress;
      auto_labeling_progress = auto_labeling_progress;
      last_completed_phase = last_completed_phase;
      result = result;
      error = error;
      created_at = created_at;
      completed_at = completed_at;
    })

-- `OutboxDocument`; `now` is the clock's reading at the start of `from_dict`
module _ {F : Type 0} ⦃py : Runtime F⦄ where
  unfoldable pub outbox_to_dict : OutboxDocument → Entries F
  unfolding payload_entries
  outbox_to_dict d = entry "_id" (string d.message_id) (
      entry "message_type" (string d.message_type) (
        entry "payload" (dict (payload_entries d.payload)) (
          entry "status" (string d.status) (
            entry "retry_count" (number d.retry_count) (
              entry "max_retries" (number d.max_retries) (
                entry "created_at" (date_or_null d.created_at)
                  (entry "updated_at" (date_or_null d.updated_at) end)))))))

  unfoldable pub outbox_from_dict : Entries F → Datetime → Result OutboxDocument
  unfolding item find_key payload_of
  outbox_from_dict doc now = do
    message_id ← item doc "_id" >>= as_text
    message_type ← item doc "message_type" >>= as_text
    payload ← item doc "payload" >>= as_dict >>= payload_of
    status ← as_text (get doc "status" (string "pending"))
    retry_count ← as_number (get doc "retry_count" (number 0))
    max_retries ← as_number (get doc "max_retries" (number 3))
    created_at ← as_optional_date (get doc "created_at" (date now))
    updated_at ← as_optional_date (get doc "updated_at" (date now))
    ok (record {
      message_id = message_id;
      message_type = message_type;
      payload = payload;
      status = status;
      retry_count = retry_count;
      max_retries = max_retries;
      created_at = created_at;
      updated_at = updated_at;
    })

module _ {F : Type 0} where
  unfoldable pub raw_to_dict : RawDataDocument F → Entries F
  raw_to_dict d = entry "task_id" (string d.task_id) (
      entry "source" (string d.source)
        (entry "data" (dict d.row) (entry "created_at" (date d.created_at) end)))
