-- ===== src/Rest/Schemas.antt =====
-- app/adapter/inbound/rest/schemas.py. What the framework stamps on a response (the time and a
-- fresh request id) is an argument. A query string is taken as the framework reads it: each
-- parameter of its type, or absent.
pub mod Pages
use pipeline_server.Prelude.{
  ℕ, ◌+◌, ◌-◌, ◌/◌, ◌≤◌, String, Bool, true, false, not, ◌&&◌, Option, some, none, List, [], ◌∷◌,
  leb, ltb, if◌then◌else◌,
}
use pipeline_server.Prelude.Int.{ℤ, pos, pos_part, leb_ℤ}
use pipeline_server.Result.{Result, ok, err}
use pipeline_server.Domain.Errors.{builtin, value_error}
use pipeline_server.Domain.Enums.{
  Weather, TimeOfDay, RoadSurface, ObjectClass, Stage, RejectionReason,
}
use pipeline_server.Python.{Runtime, Datetime}

-- `timestamp` and `request_id`, which the defaults of the two fields make
pub record Stamp : Type 0 where
  pub timestamp : String
  pub request_id : String

pub record ApiResponse (T : Type 0) : Type 0 where
  pub content : Option T
  pub stamp : Stamp

pub record PageApiResponse (T : Type 0) : Type 0 where
  pub content : List T
  pub page : Option ℕ
  pub size : ℕ
  pub total_elements : ℕ
  pub total_pages : Option ℕ
  pub first : Option Bool
  pub last : Option Bool
  pub next_after : Option ℤ
  pub stamp : Stamp

unfoldable pub total_pages_of : ℕ → ℕ → ℕ
total_pages_of total size = if ltb 0 size then (total + size - 1) / size else 0

unfoldable pub of : {T : Type 0} → Stamp → List T → ℕ → ℕ → ℕ → PageApiResponse T
unfolding total_pages_of
of stamp items total page size = record {
  content = items;
  page = some page;
  size = size;
  total_elements = total;
  total_pages = some (total_pages_of total size);
  first = some (leb page 1);
  last = some (leb (total_pages_of total size) page);
  next_after = none;
  stamp = stamp;
}

unfoldable pub of_cursor : {T : Type 0} → Stamp → List T → ℕ → Option ℤ → PageApiResponse T
of_cursor stamp items size last_id = record {
  content = items;
  page = none;
  size = size;
  total_elements = 0;
  total_pages = none;
  first = none;
  last = none;
  next_after = last_id;
  stamp = stamp;
}

pub record ProblemDetail : Type 0 where
  pub type_uri : String
  pub title : String
  pub status : ℕ
  pub detail : String
  pub code : Option String
  pub path : Option String
  pub errors : Option (List (String × String))

pub record StageProgressResponse (F : Type 0) : Type 0 where
  pub total : ℕ
  pub processed : ℕ
  pub rejected : ℕ
  pub percent : F

pub record TaskProgressResponse (F : Type 0) : Type 0 where
  pub selection : StageProgressResponse F
  pub odd_tagging : StageProgressResponse F
  pub auto_labeling : StageProgressResponse F

pub record StageResultResponse : Type 0 where
  pub total : ℕ
  pub loaded : ℕ
  pub rejected : ℕ

pub record AnalysisResponse : Type 0 where
  pub selection : StageResultResponse
  pub odd_tagging : StageResultResponse
  pub auto_labeling : StageResultResponse
  pub fully_linked : ℕ
  pub partial : ℕ

pub record TaskResponse (F : Type 0) : Type 0 where
  pub task_id : String
  pub status : String
  pub progress : TaskProgressResponse F
  pub result : Option AnalysisResponse
  pub error : Option String
  pub created_at : Option Datetime
  pub completed_at : Option Datetime

pub record TaskSubmitResponse : Type 0 where
  pub task_id : String
  pub status : String

pub record RejectionResponse : Type 0 where
  pub stage : String
  pub reason : String
  pub source_id : String
  pub field : String
  pub detail : String
  pub created_at : Option Datetime

pub record LabelResponse (F : Type 0) : Type 0 where
  pub object_class : String
  pub obj_count : ℤ
  pub avg_confidence : F

pub record SearchResultResponse (F : Type 0) : Type 0 where
  pub video_id : ℤ
  pub recorded_at : Datetime
  pub temperature_celsius : F
  pub wiper_active : Bool
  pub wiper_level : Option ℤ
  pub headlights_on : Bool
  pub source_path : String
  pub weather : Option String
  pub time_of_day : Option String
  pub road_surface : Option String
  pub labels : List (LabelResponse F)
