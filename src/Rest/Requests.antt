-- ===== src/Rest/Requests.antt =====
-- app/adapter/inbound/rest/schemas.py, the two search requests: the bounds of their fields and
-- `_validate_pagination`. A query holds each parameter as the framework reads it by its type, or
-- `none` where the request does not give it.
pub mod Pagination
use pipeline_server.Prelude.{
  ℕ, String, Bool, true, false, not, ◌&&◌, Option, some, none, List, [], ◌∷◌, ◌++◌, if◌then◌else◌,
}
use pipeline_server.Prelude.Int.{ℤ, pos, pos_part, leb_ℤ}
use pipeline_server.Result.{Result, ok, err}
use pipeline_server.Domain.Errors.{Exc, builtin, value_error}
use pipeline_server.Domain.Enums.{
  Weather, TimeOfDay, RoadSurface, ObjectClass, Stage, RejectionReason,
}
use pipeline_server.Python.{Runtime, Datetime}

-- One entry of `RequestValidationError.errors()`.
pub record FieldError : Type 0 where
  pub loc : List String
  pub msg : String

-- How a request fails: by the framework's validation, or by an exception.
pub data Failure : Type 0 where
  invalid : List FieldError → Failure
  raised : Exc → Failure

-- What a request leads to.
pub data Outcome (A : Type 0) : Type 0 where
  done : A → Outcome A
  failed : Failure → Outcome A

pub record RejectionQuery : Type 0 where
  pub task_id : Option String
  pub stage : Option Stage
  pub reason : Option RejectionReason
  pub source_id : Option String
  pub field : Option String
  pub page : Option ℤ
  pub size : Option ℤ
  pub after : Option ℤ

pub record RejectionSearchRequest : Type 0 where
  pub task_id : Option String
  pub stage : Option Stage
  pub reason : Option RejectionReason
  pub source_id : Option String
  pub field : Option String
  pub page : Option ℕ
  pub size : ℕ
  pub after : Option ℤ

pub record DataQuery (F : Type 0) : Type 0 where
  pub task_id : Option String
  pub recorded_at_from : Option Datetime
  pub recorded_at_to : Option Datetime
  pub min_temperature : Option F
  pub max_temperature : Option F
  pub headlights_on : Option Bool
  pub weather : Option Weather
  pub time_of_day : Option TimeOfDay
  pub road_surface : Option RoadSurface
  pub object_class : Option ObjectClass
  pub min_obj_count : Option ℤ
  pub min_confidence : Option F
  pub page : Option ℤ
  pub size : Option ℤ
  pub after : Option ℤ

pub record DataSearchRequest (F : Type 0) : Type 0 where
  pub task_id : Option String
  pub recorded_at_from : Option Datetime
  pub recorded_at_to : Option Datetime
  pub min_temperature : Option F
  pub max_temperature : Option F
  pub headlights_on : Option Bool
  pub weather : Option Weather
  pub time_of_day : Option TimeOfDay
  pub road_surface : Option RoadSurface
  pub object_class : Option ObjectClass
  pub min_obj_count : Option ℕ
  pub min_confidence : Option F
  pub page : Option ℕ
  pub size : ℕ
  pub after : Option ℤ

abbrev pub holds : {A : Type 0} → (A → Bool) → Option A → Bool
holds test none = true
holds test (some a) = test a

-- The entries of the fields whose bound is not kept.
abbrev pub field_error : (String → String) → String → Bool → List FieldError
field_error text name true = []
field_error text name false = record { loc = "query" ∷ name ∷ []; msg = text name } ∷ []

abbrev pub natural : Option ℤ → Option ℕ
natural none = none
natural (some n) = some (pos_part n)

-- `Field(None, ge=1)`
abbrev pub page_in_range : Option ℤ → Bool
page_in_range = holds (leb_ℤ (pos 1))

-- `Field(None, ge=0)`
abbrev pub min_obj_count_in_range : Option ℤ → Bool
min_obj_count_in_range = holds (leb_ℤ (pos 0))

-- `Field(20, ge=1, le=100)`
abbrev pub size_or_default : Option ℤ → ℤ
size_or_default none = pos 20
size_or_default (some n) = n

abbrev pub size_in_range : Option ℤ → Bool
size_in_range size = leb_ℤ (pos 1) (size_or_default size) && leb_ℤ (size_or_default size) (pos 100)

-- `_validate_pagination`, on `page` and `after`: the page that it leaves
unfoldable pub validate_pagination : Option ℕ → Option ℤ → Result (Option ℕ)
validate_pagination (some page) (some after) =
    err (builtin value_error "page와 after는 동시에 사용할 수 없습니다")
validate_pagination none none = ok (some 1)
validate_pagination page after = ok page

abbrev pub on_errors : {A : Type 0} → List FieldError → Outcome A → Outcome A
on_errors [] rest = rest
on_errors (e ∷ es) rest = failed (invalid (e ∷ es))

abbrev pub on_page : {A : Type 0} → Result (Option ℕ) → (Option ℕ → A) → Outcome A
on_page (ok page) make = done (make page)
on_page (err e) make = failed (raised e)

-- `text` is the framework's message for a field out of its bounds.
unfoldable pub rejection_request :
    (String → String) → RejectionQuery → Outcome RejectionSearchRequest
unfolding validate_pagination
rejection_request text q =
    on_errors
      (field_error text "page" (page_in_range q.page)
        ++ field_error text "size" (size_in_range q.size))
      (on_page (validate_pagination (natural q.page) q.after) λ page. record {
        task_id = q.task_id;
        stage = q.stage;
        reason = q.reason;
        source_id = q.source_id;
        field = q.field;
        page = page;
        size = pos_part (size_or_default q.size);
        after = q.after;
      })

module _ {F : Type 0} ⦃py : Runtime F⦄ where
  -- `Field(None, ge=0.0, le=1.0)`
  abbrev pub min_confidence_in_range : Option F → Bool
  min_confidence_in_range =
      holds λ v. py.le (py.hundredths (pos 0)) v && py.le v (py.hundredths (pos 100))

  unfoldable pub data_request : (String → String) → DataQuery F → Outcome (DataSearchRequest F)
  unfolding validate_pagination
  data_request text q =
      on_errors
        (field_error text "min_obj_count" (min_obj_count_in_range q.min_obj_count)
          ++ (field_error text "min_confidence" (min_confidence_in_range q.min_confidence)
              ++ (field_error text "page" (page_in_range q.page)
                  ++ field_error text "size" (size_in_range q.size))))
        (on_page (validate_pagination (natural q.page) q.after) λ page. record {
          task_id = q.task_id;
          recorded_at_from = q.recorded_at_from;
          recorded_at_to = q.recorded_at_to;
          min_temperature = q.min_temperature;
          max_temperature = q.max_temperature;
          headlights_on = q.headlights_on;
          weather = q.weather;
          time_of_day = q.time_of_day;
          road_surface = q.road_surface;
          object_class = q.object_class;
          min_obj_count = natural q.min_obj_count;
          min_confidence = q.min_confidence;
          page = page;
          size = pos_part (size_or_default q.size);
          after = q.after;
        })
