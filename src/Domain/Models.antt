-- ===== src/Domain/Models.antt =====
-- app/domain/models.py, the records of refined data and the criteria of searches.
use pipeline_server.Prelude.{ℕ, String, Bool, not, ◌||◌, Option, List, [], ◌∷◌, str_eq}
use pipeline_server.Prelude.Int.{ℤ, pos, leb_ℤ, str_int}
use Prim.Native.String.{◌++◌ as str_append}
use pipeline_server.Domain.Enums.{
  Weather, TimeOfDay, RoadSurface, ObjectClass, Stage, RejectionReason, OutboxStatus, weather_enum,
  time_of_day_enum, road_surface_enum, enum_eq, enum_in, rainy, night, icy,
}
use pipeline_server.Domain.Errors.{domain, invalid_format_error, invalid_odd_tag_error}
use pipeline_server.Domain.Values.{
  VideoId, Temperature, Confidence, ObjectCount, WiperState, SourcePath, StageResult,
  is_raining_likely, is_high, is_empty,
}
use pipeline_server.Python.{Runtime, Datetime}
use pipeline_server.Result.{Result, ok, ◌>>◌, raise_if}

pub record Selection (F : Type 0) : Type 0 where
  pub id : VideoId
  pub task_id : String
  pub recorded_at : Datetime
  pub temperature : Temperature F
  pub wiper : WiperState
  pub headlights_on : Bool
  pub source_path : SourcePath

pub record OddTag : Type 0 where
  pub id : ℤ
  pub task_id : String
  pub video_id : VideoId
  pub weather : Weather
  pub time_of_day : TimeOfDay
  pub road_surface : RoadSurface

pub record Label (F : Type 0) : Type 0 where
  pub task_id : String
  pub video_id : VideoId
  pub object_class : ObjectClass
  pub obj_count : ObjectCount
  pub confidence : Confidence F
  pub labeled_at : Datetime

pub record Rejection : Type 0 where
  pub task_id : String
  pub stage : Stage
  pub reason : RejectionReason
  pub source_id : String
  pub field : String
  pub detail : String
  pub created_at : Datetime

pub record RejectionCriteria : Type 0 where
  pub task_id : Option String
  pub stage : Option Stage
  pub reason : Option RejectionReason
  pub source_id : Option String
  pub field : Option String
  pub page : Option ℕ
  pub size : ℕ
  pub after : Option ℤ

pub record DataSearchCriteria (F : Type 0) : Type 0 where
  pub task_id : Option String
  pub recorded_at_from : Option Datetime
  pub recorded_at_to : Option Datetime
  pub min_temperature : Option F
  pub max_temperature : Option F
  pub headlights_on : Option Bool
  pub weather : Option Weather
  pub time_of_day : Option TimeOfDay
  pub road_surface : Option RoadSurface
  pub object_class : Option ObjectClass
  pub min_obj_count : Option ℕ
  pub min_confidence : Option F
  pub page : Option ℕ
  pub size : ℕ
  pub after : Option ℤ

pub record AnalysisResult : Type 0 where
  pub selection : StageResult
  pub odd_tagging : StageResult
  pub auto_labeling : StageResult
  pub fully_linked : ℕ
  pub partial : ℕ

pub record SearchResult (F : Type 0) : Type 0 where
  pub selection : Selection F
  pub odd_tag : Option OddTag
  pub labels : List (Label F)

pub record OutboxCriteria : Type 0 where
  pub status : OutboxStatus
  pub before : Option Datetime
  pub limit : ℕ

-- The call of `OddTag` with its `__post_init__`.
unfoldable pub new_odd_tag :
    ℤ → String → VideoId → Weather → TimeOfDay → RoadSurface → Result OddTag
new_odd_tag id task_id video_id weather time_of_day road_surface = do
  raise_if (leb_ℤ id (pos 0))
      (domain invalid_odd_tag_error (str_append "id는 양수여야 합니다: " (str_int id)))
  ok (record {
    id = id;
    task_id = task_id;
    video_id = video_id;
    weather = weather;
    time_of_day = time_of_day;
    road_surface = road_surface;
  })

-- The call of `Rejection` with its `__post_init__`.
unfoldable pub new_rejection :
    String → Stage → RejectionReason → String → String → String → Datetime → Result Rejection
new_rejection task_id stage reason source_id field detail created_at = do
  raise_if (str_eq source_id "") (domain invalid_format_error "source_id는 비어있을 수 없습니다")
  raise_if (str_eq detail "") (domain invalid_format_error "detail은 비어있을 수 없습니다")
  ok (record {
    task_id = task_id;
    stage = stage;
    reason = reason;
    source_id = source_id;
    field = field;
    detail = detail;
    created_at = created_at;
  })

unfoldable pub is_hazardous : OddTag → Bool
is_hazardous o =
    enum_in road_surface_enum o.road_surface (icy ∷ RoadSurface.snowy ∷ [])
    || enum_eq weather_enum o.weather Weather.snowy

unfoldable pub is_low_visibility : OddTag → Bool
is_low_visibility o =
    enum_eq time_of_day_enum o.time_of_day night
    || enum_in weather_enum o.weather (rainy ∷ Weather.snowy ∷ [])

abbrev pub has_objects : {F : Type 0} → Label F → Bool
has_objects l = not (is_empty l.obj_count)

module _ {F : Type 0} ⦃py : Runtime F⦄ where
  abbrev pub is_night_driving : Selection F → Bool
  is_night_driving s = s.headlights_on

  unfoldable pub is_adverse_weather_likely : Selection F → Bool
  is_adverse_weather_likely s =
      is_raining_likely s.wiper || py.lt s.temperature.celsius (py.hundredths (pos 0))

  abbrev pub is_reliable : Label F → F → Bool
  is_reliable l threshold = is_high l.confidence threshold
