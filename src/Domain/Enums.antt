-- ===== src/Domain/Enums.antt =====
-- app/domain/enums.py: the string enumerations. `value` is the string of a member, and
-- `from_value` is the call of the class, `Weather("sunny")`: `none` is its ValueError.
pub mod RoundTrip
use pipeline_server.Prelude.{
  String, Bool, true, false, Option, some, none, List, [], ◌∷◌, str_eq, if◌then◌else◌,
}

-- What `enum.StrEnum` makes of the members that a class lists.
pub record StrEnum (E : Type 0) : Type 0 where
  pub members : List E
  pub value : E → String

module _ {E : Type 0} where
  unfoldable pub find_value : (E → String) → List E → String → Option E
  find_value value [] raw = none
  find_value value (e ∷ es) raw = if str_eq (value e) raw then some e else find_value value es raw

-- The call of a class on a string, as in `enum_cls(row[field])`.
unfoldable pub from_value : {E : Type 0} → StrEnum E → String → Option E
unfolding find_value
from_value enum = find_value enum.value enum.members

pub data Weather : Type 0 where
  sunny cloudy rainy snowy : Weather

abbrev pub weather_value : Weather → String
weather_value sunny = "sunny"
weather_value cloudy = "cloudy"
weather_value rainy = "rainy"
weather_value snowy = "snowy"

pub data TimeOfDay : Type 0 where
  day night : TimeOfDay

abbrev pub time_of_day_value : TimeOfDay → String
time_of_day_value day = "day"
time_of_day_value night = "night"

pub data RoadSurface : Type 0 where
  dry wet snowy icy : RoadSurface

abbrev pub road_surface_value : RoadSurface → String
road_surface_value dry = "dry"
road_surface_value wet = "wet"
road_surface_value snowy = "snowy"
road_surface_value icy = "icy"

pub data ObjectClass : Type 0 where
  car pedestrian traffic_sign traffic_light truck bus cyclist motorcycle : ObjectClass

abbrev pub object_class_value : ObjectClass → String
object_class_value car = "car"
object_class_value pedestrian = "pedestrian"
object_class_value traffic_sign = "traffic_sign"
object_class_value traffic_light = "traffic_light"
object_class_value truck = "truck"
object_class_value bus = "bus"
object_class_value cyclist = "cyclist"
object_class_value motorcycle = "motorcycle"

pub data Stage : Type 0 where
  selection odd_tagging auto_labeling : Stage

abbrev pub stage_value : Stage → String
stage_value selection = "selection"
stage_value odd_tagging = "odd_tagging"
stage_value auto_labeling = "auto_labeling"

pub data TaskStatus : Type 0 where
  pending processing completed failed : TaskStatus

abbrev pub task_status_value : TaskStatus → String
task_status_value pending = "pending"
task_status_value processing = "processing"
task_status_value completed = "completed"
task_status_value failed = "failed"

pub data OutboxStatus : Type 0 where
  pending processing published failed : OutboxStatus

abbrev pub outbox_status_value : OutboxStatus → String
outbox_status_value pending = "pending"
outbox_status_value processing = "processing"
outbox_status_value published = "published"
outbox_status_value failed = "failed"

pub data FileType : Type 0 where
  json csv : FileType

abbrev pub file_type_value : FileType → String
file_type_value json = "json"
file_type_value csv = "csv"

pub data RejectionReason : Type 0 where
  duplicate_tagging duplicate_label negative_obj_count fractional_obj_count : RejectionReason
  invalid_format unknown_schema missing_required_field invalid_enum_value : RejectionReason
  unlinked_record : RejectionReason

abbrev pub rejection_reason_value : RejectionReason → String
rejection_reason_value duplicate_tagging = "duplicate_tagging"
rejection_reason_value duplicate_label = "duplicate_label"
rejection_reason_value negative_obj_count = "negative_obj_count"
rejection_reason_value fractional_obj_count = "fractional_obj_count"
rejection_reason_value invalid_format = "invalid_format"
rejection_reason_value unknown_schema = "unknown_schema"
rejection_reason_value missing_required_field = "missing_required_field"
rejection_reason_value invalid_enum_value = "invalid_enum_value"
rejection_reason_value unlinked_record = "unlinked_record"

abbrev pub weather_enum : StrEnum Weather
weather_enum = record {
  members = Weather.sunny ∷ cloudy ∷ rainy ∷ Weather.snowy ∷ [];
  value = weather_value;
}

abbrev pub time_of_day_enum : StrEnum TimeOfDay
time_of_day_enum = record { members = day ∷ night ∷ []; value = time_of_day_value }

abbrev pub road_surface_enum : StrEnum RoadSurface
road_surface_enum = record {
  members = dry ∷ wet ∷ RoadSurface.snowy ∷ icy ∷ [];
  value = road_surface_value;
}

abbrev pub object_class_enum : StrEnum ObjectClass
object_class_enum = record {
  members =
      car ∷ pedestrian ∷ traffic_sign ∷ traffic_light ∷ truck ∷ bus ∷ cyclist ∷ motorcycle ∷ [];
  value = object_class_value;
}

abbrev pub stage_enum : StrEnum Stage
stage_enum = record { members = selection ∷ odd_tagging ∷ auto_labeling ∷ []; value = stage_value }

abbrev pub task_status_enum : StrEnum TaskStatus
task_status_enum = record {
  members = TaskStatus.pending ∷ TaskStatus.processing ∷ completed ∷ TaskStatus.failed ∷ [];
  value = task_status_value;
}

abbrev pub outbox_status_enum : StrEnum OutboxStatus
outbox_status_enum = record {
  members = OutboxStatus.pending ∷ OutboxStatus.processing ∷ published ∷ OutboxStatus.failed ∷ [];
  value = outbox_status_value;
}

abbrev pub file_type_enum : StrEnum FileType
file_type_enum = record { members = json ∷ csv ∷ []; value = file_type_value }

abbrev pub rejection_reason_enum : StrEnum RejectionReason
rejection_reason_enum = record {
  members =
      duplicate_tagging ∷ duplicate_label ∷ negative_obj_count ∷ fractional_obj_count
      ∷ invalid_format ∷ unknown_schema ∷ missing_required_field ∷ invalid_enum_value
      ∷ unlinked_record ∷ [];
  value = rejection_reason_value;
}

-- `a in (…)` and `a == b` between members.
module _ {E : Type 0} (enum : StrEnum E) where
  abbrev pub enum_eq : E → E → Bool
  enum_eq a b = str_eq (enum.value a) (enum.value b)

  abbrev pub enum_in : E → List E → Bool
  enum_in a [] = false
  enum_in a (b ∷ bs) = if enum_eq a b then true else enum_in a bs
