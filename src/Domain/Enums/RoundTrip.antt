-- ===== src/Domain/Enums/RoundTrip.antt =====
-- Every member of an enumeration is read from its value.
use pipeline_server.Prelude.{◌≡◌, refl, some, ap}
use pipeline_server.Domain.Enums.{
  StrEnum, from_value, Weather, TaskStatus, OutboxStatus, weather_enum, time_of_day_enum,
  road_surface_enum, object_class_enum, stage_enum, task_status_enum, outbox_status_enum,
  file_type_enum, rejection_reason_enum, car, day, dry, duplicate_tagging, json, selection,
}

-- Every member comes back from its string.
abbrev pub IsInverse : {E : Type 0} → StrEnum E → Type 0
IsInverse {E} enum = (e : E) → from_value enum (enum.value e) ≡ some e

pub Weather-IsInverse : IsInverse weather_enum
unfolding from_value
Weather-IsInverse Weather.sunny = refl
Weather-IsInverse _ = refl

pub TimeOfDay-IsInverse : IsInverse time_of_day_enum
unfolding from_value
TimeOfDay-IsInverse day = refl
TimeOfDay-IsInverse _ = refl

pub RoadSurface-IsInverse : IsInverse road_surface_enum
unfolding from_value
RoadSurface-IsInverse dry = refl
RoadSurface-IsInverse _ = refl

pub ObjectClass-IsInverse : IsInverse object_class_enum
unfolding from_value
ObjectClass-IsInverse car = refl
ObjectClass-IsInverse _ = refl

pub Stage-IsInverse : IsInverse stage_enum
unfolding from_value
Stage-IsInverse selection = refl
Stage-IsInverse _ = refl

pub TaskStatus-IsInverse : IsInverse task_status_enum
unfolding from_value
TaskStatus-IsInverse TaskStatus.pending = refl
TaskStatus-IsInverse _ = refl

pub OutboxStatus-IsInverse : IsInverse outbox_status_enum
unfolding from_value
OutboxStatus-IsInverse OutboxStatus.pending = refl
OutboxStatus-IsInverse _ = refl

pub FileType-IsInverse : IsInverse file_type_enum
unfolding from_value
FileType-IsInverse json = refl
FileType-IsInverse _ = refl

pub RejectionReason-IsInverse : IsInverse rejection_reason_enum
unfolding from_value
RejectionReason-IsInverse duplicate_tagging = refl
RejectionReason-IsInverse _ = refl

pub value-injective :
    {E : Type 0} (enum : StrEnum E)
    → IsInverse enum
    → (a b : E) → enum.value a ≡ enum.value b
    → a ≡ b
value-injective enum inverse a b h = cc (inverse a, inverse b, ap (from_value enum) h)
