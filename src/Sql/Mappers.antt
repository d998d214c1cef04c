-- ===== src/Sql/Mappers.antt =====
-- app/adapter/outbound/mysql/mappers.py: records of the domain as rows and as the dicts that an
-- INSERT takes, and rows as records of the domain, which raises on a row that the domain refuses.
pub mod RoundTrip
use pipeline_server.Prelude.{String, Option, some, none}
use pipeline_server.Prelude.Int.{ℤ}
use pipeline_server.Result.{Result, ok, or_raise, ◌>>=◌}
use pipeline_server.Domain.Errors.{value_error}
use pipeline_server.Domain.Enums.{
  StrEnum, from_value, weather_enum, time_of_day_enum, road_surface_enum, object_class_enum,
  stage_enum, rejection_reason_enum, weather_value, time_of_day_value, road_surface_value,
  object_class_value, stage_value, rejection_reason_value,
}
use pipeline_server.Domain.Values.{
  new_video_id, from_celsius, new_wiper_state, source_path_of, new_object_count, new_confidence,
}
use pipeline_server.Domain.Models.{Selection, OddTag, Label, Rejection, new_odd_tag, new_rejection}
use pipeline_server.Python.{
  Runtime, Datetime, Value, null, bool, int, float, string, date, Entries, end, entry, fault,
}
use pipeline_server.Sql.Entities.{SelectionEntity, OddTagEntity, LabelEntity, RejectionEntity}

abbrev pub int_or_null : {F : Type 0} → Option ℤ → Value F
int_or_null none = null
int_or_null (some n) = int n

-- `entity.created_at or datetime.now()`
abbrev pub or_now : Option Datetime → Datetime → Datetime
or_now none now = now
or_now (some t) now = t

unfoldable pub odd_tag_to_entity : OddTag → OddTagEntity
odd_tag_to_entity o = record {
  id = o.id;
  task_id = o.task_id;
  video_id = o.video_id.value;
  weather = weather_value o.weather;
  time_of_day = time_of_day_value o.time_of_day;
  road_surface = road_surface_value o.road_surface;
}

unfoldable pub rejection_to_entity : Rejection → RejectionEntity
rejection_to_entity r = record {
  id = none;
  task_id = r.task_id;
  stage = stage_value r.stage;
  reason = rejection_reason_value r.reason;
  source_id = r.source_id;
  field = r.field;
  detail = r.detail;
  created_at = some r.created_at;
}

module _ {F : Type 0} where
  unfoldable pub selection_to_entity : Selection F → SelectionEntity F
  selection_to_entity s = record {
    id = s.id.value;
    task_id = s.task_id;
    recorded_at = s.recorded_at;
    temperature_celsius = s.temperature.celsius;
    wiper_active = s.wiper.active;
    wiper_level = s.wiper.level;
    headlights_on = s.headlights_on;
    source_path = s.source_path.value;
  }

  unfoldable pub selection_to_dict : Selection F → Entries F
  selection_to_dict s = entry "id" (int s.id.value) (
      entry "task_id" (string s.task_id) (
        entry "recorded_at" (date s.recorded_at) (
          entry "temperature_celsius" (float s.temperature.celsius) (
            entry "wiper_active" (bool s.wiper.active) (
              entry "wiper_level" (int_or_null s.wiper.level) (
                entry "headlights_on" (bool s.headlights_on)
                  (entry "source_path" (string s.source_path.value) end)))))))

  unfoldable pub odd_tag_to_dict : OddTag → Entries F
  odd_tag_to_dict o = entry "task_id" (string o.task_id) (
      entry "video_id" (int o.video_id.value) (
        entry "weather" (string (weather_value o.weather)) (
          entry "time_of_day" (string (time_of_day_value o.time_of_day))
            (entry "road_surface" (string (road_surface_value o.road_surface)) end))))

  unfoldable pub label_to_entity : Label F → LabelEntity F
  label_to_entity lb = record {
    id = none;
    task_id = lb.task_id;
    video_id = lb.video_id.value;
    object_class = object_class_value lb.object_class;
    obj_count = lb.obj_count.value;
    avg_confidence = lb.confidence.value;
    labeled_at = lb.labeled_at;
  }

  unfoldable pub label_to_dict : Label F → Entries F
  label_to_dict lb = entry "task_id" (string lb.task_id) (
      entry "video_id" (int lb.video_id.value) (
        entry "object_class" (string (object_class_value lb.object_class)) (
          entry "obj_count" (int lb.obj_count.value) (
            entry "avg_confidence" (float lb.confidence.value)
              (entry "labeled_at" (date lb.labeled_at) end)))))

-- The call of an enumeration's class on a column. Where a definition holds no float, the type of
-- floats is an argument.
unfoldable pub column_enum :
    (F : Type 0) ⦃py : Runtime F⦄ {E : Type 0} → StrEnum E → String → Result E
column_enum F enum raw = or_raise (from_value enum raw) (fault {F = F} value_error (string raw))

module _ {F : Type 0} ⦃py : Runtime F⦄ where
  unfoldable pub selection_to_domain : SelectionEntity F → Result (Selection F)
  selection_to_domain entity = do
    id ← new_video_id entity.id
    temperature ← from_celsius entity.temperature_celsius
    wiper ← new_wiper_state entity.wiper_active entity.wiper_level
    source_path ← source_path_of {F = F} (string entity.source_path)
    ok (record {
      id = id;
      task_id = entity.task_id;
      recorded_at = entity.recorded_at;
      temperature = temperature;
      wiper = wiper;
      headlights_on = entity.headlights_on;
      source_path = source_path;
    })

  unfoldable pub label_to_domain : LabelEntity F → Result (Label F)
  unfolding column_enum
  label_to_domain entity = do
    video_id ← new_video_id entity.video_id
    object_class ← column_enum F object_class_enum entity.object_class
    obj_count ← new_object_count entity.obj_count
    confidence ← new_confidence entity.avg_confidence
    ok (record {
      task_id = entity.task_id;
      video_id = video_id;
      object_class = object_class;
      obj_count = obj_count;
      confidence = confidence;
      labeled_at = entity.labeled_at;
    })

unfoldable pub odd_tag_to_domain : (F : Type 0) ⦃py : Runtime F⦄ → OddTagEntity → Result OddTag
unfolding column_enum
odd_tag_to_domain F entity = do
  video_id ← new_video_id entity.video_id
  weather ← column_enum F weather_enum entity.weather
  time_of_day ← column_enum F time_of_day_enum entity.time_of_day
  road_surface ← column_enum F road_surface_enum entity.road_surface
  new_odd_tag entity.id entity.task_id video_id weather time_of_day road_surface

-- The last argument is what the clock shows.
unfoldable pub rejection_to_domain :
    (F : Type 0) ⦃py : Runtime F⦄ → RejectionEntity → Datetime → Result Rejection
unfolding column_enum
rejection_to_domain F entity now = do
  stage ← column_enum F stage_enum entity.stage
  reason ← column_enum F rejection_reason_enum entity.reason
  new_rejection entity.task_id stage reason entity.source_id entity.field entity.detail
      (or_now entity.created_at now)
