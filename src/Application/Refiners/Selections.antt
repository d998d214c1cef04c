-- ===== src/Application/Refiners/Selections.antt =====
-- app/application/selection_refiner.py.
pub mod Ranges
pub mod Outcome
use Prim.Native.String.{◌++◌ as str_append}
use pipeline_server.Prelude.{
  String, Bool, true, false, Option, some, none, List, [], ◌∷◌, ◌++◌, str_eq, if◌then◌else◌,
}
use pipeline_server.Prelude.Int.{ℤ}
use pipeline_server.Result.{Result, ok, err, ◌>>=◌}
use pipeline_server.Domain.Errors.{Exc, domain, exc_text}
use pipeline_server.Domain.Enums.{
  Stage, selection, RejectionReason, invalid_format, missing_required_field, unknown_schema,
}
use pipeline_server.Domain.Values.{
  VideoId, video_id_of, Temperature, from_celsius, from_fahrenheit, WiperState, new_wiper_state,
  SourcePath, source_path_of,
}
use pipeline_server.Domain.Models.{Selection, Rejection}
use pipeline_server.Effects.{Action}
use pipeline_server.Domain.Ports.{Clock}
use pipeline_server.Python.{
  Value, array, string, dict, null, Entries, Runtime, Datetime, item, subscript, get, has_key,
  find_key, keys, to_int, to_float, to_datetime, truthy,
}
use pipeline_server.Application.Phases.{Refined, all_rejected, refined}
use pipeline_server.Application.Refiners.{
  with_now, Parsed, parsed, Collected, complete, incomplete, collect_first, collect, is_bad_field,
  refuse, Place, reject,
}

-- `except (DomainError, ValueError, KeyError, TypeError)`
abbrev pub is_bad_row : Exc → Bool
is_bad_row (domain c message) = true
is_bad_row e = is_bad_field e

-- `try: return … except … as e: …`
unfoldable pub parse_or : {A : Type 0} → Result A → (Exc → Result Rejection) → Result (Parsed A)
parse_or (ok a) rejection = ok (parsed a)
parse_or (err e) rejection = if is_bad_row e then refuse (rejection e) else err e

-- the rejections of the fields before it, and one more
abbrev pub end_with : {A : Type 0} → Collected A → Rejection → List Rejection
end_with (complete a) r = r ∷ []
end_with (incomplete rs) r = rs ++ (r ∷ [])

module _ {F : Type 0} ⦃py : Runtime F⦄ (task_id : String) (row : Entries F) (t : Datetime) where
  abbrev pub selection_place : Place
  selection_place = record {
    task_id = task_id;
    stage = selection;
    source_id = py.str (get row "id" (string "?"));
    time = t;
  }

  -- f"{name} 파싱 불가: {e}"
  abbrev pub unparsed : String → String → Exc → Result Rejection
  unparsed field name e =
      reject selection_place field invalid_format
        (str_append name (str_append " 파싱 불가: " (exc_text e)))

  unfoldable pub parse_selection_id : String → Result (Parsed VideoId)
  unfolding item find_key video_id_of parse_or reject
  parse_selection_id field = parse_or (item row field >>= video_id_of) (unparsed field field)

  unfoldable pub parse_recorded_at : String → Result (Parsed Datetime)
  unfolding item find_key to_datetime parse_or reject
  parse_recorded_at field = parse_or (item row field >>= to_datetime) (unparsed field field)

  unfoldable pub parse_source_path : String → Result (Parsed SourcePath)
  unfolding item find_key source_path_of parse_or reject
  parse_source_path field = parse_or (item row field >>= source_path_of) (unparsed field field)

  unfoldable pub parse_temperature_celsius : String → Result (Parsed (Temperature F))
  unfolding item find_key to_float from_celsius parse_or reject
  parse_temperature_celsius field =
      parse_or (item row field >>= to_float >>= from_celsius) (unparsed field field)

  abbrev pub missing : {A : Type 0} → String → Result (Parsed A)
  missing field =
      refuse (reject selection_place field missing_required_field (str_append field " 누락"))

  abbrev pub bool_of : String → Option (Value F) → Result (Parsed Bool)
  bool_of field none = missing field
  bool_of field (some v) = ok (parsed (truthy v))

  -- `_parse_bool` of a field of the row or of the sensor
  unfoldable pub parse_bool : Entries F → String → Result (Parsed Bool)
  unfolding find_key truthy reject
  parse_bool fields field = bool_of field (find_key field fields)

  abbrev pub v1_wiper_of : Option (Value F) → Result (Parsed WiperState)
  v1_wiper_of none = missing "isWiperOn"
  v1_wiper_of (some v) = do w ← new_wiper_state (truthy v) none; ok (parsed w)

  unfoldable pub parse_v1_wiper : Result (Parsed WiperState)
  unfolding find_key truthy new_wiper_state reject
  parse_v1_wiper = v1_wiper_of (find_key "isWiperOn" row)

  -- `temp_data.get("unit", "F")` of what has a value, so is a dict
  abbrev pub unit_of : Value F → Value F
  unit_of (dict d) = get d "unit" (string "F")
  unit_of v = null

  -- the temperature in its unit; `none` is an unknown unit
  abbrev pub in_unit : Value F → Value F → Result (Option (Temperature F))
  in_unit value (string unit) =
      if str_eq unit "F"
      then (from_fahrenheit value >>= λ c. ok (some c))
      else if str_eq unit "C"
      then (to_float value >>= from_celsius >>= λ c. ok (some c))
      else ok none
  in_unit value unit = ok none

  unfoldable pub v2_temperature : Entries F → Result (Option (Temperature F) × Value F)
  unfolding item find_key subscript to_float from_celsius from_fahrenheit
  v2_temperature sensor = do
    temp_data ← item sensor "temperature"
    value ← subscript temp_data "value"
    c ← in_unit value (unit_of temp_data)
    ok (c, unit_of temp_data)

  abbrev pub temperature_or_unit :
      Result (Option (Temperature F) × Value F) → Result (Parsed (Temperature F))
  temperature_or_unit (ok (some c, unit)) = ok (parsed c)
  temperature_or_unit (ok (none, unit)) = refuse (
      reject selection_place "sensor.temperature.unit" invalid_format
        (str_append "알 수 없는 온도 단위: " (py.str unit)))
  temperature_or_unit (err e) =
      if is_bad_row e then refuse (unparsed "sensor.temperature" "temperature" e) else err e

  unfoldable pub parse_v2_temperature : Entries F → Result (Parsed (Temperature F))
  unfolding v2_temperature reject
  parse_v2_temperature sensor = temperature_or_unit (v2_temperature sensor)

  unfoldable pub v2_wiper : Entries F → Result WiperState
  unfolding item find_key subscript truthy to_int new_wiper_state
  v2_wiper sensor = do
    wiper_data ← item sensor "wiper"
    active ← subscript wiper_data "isActive"
    level ← subscript wiper_data "level"
    n ← to_int level
    new_wiper_state (truthy active) (some n)

  unfoldable pub parse_v2_wiper : Entries F → Result (Parsed WiperState)
  unfolding v2_wiper parse_or reject
  parse_v2_wiper sensor = parse_or (v2_wiper sensor) (unparsed "sensor.wiper" "wiper")

  abbrev pub selection_from :
      Collected (((((VideoId × Datetime) × SourcePath) × Temperature F) × WiperState) × Bool)
      → Refined (Selection F)
  selection_from (incomplete rejections) = all_rejected rejections
  selection_from
        (complete (((((id, recorded_at), source_path), temperature), wiper), headlights_on)) =
      refined (record {
        id = id;
        task_id = task_id;
        recorded_at = recorded_at;
        temperature = temperature;
        wiper = wiper;
        headlights_on = headlights_on;
        source_path = source_path;
      })

  abbrev pub v1_from :
      Collected (((((VideoId × Datetime) × Temperature F) × WiperState) × Bool) × SourcePath)
      → Refined (Selection F)
  v1_from (incomplete rejections) = all_rejected rejections
  v1_from (complete (((((id, recorded_at), temperature), wiper), headlights_on), source_path)) =
      selection_from
        (complete (((((id, recorded_at), source_path), temperature), wiper), headlights_on))

  unfoldable pub refine_v1 : Result (Refined (Selection F))
  unfolding parse_selection_id parse_recorded_at parse_temperature_celsius parse_v1_wiper parse_bool
      parse_source_path
  refine_v1 = do
    video_id ← parse_selection_id "id"
    recorded_at ← parse_recorded_at "recordedAt"
    temperature ← parse_temperature_celsius "temperature"
    wiper ← parse_v1_wiper
    headlights_on ← parse_bool row "headlightsOn"
    source_path ← parse_source_path "sourcePath"
    ok (
        v1_from (
          collect
            (collect
              (collect (collect (collect (collect_first video_id) recorded_at) temperature) wiper)
              headlights_on)
            source_path))

  -- `_refine_v2` once the first three fields are parsed
  abbrev pub refine_sensor :
      Collected ((VideoId × Datetime) × SourcePath) → Value F → Result (Refined (Selection F))
  refine_sensor fields (dict sensor) = do
    temperature ← parse_v2_temperature sensor
    wiper ← parse_v2_wiper sensor
    headlights_on ← parse_bool sensor "headlights"
    ok (selection_from (collect (collect (collect fields temperature) wiper) headlights_on))
  refine_sensor fields v = do
    r ← reject selection_place "sensor" invalid_format "sensor 필드가 유효하지 않음"
    ok (all_rejected (end_with fields r))

  unfoldable pub refine_v2 : Result (Refined (Selection F))
  unfolding find_key parse_selection_id parse_recorded_at parse_source_path parse_v2_temperature
      parse_v2_wiper parse_bool reject
  refine_v2 = do
    video_id ← parse_selection_id "id"
    recorded_at ← parse_recorded_at "recordedAt"
    source_path ← parse_source_path "sourcePath"
    refine_sensor (collect (collect (collect_first video_id) recorded_at) source_path)
        (get row "sensor" null)

  -- `_detect_schema`, and the strategy of the schema
  unfoldable pub refine_selection_row : Result (Refined (Selection F))
  unfolding find_key keys refine_v1 refine_v2 reject
  refine_selection_row =
      if has_key "sensor" row
      then refine_v2
      else if has_key "temperature" row
      then refine_v1
      else (do
        r ←
            reject selection_place "schema" unknown_schema
              (str_append "알 수 없는 스키마: " (py.str (array (keys row))))
        ok (all_rejected (r ∷ [])))

-- `SelectionRefiner.refine_single`
unfoldable pub selection_refine_single :
    {S F : Type 0} ⦃py : Runtime F⦄
    → Clock S
    → String
    → Entries F
    → Action S (Refined (Selection F))
unfolding refine_selection_row
selection_refine_single clock task_id row = with_now clock (λ t. refine_selection_row task_id row t)
