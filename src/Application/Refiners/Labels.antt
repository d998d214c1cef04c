-- ===== src/Application/Refiners/Labels.antt =====
-- app/application/label_refiner.py.
pub mod Outcome
use Prim.Native.String.{◌++◌ as str_append}
use pipeline_server.Prelude.{String, Bool, true, false, ◌||◌, not, if◌then◌else◌}
use pipeline_server.Prelude.Int.{ℤ}
use pipeline_server.Result.{Result, ok, err, ◌>>=◌}
use pipeline_server.Domain.Errors.{
  Exc, domain, builtin, value_error, type_error, negative_count_error, exc_text,
}
use pipeline_server.Domain.Enums.{
  Stage, auto_labeling, ObjectClass, object_class_enum, RejectionReason, fractional_obj_count,
  negative_obj_count,
}
use pipeline_server.Domain.Values.{
  VideoId, new_video_id, ObjectCount, new_object_count, Confidence, new_confidence,
}
use pipeline_server.Domain.Models.{Label}
use pipeline_server.Python.{
  Entries, Value, string, null, Runtime, Datetime, item, get, find_key, to_int, to_float,
  int_of_float,
}
use pipeline_server.Effects.{Action}
use pipeline_server.Domain.Ports.{Clock}
use pipeline_server.Application.Phases.{Refined, all_rejected, refined}
use pipeline_server.Application.Refiners.{
  with_now, Parsed, parsed, Collected, complete, incomplete, collect_first, collect, is_bad_field,
  refuse, parse, Place, reject, reject_field, parse_enum, parse_datetime,
}

-- `except (ValueError, TypeError, NegativeCountError)`
abbrev pub is_bad_count : Exc → Bool
is_bad_count (builtin value_error message) = true
is_bad_count (builtin type_error message) = true
is_bad_count (domain negative_count_error message) = true
is_bad_count _ = false

module _ {F : Type 0} ⦃py : Runtime F⦄ (task_id : String) (row : Entries F) (t : Datetime) where
  abbrev pub label_place : Place
  label_place = record {
    task_id = task_id;
    stage = auto_labeling;
    source_id =
        str_append (py.str (get row "video_id" (string "?")))
          (str_append ":" (py.str (get row "object_class" (string "?"))));
    time = t;
  }

  -- `VideoId(int(row["video_id"]))`
  unfoldable pub label_video_id : Result VideoId
  unfolding item find_key to_int new_video_id
  label_video_id = do v ← item row "video_id"; n ← to_int v; new_video_id n

  unfoldable pub parse_label_video_id : Result (Parsed VideoId)
  unfolding label_video_id parse
  parse_label_video_id = parse label_video_id is_bad_field (reject_field label_place row "video_id")

  abbrev pub counted : Result ObjectCount → Result (Parsed ObjectCount)
  counted (ok c) = ok (parsed c)
  counted (err e) =
      if is_bad_count e
      then refuse (reject label_place "obj_count" negative_obj_count (exc_text e))
      else err e

  abbrev pub whole_count : F → ℤ → Result (Parsed ObjectCount)
  whole_count raw n =
      if py.equals_int raw n
      then counted (new_object_count n)
      else refuse (
          reject label_place "obj_count" fractional_obj_count
            (str_append "obj_count가 소수점: " (py.str (get row "obj_count" null))))

  -- the statements of `_parse_obj_count` after the float is read; `int(raw)` may raise there
  unfoldable pub count_of : F → Result (Parsed ObjectCount)
  unfolding int_of_float new_object_count reject
  count_of raw = int_of_float raw >>= whole_count raw

  abbrev pub raw_count : Result F → Result (Parsed ObjectCount)
  raw_count (ok raw) = count_of raw
  raw_count (err e) =
      if is_bad_field e then refuse (reject_field label_place row "obj_count") else err e

  unfoldable pub parse_obj_count : Result (Parsed ObjectCount)
  unfolding item find_key to_float count_of
  parse_obj_count = raw_count (item row "obj_count" >>= to_float)

  unfoldable pub parse_confidence : Result (Parsed (Confidence F))
  unfolding item find_key to_float new_confidence parse
  parse_confidence =
      parse (item row "avg_confidence" >>= to_float >>= new_confidence) is_bad_field
        (reject_field label_place row "avg_confidence")

  abbrev pub label_from :
      Collected ((((VideoId × ObjectClass) × ObjectCount) × Confidence F) × Datetime)
      → Refined (Label F)
  label_from (incomplete rejections) = all_rejected rejections
  label_from (complete ((((video_id, object_class), obj_count), confidence), labeled_at)) =
      refined (record {
        task_id = task_id;
        video_id = video_id;
        object_class = object_class;
        obj_count = obj_count;
        confidence = confidence;
        labeled_at = labeled_at;
      })

  -- `refine_single` after its reading of the clock
  unfoldable pub refine_label_row : Result (Refined (Label F))
  unfolding parse_label_video_id parse_enum parse_obj_count parse_confidence parse_datetime
  refine_label_row = do
    video_id ← parse_label_video_id
    object_class ← parse_enum label_place row object_class_enum "object_class"
    obj_count ← parse_obj_count
    confidence ← parse_confidence
    labeled_at ← parse_datetime label_place row "labeled_at"
    ok (
        label_from (
          collect
            (collect (collect (collect (collect_first video_id) object_class) obj_count) confidence)
            labeled_at))

-- `LabelRefiner.refine_single`
unfoldable pub label_refine_single :
    {S F : Type 0} ⦃py : Runtime F⦄ → Clock S → String → Entries F → Action S (Refined (Label F))
unfolding refine_label_row
label_refine_single clock task_id row = with_now clock (λ t. refine_label_row task_id row t)
