-- ===== src/Application/Refiners/OddTags.antt =====
-- app/application/odd_tag_refiner.py.
pub mod Outcome
use pipeline_server.Prelude.{String, Bool, true, false, str_eq, if◌then◌else◌}
use pipeline_server.Prelude.Int.{ℤ}
use pipeline_server.Result.{Result, ok, err, ◌>>=◌}
use pipeline_server.Effects.{Action}
use pipeline_server.Domain.Enums.{
  Stage, odd_tagging, weather_enum, time_of_day_enum, road_surface_enum, Weather, TimeOfDay,
  RoadSurface,
}
use pipeline_server.Domain.Values.{VideoId, new_video_id}
use pipeline_server.Domain.Models.{OddTag, new_odd_tag}
use pipeline_server.Python.{Entries, Value, string, Runtime, Datetime, item, get, find_key, to_int}
use pipeline_server.Domain.Ports.{Clock}
use pipeline_server.Application.Phases.{Refined, all_rejected, refined}
use pipeline_server.Application.Refiners.{
  with_now, Parsed, Collected, complete, incomplete, collect_first, collect, is_bad_field, parse,
  Place, reject_field, parse_enum,
}

-- `s.lstrip("0")`
unfoldable pub strip_zeros : String → String
strip_zeros String.[] = ""
strip_zeros (String.◌∷◌ c s) =
    if str_eq (String.◌∷◌ c "") "0" then strip_zeros s else String.◌∷◌ c s

-- `s or "0"`
abbrev pub or_zero : String → String
or_zero s = if str_eq s "" then "0" else s

module _ {F : Type 0} ⦃py : Runtime F⦄ (task_id : String) (row : Entries F) (t : Datetime) where
  abbrev pub odd_tag_place : Place
  odd_tag_place = record {
    task_id = task_id;
    stage = odd_tagging;
    source_id = py.str (get row "id" (string "?"));
    time = t;
  }

  unfoldable pub parse_int_field : String → Result (Parsed ℤ)
  unfolding item find_key to_int parse
  parse_int_field field =
      parse (item row field >>= to_int) is_bad_field (reject_field odd_tag_place row field)

  -- `VideoId(int(str(row["video_id"]).lstrip("0") or "0"))`
  unfoldable pub odd_video_id : Result VideoId
  unfolding item find_key to_int strip_zeros new_video_id
  odd_video_id = do
    v ← item row "video_id"
    n ← to_int {F = F} (string (or_zero (strip_zeros (py.str v))))
    new_video_id n

  unfoldable pub parse_odd_video_id : Result (Parsed VideoId)
  unfolding odd_video_id parse
  parse_odd_video_id = parse odd_video_id is_bad_field (reject_field odd_tag_place row "video_id")

  -- `return rejections` where there are any, or else the call of `OddTag`
  abbrev pub odd_tag_from :
      Collected ((((ℤ × VideoId) × Weather) × TimeOfDay) × RoadSurface) → Result (Refined OddTag)
  odd_tag_from (incomplete rejections) = ok (all_rejected rejections)
  odd_tag_from (complete ((((id, video_id), weather), time_of_day), road_surface)) = do
    tag ← new_odd_tag id task_id video_id weather time_of_day road_surface
    ok (refined tag)

  -- `refine_single` after its reading of the clock
  unfoldable pub refine_odd_row : Result (Refined OddTag)
  unfolding parse_int_field parse_odd_video_id parse_enum new_odd_tag
  refine_odd_row = do
    odd_id ← parse_int_field "id"
    video_id ← parse_odd_video_id
    weather ← parse_enum odd_tag_place row weather_enum "weather"
    time_of_day ← parse_enum odd_tag_place row time_of_day_enum "time_of_day"
    road_surface ← parse_enum odd_tag_place row road_surface_enum "road_surface"
    odd_tag_from (
        collect (collect (collect (collect (collect_first odd_id) video_id) weather) time_of_day)
          road_surface)

-- `OddTagRefiner.refine_single`
unfoldable pub odd_tag_refine_single :
    {S F : Type 0} ⦃py : Runtime F⦄ → Clock S → String → Entries F → Action S (Refined OddTag)
unfolding refine_odd_row
odd_tag_refine_single clock task_id row = with_now clock (λ t. refine_odd_row task_id row t)
