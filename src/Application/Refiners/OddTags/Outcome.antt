-- ===== src/Application/Refiners/OddTags/Outcome.antt =====
-- What the refinement of an ODD tag's row gives.
use pipeline_server.Prelude.{String, ◌≡◌, refl, false, inl, inr}
use pipeline_server.Prelude.Int.{ℤ, pos, leb_ℤ}
use pipeline_server.Domain.Errors.{Exc}
use pipeline_server.Domain.Enums.{
  Weather, TimeOfDay, RoadSurface, weather_enum, time_of_day_enum, road_surface_enum,
}
use pipeline_server.Domain.Values.{VideoId, new_video_id}
use pipeline_server.Domain.Models.{OddTag, new_odd_tag}
use pipeline_server.Python.{string, item, to_int, Entries, Runtime, Datetime}
use pipeline_server.Application.Refiners.{Collected, complete, Place, is_bad_field}
use pipeline_server.Application.Refiners.OddTags.{
  odd_tag_place, or_zero, strip_zeros, parse_int_field, odd_video_id, parse_odd_video_id,
  odd_tag_from, refine_odd_row,
}
use pipeline_server.Application.Refiners.Outcomes.{
  Outcome, Field, Fields, values, refusals, Gives, Gives-bind, anything, IsRefusalError,
  is_field_error, bad_field-is_field_error, Yields, yields, Yields-bind, Yields-raise_if,
  reject-Belongs, parse-Field, collect_first-Fields, collect-Fields, new_video_id-positive,
  parse_enum-Field,
}

-- What the domain asks of a tag.
abbrev pub IsTagOf : String → OddTag → Type 0
IsTagOf task_id tag =
    (tag.task_id ≡ task_id)
    × (leb_ℤ tag.id (pos 0) ≡ false)
    × (leb_ℤ tag.video_id.value (pos 0) ≡ false)

module _ {F : Type 0} ⦃py : Runtime F⦄ (task_id : String) (row : Entries F) (t : Datetime) where
  abbrev place : Place
  place = odd_tag_place task_id row t

  -- what may escape: any error but those three
  abbrev Escapes : Exc → Type 0
  Escapes e = is_field_error e ≡ false

  of_refusal : (e : Exc) → IsRefusalError e → Escapes e
  of_refusal e (inl h) = rw h refl
  of_refusal e (inr h) = rw h refl

  parse_int_field-Field :
      (field : String)
      → Yields Escapes (Field place (λ _. Unit)) (parse_int_field task_id row t field)
  unfolding parse_int_field
  parse_int_field-Field field =
      parse-Field Escapes of_refusal place is_bad_field bad_field-is_field_error (anything _)
        (reject-Belongs Escapes of_refusal place field _ _)

  odd_video_id-positive : Gives (λ v. leb_ℤ v.value (pos 0) ≡ false) (odd_video_id task_id row t)
  unfolding odd_video_id
  odd_video_id-positive = Gives-bind _ (anything (item row "video_id")) λ v _.
      Gives-bind new_video_id
        (anything (to_int {F = F} (string (or_zero (strip_zeros (py.str v))))))
        (λ n _. new_video_id-positive n)

  parse_odd_video_id-Field :
      Yields Escapes
        (Field place (λ v. leb_ℤ v.value (pos 0) ≡ false))
        (parse_odd_video_id task_id row t)
  unfolding parse_odd_video_id
  parse_odd_video_id-Field =
      parse-Field Escapes of_refusal place is_bad_field bad_field-is_field_error
        odd_video_id-positive (reject-Belongs Escapes of_refusal place "video_id" _ _)

  odd_tag_from-Outcome :
      {c : Collected ((((ℤ × VideoId) × Weather) × TimeOfDay) × RoadSurface)}
      → Fields place
          (λ x.
            (((Unit {0} × (leb_ℤ x.0.0.0.1.value (pos 0) ≡ false)) × Unit {0}) × Unit {0})
            × Unit {0})
          c
      → Yields Escapes (Outcome place (IsTagOf task_id)) (odd_tag_from task_id row t c)
  unfolding new_odd_tag
  odd_tag_from-Outcome (refusals hs) = yields (λ e. cc, hs)
  odd_tag_from-Outcome {c = complete ((((id, video_id), weather), time_of_day), road_surface)}
        (values p) =
      Yields-bind _
        (Yields-raise_if {Q = IsTagOf task_id} (leb_ℤ id (pos 0)) _ refl
          (λ h. yields (refl, h, p.0.0.0.1)))
        (λ tag h. yields h)

  refined_row : Yields Escapes (Outcome place (IsTagOf task_id)) (refine_odd_row task_id row t)
  unfolding refine_odd_row
  refined_row = Yields-bind _ (parse_int_field-Field "id") λ a ha.
      Yields-bind _ parse_odd_video_id-Field λ b hb.
        Yields-bind _
          (parse_enum-Field Escapes of_refusal bad_field-is_field_error place row weather_enum
            "weather")
          λ c hc.
            Yields-bind _
              (parse_enum-Field Escapes of_refusal bad_field-is_field_error place row
                time_of_day_enum "time_of_day")
              λ d hd.
                Yields-bind _
                  (parse_enum-Field Escapes of_refusal bad_field-is_field_error place row
                    road_surface_enum "road_surface")
                  λ e he. odd_tag_from-Outcome (
                    collect-Fields place
                      (collect-Fields place
                        (collect-Fields place
                          (collect-Fields place (collect_first-Fields place ha) hb) hc)
                        hd)
                      he)

-- Every row gives a tag of the task with a positive id and a positive video id, or a list of
-- rejections that is not empty, all of the task, the stage and the source id of the row, or else
-- raises an exception that is no ValueError, KeyError or TypeError.
pub refine_odd_row-Outcome :
    {F : Type 0} ⦃py : Runtime F⦄ (task_id : String) (row : Entries F) (t : Datetime)
    → Yields
        (λ e. is_field_error e ≡ false)
        (Outcome (odd_tag_place task_id row t) (IsTagOf task_id))
        (refine_odd_row task_id row t)
refine_odd_row-Outcome task_id row t = refined_row task_id row t
