-- ===== src/Tests/Refiners.antt =====
-- Rows of the small world, and the theorems on the refiners applied to them.
use pipeline_server.Effects.{Action}
use pipeline_server.Effects.Returns.{Returns}
use pipeline_server.Domain.Models.{OddTag, Label}
use pipeline_server.Application.Phases.{Refined, refine_odd_tag, refine_label}
use pipeline_server.Application.Phases.Links.{Linked, refine-Linked}
use pipeline_server.Prelude.{[], ◌∷◌, Bool, true, false, String, ◌≡◌, refl}
use pipeline_server.Prelude.Int.{ℤ, pos}
use pipeline_server.Result.{ok, err}
use pipeline_server.Domain.Errors.{domain, invalid_format_error}
use pipeline_server.Python.{
  Entries, end, entry, Value, dict, bool, string, int, float, item, to_int,
}
use pipeline_server.Application.Refiners.Outcomes.{Outcome, Yields, is_field_error}
use pipeline_server.Application.Refiners.OddTags.{
  odd_tag_refine_single, odd_tag_place, refine_odd_row,
}
use pipeline_server.Application.Refiners.OddTags.Outcome.{IsTagOf, refine_odd_row-Outcome}
use pipeline_server.Application.Refiners.Labels.{label_refine_single, label_place, refine_label_row}
use pipeline_server.Application.Refiners.Labels.Outcome.{
  IsLabelOf, LabelEscapes, refine_label_row-Outcome, refine_label_row-raises,
}
use pipeline_server.Tests.World.{World, clock, hundredths_runtime}

-- a good row, and one with an unknown weather
abbrev odd_row : String → Entries ℤ
odd_row weather = entry "id" (int (pos 3)) (
    entry "video_id" (string "007") (
      entry "weather" (string weather)
        (entry "time_of_day" (string "day") (entry "road_surface" (string "wet") end))))

refine_odd_row-Outcome_example :
    Yields
      (λ e. is_field_error e ≡ false)
      (Outcome (odd_tag_place ⦃py = hundredths_runtime⦄ "t1" (odd_row "hail") 9) (IsTagOf "t1"))
      (refine_odd_row ⦃py = hundredths_runtime⦄ "t1" (odd_row "hail") 9)
refine_odd_row-Outcome_example =
    refine_odd_row-Outcome ⦃py = hundredths_runtime⦄ "t1" (odd_row "hail") 9

abbrev label_row : ℤ → Entries ℤ
label_row video_id = entry "video_id" (int video_id) (
    entry "object_class" (string "car") (
      entry "obj_count" (float (pos 2))
        (entry "avg_confidence" (float (pos 90)) (entry "labeled_at" (string "2024-01-01") end))))

refine_label_row-Outcome_example :
    Yields
      (LabelEscapes ℤ ⦃py = hundredths_runtime⦄)
      (Outcome
        (label_place ⦃py = hundredths_runtime⦄ "t1" (label_row (pos 7)) 9)
        (IsLabelOf ⦃py = hundredths_runtime⦄ "t1"))
      (refine_label_row ⦃py = hundredths_runtime⦄ "t1" (label_row (pos 7)) 9)
refine_label_row-Outcome_example =
    refine_label_row-Outcome ⦃py = hundredths_runtime⦄ "t1" (label_row (pos 7)) 9

zero-found : item ⦃py = hundredths_runtime⦄ (label_row (pos 0)) "video_id" ≡ ok (int (pos 0))
unfolding item
zero-found = refl

zero-read : to_int ⦃py = hundredths_runtime⦄ (int (pos 0)) ≡ ok (pos 0)
unfolding to_int
zero-read = refl

refine_label_row-raises_example :
    refine_label_row ⦃py = hundredths_runtime⦄ "t1" (label_row (pos 0)) 9
    ≡ err (domain invalid_format_error "VideoId는 양수여야 합니다: 0")
unfolding pipeline_server.Prelude.Int.str_int
refine_label_row-raises_example =
    refine_label_row-raises ⦃py = hundredths_runtime⦄ "t1" (label_row (pos 0)) 9 (int (pos 0))
      (pos 0) zero-found zero-read refl

-- a selection in the second schema
abbrev selection_row : Value ℤ → Entries ℤ
selection_row wiper = entry "id" (int (pos 7)) (
    entry "recordedAt" (string "2024-01-01") (
      entry "sourcePath" (string "/raw/a.mp4") (
        entry "sensor"
          (dict (
            entry "temperature"
              (dict (entry "value" (float (pos 2000)) (entry "unit" (string "C") end)))
              (entry "wiper" wiper (entry "headlights" (bool true) end))))
          end)))

abbrev wiper_at : ℤ → Value ℤ
wiper_at level = dict (entry "isActive" (bool true) (entry "level" (int level) end))

-- the refiners as the phases call them
abbrev some_tags : String → Entries ℤ → Action World (Refined OddTag)
some_tags = odd_tag_refine_single ⦃py = hundredths_runtime⦄ clock

abbrev some_labels : String → Entries ℤ → Action World (Refined (Label ℤ))
some_labels = label_refine_single ⦃py = hundredths_runtime⦄ clock

refine-Linked_example :
    Returns
      (Linked (λ tag. tag.video_id.value) (pos 7 ∷ []))
      (refine_odd_tag clock some_tags "t1" (odd_row "rainy") (pos 7 ∷ []))
    × Returns
        (Linked (λ label. label.video_id.value) (pos 7 ∷ []))
        (refine_label clock some_labels "t1" (odd_row "rainy") (pos 7 ∷ []))
refine-Linked_example = refine-Linked clock "t1" (odd_row "rainy") (pos 7) [] some_tags some_labels
