-- ===== src/Application/Refiners/Selections/Outcome.antt =====
-- What the refinement of a selection's row gives, in either schema.
use pipeline_server.Prelude.{String, ◌≡◌, Bool, true, false, ◌⊎◌}
use pipeline_server.Result.{Result}
use pipeline_server.Domain.Errors.{Exc, domain}
use pipeline_server.Domain.Models.{Selection}
use pipeline_server.Python.{Entries, Runtime, Datetime}
use pipeline_server.Application.Refiners.{Place}
use pipeline_server.Application.Refiners.Outcomes.{IsRefusalError, is_field_error}
use pipeline_server.Application.Refiners.Selections.{selection_place}
use pipeline_server.Application.Refiners.Selections.Ranges.{
  IsWiper, IsPositive, IsTemperature, IsVideo,
}

-- What the domain asks of a selection.
abbrev pub IsSelectionOf : {F : Type 0} ⦃py : Runtime F⦄ → String → Selection F → Type 0
IsSelectionOf task_id s =
    (s.task_id ≡ task_id)
    × IsPositive s.id
    × IsTemperature s.temperature
    × IsWiper s.wiper
    × IsVideo s.source_path

-- ValueErrors, KeyErrors, TypeErrors and domain errors: what this refiner turns into rejections.
abbrev pub is_row_error : Exc → Bool
is_row_error (domain c message) = true
is_row_error e = is_field_error e

-- What a row may raise: something else, or an error of `Rejection`.
abbrev pub SelectionEscapes : Exc → Type 0
SelectionEscapes e = (is_row_error e ≡ false) ⊎ IsRefusalError e

module _ {F : Type 0} ⦃py : Runtime F⦄ (task_id : String) (row : Entries F) (t : Datetime) where
  abbrev place : Place
  place = selection_place task_id row t

  abbrev E : Exc → Type 0
  E = SelectionEscapes
