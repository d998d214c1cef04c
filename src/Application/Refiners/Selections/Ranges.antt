-- ===== src/Application/Refiners/Selections/Ranges.antt =====
-- app/domain/value_objects.py: the ranges that the parts of a selection have, whichever way the
-- refinement makes them.
use pipeline_server.Prelude.{
  String, ◌≡◌, refl, Bool, true, false, Option, some, none, not, ◌||◌, str_eq, if◌then◌else◌,
}
use pipeline_server.Prelude.Int.{ℤ, pos, negsuc, leb_ℤ}
use pipeline_server.Result.{Result, ok, err, or_raise, ◌>>=◌, ◌>>◌}
use pipeline_server.Domain.Errors.{Exc}
use pipeline_server.Domain.Values.{
  VideoId, video_id_of, Temperature, WiperState, check_wiper, new_wiper_state, SourcePath,
  new_temperature, from_celsius, from_fahrenheit, source_path_of, ends_with,
}
use pipeline_server.Python.{
  Value, null, bool, int, float, string, date, array, dict, Entries, Runtime, Datetime, to_float,
  truthy,
}
use pipeline_server.Application.Refiners.Outcomes.{
  Gives, gives, raises, Gives-bind, anything, Gives-raise_if, new_video_id-positive,
}
use pipeline_server.Application.Refiners.Selections.{in_unit}

-- A state that the checks of `WiperState` let through.
abbrev pub IsWiper : WiperState → Type 0
IsWiper w = check_wiper w.active w.level ≡ ok tt

abbrev pub IsPositive : VideoId → Type 0
IsPositive v = leb_ℤ v.value (pos 0) ≡ false

-- A temperature that is a number from -90 to 60 degrees.
abbrev pub IsTemperature : {F : Type 0} ⦃py : Runtime F⦄ → Temperature F → Type 0
IsTemperature ⦃py = py⦄ c =
    (py.is_nan c.celsius ≡ false)
    × (py.is_inf c.celsius ≡ false)
    × (py.lt c.celsius (py.hundredths (negsuc 8999)) ≡ false)
    × (py.lt (py.hundredths (pos 6000)) c.celsius ≡ false)

abbrev pub IsVideo : SourcePath → Type 0
IsVideo p = (str_eq p.value "" ≡ false) × (ends_with p.value ".mp4" ≡ true)

neither : (a b : Bool) → (a || b) ≡ false → (a ≡ false) × (b ≡ false)
neither true b h = cc
neither false b h = (refl, h)

false-of_not : (b : Bool) → not b ≡ false → b ≡ true
false-of_not true h = refl
false-of_not false h = cc

Gives-after :
    {B : Type 0} {Q : B → Type 0} (check : Result (Unit {0})) {r : Result B}
    → (check ≡ ok tt → Gives Q r)
    → Gives Q (check >> r)
Gives-after (ok tt) h = h refl
Gives-after (err e) h = raises

no_path : (b : Bool) (e e' : Exc) → Gives IsVideo (if b then err e else err e')
no_path true e e' = raises
no_path false e e' = raises

pub new_wiper_state-IsWiper :
    (active : Bool) (level : Option ℤ) → Gives IsWiper (new_wiper_state active level)
unfolding new_wiper_state
new_wiper_state-IsWiper active level = Gives-after (check_wiper active level) (λ h. gives h)

module _ {F : Type 0} ⦃py : Runtime F⦄ where
  pub video_id_of-IsPositive : (v : Value F) → Gives IsPositive (video_id_of v)
  unfolding video_id_of
  video_id_of-IsPositive (int n) = new_video_id-positive n
  video_id_of-IsPositive (bool true) = new_video_id-positive (pos 1)
  video_id_of-IsPositive (bool false) = new_video_id-positive (pos 0)
  video_id_of-IsPositive null = raises
  video_id_of-IsPositive (float x) = raises
  video_id_of-IsPositive (string s) = raises
  video_id_of-IsPositive (date d) = raises
  video_id_of-IsPositive (array vs) = raises
  video_id_of-IsPositive (dict d) = raises

  new_temperature-IsTemperature : (x : F) → Gives IsTemperature (new_temperature x)
  unfolding new_temperature
  new_temperature-IsTemperature x =
      Gives-raise_if {Q = IsTemperature} (py.is_nan x || py.is_inf x) _ λ h.
        Gives-raise_if {Q = IsTemperature}
          (py.lt x (py.hundredths (negsuc 8999)) || py.lt (py.hundredths (pos 6000)) x) _
          λ k.
            let (nan, inf) = neither _ _ h in
            let (low, high) = neither _ _ k in gives (nan, inf, low, high)

  pub from_celsius-IsTemperature : (x : F) → Gives IsTemperature (from_celsius x)
  unfolding from_celsius
  from_celsius-IsTemperature x = new_temperature-IsTemperature (py.round_2 x)

  from_fahrenheit-IsTemperature : (v : Value F) → Gives IsTemperature (from_fahrenheit v)
  unfolding from_fahrenheit
  from_fahrenheit-IsTemperature (int n) =
      Gives-bind _ (anything (or_raise (py.float_of_int n) _))
        λ _ _. new_temperature-IsTemperature _
  from_fahrenheit-IsTemperature (bool b) = new_temperature-IsTemperature _
  from_fahrenheit-IsTemperature (float x) =
      Gives-raise_if (py.is_nan x || py.is_inf x) _ (λ _. new_temperature-IsTemperature _)
  from_fahrenheit-IsTemperature null = raises
  from_fahrenheit-IsTemperature (string s) = raises
  from_fahrenheit-IsTemperature (date d) = raises
  from_fahrenheit-IsTemperature (array vs) = raises
  from_fahrenheit-IsTemperature (dict d) = raises

  pub source_path_of-IsVideo : (v : Value F) → Gives IsVideo (source_path_of v)
  unfolding source_path_of
  source_path_of-IsVideo (string s) = Gives-raise_if {Q = IsVideo} (str_eq s "") _ λ h.
      Gives-raise_if {Q = IsVideo} (not (ends_with s ".mp4")) _ λ k. gives (h, false-of_not _ k)
  source_path_of-IsVideo null = raises
  source_path_of-IsVideo (bool b) = no_path (truthy {F = F} (bool b)) _ _
  source_path_of-IsVideo (int n) = no_path (truthy {F = F} (int n)) _ _
  source_path_of-IsVideo (float x) = no_path (truthy {F = F} (float x)) _ _
  source_path_of-IsVideo (date d) = raises
  source_path_of-IsVideo (array vs) = no_path (truthy {F = F} (array vs)) _ _
  source_path_of-IsVideo (dict d) = no_path (truthy {F = F} (dict d)) _ _

  unfoldable pub IsSome : Option (Temperature F) → Type 0
  IsSome none = Unit
  IsSome (some c) = IsTemperature c

  pub in_unit-IsSome :
      (task_id : String) (row : Entries F) (t : Datetime) (v unit : Value F)
      → Gives IsSome (in_unit task_id row t v unit)
  unfolding IsSome
  in_unit-IsSome task_id row t v (string unit) = if_unit (str_eq unit "F") (str_eq unit "C")
    where
      if_unit :
          (f c : Bool)
          → Gives IsSome (
              if f
              then (from_fahrenheit v >>= λ c. ok (some c))
              else if c
              then (to_float v >>= from_celsius >>= λ c. ok (some c))
              else ok none)
      if_unit true c = Gives-bind _ (from_fahrenheit-IsTemperature v) λ _ h. gives h
      if_unit false true =
          Gives-bind _
            (Gives-bind from_celsius (anything (to_float v)) λ x _. from_celsius-IsTemperature x)
            λ _ h. gives h
      if_unit false false = gives tt
  in_unit-IsSome task_id row t v null = gives tt
  in_unit-IsSome task_id row t v (bool b) = gives tt
  in_unit-IsSome task_id row t v (int n) = gives tt
  in_unit-IsSome task_id row t v (float x) = gives tt
  in_unit-IsSome task_id row t v (date d) = gives tt
  in_unit-IsSome task_id row t v (array vs) = gives tt
  in_unit-IsSome task_id row t v (dict d) = gives tt
