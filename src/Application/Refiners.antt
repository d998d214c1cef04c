-- ===== src/Application/Refiners.antt =====
-- What the refiners of app/application share: a field of a raw row is parsed, or refused with a
-- rejection, and the refusals of a row are collected in the order of its fields.
pub mod OddTags
pub mod Labels
pub mod Selections
pub mod Outcomes
use Prim.Native.String.{◌++◌ as str_append}
use pipeline_server.Prelude.{
  String, Bool, true, false, Option, some, none, List, [], ◌∷◌, ◌++◌, if◌then◌else◌,
}
use pipeline_server.Result.{Result, ok, err, or_raise, ◌>>=◌}
use pipeline_server.Domain.Errors.{Exc, domain, builtin, value_error, key_error, type_error}
use pipeline_server.Domain.Enums.{
  Stage, StrEnum, from_value, RejectionReason, missing_required_field, invalid_enum_value,
  invalid_format,
}
use pipeline_server.Domain.Models.{Rejection, new_rejection}
use pipeline_server.Effects.{Action}
use pipeline_server.Domain.Ports.{Clock}
use pipeline_server.Python.{
  Value, null, string, Entries, Runtime, Datetime, fault, item, get, find_key, to_datetime,
}

-- What a parser of a field leaves: its value, or the rejection that it has appended.
pub data Parsed (A : Type 0) : Type 0 where
  parsed : A → Parsed A
  refused : Rejection → Parsed A

-- The fields parsed so far: their values, or the list of rejections where it is not empty.
pub data Collected (A : Type 0) : Type 0 where
  complete : A → Collected A
  incomplete : List Rejection → Collected A

abbrev pub collect_first : {A : Type 0} → Parsed A → Collected A
collect_first (parsed a) = complete a
collect_first (refused r) = incomplete (r ∷ [])

abbrev pub collect : {A B : Type 0} → Collected A → Parsed B → Collected (A × B)
collect (complete a) (parsed b) = complete (a, b)
collect (complete a) (refused r) = incomplete (r ∷ [])
collect (incomplete rs) (parsed b) = incomplete rs
collect (incomplete rs) (refused r) = incomplete (rs ++ (r ∷ []))

-- `except (ValueError, KeyError, TypeError)`
abbrev pub is_bad_field : Exc → Bool
is_bad_field (builtin value_error message) = true
is_bad_field (builtin key_error message) = true
is_bad_field (builtin type_error message) = true
is_bad_field _ = false

-- `rejections.append(…); return None`
abbrev pub refuse : {A : Type 0} → Result Rejection → Result (Parsed A)
refuse (ok r) = ok (refused r)
refuse (err e) = err e

-- `try: return … except …: …`
unfoldable pub parse : {A : Type 0} → Result A → (Exc → Bool) → Result Rejection → Result (Parsed A)
parse (ok a) catches rejection = ok (parsed a)
parse (err e) catches rejection = if catches e then refuse rejection else err e

-- Where a rejection of a row belongs.
pub record Place : Type 0 where
  pub task_id : String
  pub stage : Stage
  pub source_id : String
  pub time : Datetime

-- `_reject`
unfoldable pub reject : Place → String → RejectionReason → String → Result Rejection
unfolding new_rejection
reject place field reason detail =
    new_rejection place.task_id place.stage reason place.source_id field detail place.time

module _ {F : Type 0} ⦃py : Runtime F⦄ where
  -- `enum_cls(v)`
  unfoldable pub enum_of : {E : Type 0} → StrEnum E → Value F → Result E
  unfolding from_value
  enum_of enum (string raw) =
      or_raise (from_value enum raw) (fault {F = F} value_error (string raw))
  enum_of enum v = err (fault value_error v)

module _ {F : Type 0} ⦃py : Runtime F⦄ (place : Place) (row : Entries F) where
  -- f"{field} 파싱 불가: {row.get(field, '누락')}"
  abbrev pub reject_field : String → Result Rejection
  reject_field field =
      reject place field invalid_format
        (str_append field (str_append " 파싱 불가: " (py.str (get row field (string "누락")))))

  abbrev pub parsed_enum : {E : Type 0} → String → Result E → Result (Parsed E)
  parsed_enum field (ok e) = ok (parsed e)
  parsed_enum field (err e) =
      if is_bad_field e
      then refuse (
          reject place field invalid_enum_value (
            str_append "알 수 없는 "
              (str_append field (str_append ": " (py.str (get row field null))))))
      else err e

  abbrev pub looked_up : {E : Type 0} → StrEnum E → String → Option (Value F) → Result (Parsed E)
  looked_up enum field none =
      refuse (reject place field missing_required_field (str_append field " 누락"))
  looked_up enum field (some v) = parsed_enum field (enum_of enum v)

  -- `_parse_enum`: a missing key is the KeyError, and a call of the class raises ValueErrors only
  unfoldable pub parse_enum : {E : Type 0} → StrEnum E → String → Result (Parsed E)
  unfolding find_key enum_of reject
  parse_enum enum field = looked_up enum field (find_key field row)

  -- `_parse_datetime`
  unfoldable pub parse_datetime : String → Result (Parsed Datetime)
  unfolding item find_key to_datetime parse reject
  parse_datetime field = parse (item row field >>= to_datetime) is_bad_field (reject_field field)

-- `now = datetime.now()`, and the statements after it, which change no state
abbrev pub with_now : {S A : Type 0} → Clock S → (Datetime → Result A) → Action S A
with_now clock rest s = let (t, after) = clock.read s in (rest t, after)
