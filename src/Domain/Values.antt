-- ===== src/Domain/Values.antt =====
-- app/domain/value_objects.py. A class is a record, and a call of the class is the function that
-- runs `__post_init__`. Where a caller passes a raw value, the function takes a `Value` and makes
-- the `isinstance` check too.

use Prim.Native.String.{◌++◌ as str_append}
use text.Mathlib.Text.{find?}
use pipeline_server.Prelude.{
  ℕ, ◌+◌, String, Bool, true, false, not, ◌&&◌, ◌||◌, Option, some, none, str_eq, ltb,
  if◌then◌else◌,
}
use pipeline_server.Prelude.Int.{ℤ, pos, negsuc, leb_ℤ, ltb_ℤ, ◌-ℤ◌, ◌*ℤ◌, str_int}
use pipeline_server.Domain.Errors.{
  domain, invalid_format_error, temperature_conversion_error, negative_count_error, attribute_error,
  overflow_error,
}
use pipeline_server.Result.{Result, ok, err, ◌>>=◌, ◌>>◌, raise_if, or_raise}
use pipeline_server.Python.{Value, bool, int, float, string, Runtime, fault, truthy, bool_to_int}

pub record VideoId : Type 0 where
  pub value : ℤ

pub record Temperature (F : Type 0) : Type 0 where
  pub celsius : F

pub record Confidence (F : Type 0) : Type 0 where
  pub value : F

pub record ObjectCount : Type 0 where
  pub value : ℤ

pub record WiperState : Type 0 where
  pub active : Bool
  pub level : Option ℤ

pub record SourcePath : Type 0 where
  pub value : String

pub record StageProgress : Type 0 where
  pub total : ℕ
  pub processed : ℕ
  pub rejected : ℕ

pub record StageResult : Type 0 where
  pub total : ℕ
  pub loaded : ℕ
  pub rejected : ℕ

pub record IngestionResult : Type 0 where
  pub task_id : String
  pub selection_count : ℕ
  pub odd_count : ℕ
  pub label_count : ℕ

-- `StageProgress()`
abbrev pub no_progress : StageProgress
no_progress = record { total = 0; processed = 0; rejected = 0 }

-- `ends_with s suffix` is `s.endswith(suffix)`.
unfoldable pub ends_with : String → String → Bool
ends_with String.[] suffix = str_eq suffix ""
ends_with (String.◌∷◌ c s) suffix = str_eq (String.◌∷◌ c s) suffix || ends_with s suffix

-- `part in s`
abbrev pub contains : String → String → Bool
contains part s = elim (find? s part) [ some i ↦ true | none ↦ false ]

-- VideoId of an integer
unfoldable pub new_video_id : ℤ → Result VideoId
new_video_id n = do
  raise_if (leb_ℤ n (pos 0))
      (domain invalid_format_error (str_append "VideoId는 양수여야 합니다: " (str_int n)))
  ok (record { value = n })

unfoldable pub new_object_count : ℤ → Result ObjectCount
new_object_count n = do
  raise_if (ltb_ℤ n (pos 0))
      (domain negative_count_error (str_append "객체 수는 음수일 수 없습니다: " (str_int n)))
  ok (record { value = n })

-- the `raise`s of `WiperState.__post_init__`, on the level
unfoldable pub check_wiper : Bool → Option ℤ → Result (Unit {0})
check_wiper active none = ok tt
check_wiper active (some level) = do
  raise_if (not (leb_ℤ (pos 0) level && leb_ℤ level (pos 3)))
      (domain invalid_format_error (str_append "와이퍼 레벨은 0~3 범위여야 합니다: " (str_int level)))
  raise_if (not active && ltb_ℤ (pos 0) level) (
      domain invalid_format_error
        (str_append (str_append "와이퍼 비활성 상태에서 레벨이 " (str_int level)) "입니다"))

unfoldable pub new_wiper_state : Bool → Option ℤ → Result WiperState
unfolding check_wiper
new_wiper_state active level = do
  check_wiper active level
  ok (record { active = active; level = level })

module _ {F : Type 0} ⦃py : Runtime F⦄ where
  -- An f-string that ends with a value.
  abbrev pub with_value : String → Value F → String
  with_value prefix v = str_append prefix (py.str v)

  -- VideoId of a raw value; a bool is an int
  unfoldable pub video_id_of : Value F → Result VideoId
  unfolding new_video_id
  video_id_of (int n) = new_video_id n
  video_id_of (bool b) = new_video_id (bool_to_int b)
  video_id_of v = err (domain invalid_format_error (with_value "VideoId는 정수여야 합니다: " v))

  unfoldable pub new_temperature : F → Result (Temperature F)
  new_temperature celsius = do
    raise_if (py.is_nan celsius || py.is_inf celsius)
        (domain temperature_conversion_error (with_value "유효하지 않은 온도값: " (float celsius)))
    raise_if
        (py.lt celsius (py.hundredths (negsuc 8999)) || py.lt (py.hundredths (pos 6000)) celsius)
        (domain temperature_conversion_error (with_value "온도 범위 초과 (-90~60°C): " (float celsius)))
    ok (record { celsius = celsius })

  unfoldable pub from_celsius : F → Result (Temperature F)
  unfolding new_temperature
  from_celsius v = new_temperature (py.round_2 v)

  -- `(value - 32) * 5 / 9` is integer arithmetic with one true division where `value` is an int.
  unfoldable pub int_to_celsius : ℤ → F
  unfolding ◌-ℤ◌ ◌*ℤ◌
  int_to_celsius n = py.int_ratio ((n -ℤ pos 32) *ℤ pos 5) (pos 9)

  unfoldable pub float_to_celsius : F → F
  float_to_celsius x =
      py.divided (py.times (py.minus x (py.hundredths (pos 3200))) (py.hundredths (pos 500)))
        (py.hundredths (pos 900))

  -- `math.isnan` takes an int to a float first, and overflows where that does.
  unfoldable pub from_fahrenheit : Value F → Result (Temperature F)
  unfolding new_temperature int_to_celsius float_to_celsius
  from_fahrenheit (int n) = do
    _ ← or_raise (py.float_of_int n) (fault {F = F} overflow_error (int n))
    new_temperature (py.round_2 (int_to_celsius n))
  from_fahrenheit (bool b) = new_temperature (py.round_2 (int_to_celsius (bool_to_int b)))
  from_fahrenheit (float x) = do
    raise_if (py.is_nan x || py.is_inf x)
        (domain temperature_conversion_error (with_value "유효하지 않은 화씨 온도: " (float x)))
    new_temperature (py.round_2 (float_to_celsius x))
  from_fahrenheit v = err (domain temperature_conversion_error (with_value "유효하지 않은 화씨 온도: " v))

  unfoldable pub new_confidence : F → Result (Confidence F)
  new_confidence v = do
    raise_if (py.is_nan v || py.is_inf v)
        (domain invalid_format_error (with_value "유효하지 않은 신뢰도: " (float v)))
    raise_if (not (py.le (py.hundredths (pos 0)) v && py.le v (py.hundredths (pos 100))))
        (domain invalid_format_error (with_value "신뢰도는 0.0~1.0 범위여야 합니다: " (float v)))
    ok (record { value = v })

  abbrev pub is_high : Confidence F → F → Bool
  is_high c threshold = py.le threshold c.value

  abbrev pub is_low : Confidence F → F → Bool
  is_low c threshold = py.lt c.value threshold

  -- SourcePath of a raw value: an empty value of any type is "empty", and `endswith` is asked of
  -- whatever else there is, which raises AttributeError where that is no text.
  unfoldable pub source_path_of : Value F → Result SourcePath
  unfolding truthy ends_with
  source_path_of (string s) = do
    raise_if (str_eq s "") (domain invalid_format_error "source_path는 비어있을 수 없습니다")
    raise_if (not (ends_with s ".mp4"))
        (domain invalid_format_error (with_value "지원하지 않는 파일 형식: " (string s)))
    ok (record { value = s })
  source_path_of v =
      if truthy v
      then err (fault attribute_error v)
      else err (domain invalid_format_error "source_path는 비어있을 수 없습니다")

  unfoldable pub percent : StageProgress → F
  percent p =
      if ltb 0 p.total
      then py.round_1 (
          py.times (py.int_ratio (pos (p.processed + p.rejected)) (pos p.total))
            (py.hundredths (pos 10000)))
      else py.hundredths (pos 0)

abbrev pub is_empty : ObjectCount → Bool
is_empty c = leb_ℤ c.value (pos 0) && leb_ℤ (pos 0) c.value

abbrev raining_level : Option ℤ → Bool
raining_level none = false
raining_level (some level) = leb_ℤ (pos 2) level

unfoldable pub is_raining_likely : WiperState → Bool
is_raining_likely w = w.active && raining_level w.level

abbrev pub is_raw : SourcePath → Bool
is_raw p = contains "/raw/" p.value

abbrev pub is_processed : SourcePath → Bool
is_processed p = contains "/processed/" p.value
