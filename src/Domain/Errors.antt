-- ===== src/Domain/Errors.antt =====
-- app/domain/exceptions.py: the tree of domain errors, and the exceptions of the program.
use pipeline_server.Prelude.{String, Bool, true, false, Option, some, none, str_eq, if◌then◌else◌}

pub data ErrorClass : Type 0 where
  domain_error selection_parse_error unknown_schema_error temperature_conversion_error : ErrorClass
  invalid_odd_tag_error invalid_enum_value_error invalid_label_error : ErrorClass
  negative_count_error fractional_count_error duplicate_record_error : ErrorClass
  conflict_error data_not_found_error invalid_format_error : ErrorClass

abbrev pub error_code : ErrorClass → String
error_code domain_error = "DOMAIN_ERROR"
error_code selection_parse_error = "SELECTION_PARSE_ERROR"
error_code unknown_schema_error = "UNKNOWN_SCHEMA"
error_code temperature_conversion_error = "TEMPERATURE_CONVERSION_ERROR"
error_code invalid_odd_tag_error = "INVALID_ODD_TAG"
error_code invalid_enum_value_error = "INVALID_ENUM_VALUE"
error_code invalid_label_error = "INVALID_LABEL"
error_code negative_count_error = "NEGATIVE_OBJ_COUNT"
error_code fractional_count_error = "FRACTIONAL_OBJ_COUNT"
error_code duplicate_record_error = "DUPLICATE_RECORD"
error_code conflict_error = "CONFLICT"
error_code data_not_found_error = "DATA_NOT_FOUND"
error_code invalid_format_error = "INVALID_FORMAT"

-- The class attribute `message`.
abbrev pub class_message : ErrorClass → String
class_message domain_error = "도메인 규칙 위반"
class_message selection_parse_error = "Selection 데이터 파싱에 실패했습니다"
class_message unknown_schema_error = "인식할 수 없는 스키마입니다"
class_message temperature_conversion_error = "온도 변환에 실패했습니다"
class_message invalid_odd_tag_error = "ODD 태깅 데이터가 유효하지 않습니다"
class_message invalid_enum_value_error = "허용되지 않은 값입니다"
class_message invalid_label_error = "Label 데이터가 유효하지 않습니다"
class_message negative_count_error = "객체 수는 음수일 수 없습니다"
class_message fractional_count_error = "객체 수는 정수여야 합니다"
class_message duplicate_record_error = "중복된 레코드입니다"
class_message conflict_error = "이미 진행 중인 작업이 있습니다"
class_message data_not_found_error = "데이터를 찾을 수 없습니다"
class_message invalid_format_error = "데이터 형식이 올바르지 않습니다"

-- The exceptions of the language that the program's own statements raise.
pub data Builtin : Type 0 where
  value_error key_error type_error attribute_error overflow_error : Builtin

-- An exception with its text, `str(e)`. `external` is one that a driver, a broker or another
-- library raises, of no class that the program names: it catches such a one only by `except
-- Exception`. One that a library derives from `ValueError` is a `builtin value_error` here.
pub data Exc : Type 0 where
  domain : ErrorClass → String → Exc
  builtin : Builtin → String → Exc
  external : String → Exc

abbrev pub exc_text : Exc → String
exc_text (domain c message) = message
exc_text (builtin b message) = message
exc_text (external message) = message

-- `except DomainError`
abbrev pub is_domain : Exc → Bool
is_domain (domain c message) = true
is_domain _ = false

-- `DomainError.__init__`: `message or self.__class__.message`
unfoldable pub new_error : ErrorClass → Option String → Exc
new_error c none = domain c (class_message c)
new_error c (some message) =
    if str_eq message "" then domain c (class_message c) else domain c message
