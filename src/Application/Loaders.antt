-- ===== src/Application/Loaders.antt =====
-- app/application/file_loaders.py. What opening and parsing a file comes to is an argument: the
-- libraries do it.
pub mod Resolve
use Prim.Native.String.{◌++◌ as str_append}
use pipeline_server.Prelude.{
  String, Bool, Option, some, none, List, [], ◌∷◌, ◌++◌, map, str_eq, if◌then◌else◌,
}
use pipeline_server.Result.{Result, ok, err, or_raise, ◌>>=◌}
use pipeline_server.Domain.Enums.{
  FileType, json, csv, file_type_enum, file_type_value, from_value, enum_eq,
}
use pipeline_server.Domain.Errors.{
  Exc, domain, external, data_not_found_error, invalid_format_error,
}

-- How the iterator over the items of a file ends early.
pub data ReadError : Type 0 where
  json_error : String → ReadError
  encoding_error : ReadError
  other_error : String → ReadError

-- A file is missing, or its iterator yields rows and may then raise.
pub data Opened (Row : Type 0) : Type 0 where
  missing : Opened Row
  opened : List Row → Option ReadError → Opened Row

-- A loader: the iterator that `load(path)` gives for what the file holds, as the list of what it yields.
abbrev pub FileLoader : Type 0 → Type 0
FileLoader Row = String → Opened Row → List (Result Row)

abbrev pub not_found : String → Exc
not_found path = domain data_not_found_error (str_append "파일을 찾을 수 없습니다: " path)

abbrev pub json_fault : String → ReadError → Exc
json_fault path (json_error e) =
    domain invalid_format_error (str_append "JSON 파싱 실패: " (str_append path (str_append " -- " e)))
json_fault path encoding_error = domain invalid_format_error (str_append "파일 인코딩 오류: " path)
json_fault path (other_error e) = external e

abbrev pub csv_fault : String → ReadError → Exc
csv_fault path encoding_error = domain invalid_format_error (str_append "CSV 읽기 중 인코딩 오류: " path)
csv_fault path (json_error e) = external e
csv_fault path (other_error e) = external e

abbrev pub yielded :
    {Row : Type 0} → List Row → (ReadError → Exc) → Option ReadError → List (Result Row)
yielded rows fault none = map ok rows
yielded rows fault (some e) = map ok rows ++ err (fault e) ∷ []

unfoldable pub load_json : {Row : Type 0} → FileLoader Row
load_json path missing = err (not_found path) ∷ []
load_json path (opened rows ended) = yielded rows (json_fault path) ended

unfoldable pub load_csv : {Row : Type 0} → FileLoader Row
load_csv path missing = err (not_found path) ∷ []
load_csv path (opened rows ended) = yielded rows (csv_fault path) ended

-- A dict under file types: what it holds for each.
abbrev pub FileLoaderProvider : Type 0 → Type 0
FileLoaderProvider Row = FileType → Option (FileLoader Row)

abbrev pub no_loaders : {Row : Type 0} → FileLoaderProvider Row
no_loaders file_type = none

abbrev pub register_loader :
    {Row : Type 0} → FileType → FileLoader Row → FileLoaderProvider Row → FileLoaderProvider Row
register_loader file_type loader provider x =
    if enum_eq file_type_enum x file_type then some loader else provider x

unfoldable pub get_loader :
    {Row : Type 0} → FileLoaderProvider Row → FileType → Result (FileLoader Row)
get_loader provider file_type =
    or_raise (provider file_type)
      (domain invalid_format_error (str_append "지원하지 않는 파일 형식: " (file_type_value file_type)))

-- `suffix.lstrip(".")`
unfoldable pub lstrip_dots : String → String
lstrip_dots String.[] = ""
lstrip_dots (String.◌∷◌ c s) =
    if str_eq (String.◌∷◌ c "") "." then lstrip_dots s else String.◌∷◌ c s

-- `resolve`, on the suffix of the path
unfoldable pub resolve : {Row : Type 0} → FileLoaderProvider Row → String → Result (FileLoader Row)
unfolding get_loader lstrip_dots
resolve provider suffix = do
  file_type ←
      or_raise (from_value file_type_enum (lstrip_dots suffix))
        (domain invalid_format_error (str_append "지원하지 않는 파일 확장자: " suffix))
  get_loader provider file_type

-- app/rest_dependencies.py, `get_loader_provider`
abbrev pub get_loader_provider : {Row : Type 0} → FileLoaderProvider Row
get_loader_provider = register_loader csv load_csv (register_loader json load_json no_loaders)
