-- ===== src/Application/Loaders/Resolve.antt =====
-- app/application/file_loaders.py: which files the loaders of the program are for.
use Prim.Native.String.{◌++◌ as str_append}
use pipeline_server.Prelude.{String, ◌≡◌, refl, inl, inr, str_eq, Bool-cases, if◌then◌else◌}
use pipeline_server.Result.{Result, ok, err}
use pipeline_server.Domain.Enums.{from_value}
use pipeline_server.Domain.Errors.{domain, invalid_format_error}
use pipeline_server.Application.Loaders.{
  FileLoader, load_json, load_csv, lstrip_dots, resolve, get_loader_provider,
}

-- The loader of a suffix without its dots.
abbrev pub loader_for : {Row : Type 0} → String → Result (FileLoader Row)
loader_for suffix =
    if str_eq "json" (lstrip_dots suffix)
    then ok load_json
    else if str_eq "csv" (lstrip_dots suffix)
    then ok load_csv
    else err (domain invalid_format_error (str_append "지원하지 않는 파일 확장자: " suffix))

-- The provider of the program gives the JSON loader for the suffix json, the CSV loader for csv, each
-- with any number of dots before it, and raises InvalidFormatError for every other suffix.
pub resolve-loader_for :
    {Row : Type 0} (suffix : String)
    → resolve {Row = Row} get_loader_provider suffix ≡ loader_for suffix
unfolding resolve from_value
resolve-loader_for suffix = elim (Bool-cases (str_eq "json" (lstrip_dots suffix))) [
  | inl h ↦ rw h refl
  | inr h ↦ rw h (elim (Bool-cases (str_eq "csv" (lstrip_dots suffix))) [
    | inl k ↦ rw k refl
    | inr k ↦ rw k refl
  ])
]
