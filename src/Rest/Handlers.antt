-- ===== src/Rest/Handlers.antt =====
-- app/main.py, the handlers of exceptions. The framework takes the handler of the first class, from
-- the exception's own upwards, that one is registered for.
pub mod Statuses
use pipeline_server.Prelude.{
  ℕ, String, Bool, true, false, Option, some, none, List, [], ◌∷◌, select, not, str_eq,
  if◌then◌else◌,
}
use Prim.Native.String.{◌++◌ as str_append}
use pipeline_server.Domain.Errors.{
  Exc, domain, builtin, external, ErrorClass, conflict_error, Builtin, value_error, error_code,
  exc_text,
}
use pipeline_server.Rest.Schemas.{ProblemDetail}
use pipeline_server.Rest.Requests.{FieldError, Failure, invalid, raised, Outcome, done, failed}

-- `JSONResponse(status_code=…, content=…, headers={"x-error-code": …})`
pub record ErrorResponse : Type 0 where
  pub status_code : ℕ
  pub content : ProblemDetail
  pub error_code_header : String

-- The classes that a handler is registered for, other than that of the framework's validation.
pub data Registered : Type 0 where
  conflict domain_rule wrong_value any_exception : Registered

-- the registered classes that an exception is of, its own first
unfoldable pub classes_of : Exc → List Registered
classes_of (domain conflict_error message) = conflict ∷ domain_rule ∷ any_exception ∷ []
classes_of (domain c message) = domain_rule ∷ any_exception ∷ []
classes_of (builtin value_error message) = wrong_value ∷ any_exception ∷ []
classes_of e = any_exception ∷ []

-- `exc.error_code`, which only a domain error has
abbrev pub code_of : Exc → String
code_of (domain c message) = error_code c
code_of e = ""

abbrev pub problem :
    String → ℕ → String → String → String → Option (List (String × String)) → ErrorResponse
problem title status detail code path errors = record {
  status_code = status;
  content = record {
    type_uri = "about:blank";
    title = title;
    status = status;
    detail = detail;
    code = some code;
    path = some path;
    errors = errors;
  };
  error_code_header = code;
}

unfoldable pub conflict_error_handler : String → Exc → ErrorResponse
conflict_error_handler path e = problem "Conflict" 409 (exc_text e) (code_of e) path none

unfoldable pub domain_error_handler : String → Exc → ErrorResponse
domain_error_handler path e = problem "Bad Request" 400 (exc_text e) (code_of e) path none

unfoldable pub value_error_handler : String → Exc → ErrorResponse
value_error_handler path e = problem "Bad Request" 400 (exc_text e) "INVALID_VALUE" path none

unfoldable pub global_error_handler : String → Exc → ErrorResponse
global_error_handler path e =
    problem "Internal Server Error" 500 "서버 내부 오류가 발생했습니다" "INTERNAL_ERROR" path none

-- `".".join(…)`
abbrev pub join_dots : List String → String
join_dots [] = ""
join_dots (s ∷ []) = s
join_dots (s ∷ t ∷ ss) = str_append s (str_append "." (join_dots (t ∷ ss)))

abbrev pub field_of : FieldError → String
field_of e = join_dots (select (λ l. not (str_eq l "query")) e.loc)

-- `errors[field] = message`
unfoldable pub put_error : String → String → List (String × String) → List (String × String)
put_error field message [] = (field, message) ∷ []
put_error field message ((k, v) ∷ errors) =
    if str_eq k field then (k, message) ∷ errors else (k, v) ∷ put_error field message errors

unfoldable pub collect_errors : List (String × String) → List FieldError → List (String × String)
unfolding put_error
collect_errors errors [] = errors
collect_errors errors (e ∷ es) = collect_errors (put_error (field_of e) e.msg errors) es

unfoldable pub validation_error_handler : String → List FieldError → ErrorResponse
unfolding collect_errors
validation_error_handler path es =
    problem "Validation Failed" 400 "요청 파라미터 검증에 실패했습니다" "VALIDATION_FAILED" path
      (some (collect_errors [] es))

abbrev pub handler : Registered → String → Exc → ErrorResponse
handler conflict = conflict_error_handler
handler domain_rule = domain_error_handler
handler wrong_value = value_error_handler
handler any_exception = global_error_handler

abbrev pub first_handler : List Registered → String → Exc → ErrorResponse
first_handler [] = global_error_handler
first_handler (c ∷ cs) = handler c

unfoldable pub handle_failure : String → Failure → ErrorResponse
unfolding classes_of conflict_error_handler domain_error_handler value_error_handler
    global_error_handler validation_error_handler
handle_failure path (invalid es) = validation_error_handler path es
handle_failure path (raised e) = first_handler (classes_of e) path e
