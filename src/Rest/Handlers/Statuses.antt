-- ===== src/Rest/Handlers/Statuses.antt =====
-- app/main.py: the status and the body of an error's response.
use pipeline_server.Prelude.{ℕ, String, ◌≡◌, refl, sym, ◌∙◌, some, str_eq, if◌then◌else◌, arith}
use pipeline_server.Domain.Errors.{
  Exc, domain, builtin, external, ErrorClass, value_error, error_code,
}
use pipeline_server.Rest.Requests.{Failure, invalid, raised}
use pipeline_server.Rest.Handlers.{ErrorResponse, handle_failure, global_error_handler}

-- The status that the documentation of the endpoints gives an error.
abbrev pub expected_status : Failure → ℕ
expected_status (invalid es) = 400
expected_status (raised (domain c message)) = if str_eq (error_code c) "CONFLICT" then 409 else 400
expected_status (raised (builtin value_error message)) = 400
expected_status (raised e) = 500

-- The response's parts agree with one another and with the request.
pub record IsConsistent (path : String) (r : ErrorResponse) : Type 0 where
  pub status_agrees : r.content.status ≡ r.status_code
  pub code_agrees : r.content.code ≡ some r.error_code_header
  pub path_shown : r.content.path ≡ some path

-- Whatever a request fails with, the body repeats the status of the response, the code of its
-- header and the path of the request, and the status is 409 for a conflict, 400 for any other
-- domain error, for a wrong value and for a request that is refused, and 500 for the rest.
pub handle_failure-status :
    (path : String) (f : Failure)
    → IsConsistent path (handle_failure path f)
      × ((handle_failure path f).status_code ≡ expected_status f)
unfolding handle_failure
handle_failure-status path (invalid es) =
    (record { status_agrees = refl; code_agrees = refl; path_shown = refl }, refl)
handle_failure-status path (raised (domain c message)) = by_class c
  where
    by_class :
        (c : ErrorClass)
        → IsConsistent path (handle_failure path (raised (domain c message)))
          × ((handle_failure path (raised (domain c message))).status_code
              ≡ expected_status (raised (domain c message)))
    by_class ErrorClass.conflict_error =
        (record { status_agrees = refl; code_agrees = refl; path_shown = refl }, refl)
    by_class c = (record { status_agrees = refl; code_agrees = refl; path_shown = refl }, refl)
handle_failure-status path (raised (builtin value_error message)) =
    (record { status_agrees = refl; code_agrees = refl; path_shown = refl }, refl)
handle_failure-status path (raised e) =
    (record { status_agrees = refl; code_agrees = refl; path_shown = refl }, refl)

hidden_domain :
    (path message : String) (c : ErrorClass)
    → (handle_failure path (raised (domain c message))).status_code ≡ 500
    → handle_failure path (raised (domain c message)) ≡ global_error_handler path (domain c message)
unfolding handle_failure
hidden_domain path message ErrorClass.conflict_error h = absurd (omega arith)
hidden_domain path message c h = absurd (omega arith)

hidden :
    (path : String) (f : Failure)
    → (handle_failure path f).status_code ≡ 500
    → (e : Exc) → handle_failure path f ≡ global_error_handler path e
unfolding handle_failure
hidden path (invalid es) h e = absurd (omega arith)
hidden path (raised (domain c message)) h e = hidden_domain path message c h
hidden path (raised (builtin value_error message)) h e = absurd (omega arith)
hidden path (raised _) h e = refl

-- Two exceptions that are answered with status 500 are answered alike: nothing of the exception
-- shows.
pub handle_failure-hides :
    (path : String) (d e : Failure)
    → (handle_failure path d).status_code ≡ 500
    → (handle_failure path e).status_code ≡ 500
    → handle_failure path d ≡ handle_failure path e
unfolding handle_failure
handle_failure-hides path d e h k =
    hidden path d h (external "") ∙ sym (hidden path e k (external ""))
