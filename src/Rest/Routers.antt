-- ===== src/Rest/Routers.antt =====
-- app/adapter/inbound/rest/routers.py: the four endpoints, and what a request to them leads to. The
-- framework reads the parameters, calls the endpoint, and gives what it raises to the handlers of
-- app/main.py.
pub mod Replies
use pipeline_server.Prelude.{
  ℕ, zero, suc, String, Bool, Option, some, none, List, [], ◌∷◌, map, if◌then◌else◌,
}
use pipeline_server.Prelude.Int.{ℤ}
use pipeline_server.Result.{Result, ok, err, or_raise}
use pipeline_server.Effects.{Action, pure, lift, ◌>>=◌}
use pipeline_server.Domain.Errors.{Exc, builtin, type_error}
use pipeline_server.Domain.Enums.{TaskStatus, task_status_value}
use pipeline_server.Domain.Models.{Rejection, SearchResult}
use pipeline_server.Domain.Ports.{TaskRepository, RejectionRepository, DataSearchRepository}
use pipeline_server.Application.Reads.{get_task, search_rejections, search_data_of}
use pipeline_server.Python.{Runtime}
use pipeline_server.Rest.Schemas.{
  Stamp, ApiResponse, PageApiResponse, of, of_cursor, TaskResponse, TaskSubmitResponse,
  RejectionResponse, SearchResultResponse,
}
use pipeline_server.Rest.Requests.{
  Failure, raised, Outcome, done, failed, RejectionSearchRequest, DataSearchRequest,
}
use pipeline_server.Rest.Mappers.{
  task_response, rejection_response, search_result_response, rejection_criteria,
  data_search_criteria,
}
use pipeline_server.Rest.Handlers.{ErrorResponse, handle_failure}

-- A response: the status with the body, or that of a handler.
pub data Reply (A : Type 0) : Type 0 where
  success : ℕ → A → Reply A
  problem : ErrorResponse → Reply A

-- `page or 1`
abbrev pub page_or_1 : Option ℕ → ℕ
page_or_1 none = 1
page_or_1 (some zero) = 1
page_or_1 (some (suc n)) = suc n

-- `results[-1].selection.id.value if results else None`
unfoldable pub last_id_of : {F : Type 0} → List (SearchResult F) → Option ℤ
last_id_of [] = none
last_id_of (r ∷ []) = some r.selection.id.value
last_id_of (r ∷ q ∷ rs) = last_id_of (q ∷ rs)

-- The end of `search_data`, on `request.page` and `request.after`. The comparisons of
-- `PageApiResponse.of` raise a TypeError on the page `None`.
unfoldable pub data_page :
    {F : Type 0}
    → Option ℕ
    → Option ℤ
    → ℕ
    → List (SearchResult F)
    → ℕ
    → Stamp
    → Result (PageApiResponse (SearchResultResponse F))
unfolding last_id_of search_result_response
data_page page (some after) size results total st =
    ok (of_cursor st (map search_result_response results) size (last_id_of results))
data_page (some page) none size results total st =
    ok (of st (map search_result_response results) total page size)
data_page none none size results total st = err (builtin type_error "NoneType")

module _ {S : Type 0} (stamp : Action S Stamp) where
  -- `submit` is the analysis service's
  unfoldable pub analyze : Action S String → Action S (ApiResponse TaskSubmitResponse)
  analyze submit = do
    task_id ← submit
    st ← stamp
    pure (record {
      content = some (record { task_id = task_id; status = task_status_value TaskStatus.pending });
      stamp = st;
    })

  unfoldable pub get_rejections :
      RejectionRepository S → RejectionSearchRequest → Action S (PageApiResponse RejectionResponse)
  unfolding rejection_response rejection_criteria
  get_rejections service request = do
    found ← search_rejections service (rejection_criteria request)
    let items = map rejection_response found.0
    st ← stamp
    pure (of st items found.1 (page_or_1 request.page) request.size)

  unfoldable pub search_data :
      {F : Type 0}
      → DataSearchRepository S F
      → DataSearchRequest F
      → Action S (PageApiResponse (SearchResultResponse F))
  unfolding data_page data_search_criteria
  search_data service request = do
    found ← search_data_of service (data_search_criteria request)
    st ← stamp
    lift (data_page request.page request.after request.size found.0 found.1 st)

module _ {S F : Type 0} ⦃py : Runtime F⦄ (stamp : Action S Stamp) where
  unfoldable pub get_task_status :
      TaskRepository S → String → Action S (ApiResponse (TaskResponse F))
  unfolding task_response
  get_task_status service task_id = do
    task ← get_task service task_id
    st ← stamp
    pure (record { content = some (task_response task); stamp = st })

abbrev pub reply : {A : Type 0} → ℕ → String → Result A → Reply A
reply status path (ok a) = success status a
reply status path (err e) = problem (handle_failure path (raised e))

-- An endpoint behind the handlers of exceptions.
unfoldable pub serve : {S A : Type 0} → ℕ → String → Action S A → S → Reply A × S
unfolding handle_failure
serve status path m s = let (r, after) = m s in (reply status path r, after)

-- The same for an endpoint with a request that is checked first.
unfoldable pub serve_request :
    {S R A : Type 0} → String → Outcome R → (R → Action S A) → S → Reply A × S
unfolding serve
serve_request path (done request) endpoint s = serve 200 path (endpoint request) s
serve_request path (failed f) endpoint s = (problem (handle_failure path f), s)
