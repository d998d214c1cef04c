-- ===== src/Rest/Routers/Replies.antt =====
-- app/adapter/inbound/rest/routers.py: what the endpoints reply.
use pipeline_server.Prelude.{ℕ, String, ◌≡◌, refl, true, Option, some, none, List}
use pipeline_server.Prelude.Int.{ℤ}
use pipeline_server.Result.{ok, is_ok}
use pipeline_server.Effects.{Action, ◌>>=◌}
use pipeline_server.Effects.Returns.{Returns, Returns-bind, Returns-pure}
use pipeline_server.Domain.Task.{AnalyzeTask}
use pipeline_server.Domain.Models.{SearchResult}
use pipeline_server.Domain.Ports.{TaskRepository, RejectionRepository, DataSearchRepository}
use pipeline_server.Application.Reads.{get_task, no_task}
use pipeline_server.Python.{Runtime}
use pipeline_server.Rest.Schemas.{of, Stamp, PageApiResponse, RejectionResponse}
use pipeline_server.Rest.Requests.{
  done, raised, DataQuery, DataSearchRequest, data_request, RejectionSearchRequest,
}
use pipeline_server.Rest.Requests.Pagination.{PagedBy, by_page, by_cursor, data_request-PagedBy}
use pipeline_server.Rest.Mappers.{task_response, data_search_criteria}
use pipeline_server.Rest.Handlers.{ErrorResponse, handle_failure}
use pipeline_server.Rest.Routers.{
  success, problem, serve, get_task_status, data_page, search_data, get_rejections,
}

-- A refusal with a status and a code.
pub record IsRefusal (status : ℕ) (code : String) (r : ErrorResponse) : Type 0 where
  pub has_status : r.status_code ≡ status
  pub has_code : r.content.code ≡ some code

-- The request for a task that the repository does not find is refused with status 400 and the code
-- DATA_NOT_FOUND.
pub get_task_status-missing :
    {S F : Type 0} ⦃py : Runtime F⦄ (stamp : Action S Stamp) (task_repo : TaskRepository S)
    (task_id path : String) (s : S)
    → (task_repo.find_by_id task_id s).0 ≡ ok none
    → (refusal : ErrorResponse) × ((serve 200 path
          (get_task_status {F = F} stamp task_repo task_id)
          s).0
        ≡ problem refusal)
      × IsRefusal 400 "DATA_NOT_FOUND" refusal
unfolding serve get_task_status get_task ◌>>=◌ handle_failure
get_task_status-missing stamp task_repo task_id path s h = (
  handle_failure path (raised (no_task task_id)),
  rw h refl,
  record { has_status = refl; has_code = refl },
)

-- The request for a task that the repository finds is answered with status 200 and the task's
-- response, once the stamp is made.
pub get_task_status-found :
    {S F : Type 0} ⦃py : Runtime F⦄ (stamp : Action S Stamp) (task_repo : TaskRepository S)
    (task_id path : String) (task : AnalyzeTask) (st : Stamp) (s : S)
    → (task_repo.find_by_id task_id s).0 ≡ ok (some task)
    → (stamp (task_repo.find_by_id task_id s).1).0 ≡ ok st
    → (serve 200 path (get_task_status {F = F} stamp task_repo task_id) s).0
      ≡ success 200 (record { content = some (task_response {F = F} task); stamp = st })
unfolding serve get_task_status get_task ◌>>=◌
get_task_status-found stamp task_repo task_id path task st s h k = rw h (rw k refl)

data_page-PagedBy :
    {F : Type 0} (page : Option ℕ) (after : Option ℤ) (size : ℕ) (results : List (SearchResult F))
    (total : ℕ) (st : Stamp)
    → PagedBy page after
    → is_ok (data_page page after size results total st) ≡ true
unfolding data_page
data_page-PagedBy page after size results total st (by_page n h) = refl
data_page-PagedBy page after size results total st (by_cursor a) = refl

-- A search of data that is accepted raises only if the repository does: once the repository has
-- returned results and a total, and the stamp is made, there is a page of them to return.
pub search_data-returns :
    {S F : Type 0} ⦃py : Runtime F⦄ (text : String → String) (q : DataQuery F)
    (request : DataSearchRequest F) (stamp : Action S Stamp) (repo : DataSearchRepository S F)
    (s : S) (results : List (SearchResult F)) (total : ℕ) (st : Stamp)
    → data_request text q ≡ done request
    → (repo.search (data_search_criteria request) s).0 ≡ ok (results, total)
    → (stamp (repo.search (data_search_criteria request) s).1).0 ≡ ok st
    → is_ok (search_data stamp repo request s).0 ≡ true
unfolding search_data ◌>>=◌
search_data-returns text q request stamp repo s results total st accepted found stamped = rw found (
    rw stamped (
      data_page-PagedBy request.page request.after request.size results total st
        (data_request-PagedBy text q request accepted).0))

-- A search of rejections by a cursor is answered, where it is answered at all, as page 1 and with
-- no cursor to go on from.
pub get_rejections-by_cursor :
    {S : Type 0} (stamp : Action S Stamp) (repo : RejectionRepository S)
    (request : RejectionSearchRequest)
    → request.page ≡ none
    → Returns
        (λ (r : PageApiResponse RejectionResponse). (r.page ≡ some 1) × (r.next_after ≡ none))
        (get_rejections stamp repo request)
unfolding get_rejections of
get_rejections-by_cursor stamp repo request h =
    Returns-bind _ _ λ found. Returns-bind _ _ λ st. Returns-pure _ (rw h refl, refl)
