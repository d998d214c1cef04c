-- ===== src/Tests/Rest.antt =====
-- The theorems on app/adapter/inbound/rest and app/main.py at concrete requests.
use pipeline_server.Prelude.{
  ℕ, ◌*◌, ◌≤◌, String, ◌≡◌, ◌↔◌, refl, true, some, none, [], ◌∷◌, leb, arith,
}
use pipeline_server.Prelude.Int.{ℤ, pos}
use pipeline_server.Result.{ok, is_ok}
use pipeline_server.Effects.{Action}
use pipeline_server.Domain.Errors.{domain, conflict_error}
use pipeline_server.Domain.Ports.{DataSearchRepository}
use pipeline_server.Rest.Schemas.{Stamp, of, total_pages_of}
use pipeline_server.Rest.Schemas.Pages.{of-Pages}
use pipeline_server.Rest.Requests.{raised, DataQuery, DataSearchRequest, data_request}
use pipeline_server.Rest.Requests.Pagination.{PagedBy, IsSize, data_request-PagedBy}
use pipeline_server.Rest.Handlers.{handle_failure}
use pipeline_server.Rest.Handlers.Statuses.{IsConsistent, handle_failure-status}
use pipeline_server.Rest.Routers.{search_data}
use pipeline_server.Rest.Routers.Replies.{search_data-returns}
use pipeline_server.Tests.World.{hundredths_runtime}

abbrev stamp : Stamp
stamp = record { timestamp = "2024-01-01 00:00:00"; request_id = "r1" }

of-Pages_example :
    let r = of {T = ℕ} stamp (1 ∷ []) 41 3 20 in
    ((p : ℕ) → (total_pages_of 41 20 ≤ p) ↔ (41 ≤ p * 20))
    × (r.total_pages ≡ some (total_pages_of 41 20))
    × (r.last ≡ some (leb 41 (3 * 20)))
    × (r.first ≡ some (leb 3 1))
of-Pages_example = of-Pages stamp (1 ∷ []) 41 3 20 (omega arith)

three_pages : total_pages_of 41 20 ≡ 3
unfolding total_pages_of
three_pages = refl

handle_failure-status_example :
    IsConsistent "/analyze" (handle_failure "/analyze" (raised (domain conflict_error "busy")))
    × ((handle_failure "/analyze" (raised (domain conflict_error "busy"))).status_code ≡ 409)
handle_failure-status_example =
    handle_failure-status "/analyze" (raised (domain conflict_error "busy"))

abbrev query : DataQuery ℤ
query = record {
  task_id = some "t1";
  recorded_at_from = none;
  recorded_at_to = none;
  min_temperature = none;
  max_temperature = none;
  headlights_on = none;
  weather = none;
  time_of_day = none;
  road_surface = none;
  object_class = none;
  min_obj_count = some (pos 2);
  min_confidence = some (pos 50);
  page = none;
  size = none;
  after = some (pos 7);
}

abbrev request : DataSearchRequest ℤ
request = record {
  task_id = some "t1";
  recorded_at_from = none;
  recorded_at_to = none;
  min_temperature = none;
  max_temperature = none;
  headlights_on = none;
  weather = none;
  time_of_day = none;
  road_surface = none;
  object_class = none;
  min_obj_count = some 2;
  min_confidence = some (pos 50);
  page = none;
  size = 20;
  after = some (pos 7);
}

abbrev text : String → String
text name = "out of range"

data_request-PagedBy_example : PagedBy none (some (pos 7)) × IsSize 20
unfolding data_request
data_request-PagedBy_example =
    data_request-PagedBy ⦃py = hundredths_runtime⦄ text query request refl

abbrev stamping : Action ℕ Stamp
stamping s = (ok stamp, s)

abbrev nothing_found : DataSearchRepository ℕ ℤ
nothing_found = record { search = λ criteria s. (ok ([], 0), s) }

search_data-returns_example : is_ok (search_data stamping nothing_found request 5).0 ≡ true
unfolding data_request
search_data-returns_example =
    search_data-returns ⦃py = hundredths_runtime⦄ text query request stamping nothing_found 5 [] 0
      stamp refl refl refl
