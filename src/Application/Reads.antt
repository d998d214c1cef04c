-- ===== src/Application/Reads.antt =====
-- app/application/task_read_service.py, rejection_read_service.py and data_read_service.py: each
-- service is its repository.
use Prim.Native.String.{◌++◌ as str_append}
use pipeline_server.Prelude.{ℕ, String, List}
use pipeline_server.Result.{or_raise}
use pipeline_server.Effects.{Action, lift, ◌>>=◌}
use pipeline_server.Domain.Errors.{Exc, domain, data_not_found_error}
use pipeline_server.Domain.Models.{Rejection, RejectionCriteria, DataSearchCriteria, SearchResult}
use pipeline_server.Domain.Task.{AnalyzeTask}
use pipeline_server.Domain.Ports.{TaskRepository, RejectionRepository, DataSearchRepository}

abbrev pub no_task : String → Exc
no_task task_id = domain data_not_found_error (str_append "작업을 찾을 수 없습니다: " task_id)

module _ {S : Type 0} where
  unfoldable pub get_task : TaskRepository S → String → Action S AnalyzeTask
  get_task task_repo task_id = do
    task ← task_repo.find_by_id task_id
    lift (or_raise task (no_task task_id))

  abbrev pub search_rejections :
      RejectionRepository S → RejectionCriteria → Action S (List Rejection × ℕ)
  search_rejections rejection_repo criteria = rejection_repo.search criteria

  abbrev pub search_data_of :
      {F : Type 0}
      → DataSearchRepository S F
      → DataSearchCriteria F
      → Action S (List (SearchResult F) × ℕ)
  search_data_of search_repo criteria = search_repo.search criteria
