-- ===== src/Worker/Wiring.antt =====
-- app/worker_dependencies.py: the services of the worker over their adapters.
use pipeline_server.Prelude.{ℕ, String, ◌≡◌}
use pipeline_server.Domain.Enums.{selection, odd_tagging, auto_labeling}
use pipeline_server.Domain.Ports.{Clock, TaskDispatcher}
use pipeline_server.Python.{Runtime}
use pipeline_server.Application.Phases.{run, default_chunk_size}
use pipeline_server.Application.Phases.Runners.{selection_runner, odd_tag_runner, label_runner}
use pipeline_server.Application.Pipeline.{PipelineService, PhaseRunnerProvider, register}
use pipeline_server.Prelude.{none}
use pipeline_server.Mongo.Driver.{Collection}
use pipeline_server.Application.Relay.{OutboxRelayService, default_fetch_limit}
use pipeline_server.Mongo.Outbox.Contract.{mongo_outbox}
use pipeline_server.Mongo.Raw.{find_by_task_and_source}
use pipeline_server.Mongo.Tasks.{mongo_tasks}
use pipeline_server.Sql.Session.{Session}
use pipeline_server.Sql.Repositories.{
  save_all_selections, save_all_odd_tags, save_all_labels, save_all_rejections,
  find_all_ids_by_task, find_odd_video_ids_by_task, find_label_video_ids_by_task,
}

-- `DEFAULT_CHUNK_SIZE` of the SQL repositories and `DEFAULT_BULK_INSERT_SIZE` of the raw data's
abbrev pub sql_chunk_size : ℕ
sql_chunk_size = 1000

abbrev pub bulk_insert_size : ℕ
bulk_insert_size = 5000

-- `raw_data` and `analyze_tasks` are collections of the document database.
module _ {S F : Type 0} ⦃py : Runtime F⦄ (raw_data analyze_tasks : Collection S F)
    (session : Session S F) (clock : Clock S) where
  abbrev pub provider : PhaseRunnerProvider S
  provider =
      let rows = find_by_task_and_source raw_data clock bulk_insert_size in
      let tasks = mongo_tasks analyze_tasks in
      let rejections = save_all_rejections session sql_chunk_size in
      register auto_labeling
        (run (
          label_runner rows tasks rejections clock default_chunk_size
            (save_all_labels session sql_chunk_size)))
        (register odd_tagging
          (run (
            odd_tag_runner rows tasks rejections clock default_chunk_size
              (save_all_odd_tags session sql_chunk_size)))
          (register selection
            (run (
              selection_runner rows tasks rejections clock default_chunk_size
                (save_all_selections session sql_chunk_size)))
            (λ _. none)))

  unfoldable pub build_pipeline_service : PipelineService S
  unfolding find_by_task_and_source mongo_tasks save_all_selections save_all_odd_tags
      save_all_labels save_all_rejections selection_runner odd_tag_runner label_runner run
  build_pipeline_service = record {
    task_repo = mongo_tasks analyze_tasks;
    find_all_ids_by_task = find_all_ids_by_task session;
    find_odd_video_ids = find_odd_video_ids_by_task session;
    find_label_video_ids = find_label_video_ids_by_task session;
    phase_runner_provider = provider;
    clock = clock;
  }

-- The relay over a collection whose documents a reading of the clock does not change.
module _ {S F : Type 0} ⦃py : Runtime F⦄ (outbox : Collection S F) (dispatcher : TaskDispatcher S)
    (clock : Clock S)
    (clock_reads : (s : S) (k : String)
      → outbox.document (clock.read s).1 k ≡ outbox.document s k) where
  unfoldable pub build_relay_service : OutboxRelayService S
  unfolding mongo_outbox
  build_relay_service = record {
    outbox_repo = mongo_outbox outbox clock clock_reads;
    task_dispatcher = dispatcher;
    fetch_limit = default_fetch_limit;
    clock = clock;
  }
