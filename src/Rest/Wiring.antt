-- ===== src/Rest/Wiring.antt =====
-- app/rest_dependencies.py: the service of an analysis over its adapters.
use pipeline_server.Prelude.{ℕ, String, List}
use pipeline_server.Result.{Result}
use pipeline_server.Effects.{Action, pure, lift, ◌>>=◌}
use pipeline_server.Domain.Ports.{Clock, IdGenerator, TransactionManager}
use pipeline_server.Python.{Runtime, Entries}
use pipeline_server.Application.Analysis.{AnalysisService}
use pipeline_server.Application.Ingestion.{DataIngestor}
use pipeline_server.Application.Loaders.{Opened, resolve, get_loader_provider}
use pipeline_server.Mongo.Driver.{Collection}
use pipeline_server.Mongo.Outbox.{save}
use pipeline_server.Mongo.Raw.{save_raw_selections, save_raw_odds, save_raw_labels}
use pipeline_server.Mongo.Tasks.{create_if_not_active}
use pipeline_server.Worker.Wiring.{bulk_insert_size}

-- `DEFAULT_CHUNK_SIZE` of app/application/data_ingestor.py
abbrev pub ingestion_chunk_size : ℕ
ingestion_chunk_size = 5000

-- `suffix` and `in_data_dir` are those of the library's paths, and `open_file` reads a file.
module _ {S F : Type 0} (suffix in_data_dir : String → String)
    (open_file : String → Action S (Opened (Entries F))) where
  -- `loader_provider.resolve(path).load(path)`: a loader opens the file at the first row
  unfoldable pub load_file : String → Action S (List (Result (Entries F)))
  unfolding resolve
  load_file name = do
    loader ← lift (resolve get_loader_provider (suffix (in_data_dir name)))
    content ← open_file (in_data_dir name)
    pure (loader (in_data_dir name) content)

  module _ ⦃py : Runtime F⦄ (raw_data analyze_tasks outbox : Collection S F)
      (id_generator : IdGenerator S) (tx_manager : TransactionManager S) (clock : Clock S) where
    unfoldable pub get_data_ingestor : DataIngestor S (Entries F)
    unfolding load_file
    get_data_ingestor = record {
      generate = id_generator.generate;
      save_raw_selections = save_raw_selections raw_data clock bulk_insert_size;
      save_raw_odds = save_raw_odds raw_data clock bulk_insert_size;
      save_raw_labels = save_raw_labels raw_data clock bulk_insert_size;
      load = load_file;
      chunk_size = ingestion_chunk_size;
    }

    unfoldable pub get_analysis_service : AnalysisService S (Entries F)
    unfolding get_data_ingestor create_if_not_active save
    get_analysis_service = record {
      data_ingestor = get_data_ingestor;
      id_generator = id_generator;
      create_if_not_active = create_if_not_active analyze_tasks;
      save_message = save outbox clock;
      tx_manager = tx_manager;
      clock = clock;
    }
