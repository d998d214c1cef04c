-- ===== src/Application/Ingestion.antt =====
-- app/application/data_ingestor.py: the three files are loaded and stored chunk by chunk.
pub mod Totals
use pipeline_server.Prelude.{ℕ, zero, suc, ◌+◌, String, List, [], ◌∷◌, length, take, drop}
use pipeline_server.Result.{Result, ok, err}
use pipeline_server.Effects.{Action, pure, lift, ◌>>=◌}
use pipeline_server.Domain.Values.{IngestionResult}
use pipeline_server.Application.Phases.{all_rows}

-- A file is loaded as the list of what its iterator yields, a row or an exception.
pub record DataIngestor (S Row : Type 0) : Type 0 where
  pub generate : Action S String
  pub save_raw_selections : String → List Row → Action S ℕ
  pub save_raw_odds : String → List Row → Action S ℕ
  pub save_raw_labels : String → List Row → Action S ℕ
  -- `self._loader_provider.resolve(path).load(path)` of a file of the data directory
  pub load : String → Action S (List (Result Row))
  pub chunk_size : ℕ

module _ {S Row : Type 0} (ingestor : DataIngestor S Row) where
  open ingestor use {
    generate, save_raw_selections, save_raw_odds, save_raw_labels, load, chunk_size,
  }

  -- a round on its chunk, and the rounds after it: an empty chunk is the `break`
  unfoldable pub save_chunk : (List Row → Action S ℕ) → ℕ → (ℕ → Action S ℕ) → List Row → Action S ℕ
  save_chunk save total rest [] = pure total
  save_chunk save total rest (row ∷ more) = do n ← save (row ∷ more); rest (total + n)

  -- the loop, with fuel for its rounds
  unfoldable pub save_loop : ℕ → (List Row → Action S ℕ) → List (Result Row) → ℕ → Action S ℕ
  unfolding all_rows save_chunk
  save_loop zero save rows total = pure total
  save_loop (suc fuel) save rows total = do
    chunk ← lift (all_rows (take chunk_size rows))
    save_chunk save total (λ total'. save_loop fuel save (drop chunk_size rows) total') chunk

  unfoldable pub load_and_save : String → String → (String → List Row → Action S ℕ) → Action S ℕ
  unfolding save_loop
  load_and_save path task_id save_fn = do
    rows ← load path
    save_loop (suc (length rows)) (save_fn task_id) rows 0

  unfoldable pub ingest : Action S IngestionResult
  unfolding load_and_save
  ingest = do
    task_id ← generate
    sel_count ← load_and_save "selections.json" task_id save_raw_selections
    odd_count ← load_and_save "odds.csv" task_id save_raw_odds
    label_count ← load_and_save "labels.csv" task_id save_raw_labels
    pure (record {
      task_id = task_id;
      selection_count = sel_count;
      odd_count = odd_count;
      label_count = label_count;
    })
