-- ===== src/Tests/Ingestion.antt =====
-- A file of three records that is stored two at a time, and the theorem on the loop applied to it.
use pipeline_server.Prelude.{ℕ, ◌+◌, ◌≡◌, refl, List, [], ◌∷◌, length, arith}
use pipeline_server.Result.{Result, ok}
use pipeline_server.Effects.{Action, pure}
use pipeline_server.Effects.Returns.{Returns}
use pipeline_server.Application.Ingestion.{DataIngestor, save_loop}
use pipeline_server.Application.Ingestion.Totals.{save_loop-total}

-- the state is the number of calls; nothing is kept of the records
abbrev store : List ℕ → Action ℕ ℕ
store chunk s = (ok (length chunk), s + 1)

abbrev records : List (Result ℕ)
records = ok 5 ∷ ok 6 ∷ ok 7 ∷ []

abbrev ingestor : DataIngestor ℕ ℕ
ingestor = record {
  generate = pure "t1";
  save_raw_selections = λ task_id. store;
  save_raw_odds = λ task_id. store;
  save_raw_labels = λ task_id. store;
  load = λ path. pure records;
  chunk_size = 2;
}

store-Returns : (chunk : List ℕ) → Returns (λ n. n ≡ length chunk) (store chunk)
store-Returns chunk = record { on = λ s. refl }

save_loop-total_example : Returns (λ n. n ≡ 0 + 3) (save_loop ingestor 4 store records 0)
save_loop-total_example =
    save_loop-total ingestor store 4 records 0 store-Returns (omega arith) (omega arith)
