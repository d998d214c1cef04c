-- ===== src/Application/Ingestion/Totals.antt =====
-- The number that the loop over the chunks of a file reports.
use pipeline_server.Prelude.{
  ℕ, zero, suc, ◌+◌, ◌<◌, ◌≡◌, refl, ap, List, [], ◌∷◌, length, take, drop, length-take,
  length-drop, arith,
}
use pipeline_server.Result.{Result, ok, err}
use pipeline_server.Effects.{Action, lift}
use pipeline_server.Effects.Keeps.{OnOk}
use pipeline_server.Effects.Returns.{Returns, Returns-pure, Returns-bind_knowing, Returns-weaken}
use pipeline_server.Application.Phases.{all_rows}
use pipeline_server.Application.Ingestion.{DataIngestor, save_chunk, save_loop}

longer :
    {Row : Type 0} (row : Row) (n : ℕ) (r : Result (List Row))
    → OnOk (λ chunk. length chunk ≡ n) r
    → OnOk (λ chunk. length chunk ≡ suc n) (elim r [ ok rest ↦ ok (row ∷ rest) | err e ↦ err e ])
longer row n (ok rest) h = ap suc h
longer row n (err e) h = tt

all_rows-length :
    {Row : Type 0} (rows : List (Result Row))
    → OnOk (λ chunk. length chunk ≡ length rows) (all_rows rows)
unfolding all_rows
all_rows-length [] = refl
all_rows-length (err e ∷ rows) = tt
all_rows-length (ok row ∷ rows) = longer row _ (all_rows rows) (all_rows-length rows)

chunk-length :
    {S Row : Type 0} (rows : List (Result Row))
    → Returns {S = S} (λ chunk. length chunk ≡ length rows) (lift (all_rows rows))
unfolding lift
chunk-length rows = record { on = λ s. all_rows-length rows }

module _ {S Row : Type 0} (ingestor : DataIngestor S Row) (save : List Row → Action S ℕ)
    (saves : (chunk : List Row) → Returns (λ n. n ≡ length chunk) (save chunk))
    (sized : 0 < ingestor.chunk_size) where
  open ingestor use {chunk_size}

  save_chunk-total :
      (total goal : ℕ) (rest : ℕ → Action S ℕ) (chunk : List Row)
      → (length chunk ≡ 0 → total ≡ goal)
      → ((more : ℕ)
          → more ≡ length chunk
          → 0 < more
          → Returns (λ n. n ≡ goal) (rest (total + more)))
      → Returns (λ n. n ≡ goal) (save_chunk ingestor save total rest chunk)
  unfolding save_chunk
  save_chunk-total total goal rest [] none_left go = Returns-pure _ (none_left refl)
  save_chunk-total total goal rest (row ∷ more) none_left go =
      Returns-bind_knowing _ _ _ (saves (row ∷ more)) (λ n h. go n h (omega arith))

  save_loop-Returns :
      (fuel : ℕ) (rows : List (Result Row)) (total : ℕ)
      → length rows < fuel
      → Returns (λ n. n ≡ total + length rows) (save_loop ingestor fuel save rows total)
  unfolding save_loop
  save_loop-Returns zero rows total h = absurd (omega arith)
  save_loop-Returns (suc fuel) rows total h =
      Returns-bind_knowing _ _ _ (chunk-length (take chunk_size rows)) λ chunk hc.
        save_chunk-total total (total + length rows)
          (λ total'. save_loop ingestor fuel save (drop chunk_size rows) total') chunk
          (λ e. omega (arith, length-take chunk_size rows))
          (λ more hm pos.
            Returns-weaken _
              (λ n hn. omega (arith, length-take chunk_size rows, length-drop chunk_size rows))
              (save_loop-Returns fuel (drop chunk_size rows) (total + more)
                (omega (arith, length-take chunk_size rows, length-drop chunk_size rows))))

-- Over chunks that are not empty and a save that reports the number of rows that it is given, the
-- loop over a file reports the number of rows of the file on top of the total it began with, if it
-- returns, for every fuel that is larger than the number of rows.
pub save_loop-total :
    {S Row : Type 0} (ingestor : DataIngestor S Row) (save : List Row → Action S ℕ) (fuel : ℕ)
    (rows : List (Result Row)) (total : ℕ)
    → ((chunk : List Row) → Returns (λ n. n ≡ length chunk) (save chunk))
    → 0 < ingestor.chunk_size
    → length rows < fuel
    → Returns (λ n. n ≡ total + length rows) (save_loop ingestor fuel save rows total)
save_loop-total ingestor save fuel rows total saves sized h =
    save_loop-Returns ingestor save saves sized fuel rows total h
