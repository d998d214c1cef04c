-- ===== src/Mongo/Raw/Saved.antt =====
-- app/adapter/outbound/mongodb/repositories.py: the number that `_bulk_save` returns.
use pipeline_server.Prelude.{
  ℕ, zero, suc, ◌+◌, ◌<◌, String, ◌≡◌, List, [], ◌∷◌, length, drop, length-take, length-drop, arith,
}
use pipeline_server.Effects.{raise}
use pipeline_server.Effects.Returns.{Returns, Returns-pure, Returns-bind, Returns-weaken}
use pipeline_server.Domain.Ports.{Clock}
use pipeline_server.Python.{Datetime, Entries}
use pipeline_server.Mongo.Driver.{Collection}
use pipeline_server.Mongo.Raw.{bulk_loop, bulk_save}

module _ {S F : Type 0} (collection : Collection S F) (clock : Clock S) where
  bulk_loop-length :
      (size fuel : ℕ) (task_id source : String) (t : Datetime) (items : List (Entries F))
      (total : ℕ)
      → length items < fuel
      → Returns
          (λ n. n ≡ total + length items)
          (bulk_loop collection clock (suc size) fuel task_id source t items total)
  unfolding bulk_loop
  bulk_loop-length size zero task_id source t items total h = absurd (omega arith)
  bulk_loop-length size (suc fuel) task_id source t [] total h = Returns-pure _ (omega arith)
  bulk_loop-length size (suc fuel) task_id source t (item ∷ items) total h = Returns-bind _ _ λ _.
      Returns-weaken _
        (λ n e.
          omega
            (arith, length-take (suc size) (item ∷ items), length-drop (suc size) (item ∷ items)))
        (bulk_loop-length size fuel task_id source t (drop (suc size) (item ∷ items)) _
          (omega (arith, length-drop (suc size) (item ∷ items))))

-- A save of raw rows reports the number of the rows, if it returns, whatever the size of its slices.
pub bulk_save-length :
    {S F : Type 0} (collection : Collection S F) (clock : Clock S) (size : ℕ)
    (task_id source : String) (items : List (Entries F))
    → Returns (λ n. n ≡ length items) (bulk_save collection clock size task_id source items)
unfolding bulk_save raise
bulk_save-length collection clock zero task_id source items =
    Returns-bind _ _ λ t. record { on = λ s. tt }
bulk_save-length collection clock (suc size) task_id source items = Returns-bind _ _ λ t.
    Returns-weaken _ (λ n e. omega arith)
      (bulk_loop-length collection clock size (suc (length items)) task_id source t items 0
        (omega arith))
