-- ===== src/Mongo/Raw.antt =====
-- app/adapter/outbound/mongodb/repositories.py, `MongoRawDataRepository`.
pub mod Saved
use pipeline_server.Prelude.{
  ℕ, zero, suc, ◌+◌, String, Bool, true, false, ◌&&◌, Option, some, none, List, [], ◌∷◌, map,
  length, take, drop, str_eq,
}
use pipeline_server.Result.{Result, ok, err}
use pipeline_server.Effects.{Action, pure, raise, lift, ◌>>=◌, ◌>>◌}
use pipeline_server.Domain.Errors.{builtin, value_error}
use pipeline_server.Domain.Ports.{Clock, now}
use pipeline_server.Python.{Runtime, Datetime, Value, Entries, string, find_key, item}
use pipeline_server.Mongo.Documents.{RawDataDocument, raw_to_dict, as_dict}
use pipeline_server.Mongo.Driver.{Collection}

module _ {F : Type 0} where
  -- the document of an item
  abbrev pub raw_document : String → String → Datetime → Entries F → Entries F
  raw_document task_id source t row =
      raw_to_dict (record { task_id = task_id; source = source; row = row; created_at = t })

  abbrev pub key_is : String → String → Entries F → Bool
  key_is key v doc = elim (find_key key doc) [ some (string s) ↦ str_eq s v | _ ↦ false ]

-- The raw rows of this program are dicts.
abbrev pub row_of : {F : Type 0} ⦃py : Runtime F⦄ → Result (Value F) → Result (Entries F)
row_of (ok v) = as_dict v
row_of (err e) = err e

-- the iterator of `find_by_task_and_source`: `for doc in cursor: yield doc["data"]`
unfoldable pub raw_rows :
    {F : Type 0} ⦃py : Runtime F⦄ → List (Entries F) → List (Result (Entries F))
raw_rows [] = []
raw_rows (doc ∷ docs) = row_of (item doc "data") ∷ raw_rows docs

module _ {S F : Type 0} (collection : Collection S F) (clock : Clock S) (bulk_insert_size : ℕ) where
  open collection use {insert_many, delete_many, find_fields}

  -- the loop over the slices, with fuel for its rounds
  unfoldable pub bulk_loop : ℕ → String → String → Datetime → List (Entries F) → ℕ → Action S ℕ
  unfolding raw_to_dict
  bulk_loop zero task_id source t items total = pure total
  bulk_loop (suc fuel) task_id source t [] total = pure total
  bulk_loop (suc fuel) task_id source t (item ∷ items) total = do
    insert_many (map (raw_document task_id source t) (take bulk_insert_size (item ∷ items)))
    bulk_loop fuel task_id source t (drop bulk_insert_size (item ∷ items))
        (total + length (take bulk_insert_size (item ∷ items)))

  -- `range` refuses a step of 0
  unfoldable pub bulk_save : String → String → List (Entries F) → Action S ℕ
  unfolding bulk_loop
  bulk_save task_id source items = do
    t ← now clock
    elim bulk_insert_size [
      | zero ↦ raise (builtin value_error "range() arg 3 must not be zero")
      | suc n ↦ bulk_loop (suc (length items)) task_id source t items 0
    ]

  abbrev pub save_raw_selections : String → List (Entries F) → Action S ℕ
  save_raw_selections task_id raw_list = bulk_save task_id "selections" raw_list

  abbrev pub save_raw_odds : String → List (Entries F) → Action S ℕ
  save_raw_odds task_id rows = bulk_save task_id "odds" rows

  abbrev pub save_raw_labels : String → List (Entries F) → Action S ℕ
  save_raw_labels task_id rows = bulk_save task_id "labels" rows

  abbrev pub delete_by_task : String → Action S (Unit {0})
  delete_by_task task_id = delete_many (key_is "task_id" task_id)

  unfoldable pub find_by_task_and_source :
      ⦃py : Runtime F⦄ → String → String → Action S (List (Result (Entries F)))
  unfolding raw_rows
  find_by_task_and_source task_id source = do
    docs ← find_fields (λ d. key_is "task_id" task_id d && key_is "source" source d) "data"
    pure (raw_rows docs)
