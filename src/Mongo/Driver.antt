-- ===== src/Mongo/Driver.antt =====
-- What the repositories use of the MongoDB driver, which is not code of this program: a collection
-- of documents under their `_id`, with the documented effect of each operation. An operation may
-- raise; a write that raises has been made or not. The driver keeps the milliseconds of a date, which
-- are all that a date of Python has here, so that a document is found as it was stored.
use pipeline_server.Prelude.{
  ℕ, zero, suc, ◌≤◌, ◌<◌, String, ◌≡◌, ◌⊎◌, Bool, true, false, Option, some, none, List, All,
  length,
}
use pipeline_server.Python.{Entries, string, find_key}
use pipeline_server.Result.{ok}
use pipeline_server.Effects.{Action}
use pipeline_server.Effects.Keeps.{OnOk}

module _ {F : Type 0} where
  -- the `_id` of a document; those of this program are texts
  unfoldable pub id_of : Entries F → String
  unfolding find_key
  id_of d = elim (find_key "_id" d) [ some (string s) ↦ s | _ ↦ "" ]

  abbrev pub IfFound : (Entries F → Bool) → Option (Entries F) → Type 0
  IfFound test none = Unit
  IfFound test (some d) = test d ≡ true

pub record Collection (S F : Type 0) : Type 0 where
  pub document : S → String → Option (Entries F)
  -- `replace_one({"_id": id, …}, doc, upsert=…)`, with its `modified_count`
  pub replace_one : String → (Entries F → Bool) → Entries F → Bool → Action S ℕ
  -- `find(…).sort(key, 1).limit(n)`
  pub find : (Entries F → Bool) → String → ℕ → Action S (List (Entries F))
  -- `find(filter, {"_id": 0, key: 1})`, in the order of the server
  pub find_fields : (Entries F → Bool) → String → Action S (List (Entries F))
  -- `find_one({"_id": id})`
  pub find_one : String → Action S (Option (Entries F))
  -- `find_one(filter)`, with `sort=[(key, -1)]` where a key is given
  pub find_first : (Entries F → Bool) → Option String → Action S (Option (Entries F))
  -- `insert_many(docs)` and `delete_many(filter)`
  pub insert_many : List (Entries F) → Action S (Unit {0})
  pub delete_many : (Entries F → Bool) → Action S (Unit {0})
  pub replace_writes :
      (id : String) (test : Entries F → Bool) (doc : Entries F) (upsert : Bool) (s : S) (k : String)
      → (document (replace_one id test doc upsert s).1 k ≡ document s k)
        ⊎ ((id ≡ k)
            × IfFound test (document s k)
            × (document (replace_one id test doc upsert s).1 k ≡ some doc))
  pub replace_upserts :
      (id : String) (doc : Entries F) (n : ℕ) (s : S)
      → (replace_one id (λ _. true) doc true s).0 ≡ ok n
      → document (replace_one id (λ _. true) doc true s).1 id ≡ some doc
  pub replace_modified :
      (id : String) (test : Entries F → Bool) (doc : Entries F) (n : ℕ) (s : S)
      → (replace_one id test doc false s).0 ≡ ok (suc n)
      → document (replace_one id test doc false s).1 id ≡ some doc
  pub replace_unmodified :
      (id : String) (test : Entries F → Bool) (doc : Entries F) (s : S)
      → (replace_one id test doc false s).0 ≡ ok zero
      → document (replace_one id test doc false s).1 id ≡ document s id
  pub find_reads :
      (test : Entries F → Bool) (key : String) (limit : ℕ) (s : S) (k : String)
      → document (find test key limit s).1 k ≡ document s k
  pub find_found :
      (test : Entries F → Bool) (key : String) (limit : ℕ) (s : S)
      → OnOk
          (All (λ d. (document s (id_of d) ≡ some d) × (test d ≡ true)))
          (find test key limit s).0
  -- a limit of 0 is no limit
  pub find_limit :
      (test : Entries F → Bool) (key : String) (limit : ℕ) (s : S)
      → 0 < limit
      → OnOk (λ ds. length ds ≤ limit) (find test key limit s).0
  pub find_one_found :
      (id : String) (s : S) → OnOk (λ found. found ≡ document s id) (find_one id s).0
  pub find_first_reads :
      (test : Entries F → Bool) (key : Option String) (s : S) (k : String)
      → document (find_first test key s).1 k ≡ document s k
  pub find_first_found :
      (test : Entries F → Bool) (key : Option String) (s : S)
      → OnOk (IfFound test) (find_first test key s).0
  pub find_first_none :
      (test : Entries F → Bool) (key : Option String) (s : S) (k : String) (d : Entries F)
      → (find_first test key s).0 ≡ ok none
      → document s k ≡ some d
      → test d ≡ false
