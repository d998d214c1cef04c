-- ===== src/Sql/Session.antt =====
-- What the repositories use of the session of the SQL library, which is not code of this program: a
-- call may raise. What its documentation promises is a law of a record of its own, for the theorems
-- that rely on it.
use pipeline_server.Prelude.{ℕ, ◌+◌, ◌≤◌, String, ◌≡◌, Option, List, ◌++◌, length}
use pipeline_server.Prelude.Int.{ℤ}
use pipeline_server.Result.{ok}
use pipeline_server.Effects.{Action}
use pipeline_server.Effects.Keeps.{OnOk}
use pipeline_server.Python.{Entries}
use pipeline_server.Sql.Entities.{SelectionEntity, OddTagEntity, LabelEntity, RejectionEntity}
use pipeline_server.Sql.QueryBuilder.{Select, DataCond, RejectionCond}

pub data Table : Type 0 where
  selections odd_tags labels : Table

pub record Session (S F : Type 0) : Type 0 where
  -- `execute(insert(T).prefix_with("IGNORE").values(values)).rowcount`
  pub insert_ignore : Table → List (Entries F) → Action S ℕ
  pub flush : Action S (Unit {0})
  pub add_all : List RejectionEntity → Action S (Unit {0})
  -- `execute(stmt).scalars().all()` and `execute(stmt).scalar()`
  pub select_selections : Select (DataCond F) → Action S (List (SelectionEntity F))
  pub count_selections : Select (DataCond F) → Action S (Option ℕ)
  pub select_rejections : Select RejectionCond → Action S (List RejectionEntity)
  pub count_rejections : Select RejectionCond → Action S (Option ℕ)
  -- `get(SelectionEntity, id)`
  pub get_selection : ℤ → Action S (Option (SelectionEntity F))
  -- the rows `where(T.video_id == id)` and `where(T.video_id.in_(ids))`
  pub odd_tags_where : ℤ → Action S (List OddTagEntity)
  pub labels_where : ℤ → Action S (List (LabelEntity F))
  pub odd_tags_in : List ℤ → Action S (List OddTagEntity)
  pub labels_in : List ℤ → Action S (List (LabelEntity F))
  -- the column of the ids `where(T.task_id == task_id)`
  pub ids_where_task : Table → String → Action S (List ℤ)

-- An INSERT of rows and then of more rows does what one INSERT of all of them does.
pub record InsertsInOrder {S F : Type 0} (session : Session S F) : Type 0 where
  pub insert_append :
      (table : Table) (xs ys : List (Entries F)) (s t u : S) (m n : ℕ)
      → session.insert_ignore table xs s ≡ (ok m, t)
      → session.insert_ignore table ys t ≡ (ok n, u)
      → session.insert_ignore table (xs ++ ys) s ≡ (ok (m + n), u)
  -- the flush after an INSERT has nothing left to write
  pub flush_idle :
      (table : Table) (xs : List (Entries F)) (s t u : S) (m : ℕ)
      → session.insert_ignore table xs s ≡ (ok m, t)
      → session.flush t ≡ (ok tt, u)
      → u ≡ t
  pub rowcount_le :
      (table : Table) (xs : List (Entries F)) (s : S)
      → OnOk (λ n. n ≤ length xs) (session.insert_ignore table xs s).0
