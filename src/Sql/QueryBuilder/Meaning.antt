-- ===== src/Sql/QueryBuilder/Meaning.antt =====
-- What a server answers to the statements of app/adapter/outbound/mysql/query_builder.py, over the
-- rows of its tables in the order in which the server comes upon them, which may be any. It is what
-- the theorems on the queries are stated with, and is no code of this program.
use pipeline_server.Prelude.{
  ℕ, String, Bool, true, false, not, ◌&&◌, Option, some, none, List, [], ◌∷◌, ◌++◌, str_eq, leb,
  if◌then◌else◌, length, take, drop, select, every, any_of, map,
}
use pipeline_server.Prelude.Int.{ℤ, pos, leb_ℤ, ltb_ℤ, pos_part}
use pipeline_server.Python.{Runtime}
use pipeline_server.Sql.Entities.{SelectionEntity, OddTagEntity, LabelEntity, RejectionEntity}
use pipeline_server.Sql.QueryBuilder.{
  Select, LabelCond, object_class_is, obj_count_from, confidence_from, DataCond, task_id_is,
  recorded_from, recorded_to, temperature_from, temperature_to, headlights_are, weather_is,
  time_of_day_is, road_surface_is, label_exists, id_after,
}

pub record Tables (F : Type 0) : Type 0 where
  pub selections : List (SelectionEntity F)
  pub odd_tags : List OddTagEntity
  pub labels : List (LabelEntity F)
  pub rejections : List (ℤ × RejectionEntity)

abbrev pub same_int : ℤ → ℤ → Bool
same_int a b = leb_ℤ a b && leb_ℤ b a

abbrev pub same_bool : Bool → Bool → Bool
same_bool true b = b
same_bool false b = not b

-- the column of a joined odd tag; without the join there is none
abbrev pub joined_column : (OddTagEntity → String) → Option OddTagEntity → String → Bool
joined_column column none v = false
joined_column column (some o) v = str_eq (column o) v

-- the rows from an offset on, as many as the limit
abbrev pub from_offset : {A : Type 0} → Option ℤ → List A → List A
from_offset none rows = rows
from_offset (some n) rows = drop (pos_part n) rows

abbrev pub up_to_limit : {A : Type 0} → Option ℕ → List A → List A
up_to_limit none rows = rows
up_to_limit (some n) rows = take n rows

-- Rows in the order of a key; rows of one key keep their order.
abbrev pub insert_by : {A : Type 0} → (A → ℤ) → A → List A → List A
insert_by key x [] = x ∷ []
insert_by key x (y ∷ ys) = if ltb_ℤ (key y) (key x) then y ∷ insert_by key x ys else x ∷ y ∷ ys

abbrev pub sort_by : {A : Type 0} → (A → ℤ) → List A → List A
sort_by key [] = []
sort_by key (x ∷ xs) = insert_by key x (sort_by key xs)

-- the order that a statement asks for; without it, the server's own
abbrev pub ordered : {A C : Type 0} → Select C → (A → ℤ) → List A → List A
ordered stmt key rows = if stmt.by_id then sort_by key rows else rows

-- What a statement answers: rows, or a number of rows.
pub data Answer (A : Type 0) : Type 0 where
  rows : List A → Answer A
  number : ℕ → Answer A

abbrev pub rows_in : {A : Type 0} → Answer A → List A
rows_in (rows xs) = xs
rows_in (number n) = []

abbrev pub answered : {A C : Type 0} → Select C → (A → ℤ) → List A → Answer A
answered stmt key found =
    if stmt.counts
    then number (length found)
    else rows (up_to_limit stmt.limit (from_offset stmt.offset (ordered stmt key found)))

module _ {F : Type 0} where
  abbrev pub odd_tags_of : Tables F → ℤ → List OddTagEntity
  odd_tags_of tables id = select (λ o. same_int o.video_id id) tables.odd_tags

  abbrev pub labels_of : Tables F → ℤ → List (LabelEntity F)
  labels_of tables id = select (λ l. same_int l.video_id id) tables.labels

module _ {F : Type 0} ⦃py : Runtime F⦄ where
  abbrev pub label_holds : LabelEntity F → LabelCond F → Bool
  label_holds l (object_class_is v) = str_eq l.object_class v
  label_holds l (obj_count_from n) = leb_ℤ (pos n) l.obj_count
  label_holds l (confidence_from x) = py.le x l.avg_confidence

  abbrev pub holds : Tables F → SelectionEntity F → Option OddTagEntity → DataCond F → Bool
  holds tables s o (task_id_is v) = str_eq s.task_id v
  holds tables s o (recorded_from t) = leb t s.recorded_at
  holds tables s o (recorded_to t) = leb s.recorded_at t
  holds tables s o (temperature_from x) = py.le x s.temperature_celsius
  holds tables s o (temperature_to x) = py.le s.temperature_celsius x
  holds tables s o (headlights_are b) = same_bool s.headlights_on b
  holds tables s o (weather_is v) = joined_column (λ e. e.weather) o v
  holds tables s o (time_of_day_is v) = joined_column (λ e. e.time_of_day) o v
  holds tables s o (road_surface_is v) = joined_column (λ e. e.road_surface) o v
  holds tables s o (label_exists conditions) =
      any_of (λ l. every (label_holds l) conditions) (labels_of tables s.id)
  holds tables s o (id_after a) = ltb_ℤ a s.id

  -- the rows of a selection: one, or one for each odd tag that is joined
  unfoldable pub rows_of :
      Tables F → Bool → List (DataCond F) → SelectionEntity F → List (SelectionEntity F)
  rows_of tables true conditions s =
      map (λ _. s)
        (select (λ o. every (holds tables s (some o)) conditions) (odd_tags_of tables s.id))
  rows_of tables false conditions s = if every (holds tables s none) conditions then s ∷ [] else []

  unfoldable pub all_rows_of :
      Tables F → Bool → List (DataCond F) → List (SelectionEntity F) → List (SelectionEntity F)
  unfolding rows_of
  all_rows_of tables joins conditions [] = []
  all_rows_of tables joins conditions (s ∷ ss) =
      rows_of tables joins conditions s ++ all_rows_of tables joins conditions ss

  unfoldable pub answer : Tables F → Select (DataCond F) → Answer (SelectionEntity F)
  unfolding all_rows_of
  answer tables stmt =
      answered stmt (λ (e : SelectionEntity F). e.id)
        (all_rows_of tables stmt.joins_odd stmt.conditions tables.selections)
