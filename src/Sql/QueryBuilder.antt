-- ===== src/Sql/QueryBuilder.antt =====
-- app/adapter/outbound/mysql/query_builder.py. A statement of the library is what the builder says
-- of it: its conditions in order, the join, the order, the offset and the limit.
pub mod Meaning
pub mod Filters
pub mod Rows
pub mod Order
pub mod Cursor
use pipeline_server.Prelude.{
  ℕ, zero, suc, String, Bool, true, false, not, ◌||◌, Option, some, none, List, [], ◌∷◌, ◌++◌,
  if◌then◌else◌,
}
use pipeline_server.Prelude.Int.{ℤ, pos, ◌-ℤ◌, ◌*ℤ◌}
use pipeline_server.Domain.Enums.{
  Weather, TimeOfDay, RoadSurface, ObjectClass, Stage, RejectionReason, weather_value,
  time_of_day_value, road_surface_value, object_class_value, stage_value, rejection_reason_value,
}
use pipeline_server.Domain.Models.{DataSearchCriteria, RejectionCriteria}
use pipeline_server.Python.{Runtime, Datetime}

-- A SELECT of the rows of a table, or of their number, with conditions `C`. The join is that of
-- `odd_tags` on the video's id.
pub record Select (C : Type 0) : Type 0 where
  pub counts : Bool
  pub joins_odd : Bool
  pub conditions : List C
  pub by_id : Bool
  pub offset : Option ℤ
  pub limit : Option ℕ

-- `(page - 1) * size`
abbrev pub offset_of : ℕ → ℕ → ℤ
offset_of page size = (pos page -ℤ pos 1) *ℤ pos size

module _ {C : Type 0} where
  -- `select(Entity)` and `select(func.count()).select_from(Entity)`
  abbrev pub select_rows : Select C
  select_rows = record {
    counts = false;
    joins_odd = false;
    conditions = [];
    by_id = false;
    offset = none;
    limit = none;
  }

  abbrev pub select_count : Select C
  select_count = record select_rows { counts = true }

  abbrev pub where_ : C → Select C → Select C
  where_ c stmt = record stmt { conditions = stmt.conditions ++ c ∷ [] }

  -- `if x is not None: stmt = stmt.where(…)`
  abbrev pub where_given : {A : Type 0} → Option A → (A → C) → Select C → Select C
  where_given none cond stmt = stmt
  where_given (some a) cond stmt = where_ (cond a) stmt

  -- `_apply_pagination`, which the two builders share: `id_after` is the condition on the id
  unfoldable pub apply_pagination : (ℤ → C) → Option ℕ → ℕ → Option ℤ → Select C → Select C
  unfolding ◌-ℤ◌ ◌*ℤ◌
  apply_pagination id_after page size (some after) stmt =
      record (where_ (id_after after) (record stmt { by_id = true })) { limit = some size }
  apply_pagination id_after (some page) size none stmt = record stmt {
    by_id = true;
    offset = some (offset_of page size);
    limit = some size;
  }
  apply_pagination id_after none size none stmt = record stmt { by_id = true; limit = some size }

pub data LabelCond (F : Type 0) : Type 0 where
  object_class_is : String → LabelCond F
  obj_count_from : ℕ → LabelCond F
  confidence_from : F → LabelCond F

-- A condition of the search of data; that of `label_exists` is on a label of the video.
pub data DataCond (F : Type 0) : Type 0 where
  task_id_is : String → DataCond F
  recorded_from : Datetime → DataCond F
  recorded_to : Datetime → DataCond F
  temperature_from : F → DataCond F
  temperature_to : F → DataCond F
  headlights_are : Bool → DataCond F
  weather_is : String → DataCond F
  time_of_day_is : String → DataCond F
  road_surface_is : String → DataCond F
  label_exists : List (LabelCond F) → DataCond F
  id_after : ℤ → DataCond F

-- `bool(x)` of an optional member of an enumeration: no member is the empty string
abbrev pub given : {A : Type 0} → Option A → Bool
given none = false
given (some a) = true

-- `bool(n)` of an optional integer
abbrev pub given_count : Option ℕ → Bool
given_count none = false
given_count (some zero) = false
given_count (some (suc n)) = true

-- `if x is not None: conditions.append(…)`
abbrev pub append_given : {A C : Type 0} → Option A → (A → C) → List C → List C
append_given none cond conditions = conditions
append_given (some a) cond conditions = conditions ++ cond a ∷ []

module _ {F : Type 0} where
  unfoldable pub apply_selection_conditions :
      DataSearchCriteria F → Select (DataCond F) → Select (DataCond F)
  apply_selection_conditions c stmt = where_given c.headlights_on headlights_are (
      where_given c.max_temperature temperature_to (
        where_given c.min_temperature temperature_from (
          where_given c.recorded_at_to recorded_to (
            where_given c.recorded_at_from recorded_from (where_given c.task_id task_id_is stmt)))))

  -- `any([c.weather, c.time_of_day, c.road_surface])`
  abbrev pub any_odd : DataSearchCriteria F → Bool
  any_odd c = given c.weather || given c.time_of_day || given c.road_surface

  unfoldable pub apply_odd_conditions :
      DataSearchCriteria F → Select (DataCond F) → Select (DataCond F)
  apply_odd_conditions c stmt =
      if not (any_odd c)
      then stmt
      else where_given c.road_surface (λ r. road_surface_is (road_surface_value r))
          (where_given c.time_of_day (λ t. time_of_day_is (time_of_day_value t))
            (where_given c.weather (λ w. weather_is (weather_value w))
              (record stmt { joins_odd = true })))

module _ {F : Type 0} ⦃py : Runtime F⦄ where
  -- `bool(x)` of an optional float
  abbrev pub given_float : Option F → Bool
  given_float none = false
  given_float (some x) = not (py.equals_int x (pos 0))

  -- `any([c.object_class, c.min_obj_count, c.min_confidence])`
  abbrev pub any_label : DataSearchCriteria F → Bool
  any_label c = given c.object_class || given_count c.min_obj_count || given_float c.min_confidence

  -- the list `conditions` without the one that ties the label to the selection
  abbrev pub label_conditions : DataSearchCriteria F → List (LabelCond F)
  label_conditions c = append_given c.min_confidence confidence_from (
      append_given c.min_obj_count obj_count_from
        (append_given c.object_class (λ o. object_class_is (object_class_value o)) []))

  unfoldable pub apply_label_conditions :
      DataSearchCriteria F → Select (DataCond F) → Select (DataCond F)
  apply_label_conditions c stmt =
      if not (any_label c) then stmt else where_ (label_exists (label_conditions c)) stmt

  abbrev pub filtered : DataSearchCriteria F → Select (DataCond F) → Select (DataCond F)
  filtered c stmt =
      apply_label_conditions c (apply_odd_conditions c (apply_selection_conditions c stmt))

  unfoldable pub build_query : DataSearchCriteria F → Select (DataCond F)
  unfolding apply_selection_conditions apply_odd_conditions apply_label_conditions apply_pagination
  build_query c = apply_pagination id_after c.page c.size c.after (filtered c select_rows)

  unfoldable pub build_count_query : DataSearchCriteria F → Select (DataCond F)
  unfolding apply_selection_conditions apply_odd_conditions apply_label_conditions
  build_count_query c = filtered c select_count

pub data RejectionCond : Type 0 where
  task_id_is stage_is reason_is source_id_is field_is : String → RejectionCond
  id_after : ℤ → RejectionCond

unfoldable pub apply_filters : RejectionCriteria → Select RejectionCond → Select RejectionCond
apply_filters c stmt = where_given c.field field_is (
    where_given c.source_id source_id_is (
      where_given c.reason (λ r. reason_is (rejection_reason_value r))
        (where_given c.stage (λ s. stage_is (stage_value s))
          (where_given c.task_id RejectionCond.task_id_is stmt))))

unfoldable pub build_rejection_query : RejectionCriteria → Select RejectionCond
unfolding apply_filters apply_pagination
build_rejection_query c =
    apply_pagination RejectionCond.id_after c.page c.size c.after (apply_filters c select_rows)

unfoldable pub build_rejection_count_query : RejectionCriteria → Select RejectionCond
unfolding apply_filters
build_rejection_count_query c = apply_filters c select_count
