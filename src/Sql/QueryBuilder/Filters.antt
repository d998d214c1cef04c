-- ===== src/Sql/QueryBuilder/Filters.antt =====
-- app/adapter/outbound/mysql/query_builder.py: the rows that the search of data finds, and the
-- selections that match the criteria.
use pipeline_server.Prelude.{
  ◌≡◌, refl, ap, sym, ◌∙◌, Bool, true, false, not, ◌&&◌, ◌||◌, Option, some, none, List, [], ◌∷◌,
  ◌++◌, str_eq, arith, leb, ltb, ℕ, zero, suc, every, any_of, Bool-cases, inl, inr,
}
use pipeline_server.Prelude.Int.{pos, leb_ℤ}
use pipeline_server.Domain.Enums.{
  weather_value, time_of_day_value, road_surface_value, object_class_value,
}
use pipeline_server.Domain.Models.{DataSearchCriteria}
use pipeline_server.Python.{Runtime}
use pipeline_server.Sql.Entities.{SelectionEntity, OddTagEntity, LabelEntity}
use pipeline_server.Sql.QueryBuilder.{
  Select, DataCond, given, given_count, given_float, where_given, where_, append_given,
  label_conditions, any_odd, any_label, apply_selection_conditions, apply_odd_conditions,
  apply_label_conditions, filtered, select_rows,
}
use pipeline_server.Sql.QueryBuilder.Meaning.{
  Tables, odd_tags_of, labels_of, holds, label_holds, same_bool,
}
use mathlib.Core.Path.{fun_ext}

-- A criterion that is not given is met.
abbrev pub met : {A : Type 0} → Option A → (A → Bool) → Bool
met none test = true
met (some a) test = test a

abbrev pub asked : {A : Type 0} → Option A → Bool
asked none = false
asked (some a) = true

abbrev pub asks_more : {A : Type 0} → (A → Bool) → Option A → Bool
asks_more test none = false
asks_more test (some a) = test a

given-asked : {A : Type 0} (o : Option A) → given o ≡ asked o
given-asked none = refl
given-asked (some a) = refl

given_count-above : (o : Option ℕ) → given_count o ≡ asks_more (λ n. ltb 0 n) o
given_count-above none = refl
given_count-above (some zero) = refl
given_count-above (some (suc n)) = ground arith

given_float-other :
    {F : Type 0} ⦃py : Runtime F⦄ (o : Option F)
    → given_float o ≡ asks_more (λ x. not (py.equals_int x (pos 0))) o
given_float-other none = refl
given_float-other (some x) = refl

pub and_true : (b : Bool) → (b && true) ≡ b
and_true true = refl
and_true false = refl

pub and_assoc : (a b c : Bool) → ((a && b) && c) ≡ (a && (b && c))
and_assoc true b c = refl
and_assoc false b c = refl

pub every-append :
    {A : Type 0} (p : A → Bool) (xs ys : List A) → every p (xs ++ ys) ≡ (every p xs && every p ys)
every-append p [] ys = refl
every-append p (x ∷ xs) ys =
    ap (λ b. p x && b) (every-append p xs ys) ∙ sym (and_assoc (p x) (every p xs) (every p ys))

every-where_given :
    {A C : Type 0} (o : Option A) (cond : A → C) (test : C → Bool) (stmt : Select C)
    → every test (where_given o cond stmt).conditions
      ≡ (every test stmt.conditions && met o (λ a. test (cond a)))
every-where_given none cond test stmt = sym (and_true _)
every-where_given (some a) cond test stmt =
    every-append test stmt.conditions (cond a ∷ [])
    ∙ ap (λ b. every test stmt.conditions && b) (and_true _)

every-append_given :
    {A C : Type 0} (o : Option A) (cond : A → C) (test : C → Bool) (cs : List C)
    → every test (append_given o cond cs) ≡ (every test cs && met o (λ a. test (cond a)))
every-append_given none cond test cs = sym (and_true _)
every-append_given (some a) cond test cs =
    every-append test cs (cond a ∷ []) ∙ ap (λ b. every test cs && b) (and_true _)

module _ {F : Type 0} ⦃py : Runtime F⦄ (c : DataSearchCriteria F) where
  -- What the criteria ask of a selection, of an odd tag and of a label.
  abbrev pub selection_meets : SelectionEntity F → Bool
  selection_meets s =
      met c.task_id (λ v. str_eq s.task_id v)
      && met c.recorded_at_from (λ t. leb t s.recorded_at)
      && met c.recorded_at_to (λ t. leb s.recorded_at t)
      && met c.min_temperature (λ x. py.le x s.temperature_celsius)
      && met c.max_temperature (λ x. py.le s.temperature_celsius x)
      && met c.headlights_on (λ b. same_bool s.headlights_on b)

  abbrev pub odd_tag_meets : OddTagEntity → Bool
  odd_tag_meets o =
      met c.weather (λ w. str_eq o.weather (weather_value w))
      && met c.time_of_day (λ t. str_eq o.time_of_day (time_of_day_value t))
      && met c.road_surface (λ r. str_eq o.road_surface (road_surface_value r))

  abbrev pub label_meets : LabelEntity F → Bool
  label_meets l =
      met c.object_class (λ v. str_eq l.object_class (object_class_value v))
      && met c.min_obj_count (λ n. leb_ℤ (pos n) l.obj_count)
      && met c.min_confidence (λ x. py.le x l.avg_confidence)

  -- What the program takes `matches` to be, by its own tests of what is asked.
  abbrev pub matches_by_any : Tables F → SelectionEntity F → Bool
  matches_by_any tables s =
      selection_meets s
      && (not (any_odd c) || any_of odd_tag_meets (odd_tags_of tables s.id))
      && (not (any_label c) || any_of label_meets (labels_of tables s.id))

  -- Something is asked of odd tags: a weather, a time of day or a road surface is given. Something is
  -- asked of labels: a class, a number of objects above 0, or a confidence other than 0.
  abbrev pub asks_odd : Bool
  asks_odd = asked c.weather || asked c.time_of_day || asked c.road_surface

  abbrev pub asks_label : Bool
  asks_label =
      asked c.object_class
      || asks_more (λ n. ltb 0 n) c.min_obj_count
      || asks_more (λ x. not (py.equals_int x (pos 0))) c.min_confidence

  -- A selection matches where it meets what is asked of it, one of its odd tags does if anything is
  -- asked of odd tags, and so does one of its labels.
  abbrev pub matches : Tables F → SelectionEntity F → Bool
  matches tables s =
      selection_meets s
      && (not asks_odd || any_of odd_tag_meets (odd_tags_of tables s.id))
      && (not asks_label || any_of label_meets (labels_of tables s.id))

  pub matches-any :
      (tables : Tables F) (s : SelectionEntity F) → matches_by_any tables s ≡ matches tables s
  matches-any tables s =
      rw
        (
          given-asked c.weather,
          given-asked c.time_of_day,
          given-asked c.road_surface,
          given-asked c.object_class,
          given_count-above c.min_obj_count,
          given_float-other c.min_confidence,
        )
        refl

  selection_part :
      (tables : Tables F) (s : SelectionEntity F) (o : Option OddTagEntity)
      (stmt : Select (DataCond F))
      → every (holds tables s o) (apply_selection_conditions c stmt).conditions
        ≡ (every (holds tables s o) stmt.conditions && selection_meets s)
  unfolding apply_selection_conditions
  selection_part tables s o stmt = simp (every-where_given, and_assoc)

  odd_part :
      (tables : Tables F) (s : SelectionEntity F) (o : OddTagEntity) (stmt : Select (DataCond F))
      → any_odd c ≡ true
      → every (holds tables s (some o)) (apply_odd_conditions c stmt).conditions
        ≡ (every (holds tables s (some o)) stmt.conditions && odd_tag_meets o)
  unfolding apply_odd_conditions
  odd_part tables s o stmt asked = rw asked (simp (every-where_given, and_assoc))

  label_test : (l : LabelEntity F) → every (label_holds l) (label_conditions c) ≡ label_meets l
  label_test l = simp (every-append_given, and_assoc)

  label_part :
      (tables : Tables F) (s : SelectionEntity F) (o : Option OddTagEntity)
      (stmt : Select (DataCond F))
      → every (holds tables s o) (apply_label_conditions c stmt).conditions ≡ (
          every (holds tables s o) stmt.conditions
          && (not (any_label c) || any_of label_meets (labels_of tables s.id)))
  unfolding apply_label_conditions
  label_part tables s o stmt = elim (Bool-cases (any_label c)) [
    | inl asked ↦ rw asked (
        simp (every-append, and_true)
          (ap
            (λ (meets : LabelEntity F → Bool).
              every (holds tables s o) stmt.conditions && any_of meets (labels_of tables s.id))
            (fun_ext label_test)))
    | inr unasked ↦ rw unasked (sym (and_true _))
  ]

  -- the part of `matches` that is about labels
  abbrev pub label_matches : Tables F → SelectionEntity F → Bool
  label_matches tables s = not (any_label c) || any_of label_meets (labels_of tables s.id)

  pub unjoined_conditions :
      (counts : Bool) (tables : Tables F) (s : SelectionEntity F)
      → any_odd c ≡ false
      → every (holds tables s none) (filtered c (record select_rows { counts = counts })).conditions
        ≡ (selection_meets s && label_matches tables s)
  unjoined_conditions counts tables s unasked =
      label_part tables s none _
      ∙ ap (λ b. b && label_matches tables s)
          (unfold apply_odd_conditions in
            rw unasked (selection_part tables s none (record select_rows { counts = counts })))

  pub joined_conditions :
      (counts : Bool) (tables : Tables F) (s : SelectionEntity F) (o : OddTagEntity)
      → any_odd c ≡ true
      → every
          (holds tables s (some o))
          (filtered c (record select_rows { counts = counts })).conditions
        ≡ (selection_meets s && odd_tag_meets o && label_matches tables s)
  joined_conditions counts tables s o asked =
      label_part tables s (some o) _
      ∙ ap (λ b. b && label_matches tables s)
          (odd_part tables s o _ asked
            ∙ ap (λ b. b && odd_tag_meets o)
                (selection_part tables s (some o) (record select_rows { counts = counts })))

  joins-where_given :
      {A : Type 0} (o : Option A) (cond : A → DataCond F) (stmt : Select (DataCond F))
      → (where_given o cond stmt).joins_odd ≡ stmt.joins_odd
  joins-where_given none cond stmt = refl
  joins-where_given (some a) cond stmt = refl

  joins-label :
      (stmt : Select (DataCond F)) → (apply_label_conditions c stmt).joins_odd ≡ stmt.joins_odd
  unfolding apply_label_conditions
  joins-label stmt = elim (Bool-cases (any_label c)) [ inl h ↦ rw h refl | inr h ↦ rw h refl ]

  joins-odd :
      (stmt : Select (DataCond F))
      → stmt.joins_odd ≡ false
      → (apply_odd_conditions c stmt).joins_odd ≡ any_odd c
  unfolding apply_odd_conditions
  joins-odd stmt h = elim (Bool-cases (any_odd c)) [
    | inl asked ↦ rw asked (simp joins-where_given)
    | inr unasked ↦ rw unasked h
  ]

  -- Odd tags are joined exactly if something is asked of them.
  pub joins-filtered :
      (counts : Bool) → (filtered c (record select_rows { counts = counts })).joins_odd ≡ any_odd c
  unfolding apply_selection_conditions
  joins-filtered counts = joins-label _ ∙ joins-odd _ (simp joins-where_given)

-- What neither a condition nor the join changes, the filters leave alone.
module _ {F X : Type 0} ⦃py : Runtime F⦄ (c : DataSearchCriteria F) (g : Select (DataCond F) → X)
    (on_where : (cond : DataCond F) (stmt : Select (DataCond F)) → g (where_ cond stmt) ≡ g stmt)
    (on_join : (stmt : Select (DataCond F)) → g (record stmt { joins_odd = true }) ≡ g stmt) where
  kept-where_given :
      {A : Type 0} (o : Option A) (cond : A → DataCond F) (stmt : Select (DataCond F))
      → g (where_given o cond stmt) ≡ g stmt
  kept-where_given none cond stmt = refl
  kept-where_given (some a) cond stmt = on_where (cond a) stmt

  kept-odd : (stmt : Select (DataCond F)) → g (apply_odd_conditions c stmt) ≡ g stmt
  unfolding apply_odd_conditions
  kept-odd stmt = elim (Bool-cases (any_odd c)) [
    | inl asked ↦ rw asked (simp kept-where_given (on_join stmt))
    | inr unasked ↦ rw unasked refl
  ]

  kept-label : (stmt : Select (DataCond F)) → g (apply_label_conditions c stmt) ≡ g stmt
  unfolding apply_label_conditions
  kept-label stmt = elim (Bool-cases (any_label c)) [
    | inl asked ↦ rw asked (on_where _ stmt)
    | inr unasked ↦ rw unasked refl
  ]

  pub kept-filtered : (stmt : Select (DataCond F)) → g (filtered c stmt) ≡ g stmt
  unfolding apply_selection_conditions
  kept-filtered stmt = kept-label _ ∙ kept-odd _ ∙ simp kept-where_given
