-- ===== src/Sql/QueryBuilder/Rows.antt =====
-- app/adapter/outbound/mysql/query_builder.py: the answers to the two queries of the search of data.
use mathlib.Core.List.{append-nil}
use mathlib.Core.Path.{fun_ext}
use pipeline_server.Prelude.{
  ℕ, suc, ◌*◌, ◌≤◌, ◌≡◌, refl, ap, sym, ◌∙◌, Bool, true, false, ◌&&◌, Option, some, none, List, [],
  ◌∷◌, ◌++◌, if◌then◌else◌, length, take, drop, select, every, any_of, map, arith, Bool-cases, inl,
  inr,
}
use pipeline_server.Prelude.Int.{ℤ, ltb_ℤ, pos_part, ◌-ℤ◌, ◌*ℤ◌}
use pipeline_server.Domain.Models.{DataSearchCriteria}
use pipeline_server.Python.{Runtime}
use pipeline_server.Sql.Entities.{SelectionEntity, OddTagEntity}
use pipeline_server.Sql.QueryBuilder.{
  Select, DataCond, id_after, any_odd, filtered, select_rows, offset_of, build_query,
  build_count_query, apply_pagination,
}
use pipeline_server.Sql.QueryBuilder.Meaning.{
  Tables, rows, number, sort_by, odd_tags_of, holds, rows_of, all_rows_of, answer,
}
use pipeline_server.Sql.QueryBuilder.Filters.{
  and_true, and_assoc, every-append, selection_meets, odd_tag_meets, label_matches, matches,
  matches_by_any, matches-any, unjoined_conditions, joined_conditions, joins-filtered,
  kept-filtered,
}

-- No video has two odd tags.
abbrev pub OneTagEach : {F : Type 0} → Tables F → Type 0
OneTagEach tables = (id : ℤ) → length (odd_tags_of tables id) ≤ 1

one_row :
    {A B : Type 0} (a l : Bool) (f : A → Bool) (s : B) (os : List A)
    → length os ≤ 1
    → map (λ _. s) (select (λ o. (a && f o) && l) os)
      ≡ (if (a && any_of f os) && l then s ∷ [] else [])
one_row true l f s [] h = refl
one_row false l f s [] h = refl
one_row a l f s (o ∷ []) h = ground arith
one_row a l f s (o ∷ p ∷ os) h = absurd (omega arith)

select-cons :
    {A : Type 0} (b : Bool) (x : A) (xs : List A)
    → (if b then x ∷ [] else []) ++ xs ≡ (if b then x ∷ xs else xs)
select-cons true x xs = refl
select-cons false x xs = refl

module _ {F : Type 0} ⦃py : Runtime F⦄ (c : DataSearchCriteria F) (tables : Tables F)
    (counts : Bool) where
  abbrev base : Select (DataCond F)
  base = filtered c (record select_rows { counts = counts })

  test_lem :
      (extra : List (DataCond F)) (s : SelectionEntity F) (x : Bool) (o : OddTagEntity)
      → any_odd c ≡ true
      → every (holds tables s (some o)) extra ≡ x
      → every (holds tables s (some o)) (base.conditions ++ extra)
        ≡ ((selection_meets c s && odd_tag_meets c o) && (label_matches c tables s && x))
  test_lem extra s x o asked e =
      rw (every-append, joined_conditions c counts tables s o asked, e)
        (and_assoc (selection_meets c s && odd_tag_meets c o) (label_matches c tables s) x)

  -- A selection gives one row if it matches, and none otherwise; `extra` are the conditions that the
  -- pagination adds.
  row_lem :
      (extra : List (DataCond F)) (s : SelectionEntity F) (x : Bool)
      → ((o : Option OddTagEntity) → every (holds tables s o) extra ≡ x)
      → OneTagEach tables
      → rows_of tables base.joins_odd (base.conditions ++ extra) s
        ≡ (if matches_by_any c tables s && x then s ∷ [] else [])
  unfolding rows_of
  row_lem extra s x e one = elim (Bool-cases (any_odd c)) [
    | inl asked ↦ rw (joins-filtered c counts) (
        rw asked (
          ap (λ (t : OddTagEntity → Bool). map (λ _. s) (select t (odd_tags_of tables s.id)))
            (fun_ext (λ (o : OddTagEntity). test_lem extra s x o asked (e (some o))))
          ∙ one_row (selection_meets c s) (label_matches c tables s && x) (odd_tag_meets c) s
              (odd_tags_of tables s.id) (one s.id)
          ∙ ap (λ b. if b then s ∷ [] else [])
              (sym (
                and_assoc
                  (selection_meets c s && any_of (odd_tag_meets c) (odd_tags_of tables s.id))
                  (label_matches c tables s) x))))
    | inr unasked ↦ rw (joins-filtered c counts) (
        rw unasked (
          rw (every-append, unjoined_conditions c counts tables s unasked, e none) (simp and_true)))
  ]

  rows_lem :
      (extra : List (DataCond F)) (x : SelectionEntity F → Bool)
      → ((s : SelectionEntity F) (o : Option OddTagEntity) → every (holds tables s o) extra ≡ x s)
      → OneTagEach tables
      → (ss : List (SelectionEntity F))
      → all_rows_of tables base.joins_odd (base.conditions ++ extra) ss
        ≡ select (λ s. matches c tables s && x s) ss
  unfolding all_rows_of
  rows_lem extra x e one [] = refl
  rows_lem extra x e one (s ∷ ss) =
      rw (row_lem extra s (x s) (e s) one, rows_lem extra x e one ss)
        (select-cons (matches_by_any c tables s && x s) s
            (select (λ r. matches c tables r && x r) ss)
          ∙ ap
              (λ b.
                if b && x s
                then s ∷ select (λ r. matches c tables r && x r) ss
                else select (λ r. matches c tables r && x r) ss)
              (matches-any c tables s))

  rows_plain :
      OneTagEach tables
      → all_rows_of tables base.joins_odd base.conditions tables.selections
        ≡ select (matches c tables) tables.selections
  rows_plain one =
      ap (λ cs. all_rows_of tables base.joins_odd cs tables.selections)
        (sym (append-nil base.conditions))
      ∙ rows_lem [] (λ _. true) (λ s o. refl) one tables.selections
      ∙ ap (λ (p : SelectionEntity F → Bool). select p tables.selections)
          (fun_ext (λ s. and_true (matches c tables s)))

offset_lem : (p size : ℕ) → pos_part (offset_of (suc p) size) ≡ p * size
unfolding ◌-ℤ◌ ◌*ℤ◌
offset_lem p size = grind arith

module _ {F : Type 0} ⦃py : Runtime F⦄ (c : DataSearchCriteria F) (counts : Bool) where
  abbrev plain : Select (DataCond F)
  plain = filtered c (record select_rows { counts = counts })

  no_offset : plain.offset ≡ none
  no_offset = kept-filtered c (λ stmt. stmt.offset) (λ cond stmt. refl) (λ stmt. refl) _

  kept_counts : plain.counts ≡ counts
  kept_counts = kept-filtered c (λ stmt. stmt.counts) (λ cond stmt. refl) (λ stmt. refl) _

-- Where no video has two odd tags: the count query counts the selections that match the criteria;
-- the query of page p + 1 finds, of these in the order of their ids, those from number p * size on, at
-- most `size`; and the query with a cursor finds the first `size` in that order of those behind it.
pub build_query-finds :
    {F : Type 0} ⦃py : Runtime F⦄ (c : DataSearchCriteria F) (tables : Tables F)
    → OneTagEach tables
    → (answer tables (build_count_query c)
        ≡ number (length (select (matches c tables) tables.selections)))
      × ((p : ℕ)
          → answer tables (build_query (record c { page = some (suc p); after = none }))
            ≡ rows (
                take c.size (
                  drop (p * c.size) (
                    sort_by
                      (λ (e : SelectionEntity F). e.id)
                      (select (matches c tables) tables.selections)))))
      × ((a : ℤ)
          → answer tables (build_query (record c { page = none; after = some a }))
            ≡ rows (
                take c.size (
                  sort_by
                    (λ (e : SelectionEntity F). e.id)
                    (select (λ s. matches c tables s && ltb_ℤ a s.id) tables.selections))))
unfolding answer build_query build_count_query apply_pagination
build_query-finds {F} c tables one = (
  rw (kept_counts c true) (ap (λ found. number (length found)) (rows_plain c tables true one)),
  λ p.
      rw (offset_lem p c.size, kept_counts c false)
        (ap
          (λ found.
            rows
              (take c.size (drop (p * c.size) (sort_by (λ (e : SelectionEntity F). e.id) found))))
          (rows_plain c tables false one)),
  λ a.
      rw (no_offset c false, kept_counts c false)
        (ap (λ found. rows (take c.size (sort_by (λ (e : SelectionEntity F). e.id) found)))
          (rows_lem c tables false (id_after a ∷ []) (λ s. ltb_ℤ a s.id)
            (λ s o. and_true (ltb_ℤ a s.id)) one tables.selections)),
)

count_lem :
    {A B : Type 0} (a l : Bool) (f : A → Bool) (s : B) (os : List A)
    → length (map (λ _. s) (select (λ o. (a && f o) && l) os))
      ≡ (if a && l then length (select f os) else 0)
count_lem a l f s [] = ground arith
count_lem a l f s (o ∷ os) = ground (arith, count_lem a l f s os)

-- Where something is asked of odd tags, the count query counts a selection once for each odd tag of
-- its video that meets what is asked, if the selection meets the rest of the criteria, and does not
-- count it otherwise.
pub rows_of-repeats :
    {F : Type 0} ⦃py : Runtime F⦄ (c : DataSearchCriteria F) (tables : Tables F)
    (s : SelectionEntity F)
    → any_odd c ≡ true
    → length (rows_of tables (build_count_query c).joins_odd (build_count_query c).conditions s) ≡ (
        if selection_meets c s && label_matches c tables s
        then length (select (odd_tag_meets c) (odd_tags_of tables s.id))
        else 0)
unfolding rows_of build_count_query
rows_of-repeats c tables s asked = rw (joins-filtered c true ∙ asked) (
    ap (λ (t : OddTagEntity → Bool). length (map (λ _. s) (select t (odd_tags_of tables s.id))))
      (fun_ext (λ (o : OddTagEntity). joined_conditions c true tables s o asked))
    ∙ count_lem (selection_meets c s) (label_matches c tables s) (odd_tag_meets c) s
        (odd_tags_of tables s.id))
