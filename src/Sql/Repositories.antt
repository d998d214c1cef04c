-- ===== src/Sql/Repositories.antt =====
-- app/adapter/outbound/mysql/repositories.py.
pub mod Chunks
pub mod Search
use pipeline_server.Prelude.{
  ℕ, zero, suc, ◌+◌, String, Bool, true, false, ◌&&◌, Option, some, none, List, [], ◌∷◌, ◌++◌, map,
  length, take, drop, if◌then◌else◌,
}
use pipeline_server.Prelude.Int.{ℤ, leb_ℤ}
use pipeline_server.Result.{Result, ok, err}
use pipeline_server.Effects.{Action, pure, raise, lift, ◌>>=◌, ◌>>◌}
use pipeline_server.Domain.Errors.{external}
use pipeline_server.Domain.Models.{
  Selection, OddTag, Label, Rejection, RejectionCriteria, DataSearchCriteria, SearchResult,
}
use pipeline_server.Domain.Ports.{RejectionRepository, DataSearchRepository, Clock, now}
use pipeline_server.Python.{Runtime, Entries}
use pipeline_server.Sql.Entities.{SelectionEntity, OddTagEntity, LabelEntity, RejectionEntity}
use pipeline_server.Sql.Mappers.{
  selection_to_dict, selection_to_domain, odd_tag_to_dict, odd_tag_to_domain, label_to_dict,
  label_to_domain, rejection_to_entity, rejection_to_domain,
}
use pipeline_server.Sql.QueryBuilder.{
  build_query, build_count_query, build_rejection_query, build_rejection_count_query,
}
use pipeline_server.Sql.Session.{Table, selections, odd_tags, labels, Session}

-- `_chunked`, with fuel for its rounds: `islice` takes up to `size` items, and an empty chunk ends it
unfoldable pub chunked : {A : Type 0} → ℕ → ℕ → List A → List (List A)
chunked zero size items = []
chunked (suc fuel) size [] = []
chunked (suc fuel) zero (x ∷ xs) = []
chunked (suc fuel) (suc size) (x ∷ xs) = (x ∷ take size xs) ∷ chunked fuel (suc size) (drop size xs)

-- `scalar() or 0`
abbrev pub or_zero : Option ℕ → ℕ
or_zero none = 0
or_zero (some n) = n

-- `[f(x) for x in xs]` where `f` may raise
unfoldable pub map_result : {A B : Type 0} → (A → Result B) → List A → Result (List B)
map_result f [] = ok []
map_result f (x ∷ xs) = elim (f x) [
  | err e ↦ err e
  | ok y ↦ elim (map_result f xs) [ ok ys ↦ ok (y ∷ ys) | err e ↦ err e ]
]

-- `f(x) if x else None` where `f` may raise
abbrev pub some_result : {A B : Type 0} → (A → Result B) → Option A → Result (Option B)
some_result f none = ok none
some_result f (some x) = elim (f x) [ ok y ↦ ok (some y) | err e ↦ err e ]

-- `scalar_one_or_none()`
abbrev pub one_or_none : {A : Type 0} → List A → Result (Option A)
one_or_none [] = ok none
one_or_none (x ∷ []) = ok (some x)
one_or_none (x ∷ y ∷ xs) = err (external "MultipleResultsFound")

-- `{e.video_id: e for e in entities}.get(id)`: a later entity takes the place of an earlier one
unfoldable pub odd_map_get : ℤ → List OddTagEntity → Option OddTagEntity
odd_map_get id [] = none
odd_map_get id (e ∷ es) = elim (odd_map_get id es) [
  | some later ↦ some later
  | none ↦ if leb_ℤ e.video_id id && leb_ℤ id e.video_id then some e else none
]

-- `label_map.get(id, [])` after `label_map.setdefault(e.video_id, []).append(e)` for each label
unfoldable pub label_map_get : {F : Type 0} → ℤ → List (LabelEntity F) → List (LabelEntity F)
label_map_get id [] = []
label_map_get id (e ∷ es) =
    if leb_ℤ e.video_id id && leb_ℤ id e.video_id
    then e ∷ label_map_get id es
    else label_map_get id es

module _ {F : Type 0} ⦃py : Runtime F⦄ where
  -- one round of the loop over the selections that are found
  unfoldable pub search_result :
      List OddTagEntity → List (LabelEntity F) → SelectionEntity F → Result (SearchResult F)
  unfolding odd_map_get label_map_get map_result selection_to_domain odd_tag_to_domain
      label_to_domain
  search_result odd_entities label_entities sel_entity = elim (selection_to_domain sel_entity) [
    | err e ↦ err e
    | ok sel ↦ elim (some_result (odd_tag_to_domain F) (odd_map_get sel_entity.id odd_entities)) [
      | err e ↦ err e
      | ok tag ↦ elim (map_result label_to_domain (label_map_get sel_entity.id label_entities)) [
        | err e ↦ err e
        | ok lbs ↦ ok (record { selection = sel; odd_tag = tag; labels = lbs })
      ]
    ]
  ]

module _ {S F : Type 0} (session : Session S F) where
  -- the loop that the three `save_all` of INSERT IGNORE share, over their chunks
  unfoldable pub insert_chunks :
      {A : Type 0} → Table → (A → Entries F) → List (List A) → ℕ → Action S ℕ
  insert_chunks table to_dict [] total_inserted = pure total_inserted
  insert_chunks table to_dict (chunk ∷ chunks) total_inserted = do
    rowcount ← session.insert_ignore table (map to_dict chunk)
    session.flush
    insert_chunks table to_dict chunks (total_inserted + rowcount)

  unfoldable pub save_all_selections : ℕ → List (Selection F) → Action S ℕ
  unfolding chunked insert_chunks selection_to_dict
  save_all_selections chunk_size items =
      insert_chunks selections selection_to_dict (chunked (suc (length items)) chunk_size items) 0

  unfoldable pub save_all_odd_tags : ℕ → List OddTag → Action S ℕ
  unfolding chunked insert_chunks odd_tag_to_dict
  save_all_odd_tags chunk_size items =
      insert_chunks odd_tags odd_tag_to_dict (chunked (suc (length items)) chunk_size items) 0

  unfoldable pub save_all_labels : ℕ → List (Label F) → Action S ℕ
  unfolding chunked insert_chunks label_to_dict
  save_all_labels chunk_size items =
      insert_chunks labels label_to_dict (chunked (suc (length items)) chunk_size items) 0

  unfoldable pub add_chunks : List (List Rejection) → Action S (Unit {0})
  unfolding rejection_to_entity
  add_chunks [] = pure tt
  add_chunks (chunk ∷ chunks) = do
    session.add_all (map rejection_to_entity chunk)
    session.flush
    add_chunks chunks

  unfoldable pub save_all_rejections : ℕ → List Rejection → Action S (Unit {0})
  unfolding chunked add_chunks
  save_all_rejections chunk_size items = add_chunks (chunked (suc (length items)) chunk_size items)

  abbrev pub find_all_ids_by_task : String → Action S (List ℤ)
  find_all_ids_by_task task_id = session.ids_where_task selections task_id

  abbrev pub find_odd_video_ids_by_task : String → Action S (List ℤ)
  find_odd_video_ids_by_task task_id = session.ids_where_task odd_tags task_id

  abbrev pub find_label_video_ids_by_task : String → Action S (List ℤ)
  find_label_video_ids_by_task task_id = session.ids_where_task labels task_id

  module _ ⦃py : Runtime F⦄ where
    unfoldable pub find_selection : ℤ → Action S (Option (Selection F))
    unfolding selection_to_domain
    find_selection id = do
      entity ← session.get_selection id
      lift (some_result selection_to_domain entity)

    unfoldable pub find_odd_tag : ℤ → Action S (Option OddTag)
    unfolding odd_tag_to_domain
    find_odd_tag video_id = do
      rows ← session.odd_tags_where video_id
      entity ← lift (one_or_none rows)
      lift (some_result (odd_tag_to_domain F) entity)

    unfoldable pub find_labels : ℤ → Action S (List (Label F))
    unfolding label_to_domain map_result
    find_labels video_id = do
      entities ← session.labels_where video_id
      lift (map_result label_to_domain entities)

    -- `[RejectionMapper.to_domain(e) for e in entities]`, each with its own reading of the clock
    unfoldable pub read_rejections : Clock S → List RejectionEntity → Action S (List Rejection)
    unfolding rejection_to_domain
    read_rejections clock [] = pure []
    read_rejections clock (e ∷ es) = do
      t ← now clock
      r ← lift (rejection_to_domain F e t)
      rs ← read_rejections clock es
      pure (r ∷ rs)

    unfoldable pub search_rejections : Clock S → RejectionCriteria → Action S (List Rejection × ℕ)
    unfolding read_rejections build_rejection_query build_rejection_count_query
    search_rejections clock criteria = do
      total ← session.count_rejections (build_rejection_count_query criteria)
      entities ← session.select_rejections (build_rejection_query criteria)
      rejections ← read_rejections clock entities
      pure (rejections, or_zero total)

    unfoldable pub assemble : ℕ → List (SelectionEntity F) → Action S (List (SearchResult F) × ℕ)
    unfolding search_result map_result
    assemble total [] = pure ([], total)
    assemble total (e ∷ es) = do
      odd_entities ← session.odd_tags_in (map (λ (x : SelectionEntity F). x.id) (e ∷ es))
      label_entities ← session.labels_in (map (λ (x : SelectionEntity F). x.id) (e ∷ es))
      results ← lift (map_result (search_result odd_entities label_entities) (e ∷ es))
      pure (results, total)

    unfoldable pub search_data : DataSearchCriteria F → Action S (List (SearchResult F) × ℕ)
    unfolding assemble build_query build_count_query
    search_data criteria = do
      total ← session.count_selections (build_count_query criteria)
      selection_entities ← session.select_selections (build_query criteria)
      assemble (or_zero total) selection_entities
