-- ===== src/Tests/Sql.antt =====
-- The theorems on app/adapter/outbound/mysql at concrete tables and sessions.
use pipeline_server.Prelude.{
  ℕ, ◌+◌, ◌*◌, ◌/◌, ◌≤◌, ◌≡◌, refl, sym, ap, ◌∙◌, true, false, ◌&&◌, Option, some, none, List, [],
  ◌∷◌, ◌++◌, length, length-append, take, drop, select, map, if◌then◌else◌, suc, arith,
}
use pipeline_server.Prelude.Int.{ℤ, pos, ltb_ℤ}
use pipeline_server.Result.{Result, ok}
use pipeline_server.Effects.{pure, ◌>>=◌}
use pipeline_server.Python.{Runtime, Entries, entry, end, string, find_key}
use pipeline_server.Domain.Enums.{from_value, Weather, TimeOfDay, RoadSurface}
use pipeline_server.Domain.Values.{new_video_id, from_celsius, new_wiper_state, source_path_of}
use pipeline_server.Domain.Models.{new_odd_tag, DataSearchCriteria, SearchResult, Selection}
use pipeline_server.Sql.Entities.{SelectionEntity, OddTagEntity}
use pipeline_server.Sql.Mappers.{selection_to_dict, selection_to_domain}
use pipeline_server.Sql.Mappers.RoundTrip.{Columns, selection_to_domain-to_dict}
use pipeline_server.Sql.QueryBuilder.{build_query, build_count_query}
use pipeline_server.Sql.QueryBuilder.Meaning.{
  Tables, odd_tags_of, rows_of, answer, sort_by, rows, number, rows_in,
}
use pipeline_server.Sql.QueryBuilder.Filters.{
  matches, selection_meets, label_matches, odd_tag_meets,
}
use pipeline_server.Sql.QueryBuilder.Rows.{OneTagEach, build_query-finds, rows_of-repeats}
use pipeline_server.Sql.QueryBuilder.Cursor.{crawl, crawl-reaches}
use pipeline_server.Sql.Session.{selections, Session, InsertsInOrder}
use pipeline_server.Sql.Repositories.{chunked, insert_chunks, assemble, search_data, or_zero}
use pipeline_server.Sql.Repositories.Chunks.{save_all-single}
use pipeline_server.Sql.Repositories.Search.{IsAnswer, search_data-IsAnswer}
use pipeline_server.Tests.World.{hundredths_runtime}

instance abbrev runtime : Runtime ℤ
runtime = hundredths_runtime

abbrev driving : ℕ → SelectionEntity ℤ
driving id = record {
  id = pos id;
  task_id = "t1";
  recorded_at = 5;
  temperature_celsius = pos 2150;
  wiper_active = true;
  wiper_level = some (pos 2);
  headlights_on = false;
  source_path = "/data/raw/1.mp4";
}

abbrev snow : ℕ → OddTagEntity
snow id = record {
  id = pos id;
  task_id = "t1";
  video_id = pos 8;
  weather = "snowy";
  time_of_day = "day";
  road_surface = "icy";
}

abbrev tables : Tables ℤ
tables = record {
  selections = driving 8 ∷ driving 7 ∷ driving 9 ∷ [];
  odd_tags = snow 1 ∷ [];
  labels = [];
  rejections = [];
}

abbrev criteria : Option Weather → DataSearchCriteria ℤ
criteria weather = record {
  task_id = some "t1";
  recorded_at_from = none;
  recorded_at_to = none;
  min_temperature = none;
  max_temperature = none;
  headlights_on = none;
  weather = weather;
  time_of_day = none;
  road_surface = none;
  object_class = none;
  min_obj_count = none;
  min_confidence = none;
  page = none;
  size = 2;
  after = none;
}

one_tag : OneTagEach tables
one_tag id = ground arith

build_query-finds_example :
    let c = criteria none in
    let found = matches c tables in
    let by_id = sort_by (λ (e : SelectionEntity ℤ). e.id) in
    (answer tables (build_count_query c) ≡ number (length (select found tables.selections)))
    × ((p : ℕ)
        → answer tables (build_query (record c { page = some (suc p); after = none }))
          ≡ rows (take c.size (drop (p * c.size) (by_id (select found tables.selections)))))
    × ((a : ℤ)
        → answer tables (build_query (record c { page = none; after = some a }))
          ≡ rows (take c.size (by_id (select (λ s. found s && ltb_ℤ a s.id) tables.selections))))
build_query-finds_example = build_query-finds (criteria none) tables one_tag

crawl-reaches_example :
    let c = criteria none in
    let found = matches c tables in
    crawl
      (λ (e : SelectionEntity ℤ). e.id)
      (λ b. rows_in (answer tables (build_query (record c { page = none; after = some b }))))
      4
      (pos 0)
    ≡ sort_by
        (λ (e : SelectionEntity ℤ). e.id)
        (select (λ s. found s && ltb_ℤ (pos 0) s.id) tables.selections)
crawl-reaches_example =
    crawl-reaches (criteria none) tables one_tag ((refl, (refl, tt)), ((refl, tt), (tt, tt)))
      (omega arith) 4 (pos 0) (omega arith)

-- A second analysis has tagged the same video.
abbrev tagged_twice : Tables ℤ
tagged_twice = record tables { odd_tags = snow 1 ∷ record (snow 2) { task_id = "t2" } ∷ [] }

rows_of-repeats_example :
    let c = criteria (some Weather.snowy) in
    length (
      rows_of tagged_twice
        (build_count_query c).joins_odd
        (build_count_query c).conditions
        (driving 8))
    ≡ (if selection_meets c (driving 8) && label_matches c tagged_twice (driving 8)
        then length (select (odd_tag_meets c) (odd_tags_of tagged_twice (pos 8)))
        else 0)
rows_of-repeats_example =
    rows_of-repeats (criteria (some Weather.snowy)) tagged_twice (driving 8) refl

-- A session that finds one selection with its tag, and counts the rows that it is given.
abbrev counting : Session ℕ ℤ
counting = record {
  insert_ignore = λ table rows s. (ok (length rows), s + length rows);
  flush = pure tt;
  add_all = λ rows. pure tt;
  select_selections = λ stmt. pure (driving 8 ∷ []);
  count_selections = λ stmt. pure (some 2);
  select_rejections = λ stmt. pure [];
  count_rejections = λ stmt. pure none;
  get_selection = λ id. pure none;
  odd_tags_where = λ id. pure [];
  labels_where = λ id. pure [];
  odd_tags_in = λ ids. pure (snow 1 ∷ []);
  labels_in = λ ids. pure [];
  ids_where_task = λ table task_id. pure [];
}

abbrev selection_of : ℕ → Selection ℤ
selection_of id = record {
  id = record { value = pos id };
  task_id = "t1";
  recorded_at = 5;
  temperature = record { celsius = pos 2150 };
  wiper = record { active = true; level = some (pos 2) };
  headlights_on = false;
  source_path = record { value = "/data/raw/1.mp4" };
}

abbrev results : List (SearchResult ℤ)
results =
    record {
      selection = selection_of 8;
      odd_tag = some (record {
        id = pos 1;
        task_id = "t1";
        video_id = record { value = pos 8 };
        weather = Weather.snowy;
        time_of_day = TimeOfDay.day;
        road_surface = RoadSurface.icy;
      });
      labels = [];
    }
    ∷ []

search_data-IsAnswer_example :
    (n : Option ℕ) × (entities : List (SelectionEntity ℤ)) × (t : ℕ) × (v : ℕ)
    × (counting.count_selections (build_count_query (criteria none)) 5 ≡ (ok n, t))
    × (counting.select_selections (build_query (criteria none)) t ≡ (ok entities, v))
    × (2 ≡ or_zero n)
    × IsAnswer counting entities v 5 results
unfolding search_data assemble ◌>>=◌ new_video_id from_celsius new_wiper_state source_path_of
    from_value new_odd_tag
search_data-IsAnswer_example = search_data-IsAnswer counting (criteria none) results 2 5 5 refl

same_pair : {a b x y : ℕ} → ◌≡◌ {A = Result ℕ × ℕ} (ok a, x) (ok b, y) → (a ≡ b) × (x ≡ y)
same_pair h = (cc, ap (λ r. r.1) h)

counts_in_order :
    (xs ys : List (Entries ℤ)) (s t u m n : ℕ)
    → ◌≡◌ {A = Result ℕ × ℕ} (ok (length xs), s + length xs) (ok m, t)
    → ◌≡◌ {A = Result ℕ × ℕ} (ok (length ys), t + length ys) (ok n, u)
    → ◌≡◌ {A = Result ℕ × ℕ} (ok (length (xs ++ ys)), s + length (xs ++ ys)) (ok (m + n), u)
counts_in_order xs ys s t u m n h k =
    let (a, b) = same_pair h in
    let (c, d) = same_pair k in
    let count : length (xs ++ ys) ≡ m + n = omega (arith, length-append xs ys) in
    let total : s + length (xs ++ ys) ≡ u = omega (arith, length-append xs ys) in
    ap (λ n. (ok (length (xs ++ ys)), n)) total ∙ ap (λ n. (ok n, u)) count

counting_laws : InsertsInOrder counting
unfolding pure
counting_laws = record {
  insert_append = λ table xs ys s t u m n. counts_in_order xs ys s t u m n;
  flush_idle = λ table xs s t u m h k. sym (ap (λ r. r.1) k);
  rowcount_le = λ table xs s. omega arith;
}

abbrev ids : List ℕ
ids = 7 ∷ 8 ∷ 9 ∷ []

abbrev row : ℕ → Entries ℤ
row id = entry "task_id" (string "t1") end

save_all-single_example :
    (counting.insert_ignore selections (map row ids) 0 ≡ (ok 3, 3)) × (3 ≤ length ids)
unfolding chunked insert_chunks pure ◌>>=◌
save_all-single_example =
    save_all-single counting counting_laws selections row 2 7 (8 ∷ 9 ∷ []) 3 0 3 (omega arith) refl

-- Times rounded to seconds, and temperatures as they are.
abbrev columns : Columns ℤ
columns = record { kept_date = λ t. (t + 500) / 1000 * 1000; kept_float = λ x. x }

selection_to_domain-to_dict_example :
    selection_to_domain (record (driving 7) { recorded_at = 6000 })
    ≡ ok (record (selection_of 7) { recorded_at = 6000 })
unfolding find_key selection_to_dict new_video_id from_celsius new_wiper_state source_path_of
selection_to_domain-to_dict_example =
    selection_to_domain-to_dict columns (record (selection_of 7) { recorded_at = 5678 })
      (record (driving 7) { recorded_at = 6000 }) (record { celsius = pos 2150 })
      (record {
        id = refl;
        task_id = refl;
        recorded_at = (5678, refl, refl);
        temperature = (pos 2150, refl, refl);
        wiper_active = refl;
        wiper_level = refl;
        headlights_on = refl;
        source_path = refl;
      })
      (record { id = refl; temperature = refl; wiper = refl; source_path = refl })
