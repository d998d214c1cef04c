-- ===== src/Sql/Repositories/Search.antt =====
-- app/adapter/outbound/mysql/repositories.py: the results that a search of data puts together.
use pipeline_server.Prelude.{
  subst, ℕ, ◌≡◌, refl, sym, ◌∙◌, Bool, ◌&&◌, Option, some, none, List, [], ◌∷◌, arith, select, map,
  ap,
}
use pipeline_server.Prelude.Int.{ℤ, leb_ℤ}
use pipeline_server.Result.{Result, ok, err}
use pipeline_server.Result.Gives.{Gives, gives, raises}
use pipeline_server.Effects.{lift, pure}
use pipeline_server.Effects.Results.{bind-parts}
use pipeline_server.Domain.Models.{DataSearchCriteria, Selection, OddTag, Label, SearchResult}
use pipeline_server.Python.{Runtime}
use pipeline_server.Sql.Entities.{SelectionEntity, OddTagEntity, LabelEntity}
use pipeline_server.Sql.Mappers.{selection_to_domain, odd_tag_to_domain, label_to_domain}
use pipeline_server.Sql.Session.{Session}
use pipeline_server.Sql.QueryBuilder.{build_query, build_count_query}
use pipeline_server.Sql.Repositories.{
  map_result, some_result, odd_map_get, label_map_get, search_result, assemble, search_data,
  or_zero,
}

-- Two lists of one length, whose items are related one by one.
abbrev pub Pairs : {A B : Type 0} → (A → B → Type 0) → List A → List B → Type 0
Pairs R [] [] = Unit
Pairs R [] (y ∷ ys) = ⊥
Pairs R (x ∷ xs) [] = ⊥
Pairs R (x ∷ xs) (y ∷ ys) = R x y × Pairs R xs ys

map_result-Pairs :
    {A B : Type 0} (R : A → B → Type 0) (f : A → Result B)
    → ((x : A) → Gives (R x) (f x))
    → (xs : List A) → Gives (Pairs R xs) (map_result f xs)
unfolding map_result
map_result-Pairs {A} {B} R f h [] = gives tt
map_result-Pairs {A} {B} R f h (x ∷ xs) =
    add (f x) (map_result f xs) (h x) (map_result-Pairs R f h xs)
  where
    add :
        (r : Result B) (rs : Result (List B))
        → Gives (R x) r
        → Gives (Pairs R xs) rs
        → Gives
            (Pairs R (x ∷ xs))
            (elim r [ err e ↦ err e | ok y ↦ elim rs [ ok ys ↦ ok (y ∷ ys) | err e ↦ err e ] ])
    add r rs (gives p) (gives ps) = gives (p, ps)
    add r rs (gives p) raises = raises
    add r rs raises ps = raises

abbrev pub of_video : ℤ → ℤ → Bool
of_video id video_id = leb_ℤ video_id id && leb_ℤ id video_id

abbrev pub last_of : {A : Type 0} → List A → Option A
last_of [] = none
last_of (x ∷ xs) = elim (last_of xs) [ some y ↦ some y | none ↦ some x ]

-- The map keeps the last row of a video.
odd_map_get-last :
    (id : ℤ) (es : List OddTagEntity)
    → odd_map_get id es ≡ last_of (select (λ (e : OddTagEntity). of_video id e.video_id) es)
unfolding odd_map_get
odd_map_get-last id [] = refl
odd_map_get-last id (e ∷ es) = ground (arith, odd_map_get-last id es)

label_map_get-select :
    {F : Type 0} (id : ℤ) (es : List (LabelEntity F))
    → label_map_get id es ≡ select (λ (e : LabelEntity F). of_video id e.video_id) es
unfolding label_map_get
label_map_get-select id [] = refl
label_map_get-select id (e ∷ es) = ground (arith, label_map_get-select id es)

-- A result is what the mappers make of rows: of its selection's row, of the last odd tag row of the
-- selection's video, if there is one, and of all the label rows of that video.
pub record IsResultOf {F : Type 0} ⦃py : Runtime F⦄ (odds : List OddTagEntity)
    (labels : List (LabelEntity F)) (e : SelectionEntity F) (r : SearchResult F) : Type 0 where
  pub selection_read : selection_to_domain e ≡ ok r.selection
  pub tag_read :
      some_result
        (odd_tag_to_domain F)
        (last_of (select (λ (o : OddTagEntity). of_video e.id o.video_id) odds))
      ≡ ok r.odd_tag
  pub labels_read :
      Pairs
        (λ (l : LabelEntity F) (lb : Label F). label_to_domain l ≡ ok lb)
        (select (λ (l : LabelEntity F). of_video e.id l.video_id) labels)
        r.labels

Gives-itself : {A : Type 0} (r : Result A) → Gives (λ a. r ≡ ok a) r
Gives-itself (ok a) = gives refl
Gives-itself (err e) = raises

module _ {F : Type 0} ⦃py : Runtime F⦄ (odds : List OddTagEntity)
    (labels : List (LabelEntity F)) where
  result_of :
      {P : Selection F → Type 0} {Q : Option OddTag → Type 0} {R : List (Label F) → Type 0}
      (sel : Result (Selection F)) (tag : Result (Option OddTag)) (lbs : Result (List (Label F)))
      → Gives P sel
      → Gives Q tag
      → Gives R lbs
      → Gives
          (λ (r : SearchResult F). P r.selection × Q r.odd_tag × R r.labels)
          (elim sel [
            | err x ↦ err x
            | ok s ↦ elim tag [
              | err x ↦ err x
              | ok t ↦ elim lbs [
                | err x ↦ err x
                | ok ls ↦ ok (record { selection = s; odd_tag = t; labels = ls })
              ]
            ]
          ])
  result_of sel tag lbs raises t l = raises
  result_of sel tag lbs (gives s) raises l = raises
  result_of sel tag lbs (gives s) (gives t) raises = raises
  result_of sel tag lbs (gives s) (gives t) (gives l) = gives (s, t, l)

  from_parts :
      {e : SelectionEntity F} {r : Result (SearchResult F)}
      → Gives
          (λ (r : SearchResult F).
            (selection_to_domain e ≡ ok r.selection)
            × (some_result (odd_tag_to_domain F) (odd_map_get e.id odds) ≡ ok r.odd_tag)
            × Pairs
                (λ (l : LabelEntity F) (lb : Label F). label_to_domain l ≡ ok lb)
                (label_map_get e.id labels)
                r.labels)
          r
      → Gives (IsResultOf odds labels e) r
  from_parts {e} (gives {a = r} (s, t, l)) = gives (record {
    selection_read = s;
    tag_read = ap (some_result (odd_tag_to_domain F)) (sym (odd_map_get-last e.id odds)) ∙ t;
    labels_read =
        subst
          (λ (rows : List (LabelEntity F)).
            Pairs (λ (l : LabelEntity F) (lb : Label F). label_to_domain l ≡ ok lb) rows r.labels)
          (label_map_get-select e.id labels) l;
  })
  from_parts raises = raises

  search_result-IsResultOf :
      (e : SelectionEntity F) → Gives (IsResultOf odds labels e) (search_result odds labels e)
  unfolding search_result
  search_result-IsResultOf e = from_parts (
      result_of (selection_to_domain e) _ _ (Gives-itself (selection_to_domain e))
        (Gives-itself (some_result (odd_tag_to_domain F) (odd_map_get e.id odds)))
        (map_result-Pairs _ label_to_domain (λ l. Gives-itself (label_to_domain l))
          (label_map_get e.id labels)))

-- How results come from the selection rows, from a state to a state: without rows there is nothing to
-- read; with rows, the odd tags and then the labels of their videos are read, and each result belongs
-- to the row at its place.
pub data IsAnswer {S F : Type 0} ⦃py : Runtime F⦄ (session : Session S F)
    : List (SelectionEntity F) → S → S → List (SearchResult F) → Type 0 where
  nothing_found : {s : S} → IsAnswer session [] s s []
  put_together :
      {entities : List (SelectionEntity F)} {results : List (SearchResult F)} {s t u : S}
      {odds : List OddTagEntity} {labels : List (LabelEntity F)}
      → session.odd_tags_in (map (λ (e : SelectionEntity F). e.id) entities) s ≡ (ok odds, t)
      → session.labels_in (map (λ (e : SelectionEntity F). e.id) entities) t ≡ (ok labels, u)
      → Pairs (IsResultOf odds labels) entities results
      → IsAnswer session entities s u results

module _ {S F : Type 0} ⦃py : Runtime F⦄ (session : Session S F) where
  same_out :
      {A : Type 0} {a b : A} {s u : S}
      → ◌≡◌ {A = Result A × S} (ok a, s) (ok b, u)
      → (a ≡ b) × (s ≡ u)
  same_out h = (cc, ap (λ r. r.1) h)

  -- the results of a lift that returned
  lifted :
      {A : Type 0} (Q : A → Type 0) (r : Result A) (s u : S) (a : A)
      → Gives Q r
      → lift r s ≡ (ok a, u)
      → Q a × (s ≡ u)
  unfolding lift
  lifted Q r s u a (gives q) h = let (same, moved) = same_out h in (subst Q same q, moved)
  lifted Q r s u a raises h = cc

  assemble-IsAnswer :
      (n total : ℕ) (entities : List (SelectionEntity F)) (results : List (SearchResult F))
      (s u : S)
      → assemble session n entities s ≡ (ok (results, total), u)
      → (total ≡ n) × IsAnswer session entities s u results
  unfolding assemble pure
  assemble-IsAnswer n total [] results s u h =
      let (out, moved) = same_out h in
      let nothing : [] ≡ results = ap (λ o. o.0) out in
      (
        ap (λ o. o.1) (sym out),
        subst (IsAnswer session [] s u) nothing
            (subst (λ v. IsAnswer session [] s v []) moved nothing_found),
      )
  assemble-IsAnswer n total (e ∷ es) results s u h =
      let (odds, t, read_odds, h1) = bind-parts (session.odd_tags_in _) _ s h in
      let (labels, v, read_labels, h2) = bind-parts (session.labels_in _) _ t h1 in
      let (made, w, ran, h3) = bind-parts (lift _) _ v h2 in
      let (pairs, kept) =
        lifted (Pairs (IsResultOf odds labels) (e ∷ es)) _ v w made
          (map_result-Pairs _ (search_result odds labels) (search_result-IsResultOf odds labels)
            (e ∷ es))
          ran in
      let (out, moved) = same_out h3 in
      (
        ap (λ o. o.1) (sym out),
        put_together read_odds
            (subst
              (λ x.
                session.labels_in (map (λ (y : SelectionEntity F). y.id) (e ∷ es)) t
                ≡ (ok labels, x))
              (kept ∙ moved) read_labels)
            (subst (Pairs (IsResultOf odds labels) (e ∷ es)) (ap (λ o. o.0) out) pairs),
      )

-- A search of data that returns has run the count query and then the query of its criteria; its total
-- is the number that was counted, or 0 for none; and it returns one result for each selection row that
-- the query found, in their order, which is read from that row, from the last tag row of its video and
-- from all the label rows of its video, among the rows that were then read.
pub search_data-IsAnswer :
    {S F : Type 0} ⦃py : Runtime F⦄ (session : Session S F) (criteria : DataSearchCriteria F)
    (results : List (SearchResult F)) (total : ℕ) (s u : S)
    → search_data session criteria s ≡ (ok (results, total), u)
    → (n : Option ℕ) × (entities : List (SelectionEntity F)) × (t : S) × (v : S)
      × (session.count_selections (build_count_query criteria) s ≡ (ok n, t))
      × (session.select_selections (build_query criteria) t ≡ (ok entities, v))
      × (total ≡ or_zero n)
      × IsAnswer session entities v u results
unfolding search_data
search_data-IsAnswer session criteria results total s u h =
    let (n, t, counted, h1) =
      bind-parts (session.count_selections (build_count_query criteria)) _ s h in
    let (entities, v, selected, h2) =
      bind-parts (session.select_selections (build_query criteria)) _ t h1 in
    let (summed, answered) = assemble-IsAnswer session (or_zero n) total entities results v u h2 in
    (n, entities, t, v, counted, selected, summed, answered)
