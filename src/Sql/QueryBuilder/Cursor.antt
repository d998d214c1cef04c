-- ===== src/Sql/QueryBuilder/Cursor.antt =====
-- app/adapter/outbound/mysql/query_builder.py: a client that goes from cursor to cursor.
use mathlib.Core.List.{append-nil}
use pipeline_server.Prelude.{
  ℕ, zero, suc, ◌<◌, ◌≡◌, refl, ap, sym, ◌∙◌, true, ◌&&◌, some, none, List, [], ◌∷◌, ◌++◌, length,
  take, drop, select, take-append-drop, length-drop, arith, inl, inr, Option-cases, subst,
}
use pipeline_server.Prelude.Int.{ℤ, ltb_ℤ}
use pipeline_server.Domain.Models.{DataSearchCriteria}
use pipeline_server.Python.{Runtime}
use pipeline_server.Sql.Entities.{SelectionEntity}
use pipeline_server.Sql.QueryBuilder.{build_query}
use pipeline_server.Sql.QueryBuilder.Meaning.{Tables, answer, rows_in, sort_by}
use pipeline_server.Sql.QueryBuilder.Filters.{matches}
use pipeline_server.Sql.QueryBuilder.Rows.{OneTagEach, build_query-finds}
use pipeline_server.Sql.QueryBuilder.Order.{
  Ascending, last_key, behind, Distinct, last_key-All, behind-last, select-Ascending,
  select-Distinct, sort-Ascending, sort-behind, length-sort, behind-All, behind-behind,
  select-behind,
}

module _ {A : Type 0} (key : A → ℤ) where
  -- A client that asks for the page behind a cursor, and goes on from the key of its last item until
  -- a page is empty.
  pub crawl : (ℤ → List A) → ℕ → ℤ → List A
  crawl page zero a = []
  crawl page (suc fuel) a =
      page a ++ (elim (last_key key (page a)) [ none ↦ [] | some b ↦ crawl page fuel b ])

  no_last : (xs : List A) → last_key key xs ≡ none → xs ≡ []
  no_last [] h = refl
  no_last (x ∷ []) h = cc
  no_last (x ∷ y ∷ xs) h = cc (no_last (y ∷ xs) h)

  take_nil : (n : ℕ) (xs : List A) → 0 < n → take n xs ≡ [] → xs ≡ []
  take_nil zero xs h e = absurd (omega arith)
  take_nil (suc n) [] h e = refl
  take_nil (suc n) (x ∷ xs) h e = cc

  not_empty : (n : ℕ) (xs : List A) (b : ℤ) → last_key key (take n xs) ≡ some b → 0 < length xs
  not_empty zero xs b e = cc
  not_empty (suc n) [] b e = cc
  not_empty (suc n) (x ∷ xs) b e = omega arith

  rest_lem :
      (n : ℕ) (ys : List A) (a b : ℤ)
      → Ascending key ys
      → last_key key (take n (behind key a ys)) ≡ some b
      → behind key b ys ≡ drop n (behind key a ys)
  rest_lem n ys a b asc e =
      let before =
        last_key-All key (λ k. ltb_ℤ a k ≡ true) n (behind key a ys) b (behind-All key a ys) e in
      sym (behind-behind key a b ys before)
      ∙ behind-last key n (behind key a ys) b (select-Ascending key (λ x. ltb_ℤ a (key x)) ys asc) e

  pub crawl-behind :
      (page : ℤ → List A) (n : ℕ) (ys : List A)
      → 0 < n
      → Ascending key ys
      → ((a : ℤ) → page a ≡ take n (behind key a ys))
      → (fuel : ℕ) (a : ℤ) → length (behind key a ys) < fuel
      → crawl page fuel a ≡ behind key a ys
  unfolding crawl
  crawl-behind page n ys pos_n asc pages zero a h = absurd (omega arith)
  crawl-behind page n ys pos_n asc pages (suc fuel) a h =
      elim (Option-cases (last_key key (take n (behind key a ys)))) [
        | inl e ↦
            let empty = no_last (take n (behind key a ys)) e in
            rw (pages a, e) (append-nil _ ∙ empty ∙ sym (take_nil n (behind key a ys) pos_n empty))
        | inr (b, e) ↦
            let rest = rest_lem n ys a b asc e in
            let shorter =
              subst (λ zs. length zs < fuel) (sym rest)
                (omega
                  (arith, length-drop n (behind key a ys), not_empty n (behind key a ys) b e)) in
            rw (pages a, e)
              (rw (crawl-behind page n ys pos_n asc pages fuel b shorter, rest)
                (take-append-drop n (behind key a ys)))
      ]

-- Where no video has two odd tags and no two selections have one id, a client that searches from a
-- cursor and goes on from the last id of each page, until a page is empty, is given every selection
-- behind the cursor that matches, once and in the order of their ids, whatever the order in which the
-- server comes upon them; it asks for at most one page more than there are such selections.
pub crawl-reaches :
    {F : Type 0} ⦃py : Runtime F⦄ (c : DataSearchCriteria F) (tables : Tables F)
    → OneTagEach tables
    → Distinct (λ (e : SelectionEntity F). e.id) tables.selections
    → 0 < c.size
    → (fuel : ℕ) (a : ℤ)
    → length (select (λ s. matches c tables s && ltb_ℤ a s.id) tables.selections) < fuel
    → crawl
        (λ (e : SelectionEntity F). e.id)
        (λ b. rows_in (answer tables (build_query (record c { page = none; after = some b }))))
        fuel
        a
      ≡ sort_by
          (λ (e : SelectionEntity F). e.id)
          (select (λ s. matches c tables s && ltb_ℤ a s.id) tables.selections)
crawl-reaches {F} c tables one distinct pos_n fuel a h =
    let key = λ (e : SelectionEntity F). e.id in
    let found = select (matches c tables) tables.selections in
    let here = λ (b : ℤ).
      ap (sort_by key) (select-behind key (matches c tables) b tables.selections)
      ∙ sort-behind key b found in
    let few : length (behind key a (sort_by key found)) < fuel =
      subst (λ n. n < fuel) (sym (length-sort key _) ∙ ap length (here a)) h in
    crawl-behind key _ c.size (sort_by key found) pos_n
      (sort-Ascending key found (select-Distinct key (matches c tables) tables.selections distinct))
      (λ b. ap rows_in ((build_query-finds c tables one).2 b) ∙ ap (take c.size) (here b)) fuel a
      few
    ∙ sym (here a)
