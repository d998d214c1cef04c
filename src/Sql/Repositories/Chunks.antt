-- ===== src/Sql/Repositories/Chunks.antt =====
-- app/adapter/outbound/mysql/repositories.py: saving in chunks, next to saving at once.
use mathlib.Core.List.{append-nil, map-append}
use pipeline_server.Prelude.{
  subst, ℕ, zero, suc, ◌+◌, ◌≤◌, ◌<◌, ◌≡◌, refl, ap, ◌∙◌, List, [], ◌∷◌, ◌++◌, map, length, drop,
  take-append-drop, length-drop, arith,
}
use pipeline_server.Result.{Result, ok}
use pipeline_server.Effects.{pure}
use pipeline_server.Effects.Keeps.{OnOk}
use pipeline_server.Effects.Results.{bind-parts}
use pipeline_server.Python.{Entries}
use pipeline_server.Sql.Session.{Table, Session, InsertsInOrder}
use pipeline_server.Sql.Repositories.{chunked, insert_chunks}

abbrev pub join : {A : Type 0} → List (List A) → List A
join [] = []
join (xs ∷ xss) = xs ++ join xss

-- The chunks, one after the other, are the list, for a size above 0 and a round for each item.
pub join-chunked :
    {A : Type 0} (fuel size : ℕ) (xs : List A)
    → 0 < size
    → length xs < fuel
    → join (chunked fuel size xs) ≡ xs
unfolding chunked
join-chunked zero size xs p h = absurd (omega arith)
join-chunked (suc fuel) size [] p h = refl
join-chunked (suc fuel) zero (x ∷ xs) p h = absurd (omega arith)
join-chunked (suc fuel) (suc size) (x ∷ xs) p h =
    rw (join-chunked fuel (suc size) (drop size xs) p (omega (arith, length-drop size xs)))
      (ap (λ ys. x ∷ ys) (take-append-drop size xs))

ok_parts :
    {S : Type 0} {a b : ℕ} {t u : S}
    → ◌≡◌ {A = Result ℕ × S} (ok a, t) (ok b, u)
    → (b ≡ a) × (t ≡ u)
ok_parts h = (cc, ap (λ r. r.1) h)

module _ {S F A : Type 0} (session : Session S F) (laws : InsertsInOrder session) (table : Table)
    (to_dict : A → Entries F) where
  -- one chunk and the rest, where both return
  insert_chunks-cons :
      (chunk : List A) (chunks : List (List A)) (total n : ℕ) (s u : S)
      → insert_chunks session table to_dict (chunk ∷ chunks) total s ≡ (ok n, u)
      → (m : ℕ) × (t : S) × (session.insert_ignore table (map to_dict chunk) s ≡ (ok m, t))
        × (insert_chunks session table to_dict chunks (total + m) t ≡ (ok n, u))
  unfolding insert_chunks
  insert_chunks-cons chunk chunks total n s u h =
      let (m, t, inserted, rest) =
        bind-parts (session.insert_ignore table (map to_dict chunk)) _ s h in
      let (_, t', flushed, more) = bind-parts session.flush _ t rest in
      let same = laws.flush_idle table (map to_dict chunk) s t t' m inserted flushed in
      (
        m,
        t,
        inserted,
        subst (λ v. insert_chunks session table to_dict chunks (total + m) v ≡ (ok n, u)) same more,
      )

  -- The chunks together are inserted as one list would be.
  pub insert_chunks-join :
      (chunk : List A) (chunks : List (List A)) (total n : ℕ) (s u : S)
      → insert_chunks session table to_dict (chunk ∷ chunks) total s ≡ (ok n, u)
      → (k : ℕ) × (session.insert_ignore table (map to_dict (join (chunk ∷ chunks))) s ≡ (ok k, u))
        × (n ≡ total + k)
  unfolding insert_chunks pure
  insert_chunks-join chunk [] total n s u h =
      let (m, t, inserted, rest) = insert_chunks-cons chunk [] total n s u h in
      let (counted, same) = ok_parts rest in
      (m, rw (append-nil chunk) (inserted ∙ ap (λ v. (ok m, v)) same), counted)
  insert_chunks-join chunk (next ∷ chunks) total n s u h =
      let (m, t, inserted, rest) = insert_chunks-cons chunk (next ∷ chunks) total n s u h in
      let (k, all, sum) = insert_chunks-join next chunks (total + m) n t u rest in
      (
        m + k,
        rw (map-append to_dict chunk (join (next ∷ chunks)))
            (laws.insert_append table _ _ s t u m k inserted all),
        omega (arith),
      )

length-map : {A B : Type 0} (f : A → B) (xs : List A) → length (map f xs) ≡ length xs
length-map f [] = refl
length-map f (x ∷ xs) = ap suc (length-map f xs)

OnOk-at :
    {S : Type 0} (P : ℕ → Type 0) (r : Result ℕ × S) (k : ℕ) (u : S)
    → r ≡ (ok k, u)
    → OnOk P r.0
    → P k
OnOk-at {S} P r k u e h = subst (λ (q : Result ℕ × S). OnOk P q.0) e h

-- A list that is not empty and is saved in chunks of a size above 0, the save of which returns, is
-- inserted as by a single INSERT of all its dicts: the session ends in the same state, and the number
-- that is returned is the one which that INSERT reports, at most the length of the list.
pub save_all-single :
    {S F A : Type 0} (session : Session S F) (laws : InsertsInOrder session) (table : Table)
    (to_dict : A → Entries F) (size : ℕ) (x : A) (xs : List A) (n : ℕ) (s u : S)
    → 0 < size
    → insert_chunks session table to_dict (chunked (suc (length (x ∷ xs))) size (x ∷ xs)) 0 s
      ≡ (ok n, u)
    → (session.insert_ignore table (map to_dict (x ∷ xs)) s ≡ (ok n, u)) × (n ≤ length (x ∷ xs))
unfolding chunked
save_all-single session laws table to_dict zero x xs n s u p h = absurd (omega arith)
save_all-single session laws table to_dict (suc size) x xs n s u p h =
    let (k, all, sum) = insert_chunks-join session laws table to_dict _ _ 0 n s u h in
    let whole = join-chunked (suc (length (x ∷ xs))) (suc size) (x ∷ xs) p (omega arith) in
    let inserted =
      subst (λ ys. session.insert_ignore table (map to_dict ys) s ≡ (ok k, u)) whole all in
    let bound =
      OnOk-at (λ m. m ≤ length (map to_dict (x ∷ xs))) _ k u inserted
        (laws.rowcount_le table (map to_dict (x ∷ xs)) s) in
    (inserted ∙ ap (λ m. (ok m, u)) (omega arith), omega (arith, length-map to_dict (x ∷ xs)))
