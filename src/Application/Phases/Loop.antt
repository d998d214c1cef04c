-- ===== src/Application/Phases/Loop.antt =====
-- The loop over the chunks of a phase: its rounds, and what it counts.
use pipeline_server.Prelude.{
  ℕ, zero, suc, ◌+◌, ◌≤◌, ◌<◌, String, ◌≡◌, refl, sym, ◌∙◌, ap, List, [], ◌∷◌, length, take, drop,
  length-take, length-drop, arith,
}
use pipeline_server.Prelude.Int.{ℤ}
use pipeline_server.Result.{Result, ok, err}
use pipeline_server.Effects.{Action, pure, lift, ◌>>=◌}
use pipeline_server.Effects.Keeps.{OnOk}
use pipeline_server.Effects.Returns.{
  Returns, Returns-pure, Returns-bind, Returns-bind_knowing, Returns-weaken,
}
use pipeline_server.Domain.Models.{Rejection}
use pipeline_server.Application.Phases.{
  PhaseRunner, Refined, Split, Counts, all_rejected, rejected, refined, add_refined, all_rows,
  on_chunk, refine_chunk, store_valid, run_chunk, run_loop,
}

module _ {S Row Item : Type 0} (runner : PhaseRunner S Row Item) (task_id : String)
    (ids : List ℤ) where
  open runner use {chunk_size}

  bind-eq :
      {A B : Type 0} (m : Action S A) (f g : A → Action S B)
      → ((a : A) → f a ≡ g a)
      → (m >>= f) ≡ (m >>= g)
  bind-eq m f g h = ap (λ k. m >>= k) (λ i a. h a i)

  on_chunk-eq :
      (counts : Counts) (rest rest' : Counts → Action S Counts)
      → ((c : Counts) → rest c ≡ rest' c)
      → (chunk : List Row)
      → on_chunk runner task_id ids counts rest chunk
        ≡ on_chunk runner task_id ids counts rest' chunk
  unfolding on_chunk
  on_chunk-eq counts rest rest' h [] = refl
  on_chunk-eq counts rest rest' h (row ∷ more) = bind-eq _ rest rest' h

  abbrev chunk_of : List (Result Row) → Result (List Row)
  chunk_of rows = all_rows (take chunk_size rows)

  all_rows-take-nil : (n : ℕ) → all_rows {Row = Row} (take n []) ≡ ok []
  unfolding all_rows
  all_rows-take-nil zero = refl
  all_rows-take-nil (suc n) = refl

  bind-lift_ok : {A B : Type 0} (a : A) (f : A → Action S B) → (lift (ok a) >>= f) ≡ f a
  unfolding ◌>>=◌ lift
  bind-lift_ok a f = refl

  round-nil :
      (counts : Counts) (rest : Counts → Action S Counts)
      → (lift (chunk_of []) >>= on_chunk runner task_id ids counts rest) ≡ pure counts
  unfolding on_chunk
  round-nil counts rest =
      ap (λ r. lift r >>= on_chunk runner task_id ids counts rest) (all_rows-take-nil chunk_size)
      ∙ bind-lift_ok [] (on_chunk runner task_id ids counts rest)

  -- Once there is a round for each row and one more, more rounds make no difference.
  run_loop-eq :
      0 < chunk_size
      → (fuel fuel' : ℕ) (rows : List (Result Row)) (counts : Counts) → length rows < fuel
      → length rows < fuel'
      → run_loop runner fuel task_id ids rows counts ≡ run_loop runner fuel' task_id ids rows counts
  unfolding run_loop
  run_loop-eq pos zero fuel' rows counts h h' = absurd (omega arith)
  run_loop-eq pos (suc fuel) zero rows counts h h' = absurd (omega arith)
  run_loop-eq pos (suc fuel) (suc fuel') [] counts h h' =
      round-nil counts _ ∙ sym (round-nil counts _)
  run_loop-eq pos (suc fuel) (suc fuel') (r ∷ rows) counts h h' = bind-eq _ _ _ (
      on_chunk-eq counts _ _ λ c.
        run_loop-eq pos fuel fuel' (drop chunk_size (r ∷ rows)) c
          (omega (arith, length-drop chunk_size (r ∷ rows)))
          (omega (arith, length-drop chunk_size (r ∷ rows))))

  -- What a phase loads, where a save inserts at most what it is given.
  module _
      (inserts : (items : List Item)
        → Returns (λ n. n ≤ length items) (runner.save_valid_ignore_duplicates items)) where
    valid-add_refined :
        (r : Refined Item) (split : Split Item) (n : ℕ)
        → length split.valid ≤ n
        → length (add_refined r split).valid ≤ suc n
    valid-add_refined (all_rejected rs) split n h = omega arith
    valid-add_refined (rejected r) split n h = omega arith
    valid-add_refined (refined item) split n h = omega arith

    refine_chunk-le :
        (chunk : List Row)
        → Returns
            (λ split. length split.valid ≤ length chunk)
            (refine_chunk runner task_id chunk ids)
    unfolding refine_chunk
    refine_chunk-le [] = Returns-pure _ (omega arith)
    refine_chunk-le (row ∷ chunk) = Returns-bind _ _ λ result.
        Returns-bind_knowing _ _ _ (refine_chunk-le chunk)
          λ split h. Returns-pure _ (valid-add_refined result split (length chunk) h)

    store_valid-le :
        (valid : List Item) (rejections : List Rejection)
        → Returns
            (λ stored. stored.0 ≤ length valid)
            (store_valid runner task_id (record { valid = valid; rejections = rejections }))
    unfolding store_valid
    store_valid-le [] rejections = Returns-pure _ (omega arith)
    store_valid-le (item ∷ items) rejections =
        Returns-bind_knowing _ _ _ (inserts (item ∷ items))
          λ n h. Returns-bind _ _ (λ rs. Returns-pure _ h)

    run_chunk-le :
        (chunk : List Row) (counts : Counts)
        → Returns
            (λ c. c.loaded ≤ counts.loaded + length chunk)
            (run_chunk runner task_id chunk ids counts)
    unfolding run_chunk
    run_chunk-le chunk counts = Returns-bind_knowing _ _ _ (refine_chunk-le chunk) λ split h.
        Returns-bind_knowing _ _ _ (store_valid-le split.valid split.rejections)
          λ stored h'. Returns-bind _ _ (λ n. Returns-pure _ (omega arith))

    all_rows-length :
        (rows : List (Result Row)) → OnOk (λ chunk. length chunk ≡ length rows) (all_rows rows)
    unfolding all_rows
    all_rows-length [] = refl
    all_rows-length (err e ∷ rows) = tt
    all_rows-length (ok row ∷ rows) = longer row _ (all_rows rows) (all_rows-length rows)
      where
        longer :
            (row : Row) (n : ℕ) (r : Result (List Row))
            → OnOk (λ chunk. length chunk ≡ n) r
            → OnOk
                (λ chunk. length chunk ≡ suc n)
                (elim r [ ok rest ↦ ok (row ∷ rest) | err e ↦ err e ])
        longer row n (ok rest) h = ap suc h
        longer row n (err e) h = tt

    chunk_of-Returns :
        (rows : List (Result Row))
        → Returns {S = S}
            (λ chunk. length chunk ≡ length (take chunk_size rows))
            (lift (chunk_of rows))
    unfolding lift
    chunk_of-Returns rows = record { on = λ s. all_rows-length (take chunk_size rows) }

    on_chunk-le :
        (counts : Counts) (rest : Counts → Action S Counts) (n : ℕ)
        → ((c : Counts) → Returns (λ c'. c'.loaded ≤ c.loaded + n) (rest c))
        → (chunk : List Row)
        → Returns
            (λ c. c.loaded ≤ counts.loaded + (length chunk + n))
            (on_chunk runner task_id ids counts rest chunk)
    unfolding on_chunk
    on_chunk-le counts rest n h [] = Returns-pure _ (omega arith)
    on_chunk-le counts rest n h (row ∷ more) =
        Returns-bind_knowing _ _ _ (run_chunk-le (row ∷ more) counts)
          λ c hc. Returns-weaken _ (λ c' hc'. omega arith) (h c)

    run_loop-le :
        (fuel : ℕ) (rows : List (Result Row)) (counts : Counts)
        → Returns
            (λ c. c.loaded ≤ counts.loaded + length rows)
            (run_loop runner fuel task_id ids rows counts)
    unfolding run_loop
    run_loop-le zero rows counts = Returns-pure _ (omega arith)
    run_loop-le (suc fuel) rows counts =
        Returns-bind_knowing _ _ _ (chunk_of-Returns rows) λ chunk h.
          Returns-weaken _
            (λ c hc. omega (arith, length-take chunk_size rows, length-drop chunk_size rows))
            (on_chunk-le counts _ (length (drop chunk_size rows))
              (λ c. run_loop-le fuel (drop chunk_size rows) c) chunk)

-- The fuel that the phases take is enough: over chunks that are not empty, every fuel that is larger
-- than the number of rows gives the same run.
run_loop-enough :
    {S Row Item : Type 0} (runner : PhaseRunner S Row Item) (task_id : String) (ids : List ℤ)
    (fuel : ℕ) (rows : List (Result Row)) (counts : Counts)
    → 0 < runner.chunk_size
    → length rows < fuel
    → run_loop runner fuel task_id ids rows counts
      ≡ run_loop runner (suc (length rows)) task_id ids rows counts
run_loop-enough runner task_id ids fuel rows counts pos h =
    run_loop-eq runner task_id ids pos fuel (suc (length rows)) rows counts h (omega arith)

-- Over a store that inserts at most the items that it is given, the loop adds at most the number of
-- rows to the number of loaded items, if it returns.
pub run_loop-loaded_le :
    {S Row Item : Type 0} (runner : PhaseRunner S Row Item) (task_id : String) (ids : List ℤ)
    (fuel : ℕ) (rows : List (Result Row)) (counts : Counts)
    → ((items : List Item)
        → Returns (λ n. n ≤ length items) (runner.save_valid_ignore_duplicates items))
    → Returns
        (λ c. c.loaded ≤ counts.loaded + length rows)
        (run_loop runner fuel task_id ids rows counts)
run_loop-loaded_le runner task_id ids fuel rows counts inserts =
    run_loop-le runner task_id ids inserts fuel rows counts
