-- ===== src/Application/Phases.antt =====
-- app/application/phase_runners.py: one phase of the pipeline, which refines the raw rows of a
-- task chunk by chunk, stores what is valid and records what is not.
pub mod Loop
pub mod Links
pub mod Runners
use Prim.Native.String.{◌++◌ as str_append}
use pipeline_server.Prelude.{
  ℕ, zero, suc, ◌+◌, ◌-◌, String, Bool, true, false, not, ◌&&◌, Option, some, none, List, [], ◌∷◌,
  ◌++◌, str_eq, ltb, length, take, drop, if◌then◌else◌,
}
use pipeline_server.Prelude.Int.{ℤ, pos, leb_ℤ, str_int}
use pipeline_server.Result.{Result, ok, err}
use pipeline_server.Effects.{Action, pure, raise, lift, ◌>>=◌, ◌>>◌}
use pipeline_server.Domain.Errors.{Exc, builtin, value_error}
use pipeline_server.Domain.Enums.{
  Stage, selection, odd_tagging, auto_labeling, stage_value, object_class_value, RejectionReason,
  duplicate_tagging, duplicate_label, unlinked_record,
}
use pipeline_server.Domain.Values.{StageProgress, StageResult}
use pipeline_server.Domain.Models.{Rejection, OddTag, Label, new_rejection}
use pipeline_server.Domain.Task.{AnalyzeTask, get_progress_for, with_progress, with_completed_phase}
use pipeline_server.Domain.Ports.{TaskRepository, Clock, now}

abbrev pub default_chunk_size : ℕ
default_chunk_size = 5000

-- What `_refine_single` returns: a list of rejections, a rejection, or a refined item.
pub data Refined (Item : Type 0) : Type 0 where
  all_rejected : List Rejection → Refined Item
  rejected : Rejection → Refined Item
  refined : Item → Refined Item

-- A runner with what its subclass defines: the stage, the source, `_refine_single` and
-- `_save_valid_ignore_duplicates`. The iterator of raw rows yields each row or raises; its list
-- holds what it yields.
pub record PhaseRunner (S Row Item : Type 0) : Type 0 where
  pub find_by_task_and_source : String → String → Action S (List (Result Row))
  pub task_repo : TaskRepository S
  pub save_rejections : List Rejection → Action S (Unit {0})
  pub clock : Clock S
  pub chunk_size : ℕ
  pub stage : Stage
  pub source : String
  pub refine_single : String → Row → List ℤ → Action S (Refined Item)
  pub save_valid_ignore_duplicates : List Item → Action S ℕ

-- `list(itertools.islice(rows, n))`, of the part of the iterator that it reads
unfoldable pub all_rows : {Row : Type 0} → List (Result Row) → Result (List Row)
all_rows [] = ok []
all_rows (err e ∷ rows) = err e
all_rows (ok row ∷ rows) = elim (all_rows rows) [ ok rest ↦ ok (row ∷ rest) | err e ↦ err e ]

pub record Counts : Type 0 where
  pub loaded : ℕ
  pub rejections : ℕ

-- a chunk that is refined: what is valid, and the rejections
pub record Split (Item : Type 0) : Type 0 where
  pub valid : List Item
  pub rejections : List Rejection

-- What one row adds in front of what the rows after it give.
abbrev pub add_refined : {Item : Type 0} → Refined Item → Split Item → Split Item
add_refined (all_rejected rs) split = record split { rejections = rs ++ split.rejections }
add_refined (rejected r) split = record split { rejections = r ∷ split.rejections }
add_refined (refined item) split = record split { valid = item ∷ split.valid }

module _ {S Row Item : Type 0} (runner : PhaseRunner S Row Item) where
  open runner use {
    find_by_task_and_source, task_repo, save_rejections, clock, chunk_size, stage, source,
    refine_single, save_valid_ignore_duplicates,
  }

  unfoldable pub refine_chunk : String → List Row → List ℤ → Action S (Split Item)
  refine_chunk task_id [] valid_selection_ids = pure (record { valid = []; rejections = [] })
  refine_chunk task_id (row ∷ chunk) valid_selection_ids = do
    result ← refine_single task_id row valid_selection_ids
    split ← refine_chunk task_id chunk valid_selection_ids
    pure (add_refined result split)

  abbrev pub duplicate_reason : Stage → RejectionReason
  duplicate_reason odd_tagging = duplicate_tagging
  duplicate_reason _ = duplicate_label

  unfoldable pub build_duplicate_rejections : String → ℕ → Action S (List Rejection)
  unfolding new_rejection
  build_duplicate_rejections task_id count = do
    t ← now clock
    r ← lift (
        new_rejection task_id stage (duplicate_reason stage) "batch" "unique_constraint"
          (str_append "UNIQUE 제약 위반으로 " (str_append (str_int (pos count)) "건 무시됨")) t)
    pure (r ∷ [])

  -- `if duplicate_count > 0: …`
  unfoldable pub add_duplicates : String → ℕ → List Rejection → Action S (List Rejection)
  unfolding build_duplicate_rejections
  add_duplicates task_id duplicate_count rejections =
      if ltb 0 duplicate_count
      then (do
        duplicates ← build_duplicate_rejections task_id duplicate_count
        pure (rejections ++ duplicates))
      else pure rejections

  -- `if valid: …`: the number that is inserted, and the rejections with those of the duplicates
  unfoldable pub store_valid : String → Split Item → Action S (ℕ × List Rejection)
  unfolding add_duplicates
  store_valid task_id split = elim split.valid [
    | [] ↦ pure (0, split.rejections)
    | item ∷ items ↦ do
      inserted ← save_valid_ignore_duplicates (item ∷ items)
      rejections ← add_duplicates task_id (length (item ∷ items) - inserted) split.rejections
      pure (inserted, rejections)
  ]

  -- `if rejections: …`
  unfoldable pub store_rejections : List Rejection → Action S ℕ
  store_rejections [] = pure 0
  store_rejections (r ∷ rs) = do save_rejections (r ∷ rs); pure (length (r ∷ rs))

  -- the body of the loop, on a chunk that is not empty
  unfoldable pub run_chunk : String → List Row → List ℤ → Counts → Action S Counts
  unfolding refine_chunk store_valid store_rejections
  run_chunk task_id chunk valid_selection_ids counts = do
    split ← refine_chunk task_id chunk valid_selection_ids
    stored ← store_valid task_id split
    n ← store_rejections stored.1
    pure (record { loaded = counts.loaded + stored.0; rejections = counts.rejections + n })

  -- a round on its chunk, and the rounds after it: an empty chunk is the `break`
  unfoldable pub on_chunk :
      String → List ℤ → Counts → (Counts → Action S Counts) → List Row → Action S Counts
  on_chunk task_id valid_selection_ids counts rest [] = pure counts
  on_chunk task_id valid_selection_ids counts rest (row ∷ more) =
      run_chunk task_id (row ∷ more) valid_selection_ids counts >>= rest

  -- the loop, with fuel for its rounds
  unfoldable pub run_loop : ℕ → String → List ℤ → List (Result Row) → Counts → Action S Counts
  unfolding all_rows on_chunk
  run_loop zero task_id valid_selection_ids rows counts = pure counts
  run_loop (suc fuel) task_id valid_selection_ids rows counts = do
    chunk ← lift (all_rows (take chunk_size rows))
    on_chunk task_id valid_selection_ids counts
        (λ counts'. run_loop fuel task_id valid_selection_ids (drop chunk_size rows) counts') chunk

  -- `run`: a missing set of ids is the empty one
  unfoldable pub run : AnalyzeTask → String → List ℤ → Action S (StageResult × AnalyzeTask)
  unfolding get_progress_for with_progress with_completed_phase
  run task task_id valid_selection_ids = do
    rows ← find_by_task_and_source task_id source
    counts ←
        run_loop (suc (length rows)) task_id valid_selection_ids rows
          (record { loaded = 0; rejections = 0 })
    let progress = get_progress_for task stage
    let task' =
        with_completed_phase
          (with_progress task stage (record {
            total = progress.total;
            processed = counts.loaded;
            rejected = counts.rejections;
          }))
          stage
    task_repo.save task'
    pure (
      (record { total = progress.total; loaded = counts.loaded; rejected = counts.rejections }),
      task',
    )

-- `video_id in valid_selection_ids`
abbrev pub is_linked : ℤ → List ℤ → Bool
is_linked id [] = false
is_linked id (x ∷ xs) = if leb_ℤ id x && leb_ℤ x id then true else is_linked id xs

-- `valid_selection_ids and video_id not in valid_selection_ids`
abbrev pub is_unlinked : ℤ → List ℤ → Bool
is_unlinked id [] = false
is_unlinked id (x ∷ xs) = not (is_linked id (x ∷ xs))

module _ {S : Type 0} (clock : Clock S) where
  -- the rejection of an item whose video is not selected
  unfoldable pub unlinked : {Item : Type 0} → String → Stage → ℤ → String → Action S (Refined Item)
  unfolding new_rejection
  unlinked task_id stage id source_id = do
    t ← now clock
    r ← lift (
        new_rejection task_id stage unlinked_record source_id "video_id"
          (str_append "Selection에 존재하지 않는 video_id: " (str_int id)) t)
    pure (rejected r)

  -- a refined tag whose video is not selected is rejected
  unfoldable pub link_odd_tag : String → List ℤ → Refined OddTag → Action S (Refined OddTag)
  unfolding unlinked
  link_odd_tag task_id valid_selection_ids (refined tag) =
      if is_unlinked tag.video_id.value valid_selection_ids
      then unlinked task_id odd_tagging tag.video_id.value (str_int tag.video_id.value)
      else pure (refined tag)
  link_odd_tag task_id valid_selection_ids other = pure other

  -- `OddTagPhaseRunner._refine_single`, over `OddTagRefiner.refine_single`
  unfoldable pub refine_odd_tag :
      {Row : Type 0}
      → (String → Row → Action S (Refined OddTag))
      → String
      → Row
      → List ℤ
      → Action S (Refined OddTag)
  unfolding link_odd_tag
  refine_odd_tag refine_single task_id row valid_selection_ids = do
    result ← refine_single task_id row
    link_odd_tag task_id valid_selection_ids result

  -- a refined label whose video is not selected is rejected
  unfoldable pub link_label :
      {F : Type 0} → String → List ℤ → Refined (Label F) → Action S (Refined (Label F))
  unfolding unlinked
  link_label task_id valid_selection_ids (refined label) =
      if is_unlinked label.video_id.value valid_selection_ids
      then unlinked task_id auto_labeling label.video_id.value (
          str_append (str_int label.video_id.value)
            (str_append ":" (object_class_value label.object_class)))
      else pure (refined label)
  link_label task_id valid_selection_ids other = pure other

  -- `LabelPhaseRunner._refine_single`, over `LabelRefiner.refine_single`
  unfoldable pub refine_label :
      {F Row : Type 0}
      → (String → Row → Action S (Refined (Label F)))
      → String
      → Row
      → List ℤ
      → Action S (Refined (Label F))
  unfolding link_label
  refine_label refine_single task_id row valid_selection_ids = do
    result ← refine_single task_id row
    link_label task_id valid_selection_ids result
