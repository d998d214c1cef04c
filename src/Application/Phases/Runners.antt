-- ===== src/Application/Phases/Runners.antt =====
-- app/application/phase_runners.py, the three subclasses of `PhaseRunner`: a stage with its source,
-- its refiner and its repository.
use pipeline_server.Prelude.{ℕ, String, List}
use pipeline_server.Result.{Result}
use pipeline_server.Effects.{Action}
use pipeline_server.Domain.Enums.{selection, odd_tagging, auto_labeling}
use pipeline_server.Domain.Models.{Selection, OddTag, Label, Rejection}
use pipeline_server.Domain.Ports.{TaskRepository, Clock}
use pipeline_server.Python.{Runtime, Entries}
use pipeline_server.Application.Phases.{PhaseRunner, refine_odd_tag, refine_label}
use pipeline_server.Application.Refiners.{with_now}
use pipeline_server.Application.Refiners.Selections.{refine_selection_row}
use pipeline_server.Application.Refiners.OddTags.{refine_odd_row}
use pipeline_server.Application.Refiners.Labels.{refine_label_row}

module _ {S F : Type 0} ⦃py : Runtime F⦄
    (find_by_task_and_source : String → String → Action S (List (Result (Entries F))))
    (task_repo : TaskRepository S) (save_rejections : List Rejection → Action S (Unit {0}))
    (clock : Clock S) (chunk_size : ℕ) where
  unfoldable pub selection_runner :
      (List (Selection F) → Action S ℕ) → PhaseRunner S (Entries F) (Selection F)
  unfolding refine_selection_row
  selection_runner save_all = record {
    find_by_task_and_source = find_by_task_and_source;
    task_repo = task_repo;
    save_rejections = save_rejections;
    clock = clock;
    chunk_size = chunk_size;
    stage = selection;
    source = "selections";
    refine_single =
        λ task_id row valid_selection_ids. with_now clock (λ t. refine_selection_row task_id row t);
    save_valid_ignore_duplicates = save_all;
  }

  unfoldable pub odd_tag_runner : (List OddTag → Action S ℕ) → PhaseRunner S (Entries F) OddTag
  unfolding refine_odd_row refine_odd_tag
  odd_tag_runner save_all = record {
    find_by_task_and_source = find_by_task_and_source;
    task_repo = task_repo;
    save_rejections = save_rejections;
    clock = clock;
    chunk_size = chunk_size;
    stage = odd_tagging;
    source = "odds";
    refine_single =
        refine_odd_tag clock (λ task_id row. with_now clock (λ t. refine_odd_row task_id row t));
    save_valid_ignore_duplicates = save_all;
  }

  unfoldable pub label_runner : (List (Label F) → Action S ℕ) → PhaseRunner S (Entries F) (Label F)
  unfolding refine_label_row refine_label
  label_runner save_all = record {
    find_by_task_and_source = find_by_task_and_source;
    task_repo = task_repo;
    save_rejections = save_rejections;
    clock = clock;
    chunk_size = chunk_size;
    stage = auto_labeling;
    source = "labels";
    refine_single =
        refine_label clock (λ task_id row. with_now clock (λ t. refine_label_row task_id row t));
    save_valid_ignore_duplicates = save_all;
  }
