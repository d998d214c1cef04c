-- ===== src/Application/Pipeline/Checkpoint.antt =====
-- What a phase records in the task that it saves and returns.
use pipeline_server.Prelude.{ℕ, String, ◌≡◌, ◌≢◌, refl, some, List}
use pipeline_server.Prelude.Int.{ℤ}
use pipeline_server.Effects.Returns.{Returns, Returns-pure, Returns-bind}
use pipeline_server.Domain.Enums.{Stage, selection, odd_tagging, auto_labeling}
use pipeline_server.Domain.Values.{StageResult}
use pipeline_server.Domain.Task.{AnalyzeTask, get_progress_for, with_progress, with_completed_phase}
use pipeline_server.Application.Phases.{PhaseRunner, run}
use pipeline_server.Application.Pipeline.{recorded}

-- The result of a phase is what a later run reads of the task in its place, and the task has the
-- phase as its last one, its total, and the other phases' progress unchanged.
pub record Checkpoint (stage : Stage) (task : AnalyzeTask) (done : StageResult × AnalyzeTask)
    : Type 0 where
  pub same_result : recorded (get_progress_for done.1 stage) ≡ done.0
  pub same_total : done.0.total ≡ (get_progress_for task stage).total
  pub last : done.1.last_completed_phase ≡ some stage
  pub others :
      (other : Stage) → other ≢ stage → get_progress_for done.1 other ≡ get_progress_for task other

abbrev after : AnalyzeTask → Stage → ℕ → ℕ → StageResult × AnalyzeTask
after task stage loaded rejected =
    let total = (get_progress_for task stage).total in
    (
      (record { total = total; loaded = loaded; rejected = rejected }),
      with_completed_phase
          (with_progress task stage
            (record { total = total; processed = loaded; rejected = rejected }))
          stage,
    )

after-others :
    (task : AnalyzeTask) (stage : Stage) (loaded rejected : ℕ) (other : Stage)
    → other ≢ stage
    → get_progress_for (after task stage loaded rejected).1 other ≡ get_progress_for task other
unfolding get_progress_for with_progress with_completed_phase
after-others task selection loaded rejected selection n = absurd (n refl)
after-others task selection loaded rejected odd_tagging n = refl
after-others task selection loaded rejected auto_labeling n = refl
after-others task odd_tagging loaded rejected selection n = refl
after-others task odd_tagging loaded rejected odd_tagging n = absurd (n refl)
after-others task odd_tagging loaded rejected auto_labeling n = refl
after-others task auto_labeling loaded rejected selection n = refl
after-others task auto_labeling loaded rejected odd_tagging n = refl
after-others task auto_labeling loaded rejected auto_labeling n = absurd (n refl)

after-result :
    (task : AnalyzeTask) (stage : Stage) (loaded rejected : ℕ)
    → recorded (get_progress_for (after task stage loaded rejected).1 stage)
      ≡ (after task stage loaded rejected).0
unfolding get_progress_for with_progress with_completed_phase
after-result task selection loaded rejected = refl
after-result task odd_tagging loaded rejected = refl
after-result task auto_labeling loaded rejected = refl

after-Checkpoint :
    (task : AnalyzeTask) (stage : Stage) (loaded rejected : ℕ)
    → Checkpoint stage task (after task stage loaded rejected)
unfolding with_completed_phase
after-Checkpoint task stage loaded rejected = record {
  same_result = after-result task stage loaded rejected;
  same_total = refl;
  last = refl;
  others = after-others task stage loaded rejected;
}

-- A phase that returns leaves its checkpoint in the task that it returns: the recorded result is the
-- reported one, with the total that the task had, and the phase is the last completed one, the
-- progress of the other phases being unchanged.
pub run-Checkpoint :
    {S Row Item : Type 0} (runner : PhaseRunner S Row Item) (task : AnalyzeTask) (task_id : String)
    (ids : List ℤ)
    → Returns (Checkpoint runner.stage task) (run runner task task_id ids)
unfolding run
run-Checkpoint runner task task_id ids = Returns-bind _ _ λ rows. Returns-bind _ _ λ counts.
    Returns-bind _ _
      λ _. Returns-pure _ (after-Checkpoint task runner.stage counts.loaded counts.rejections)
