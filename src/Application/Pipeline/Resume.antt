-- ===== src/Application/Pipeline/Resume.antt =====
-- The results that a run of the phases reports, and what it leaves recorded.
use pipeline_server.Prelude.{
  arith, String, ◌≡◌, ◌≢◌, ◌∙◌, sym, refl, ap, true, false, some, none, List, [], ◌∷◌,
}
use pipeline_server.Prelude.Int.{ℤ}
use pipeline_server.Effects.{Action, pure, ◌>>=◌}
use pipeline_server.Effects.Returns.{
  Returns, Returns-pure, Returns-if, Returns-weaken, Returns-or_raise, Returns-bind,
  Returns-bind_knowing,
}
use pipeline_server.Domain.Enums.{Stage, selection, odd_tagging, auto_labeling}
use pipeline_server.Domain.Values.{StageResult}
use pipeline_server.Domain.Task.{AnalyzeTask, stage_order, should_run_phase, get_progress_for}
use pipeline_server.Application.Pipeline.{
  Run, Results, set_result, recorded, register, ids_after, PipelineService, run_or_skip,
  phases_loop, run_phases,
}
use pipeline_server.Application.Pipeline.Checkpoint.{Checkpoint}

-- Every registered runner leaves its checkpoint.
abbrev pub Checkpoints : {S : Type 0} → PipelineService S → Type 0
Checkpoints {S} service =
    (stage : Stage) (run : Run S)
    → service.phase_runner_provider stage ≡ some run
    → (task : AnalyzeTask) (task_id : String) (ids : List ℤ)
    → Returns (Checkpoint stage task) (run task task_id ids)

-- What is reported of a stage is what the task records of it.
abbrev pub Reported : Stage → Results × AnalyzeTask → Type 0
Reported stage done = done.0 stage ≡ some (recorded (get_progress_for done.1 stage))

-- The outcome of one stage: its result is recorded, the other stages' progress is as before, and a
-- stage that need not run leaves the task as it is.
record Stepped (stage : Stage) (task : AnalyzeTask) (done : StageResult × AnalyzeTask)
    : Type 0 where
  result : recorded (get_progress_for done.1 stage) ≡ done.0
  rest :
      (other : Stage) → other ≢ stage → get_progress_for done.1 other ≡ get_progress_for task other
  skipped : should_run_phase task stage ≡ false → done.1 ≡ task

earlier :
    (task : AnalyzeTask)
    → should_run_phase task odd_tagging ≡ false
    → should_run_phase task selection ≡ false
unfolding should_run_phase
earlier task h = ground arith

later :
    (task : AnalyzeTask)
    → should_run_phase task auto_labeling ≡ false
    → should_run_phase task odd_tagging ≡ false
unfolding should_run_phase
later task h = ground arith

module _ {S : Type 0} (service : PipelineService S) (checkpoints : Checkpoints service) where
  run_or_skip-Stepped :
      (stage : Stage) (task : AnalyzeTask) (task_id : String) (ids : List ℤ)
      → Returns (Stepped stage task) (run_or_skip service stage task task_id ids)
  unfolding run_or_skip
  run_or_skip-Stepped stage task task_id ids =
      Returns-if _ _ _
        (λ (runs : should_run_phase task stage ≡ true).
          Returns-bind_knowing _ _ _ (Returns-or_raise (service.phase_runner_provider stage) _)
            λ run registered.
              Returns-weaken _
                (λ done c. record { result = c.same_result; rest = c.others; skipped = λ no. cc })
                (checkpoints stage run registered task task_id ids))
        (λ _.
          Returns-pure _ (record { result = refl; rest = λ other _. refl; skipped = λ _. refl }))

  -- What is known of the tasks `a`, `b` and `c` that the stages leave, when all have returned.
  module _ {Q : Results × AnalyzeTask → Type 0} (task : AnalyzeTask) (task_id : String) where
    through_phases :
        ((a b c : StageResult × AnalyzeTask)
          → Stepped selection task a
          → Stepped odd_tagging a.1 b
          → Stepped auto_labeling b.1 c
          → Q (
            set_result auto_labeling c.0
                (set_result odd_tagging b.0 (set_result selection a.0 (λ _. none))),
            c.1,
          ))
        → Returns Q (run_phases service task task_id)
    unfolding run_phases phases_loop
    through_phases q =
        Returns-bind_knowing _ _ _ (run_or_skip-Stepped selection task task_id []) λ a ha.
          Returns-bind _ _ λ ids.
            Returns-bind_knowing _ _ _ (run_or_skip-Stepped odd_tagging a.1 task_id ids) λ b hb.
              Returns-bind _ _ λ ids'.
                Returns-bind_knowing _ _ _ (run_or_skip-Stepped auto_labeling b.1 task_id ids')
                  λ c hc. Returns-bind _ _ (λ _. Returns-pure _ (q a b c ha hb hc))

-- If the phases return, over runners that leave their checkpoints, then the result that they report
-- of each stage is the one that the task they return records.
pub run_phases-Reported :
    {S : Type 0} (service : PipelineService S)
    → Checkpoints service
    → (task : AnalyzeTask) (task_id : String)
    → Returns
        (λ done. Reported selection done × Reported odd_tagging done × Reported auto_labeling done)
        (run_phases service task task_id)
run_phases-Reported service checkpoints task task_id =
    through_phases service checkpoints task task_id λ a b c ha hb hc. (
      ap some (
          sym
            (ap recorded (hc.rest selection (λ e. cc) ∙ hb.rest selection (λ e. cc)) ∙ ha.result)),
      ap some (sym (ap recorded (hc.rest odd_tagging (λ e. cc)) ∙ hb.result)),
      ap some (sym hc.result),
    )

-- They report of a stage that need not run what the task recorded of it before they began.
skips-Recorded :
    {S : Type 0} (service : PipelineService S)
    → Checkpoints service
    → (task : AnalyzeTask) (task_id : String) (stage : Stage) → should_run_phase task stage ≡ false
    → Returns
        (λ done. done.0 stage ≡ some (recorded (get_progress_for task stage)))
        (run_phases service task task_id)
skips-Recorded service checkpoints task task_id selection done =
    through_phases service checkpoints task task_id
      λ a b c ha hb hc. let same = ha.skipped done in let r = ha.result in cc
skips-Recorded service checkpoints task task_id odd_tagging done =
    through_phases service checkpoints task task_id λ a b c ha hb hc.
      let same = ha.skipped (earlier task done) in
      let same' = hb.skipped (rw (same, done)) in let r = hb.result in cc
skips-Recorded service checkpoints task task_id auto_labeling done =
    through_phases service checkpoints task task_id λ a b c ha hb hc.
      let same = ha.skipped (earlier task (later task done)) in
      let same' = hb.skipped (rw (same, later task done)) in
      let same'' = hc.skipped (rw (same', same, done)) in let r = hc.result in cc

bind-same :
    {S A B : Type 0} (m : Action S A) (f g : A → Action S B)
    → ((a : A) (s : S) → f a s ≡ g a s)
    → (s : S) → (m >>= f) s ≡ (m >>= g) s
bind-same m f g h s = ap (λ k. (m >>= k) s) (λ i a t. h a t i)

skip-loop :
    {S : Type 0} (service : PipelineService S) (stage : Stage) (stages : List Stage)
    (task : AnalyzeTask) (task_id : String) (ids : List ℤ) (results : Results)
    → should_run_phase task stage ≡ false
    → (s : S)
    → phases_loop service (stage ∷ stages) task task_id ids results s
      ≡ (ids_after service stage task_id ids >>= (λ ids'.
            phases_loop service stages task task_id ids'
              (set_result stage (recorded (get_progress_for task stage)) results)))
          s
unfolding phases_loop run_or_skip ◌>>=◌ pure
skip-loop service stage stages task task_id ids results h s = rw h refl

module _ {S : Type 0} (service : PipelineService S) (task : AnalyzeTask) (task_id : String)
    (other : Run S) where
  abbrev changed : Stage → PipelineService S
  changed stage = record service {
    phase_runner_provider = register stage other service.phase_runner_provider;
  }

  last_same :
      (ids : List ℤ) (results : Results) (s : S)
      → should_run_phase task auto_labeling ≡ false
      → phases_loop (changed auto_labeling) (auto_labeling ∷ []) task task_id ids results s
        ≡ phases_loop service (auto_labeling ∷ []) task task_id ids results s
  unfolding phases_loop run_or_skip ids_after ◌>>=◌ pure
  last_same ids results s done = rw done refl

  -- one stage more before stages that do the same
  skip_same :
      (stage : Stage) (stages : List Stage) (ids : List ℤ) (results : Results) (s : S)
      → should_run_phase task stage ≡ false
      → ((ids' : List ℤ) (results' : Results) (t : S)
          → phases_loop (changed auto_labeling) stages task task_id ids' results' t
            ≡ phases_loop service stages task task_id ids' results' t)
      → phases_loop (changed auto_labeling) (stage ∷ stages) task task_id ids results s
        ≡ phases_loop service (stage ∷ stages) task task_id ids results s
  unfolding ids_after
  skip_same stage stages ids results s skipped same =
      let after = set_result stage (recorded (get_progress_for task stage)) results in
      skip-loop (changed auto_labeling) stage stages task task_id ids results skipped s
      ∙ bind-same (ids_after service stage task_id ids)
          (λ ids'. phases_loop (changed auto_labeling) stages task task_id ids' after)
          (λ ids'. phases_loop service stages task task_id ids' after) (λ ids' t. same ids' after t)
          s
      ∙ sym (skip-loop service stage stages task task_id ids results skipped s)

  all_same :
      (s : S)
      → should_run_phase task auto_labeling ≡ false
      → phases_loop (changed auto_labeling) stage_order task task_id [] (λ _. none) s
        ≡ phases_loop service stage_order task task_id [] (λ _. none) s
  all_same s done =
      skip_same selection _ [] (λ _. none) s (earlier task (later task done))
        λ ids results t.
          skip_same odd_tagging _ ids results t (later task done)
            λ ids' results' t'. last_same ids' results' t' done

  -- With another runner of a stage that need not run, the phases do the same.
  skips-runner :
      (stage : Stage)
      → should_run_phase task stage ≡ false
      → (s : S) → run_phases (changed stage) task task_id s ≡ run_phases service task task_id s
  unfolding run_phases phases_loop run_or_skip ids_after ◌>>=◌ pure
  skips-runner selection done s = rw done refl
  skips-runner odd_tagging done s = rw (earlier task done, done) refl
  skips-runner auto_labeling done s = all_same s done

-- A stage that an earlier run has completed is not run again: the phases do the same, in every
-- state, whatever runner is registered for it. If they return, over runners that leave their
-- checkpoints, they report of the stage what the task recorded of it before they began.
pub run_phases-skips :
    {S : Type 0} (service : PipelineService S)
    → Checkpoints service
    → (task : AnalyzeTask) (task_id : String) (stage : Stage) → should_run_phase task stage ≡ false
    → ((other : Run S) (s : S)
        → run_phases
            (record service {
              phase_runner_provider = register stage other service.phase_runner_provider;
            })
            task
            task_id
            s
          ≡ run_phases service task task_id s)
      × Returns
          (λ done. done.0 stage ≡ some (recorded (get_progress_for task stage)))
          (run_phases service task task_id)
run_phases-skips service checkpoints task task_id stage done = (
  λ other s. skips-runner service task task_id other stage done s,
  skips-Recorded service checkpoints task task_id stage done,
)
