-- ===== src/Tests/Phases.antt =====
-- Runs of the phases of a task over rows that are numbers, of which 0 is refused, and the theorems
-- applied to them.
use pipeline_server.Prelude.{
  ℕ, zero, suc, ◌+◌, ◌≤◌, String, ◌≡◌, refl, ap, subst, false, Option, some, none, List, [], ◌∷◌,
  arith, length, str_eq, eq_refl, if◌then◌else◌,
}
use pipeline_server.Prelude.Int.{ℤ, pos}
use pipeline_server.Result.{Result, ok, err}
use pipeline_server.Domain.Errors.{Exc, builtin, value_error, exc_text}
use pipeline_server.Effects.{Action, pure, ◌>>=◌}
use pipeline_server.Effects.Returns.{Returns, Returns-pure}
use pipeline_server.Domain.Enums.{Stage, selection, odd_tagging, auto_labeling, TaskStatus}
use pipeline_server.Python.{Datetime}
use pipeline_server.Domain.Models.{AnalysisResult}
use pipeline_server.Domain.Task.{
  complete_with, AnalyzeTask, create_new, start_processing, get_progress_for, should_run_phase,
}
use pipeline_server.Domain.Ports.{TaskRepository, Clock, now}
use pipeline_server.Application.Phases.{
  PhaseRunner, Refined, all_rejected, refined, Counts, run, run_loop, run_chunk,
}
use pipeline_server.Application.Phases.Loop.{run_loop-loaded_le}
use pipeline_server.Application.Pipeline.{
  Results, Run, PhaseRunnerProvider, register, recorded, PipelineService, process, while_task,
  run_phases, phases_loop, run_or_skip, ids_after, build_result, execute,
}
use pipeline_server.Application.Pipeline.Checkpoint.{Checkpoint, run-Checkpoint}
use pipeline_server.Application.Pipeline.Resume.{
  Checkpoints, Reported, run_phases-Reported, run_phases-skips,
}
use pipeline_server.Application.Pipeline.Failure.{
  execute-stores_completed, execute-stores_failed, found, phases,
}

record Tasks : Type 0 where
  slot : Option AnalyzeTask
  time : ℕ

abbrev task_in : Option AnalyzeTask → String → Option AnalyzeTask
task_in none k = none
task_in (some task) k = if str_eq task.task_id k then some task else none

abbrev tasks : TaskRepository Tasks
tasks = record {
  stored = λ s. task_in s.slot;
  save = λ task s. (ok tt, record s { slot = some task });
  find_by_id = λ task_id s. (ok (task_in s.slot task_id), s);
  save_ok = λ task s h. rw eq_refl refl;
}

abbrev ticks : Clock Tasks
ticks = record { read = λ s. (s.time, record s { time = s.time + 1 }) }

abbrev refine_number : String → ℕ → List ℤ → Action Tasks (Refined ℕ)
refine_number task_id zero ids = pure (all_rejected [])
refine_number task_id (suc n) ids = pure (refined n)

abbrev runner : Stage → PhaseRunner Tasks ℕ ℕ
runner stage = record {
  find_by_task_and_source = λ task_id source. pure (ok 4 ∷ ok 0 ∷ ok 6 ∷ []);
  task_repo = tasks;
  save_rejections = λ rs. pure tt;
  clock = ticks;
  chunk_size = 2;
  stage = stage;
  source = "numbers";
  refine_single = refine_number;
  save_valid_ignore_duplicates = λ items. pure (length items);
}

abbrev rows : List (Result ℕ)
rows = ok 4 ∷ ok 0 ∷ ok 6 ∷ []

abbrev none_yet : Counts
none_yet = record { loaded = 0; rejections = 0 }

inserts : (items : List ℕ) → Returns {S = Tasks} (λ n. n ≤ length items) (pure (length items))
inserts items = Returns-pure (length items) (omega arith)

run_loop-loaded_le_example :
    Returns (λ c. c.loaded ≤ 0 + 3) (run_loop (runner selection) 4 "t1" [] rows none_yet)
run_loop-loaded_le_example = run_loop-loaded_le (runner selection) "t1" [] 4 rows none_yet inserts

abbrev task : AnalyzeTask
task = create_new "t1" 3 3 3 5

run-Checkpoint_example :
    Returns (Checkpoint odd_tagging task) (run (runner odd_tagging) task "t1" (pos 1 ∷ []))
run-Checkpoint_example = run-Checkpoint (runner odd_tagging) task "t1" (pos 1 ∷ [])

abbrev all_runners : PhaseRunnerProvider Tasks
all_runners stage = some (run (runner stage))

-- No runner is registered for the last stage.
abbrev two_runners : PhaseRunnerProvider Tasks
two_runners auto_labeling = none
two_runners stage = some (run (runner stage))

abbrev service : PhaseRunnerProvider Tasks → PipelineService Tasks
service provider = record {
  task_repo = tasks;
  find_all_ids_by_task = λ task_id. pure (pos 1 ∷ pos 2 ∷ []);
  find_odd_video_ids = λ task_id. pure (pos 2 ∷ []);
  find_label_video_ids = λ task_id. pure (pos 2 ∷ pos 3 ∷ []);
  phase_runner_provider = provider;
  clock = ticks;
}

abbrev the_run : Option (Run Tasks) → Run Tasks
the_run none = λ t id ids. pure (recorded t.selection_progress, t)
the_run (some r) = r

all_runners-Checkpoints : Checkpoints (service all_runners)
all_runners-Checkpoints stage r registered t task_id ids =
    subst (λ f. Returns (Checkpoint stage t) (f t task_id ids)) (ap the_run registered)
      (run-Checkpoint (runner stage) t task_id ids)

run_phases-Reported_example :
    Returns
      (λ done. Reported selection done × Reported odd_tagging done × Reported auto_labeling done)
      (run_phases (service all_runners) task "t1")
run_phases-Reported_example =
    run_phases-Reported (service all_runners) all_runners-Checkpoints task "t1"

abbrev resumed : AnalyzeTask
resumed = record task {
  odd_tagging_progress = record { total = 3; processed = 1; rejected = 2 };
  last_completed_phase = some odd_tagging;
}

resumed-skips : should_run_phase resumed odd_tagging ≡ false
unfolding should_run_phase
resumed-skips = refl

run_phases-skips_example :
    ((other : Run Tasks) (s : Tasks)
      → run_phases (service (register odd_tagging other all_runners)) resumed "t1" s
        ≡ run_phases (service all_runners) resumed "t1" s)
    × Returns
        (λ done. done.0 odd_tagging ≡ some (record { total = 3; loaded = 1; rejected = 2 }))
        (run_phases (service all_runners) resumed "t1")
unfolding get_progress_for
run_phases-skips_example =
    run_phases-skips (service all_runners) all_runners-Checkpoints resumed "t1" odd_tagging
      resumed-skips

abbrev stored_task : Tasks
stored_task = record { slot = some task; time = 100 }

execution-returns : (execute (service all_runners) "t1" stored_task).0 ≡ ok tt
unfolding execute ◌>>=◌ create_new process while_task run_phases phases_loop run_or_skip run
    run_loop run_chunk ids_after build_result now
execution-returns = refl

execute-stores_completed_example :
    (t : AnalyzeTask) × ((found (service all_runners) "t1" t stored_task).0 ≡ ok (some t))
    × (done : Results × AnalyzeTask) × ((phases (service all_runners) "t1" t stored_task).0
        ≡ ok done)
    × (result : AnalysisResult) × (now : Datetime) × (tasks.stored
          (execute (service all_runners) "t1" stored_task).1
          done.1.task_id
        ≡ some (complete_with done.1 result now))
execute-stores_completed_example =
    execute-stores_completed (service all_runners) "t1" stored_task execution-returns

abbrev unregistered : Exc
unregistered = builtin value_error "등록되지 않은 Phase: auto_labeling"

phases-raise : (phases (service two_runners) "t1" task stored_task).0 ≡ err unregistered
unfolding run_phases phases_loop ◌>>=◌ run_or_skip start_processing create_new run run_loop
    run_chunk ids_after
phases-raise = refl

found-task : (found (service two_runners) "t1" task stored_task).0 ≡ ok (some task)
unfolding create_new
found-task = refl

execute-stores_failed_example :
    ((execute (service two_runners) "t1" stored_task).0 ≡ err unregistered)
    × (failed : AnalyzeTask) × (tasks.stored
          (execute (service two_runners) "t1" stored_task).1
          task.task_id
        ≡ some failed)
    × (failed.status ≡ TaskStatus.failed)
    × (failed.error ≡ some (exc_text unregistered))
    × (failed.last_completed_phase ≡ task.last_completed_phase)
    × ((stage : Stage) → get_progress_for failed stage ≡ get_progress_for task stage)
execute-stores_failed_example =
    execute-stores_failed (service two_runners) "t1" task stored_task unregistered found-task refl
      phases-raise refl
