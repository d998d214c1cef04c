-- ===== src/Mongo/Tasks/Active.antt =====
-- app/adapter/outbound/mongodb/repositories.py, `MongoTaskRepository.create_if_not_active`: the
-- tasks that are active.
use pipeline_server.Prelude.{
  String, ◌≡◌, ◌≢◌, refl, ap, sym, subst, ◌∙◌, inl, inr, true, false, Option, some, none, any_of,
  str_eq,
}
use Prim.Native.String.{◌++◌ as str_append}
use pipeline_server.Result.{Result, ok, err}
use pipeline_server.Effects.{Action, lift, ◌>>=◌, ◌>>◌}
use pipeline_server.Effects.Keeps.{Keeps}
use pipeline_server.Effects.Results.{state-bind_pure, bind-parts}
use pipeline_server.Domain.Errors.{Exc, domain, conflict_error}
use pipeline_server.Domain.Enums.{TaskStatus, task_status_value, task_status_enum, enum_in}
use pipeline_server.Domain.Task.{AnalyzeTask, is_active}
use pipeline_server.Python.{Runtime, Entries, find_key}
use pipeline_server.Mongo.Driver.{Collection, id_of}
use pipeline_server.Mongo.Mappers.{write_task}
use pipeline_server.Mongo.Tasks.{
  active_statuses, status_in, check_not_active, create_if_not_active, save_task, saved-document,
}

same_test :
    (s : TaskStatus)
    → any_of (λ x. str_eq (task_status_value s) (task_status_value x)) active_statuses
      ≡ enum_in task_status_enum s active_statuses
same_test TaskStatus.pending = refl
same_test _ = refl

-- The filter finds the documents of the active tasks.
status_in-write_task :
    (F : Type 0) ⦃py : Runtime F⦄ (task : AnalyzeTask)
    → status_in {F = F} active_statuses (write_task task) ≡ is_active task
unfolding status_in write_task is_active find_key
status_in-write_task F task = same_test task.status

module _ {S F : Type 0} ⦃py : Runtime F⦄ (collection : Collection S F) where
  open collection use {document, replace_one, find_first}

  -- The collection holds a task under an id.
  abbrev pub Holds : S → String → AnalyzeTask → Type 0
  Holds s k task = document s k ≡ some (write_task task)

  -- No two ids hold active tasks.
  abbrev pub OneActive : S → Type 0
  OneActive s =
      (k l : String) (t u : AnalyzeTask)
      → Holds s k t
      → is_active t ≡ true
      → Holds s l u
      → is_active u ≡ true
      → k ≡ l

  abbrev found_first : S → Result (Option (Entries F)) × S
  found_first s = find_first (status_in active_statuses) none s

  create-none :
      (task : AnalyzeTask) (s : S)
      → (found_first s).0 ≡ ok none
      → create_if_not_active collection task s ≡ save_task collection task (found_first s).1
  unfolding create_if_not_active check_not_active ◌>>=◌ lift
  create-none task s h = rw h refl

  create-some :
      (task : AnalyzeTask) (s : S) (d : Entries F)
      → (found_first s).0 ≡ ok (some d)
      → create_if_not_active collection task s ≡ (
        err (domain conflict_error (str_append "이미 진행 중인 작업이 있습니다: " (id_of d))),
        (found_first s).1,
      )
  unfolding create_if_not_active check_not_active ◌>>=◌ lift
  create-some task s d h = rw h refl

  create-err :
      (task : AnalyzeTask) (s : S) (e : Exc)
      → (found_first s).0 ≡ err e
      → create_if_not_active collection task s ≡ (err e, (found_first s).1)
  unfolding create_if_not_active check_not_active ◌>>=◌ lift
  create-err task s e h = rw h refl

  -- What the filter misses is not active.
  not_active :
      (s : S) (k : String) (t : AnalyzeTask)
      → (found_first s).0 ≡ ok none
      → Holds (found_first s).1 k t
      → is_active t ≡ false
  not_active s k t none_found held =
      sym (status_in-write_task F t)
      ∙ collection.find_first_none (status_in active_statuses) none s k (write_task t) none_found
          (sym (collection.find_first_reads (status_in active_statuses) none s k) ∙ held)

  read-OneActive : (s : S) → OneActive s → OneActive (found_first s).1
  read-OneActive s one k l t u hk ak hl al =
      let reads = collection.find_first_reads (status_in active_statuses) none s in
      one k l t u (sym (reads k) ∙ hk) ak (sym (reads l) ∙ hl) al

  -- After the save over a collection with no active task, only the new id can hold one.
  only_new :
      (task : AnalyzeTask) (s : S)
      → ((k : String) (t : AnalyzeTask) → Holds s k t → is_active t ≡ false)
      → (k : String) (t : AnalyzeTask) → Holds (save_task collection task s).1 k t
      → is_active t ≡ true
      → task.task_id ≡ k
  unfolding save_task
  only_new task s none_active k t held active =
      let held' = ap (λ (x : S). document x k) (sym (state-bind_pure _ _ s)) ∙ held in
      elim (collection.replace_writes task.task_id (λ _. true) (write_task task) true s k) [
        | inl same ↦ cc (none_active k t (sym same ∙ held'))
        | inr written ↦ written.0
      ]

  -- Whether it returns or raises, `create_if_not_active` leaves at most one active task where there
  -- was at most one.
  pub create_if_not_active-OneActive :
      (task : AnalyzeTask) → Keeps OneActive (create_if_not_active collection task)
  create_if_not_active-OneActive task = record {
    at = λ s one. by_found s one (found_first s).0 refl;
  }
    where
      by_found :
          (s : S)
          → OneActive s
          → (r : Result (Option (Entries F))) → (found_first s).0 ≡ r
          → OneActive (create_if_not_active collection task s).1
      by_found s one (ok none) e =
          let saved = only_new task (found_first s).1 (λ k t. not_active s k t e) in
          subst (λ (r : Result (Unit {0}) × S). OneActive r.1) (sym (create-none task s e))
            (λ k l t u hk ak hl al. sym (saved k t hk ak) ∙ saved l u hl al)
      by_found s one (ok (some d)) e =
          subst (λ (r : Result (Unit {0}) × S). OneActive r.1) (sym (create-some task s d e))
            (read-OneActive s one)
      by_found s one (err x) e =
          subst (λ (r : Result (Unit {0}) × S). OneActive r.1) (sym (create-err task s x e))
            (read-OneActive s one)

  -- Where some task is active, no other is created: the call does not return, and what is stored
  -- stays as it is.
  pub create_if_not_active-conflict :
      (task : AnalyzeTask) (s : S) (k : String) (t : AnalyzeTask)
      → Holds s k t
      → is_active t ≡ true
      → ((create_if_not_active collection task s).0 ≢ ok tt)
        × ((l : String) → document (create_if_not_active collection task s).1 l ≡ document s l)
  create_if_not_active-conflict task s k t held active = by_found (found_first s).0 refl
    where
      raised :
          (x : Exc)
          → create_if_not_active collection task s ≡ (err x, (found_first s).1)
          → ((create_if_not_active collection task s).0 ≢ ok tt)
            × ((l : String) → document (create_if_not_active collection task s).1 l ≡ document s l)
      raised x e = (
        λ returned. cc (sym (ap (λ r. r.0) e) ∙ returned),
        λ l.
            ap (λ (r : Result (Unit {0}) × S). document r.1 l) e
            ∙ collection.find_first_reads (status_in active_statuses) none s l,
      )

      by_found :
          (r : Result (Option (Entries F)))
          → (found_first s).0 ≡ r
          → ((create_if_not_active collection task s).0 ≢ ok tt)
            × ((l : String) → document (create_if_not_active collection task s).1 l ≡ document s l)
      by_found (ok none) e =
          let kept = collection.find_first_reads (status_in active_statuses) none s k in
          cc (not_active s k t e (kept ∙ held))
      by_found (ok (some d)) e = raised _ (create-some task s d e)
      by_found (err x) e = raised x (create-err task s x e)

  at_state : {x y : S} (k : String) (t : AnalyzeTask) → Holds x k t → x ≡ y → Holds y k t
  at_state k t h e = subst (λ z. Holds z k t) e h

  -- The save of a task leaves what other ids hold.
  save-others :
      (task : AnalyzeTask) (s : S) (k : String)
      → task.task_id ≢ k
      → document (save_task collection task s).1 k ≡ document s k
  unfolding save_task
  save-others task s k differ =
      ap (λ (x : S). document x k) (state-bind_pure _ _ s)
      ∙ elim (collection.replace_writes task.task_id (λ _. true) (write_task task) true s k) [
        | inl same ↦ same
        | inr written ↦ absurd (differ written.0)
      ]

  -- Two calls of `create_if_not_active` in which both checks come before either save.
  unfoldable pub interleaved : AnalyzeTask → AnalyzeTask → Action S (Unit {0})
  interleaved a b = do
    check_not_active collection
    check_not_active collection
    save_task collection a
    save_task collection b

  -- Two calls for different active tasks whose checks both come before their saves leave two active
  -- tasks, if all of it returns.
  pub interleaved-two_active :
      (a b : AnalyzeTask) (s u : S)
      → is_active a ≡ true
      → is_active b ≡ true
      → a.task_id ≢ b.task_id
      → interleaved a b s ≡ (ok tt, u)
      → ¬ (OneActive u)
  unfolding interleaved
  interleaved-two_active a b s u act_a act_b differ run one =
      let (_, s1, _, run1) = bind-parts (check_not_active collection) _ s run in
      let (_, s2, _, run2) = bind-parts (check_not_active collection) _ s1 run1 in
      let (_, s3, saved_a, saved_b) = bind-parts (save_task collection a) _ s2 run2 in
      let holds_a =
        at_state a.task_id a (saved-document collection a s2 (ap (λ r. r.0) saved_a))
          (ap (λ r. r.1) saved_a) in
      let holds_b =
        at_state b.task_id b (saved-document collection b s3 (ap (λ r. r.0) saved_b))
          (ap (λ r. r.1) saved_b) in
      let kept = save-others b s3 a.task_id (λ e. differ (sym e)) ∙ holds_a in
      let holds_a' = at_state a.task_id a kept (ap (λ r. r.1) saved_b) in
      differ (one a.task_id b.task_id a b holds_a' act_a holds_b act_b)
