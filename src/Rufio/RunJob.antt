-- ===== src/Rufio/RunJob.antt =====
-- The reconciler of jobs (rufio/internal/controller/job.go).
pub mod Order
use Prim.Native.String.{◌++◌ as text_append}
use tinkerbell.Base.{
  ℕ, zero, suc, String, Bool, true, false, Option, none, some, List, [], ◌∷◌, if◌then◌else◌, length,
  get_elem?, eqb, not, ◌||◌,
}
use tinkerbell.Base.Equality.{string_eq}
use tinkerbell.Base.Fallible.{
  Result, ok, err, Exec, pure, fail, lift, map_err, relabel, ◌>>=◌, ◌>>◌,
}
use tinkerbell.Api.{BmcAction}
use tinkerbell.Rufio.{
  Condition, ConditionType, condition_type_eq, Status, Job, Task, Connection, Requeue, Halt,
  ReadError, Client,
}
use tinkerbell.Rufio.Conditions.{has_condition, set_condition, with_condition}

-- What the loop over the owned tasks comes to: all completed, with their number; one that failed after
-- completed ones; or one that is neither.
pub data Progress : Type 0 where
  all_completed : ℕ → Progress
  task_failed : Task → Progress
  task_unfinished : Progress

abbrev pub is_completed : Status → Bool
is_completed x = has_condition ConditionType.completed true x.conditions

abbrev pub is_failed : Status → Bool
is_failed x = has_condition ConditionType.failed true x.conditions

unfoldable pub progress : ℕ → List Task → Progress
progress n [] = Progress.all_completed n
progress n (t ∷ ts) =
    if is_completed t.status
    then progress (suc n) ts
    else (if is_failed t.status then Progress.task_failed t else Progress.task_unfinished)

-- `FormatTaskName`
abbrev pub format_task_name : (ℕ → String) → String → ℕ → String
format_task_name digits name n = text_append name (text_append "-task-" (digits n))

-- `digits` prints a number, as the verb %d does.
module _ {S : Type 0} (c : Client S) (digits : ℕ → String) where
  abbrev pub with_job_status : Job → Status → Job
  with_job_status j x = record j { status = x }

  -- The job is marked as running from now on, unless it is.
  unfoldable pub start_job : Job → S → Job
  start_job j s =
      if has_condition ConditionType.running true j.status.conditions
      then j
      else with_job_status j (
          with_condition ConditionType.running true none
            (record j.status { start_time = some (c.now s) }))

  unfoldable pub get_machine : Job → Exec S Halt Connection
  get_machine j =
      map_err
        (λ (e : ReadError). Halt.failure (
          text_append "get Job MachineRef: " (
            if e.is_not_found
            then text_append "machine not found: " e.text
            else text_append "failed to get Machine: " e.text)))
        (c.get_connection j.machine_name j.machine_namespace)

  unfoldable pub list_owned : Job → Exec S Halt (List Task)
  list_owned j =
      map_err (λ e. Halt.failure (text_append "failed to list owned Tasks for Job: " e))
        (c.list_tasks j.name j.namespace)

  unfoldable pub patch_status : Job → Exec S String (Unit {0})
  patch_status j = map_err (text_append "failed to patch Job status: ") (c.patch_job j)

  -- The job is marked as failed with the error, and the error comes back, joined with the patch's.
  unfoldable pub fail_job : String → Job → Exec S Halt Requeue
  fail_job e j s =
      let p =
        patch_status
          (with_job_status j (with_condition ConditionType.failed true (some e) j.status)) s in
      (
        elim p.0 [
          | ok _ ↦ err (Halt.failure e)
          | err q ↦ err (Halt.failure (text_append q (text_append ", " e)))
        ],
        p.1,
      )

  unfoldable pub patch_and_stop : Job → Exec S Halt Requeue
  patch_and_stop j = do map_err Halt.failure (patch_status j); pure Requeue.no_requeue

  unfoldable pub complete_job : Job → Exec S Halt Requeue
  complete_job j s =
      patch_and_stop
        (with_job_status j (record (with_condition ConditionType.completed true none j.status) {
          completion_time = some (c.now s);
        }))
        s

  -- The task that `createTaskWithOwner` creates.
  abbrev pub owned_task : Job → ℕ → BmcAction → Connection → Task
  owned_task j n a k = record {
    name = format_task_name digits j.name n;
    namespace = j.namespace;
    owner = j.name;
    owner_uid = j.uid;
    action = a;
    connection = k;
    status = record { conditions = []; start_time = none; completion_time = none };
  }

  created : Job → Result String (Unit {0}) → Exec S Halt Requeue
  created j (ok _) = patch_and_stop j
  created j (err e) = fail_job (text_append "failed to create Task: " e) j

  -- The task of index `n`, which is a panic when the job has no such task.
  unfoldable pub create_next : Job → ℕ → Connection → Exec S Halt Requeue
  unfolding created
  create_next j n k s = elim (get_elem? j.tasks n) [
    | none ↦ (err Halt.panicked, s)
    | some a ↦ (let made = c.create_task (owned_task j n a k) s in created j made.0 made.1)
  ]

  unfoldable pub by_progress : Job → Connection → Progress → Exec S Halt Requeue
  by_progress j k (Progress.all_completed n) =
      if eqb n (length j.tasks) then complete_job j else create_next j n k
  by_progress j k (Progress.task_failed t) =
      fail_job
        (text_append "task "
          (text_append t.namespace (text_append "/" (text_append t.name " failed"))))
        j
  by_progress j k Progress.task_unfinished = pure Requeue.no_requeue

  -- `doReconcile`
  unfoldable pub do_reconcile : Job → Exec S Halt Requeue
  do_reconcile stored s =
      let j = start_job stored s in
      (do k ← get_machine j; tasks ← list_owned j; by_progress j k (progress 0 tasks)) s

  got_job : Result ReadError (Bool × Job) → Exec S Halt Requeue
  got_job (ok (deleting, j)) =
      if deleting || is_completed j.status || is_failed j.status
      then pure Requeue.no_requeue
      else do_reconcile j
  got_job (err e) = if e.is_not_found then pure Requeue.no_requeue else fail (Halt.failure e.text)

  -- `Reconcile`, for the name and namespace of a job.
  unfoldable pub reconcile : String → String → Exec S Halt Requeue
  unfolding got_job
  reconcile name namespace s = let got = c.get_job name namespace s in got_job got.0 got.1
