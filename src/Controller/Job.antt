-- ===== src/Controller/Job.antt =====
-- The job that boots a machine: `handleJob`, `deleteExisting`, `createJob` and `trackRunningJob`
-- (tink/controller/internal/workflow/job.go). The wait between two looks at a running job is left
-- out.
pub mod Fresh
pub mod Deleted
pub mod Kept
use Prim.Native.String.{◌++◌ as text_append}
use tinkerbell.Base.{
  ℕ, String, Bool, true, false, Option, none, some, List, [], ◌∷◌, if◌then◌else◌, not, ◌&&◌, ◌||◌,
}
use tinkerbell.Base.Equality.{◌==◌, string_eq}
use tinkerbell.Base.Fallible.{Result, ok, err, Exec, pure, fail, ◌>>=◌, ◌>>◌}
use tinkerbell.Base.Dict.{lookup, insert}
use tinkerbell.Api.{Workflow, WorkflowStatus, JobStatus, ConditionType, Hardware, BmcAction}
use tinkerbell.Controller.{
  KubeKind, KubeError, Cluster, BmcJob, State, Outcome, finished, again, with_status, change,
  on_cluster, in_cluster, on_failure, set,
}
use tinkerbell.Controller.AllowPxe.{hardware_from}

abbrev pub no_job : JobStatus
no_job = record { uid = ""; complete = false; existing_job_deleted = false }

job_or_zero : Option JobStatus → JobStatus
job_or_zero none = no_job
job_or_zero (some j) = j

-- `Jobs[name]`, which is the zero value for a name that is not there.
unfoldable pub job_of : String → WorkflowStatus → JobStatus
unfolding job_or_zero
job_of name x = job_or_zero (lookup name x.jobs)

unfoldable pub with_job : String → JobStatus → WorkflowStatus → WorkflowStatus
with_job name j x = record x { jobs = insert name j x.jobs }

-- `client.IgnoreNotFound`
unfoldable pub ignore_missing :
    {S : Type 0} → Result KubeError (Unit {0}) × S → Result KubeError (Unit {0}) × S
ignore_missing (ok u, s) = (ok u, s)
ignore_missing (err e, s) = elim e.kind [ KubeKind.missing ↦ (ok tt, s) | _ ↦ (err e, s) ]

found_undeleted : Option JobStatus → Bool
found_undeleted none = false
found_undeleted (some j) = not j.existing_job_deleted

module _ {S : Type 0} (c : Cluster S) where
  -- `deleteExisting`: the tasks, then the job; one that is missing already is no error.
  unfoldable pub delete_existing : String → Exec (State S) String Outcome
  unfolding ignore_missing with_job job_of
  delete_existing name st =
      (do
        on_cluster (λ e. text_append "error deleting tasks.bmc.tinkerbell.org objects: " e.text)
            (λ s. ignore_missing (c.delete_tasks name st.workflow.namespace s))
        on_cluster (λ e. text_append "error deleting job.bmc.tinkerbell.org object: " e.text)
            (λ s. ignore_missing (c.delete_job name st.workflow.namespace s))
        change (λ st'.
            with_job name
              (record (job_of name st'.workflow.status) {
                uid = "";
                complete = false;
                existing_job_deleted = true;
              })
              st'.workflow.status)
        pure again)
        st

  -- The job is there: its uid is taken over unless it is being deleted.
  adopt : String → BmcJob → Exec (State S) String Outcome
  unfolding with_job job_of
  adopt name j st = if j.deleting then (ok again, st) else (
    ok again,
    with_status st (
        with_job name (record (job_of name st.workflow.status) { uid = j.uid }) st.workflow.status),
  )

  create_for : String → List BmcAction → Hardware → Exec (State S) String Outcome
  create_for name actions hw st = elim hw.bmc_ref [
    | none ↦ (err (text_append "hardware does not have a BMC: " hw.name), st)
    | some machine ↦
        (do
          on_cluster (λ e. text_append "error creating job: " e.text)
              (c.create_job (record {
                name = name;
                namespace = st.workflow.namespace;
                machine = machine;
                tasks = actions;
                owner = st.workflow.name;
              }))
          pure again)
          st
  ]

  create_or_adopt :
      String → List BmcAction → Result KubeError BmcJob × S → Exec (State S) String Outcome
  unfolding adopt create_for hardware_from
  create_or_adopt name actions (ok j, s) st = adopt name j (record st { cluster = s })
  create_or_adopt name actions (err _, s) st =
      (do hw ← in_cluster (hardware_from c st.workflow); create_for name actions hw)
        (record st { cluster = s })

  -- `createJob`
  unfoldable pub create_job : String → List BmcAction → Exec (State S) String Outcome
  unfolding create_or_adopt
  create_job name actions st =
      create_or_adopt name actions (c.get_job name st.workflow.namespace st.cluster) st

  -- `trackRunningJob`, with the condition that `handleJob` sets when the job is complete.
  unfoldable pub tracked : String → BmcJob → Exec (State S) String Outcome
  unfolding with_job job_of
  tracked name j =
      if j.failed
      then fail "job failed"
      else if j.completed
      then (do
        change (λ st.
            with_job name (record (job_of name st.workflow.status) { complete = true })
              st.workflow.status)
        change (set c ConditionType.boot_job_complete true "Complete" "job completed")
        pure finished)
      else pure again

  unfoldable pub track_running_job : String → Exec (State S) String Outcome
  track_running_job name st =
      (do
        j ←
            on_cluster (λ e. text_append "error getting job: " e.text)
              (c.get_job name st.workflow.namespace)
        tracked name j)
        st

  unfoldable pub create_phase : String → List BmcAction → Exec (State S) String Outcome
  unfolding on_failure
  create_phase name [] = pure finished
  create_phase name (a ∷ actions) = do
    r ←
        on_failure
          (λ e.
            set c ConditionType.boot_job_setup_failed true "Error"
              (text_append "error creating job: " e))
          (create_job name (a ∷ actions))
    change (set c ConditionType.boot_job_setup_complete true "Created" "job created")
    pure r

  unfoldable pub track_phase : String → Exec (State S) String Outcome
  unfolding on_failure
  track_phase name =
      on_failure (λ e. set c ConditionType.boot_job_failed true "Error" e) (track_running_job name)

  -- `handleJob`: an existing job is deleted, a new one is created, and its state is tracked.
  unfoldable pub handle_job : String → List BmcAction → Exec (State S) String Outcome
  unfolding found_undeleted
  handle_job name actions st =
      if found_undeleted (lookup name st.workflow.status.jobs)
      then delete_existing name st
      else if (job_of name st.workflow.status).uid == ""
      then create_phase name actions st
      else if not (job_of name st.workflow.status).complete
      then track_phase name st
      else (ok again, st)
