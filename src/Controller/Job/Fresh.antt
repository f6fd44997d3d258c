-- ===== src/Controller/Job/Fresh.antt =====
-- A boot job counts as complete only with the record that what stood in the cluster before was deleted,
-- and with a uid.
use tinkerbell.Base.{String, true, false, List, [], ◌∷◌, ◌≡◌, ◌≢◌, refl, arith, if◌then◌else◌}
use tinkerbell.Base.Equality.{◌==◌, string_eq}
use tinkerbell.Base.Fallible.{Result, ok, err, Exec, continue, relabel}
use tinkerbell.Base.Dict.{lookup, lookup-insert}
use tinkerbell.Api.{WorkflowStatus, JobStatus, Hardware, BmcAction}
use tinkerbell.Controller.{KubeError, Cluster, BmcJob, State, on_failure}
use tinkerbell.Controller.Job.{
  found_undeleted, job_of, with_job, delete_existing, adopt, create_for, create_or_adopt,
  create_job, tracked, track_running_job, create_phase, track_phase, handle_job,
}

abbrev pub IsFresh : JobStatus → Type 0
IsFresh j = j.complete ≡ true → (j.existing_job_deleted ≡ true) × (j.uid ≢ "")

abbrev pub AllFresh : WorkflowStatus → Type 0
AllFresh x = (k : String) → IsFresh (job_of k x)

pub job_of-with_job :
    (k name : String) (j : JobStatus) (x : WorkflowStatus)
    → job_of k (with_job name j x) ≡ (if k == name then j else job_of k x)
unfolding job_of with_job
job_of-with_job k name j x = ground (arith, lookup-insert k name j x.jobs)

pub IsFresh-jobs :
    (k : String) (x y : WorkflowStatus)
    → x.jobs ≡ y.jobs
    → IsFresh (job_of k y)
    → IsFresh (job_of k x)
unfolding job_of
IsFresh-jobs k x y h f = ground arith

jobs-after_failure :
    {S A : Type 0} (f : String → State S → WorkflowStatus) (r : Result String A) (s : State S)
    → ((e : String) (t : State S) → (f e t).jobs ≡ t.workflow.status.jobs)
    → (on_failure f (λ _. (r, s)) s).1.workflow.status.jobs ≡ s.workflow.status.jobs
unfolding on_failure
jobs-after_failure f (ok a) s h = refl
jobs-after_failure f (err e) s h = h e s

-- The conditions that are written on a failure leave the jobs as they are.
jobs-on_failure :
    {S A : Type 0} (f : String → State S → WorkflowStatus) (m : Exec (State S) String A)
    (st : State S)
    → ((e : String) (s : State S) → (f e s).jobs ≡ s.workflow.status.jobs)
    → (on_failure f m st).1.workflow.status.jobs ≡ (m st).1.workflow.status.jobs
unfolding on_failure
jobs-on_failure f m st h = jobs-after_failure f (m st).0 (m st).1 h

module _ {S : Type 0} (c : Cluster S) (k name : String) where
  delete_existing-IsFresh :
      (st : State S)
      → IsFresh (job_of k st.workflow.status)
      → IsFresh (job_of k (delete_existing c name st).1.workflow.status)
  unfolding delete_existing
  delete_existing-IsFresh st h = ground (
    arith,
    job_of-with_job k name
        (record (job_of name st.workflow.status) {
          uid = "";
          complete = false;
          existing_job_deleted = true;
        })
        st.workflow.status,
  )

  adopt-IsFresh :
      (j : BmcJob) (st : State S)
      → IsFresh (job_of k st.workflow.status)
      → (job_of name st.workflow.status).uid ≡ ""
      → IsFresh (job_of name st.workflow.status)
      → IsFresh (job_of k (adopt c name j st).1.workflow.status)
  unfolding adopt
  adopt-IsFresh j st h e f = ground (
    arith,
    job_of-with_job k name (record (job_of name st.workflow.status) { uid = j.uid })
        st.workflow.status,
  )

  create_for-status :
      (actions : List BmcAction) (hw : Hardware) (st : State S)
      → (create_for c name actions hw st).1.workflow.status ≡ st.workflow.status
  unfolding create_for
  create_for-status actions hw st = ground arith

  create_or_adopt-IsFresh :
      (actions : List BmcAction) (r : Result KubeError BmcJob × S) (st : State S)
      → IsFresh (job_of k st.workflow.status)
      → IsFresh (job_of name st.workflow.status)
      → (job_of name st.workflow.status).uid ≡ ""
      → IsFresh (job_of k (create_or_adopt c name actions r st).1.workflow.status)
  unfolding create_or_adopt
  create_or_adopt-IsFresh actions (ok j, s) st h f e =
      adopt-IsFresh j (record st { cluster = s }) h e f
  create_or_adopt-IsFresh actions (err x, s) st h f e = ground arith

  created :
      (actions : List BmcAction) (st : State S)
      → IsFresh (job_of k st.workflow.status)
      → IsFresh (job_of name st.workflow.status)
      → (job_of name st.workflow.status).uid ≡ ""
      → IsFresh (job_of k (create_job c name actions st).1.workflow.status)
  unfolding create_job
  created actions st h f e =
      create_or_adopt-IsFresh actions (c.get_job name st.workflow.namespace st.cluster) st h f e

  pub jobs-create_phase :
      (a : BmcAction) (actions : List BmcAction) (st : State S)
      → (create_phase c name (a ∷ actions) st).1.workflow.status.jobs
        ≡ (create_job c name (a ∷ actions) st).1.workflow.status.jobs
  unfolding create_phase on_failure
  jobs-create_phase a actions st = ground arith

  create_phase-IsFresh :
      (actions : List BmcAction) (st : State S)
      → IsFresh (job_of k st.workflow.status)
      → IsFresh (job_of name st.workflow.status)
      → (job_of name st.workflow.status).uid ≡ ""
      → IsFresh (job_of k (create_phase c name actions st).1.workflow.status)
  unfolding create_phase
  create_phase-IsFresh [] st h f e = h
  create_phase-IsFresh (a ∷ actions) st h f e =
      IsFresh-jobs k (create_phase c name (a ∷ actions) st).1.workflow.status
        (create_job c name (a ∷ actions) st).1.workflow.status (jobs-create_phase a actions st)
        (created (a ∷ actions) st h f e)

  tracked-IsFresh :
      (j : BmcJob) (st : State S)
      → IsFresh (job_of k st.workflow.status)
      → (job_of name st.workflow.status).uid ≢ ""
      → (job_of name st.workflow.status).existing_job_deleted ≡ true
      → IsFresh (job_of k (tracked c name j st).1.workflow.status)
  unfolding tracked
  tracked-IsFresh j st h u d = ground (
    arith,
    job_of-with_job k name (record (job_of name st.workflow.status) { complete = true })
        st.workflow.status,
  )

  uid_needs_entry :
      (x : WorkflowStatus)
      → (job_of name x).uid ≢ ""
      → found_undeleted (lookup name x.jobs) ≡ false
      → (job_of name x).existing_job_deleted ≡ true
  unfolding job_of found_undeleted
  uid_needs_entry x u d = ground arith

  continue_tracked-IsFresh :
      (r : Result String BmcJob) (st : State S)
      → IsFresh (job_of k st.workflow.status)
      → (job_of name st.workflow.status).uid ≢ ""
      → (job_of name st.workflow.status).existing_job_deleted ≡ true
      → IsFresh (job_of k (continue r (tracked c name) st).1.workflow.status)
  continue_tracked-IsFresh (ok j) st h u d = tracked-IsFresh j st h u d
  continue_tracked-IsFresh (err e) st h u d = h

  pub jobs-track_phase :
      (st : State S)
      → (track_phase c name st).1.workflow.status.jobs
        ≡ (track_running_job c name st).1.workflow.status.jobs
  unfolding track_phase
  jobs-track_phase st = ground arith

  track_running_job-IsFresh :
      (st : State S)
      → IsFresh (job_of k st.workflow.status)
      → (job_of name st.workflow.status).uid ≢ ""
      → (job_of name st.workflow.status).existing_job_deleted ≡ true
      → IsFresh (job_of k (track_running_job c name st).1.workflow.status)
  unfolding track_running_job
  track_running_job-IsFresh st h u d =
      continue_tracked-IsFresh (relabel _ (c.get_job name st.workflow.namespace st.cluster).0)
        (record st { cluster = (c.get_job name st.workflow.namespace st.cluster).1 }) h u d

  track_phase-IsFresh :
      (st : State S)
      → IsFresh (job_of k st.workflow.status)
      → (job_of name st.workflow.status).uid ≢ ""
      → (job_of name st.workflow.status).existing_job_deleted ≡ true
      → IsFresh (job_of k (track_phase c name st).1.workflow.status)
  unfolding track_phase
  track_phase-IsFresh st h u d =
      IsFresh-jobs k (track_phase c name st).1.workflow.status
        (track_running_job c name st).1.workflow.status (jobs-track_phase st)
        (track_running_job-IsFresh st h u d)

  -- Whatever the cluster answers, and whether the call succeeds or fails, one pass over the boot
  -- job keeps it true of each job that, if it is complete, then it is recorded that the one
  -- that stood before was deleted, and it has a uid.
  pub handle_job-IsFresh :
      (actions : List BmcAction) (st : State S)
      → IsFresh (job_of k st.workflow.status)
      → IsFresh (job_of name st.workflow.status)
      → IsFresh (job_of k (handle_job c name actions st).1.workflow.status)
  unfolding handle_job
  handle_job-IsFresh actions st h f = ground (
    arith,
    delete_existing-IsFresh st,
    create_phase-IsFresh actions st,
    track_phase-IsFresh st,
    uid_needs_entry st.workflow.status,
  )
