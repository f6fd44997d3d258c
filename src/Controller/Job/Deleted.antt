-- ===== src/Controller/Job/Deleted.antt =====
-- A boot job is recorded as deleted only by a pass that made the two delete calls.
use tinkerbell.Base.{String, Bool, true, List, [], ◌∷◌, ◌≡◌, ◌⊎◌, inl, inr, refl, sym, ◌∙◌, arith}
use tinkerbell.Base.Equality.{string_eq}
use tinkerbell.Base.Fallible.{Result, ok, err, continue, relabel}
use tinkerbell.Api.{WorkflowStatus, JobStatus, BmcAction}
use tinkerbell.Controller.{KubeKind, KubeError, Cluster, BmcJob, State}
use tinkerbell.Controller.Job.{
  job_of, with_job, ignore_missing, delete_existing, adopt, create_or_adopt, create_job, tracked,
  track_running_job, create_phase, track_phase, handle_job,
}
use tinkerbell.Controller.Job.Fresh.{
  IsFresh, job_of-with_job, jobs-create_phase, jobs-track_phase, handle_job-IsFresh,
}

-- The call succeeded, or there was nothing to delete.
abbrev pub IsGone : Result KubeError (Unit {0}) → Type 0
IsGone r = (r ≡ ok tt) ⊎ ((e : KubeError) × (r ≡ err e) × (e.kind ≡ KubeKind.missing))

abbrev pub flag : String → WorkflowStatus → Bool
flag k x = (job_of k x).existing_job_deleted

flag-with_job :
    (k name : String) (j : JobStatus) (x : WorkflowStatus)
    → j.existing_job_deleted ≡ flag name x
    → flag k (with_job name j x) ≡ flag k x
flag-with_job k name j x e = ground (arith, e, job_of-with_job k name j x)

flag-jobs : (k : String) (x y : WorkflowStatus) → x.jobs ≡ y.jobs → flag k x ≡ flag k y
unfolding job_of
flag-jobs k x y e = rw e refl

module _ {S : Type 0} (c : Cluster S) (name : String) where
  -- The tasks of the job were deleted, then the job, and nothing else was called.
  abbrev pub DeletedBy : String → S → S → Type 0
  DeletedBy namespace s s' =
      (r : Result KubeError (Unit {0})) × (s₁ : S) × (r' : Result KubeError (Unit {0}))
      × (c.delete_tasks name namespace s ≡ (r, s₁))
      × IsGone r
      × (c.delete_job name namespace s₁ ≡ (r', s'))
      × IsGone r'

  ignored :
      (x : Result KubeError (Unit {0}) × S)
      → (ignore_missing x).0 ≡ ok tt
      → IsGone x.0 × ((ignore_missing x).1 ≡ x.1)
  unfolding ignore_missing
  ignored (ok u, s) h = (inl refl, refl)
  ignored (err e, s) h = ground (arith, h)

  module _ (k : String) where
    delete_existing-flag :
        (st : State S)
        → (flag k (delete_existing c name st).1.workflow.status ≡ flag k st.workflow.status)
          ⊎ DeletedBy st.workflow.namespace st.cluster (delete_existing c name st).1.cluster
    unfolding delete_existing
    delete_existing-flag st = first (ignore_missing x).0 refl
      where
        x : Result KubeError (Unit {0}) × S
        x = c.delete_tasks name st.workflow.namespace st.cluster

        y : Result KubeError (Unit {0}) × S
        y = c.delete_job name st.workflow.namespace (ignore_missing x).1

        second :
            (r : Result KubeError (Unit {0}))
            → (ignore_missing x).0 ≡ ok tt
            → (ignore_missing y).0 ≡ r
            → (flag k (delete_existing c name st).1.workflow.status ≡ flag k st.workflow.status)
              ⊎ DeletedBy st.workflow.namespace st.cluster (delete_existing c name st).1.cluster
        second (err e) p q = inl (ground (arith, p, q))
        second (ok u) p q =
            let (gone, e) = ignored x p in
            let (gone', e') = ignored y q in
            let last : (delete_existing c name st).1.cluster ≡ (ignore_missing y).1 =
              ground (arith, p, q) in
            inr (
              x.0,
              (ignore_missing x).1,
              y.0,
              λ i. (x.0, sym e i),
              gone,
              λ i. (y.0, sym (last ∙ e') i),
              gone',
            )

        first :
            (r : Result KubeError (Unit {0}))
            → (ignore_missing x).0 ≡ r
            → (flag k (delete_existing c name st).1.workflow.status ≡ flag k st.workflow.status)
              ⊎ DeletedBy st.workflow.namespace st.cluster (delete_existing c name st).1.cluster
        first (err e) p = inl (ground (arith, p))
        first (ok u) p = second (ignore_missing y).0 p refl

    adopt-flag :
        (j : BmcJob) (st : State S)
        → flag k (adopt c name j st).1.workflow.status ≡ flag k st.workflow.status
    unfolding adopt
    adopt-flag j st = ground (
      arith,
      flag-with_job k name (record (job_of name st.workflow.status) { uid = j.uid })
          st.workflow.status refl,
    )

    create_or_adopt-flag :
        (actions : List BmcAction) (r : Result KubeError BmcJob × S) (st : State S)
        → flag k (create_or_adopt c name actions r st).1.workflow.status ≡ flag k st.workflow.status
    unfolding create_or_adopt
    create_or_adopt-flag actions (ok j, s) st = adopt-flag j (record st { cluster = s })
    create_or_adopt-flag actions (err x, s) st = ground arith

    create_job-flag :
        (actions : List BmcAction) (st : State S)
        → flag k (create_job c name actions st).1.workflow.status ≡ flag k st.workflow.status
    unfolding create_job
    create_job-flag actions st =
        create_or_adopt-flag actions (c.get_job name st.workflow.namespace st.cluster) st

    create_phase-flag :
        (actions : List BmcAction) (st : State S)
        → flag k (create_phase c name actions st).1.workflow.status ≡ flag k st.workflow.status
    unfolding create_phase
    create_phase-flag [] st = refl
    create_phase-flag (a ∷ actions) st =
        flag-jobs k (create_phase c name (a ∷ actions) st).1.workflow.status
          (create_job c name (a ∷ actions) st).1.workflow.status
          (jobs-create_phase c k name a actions st)
        ∙ create_job-flag (a ∷ actions) st

    tracked-flag :
        (j : BmcJob) (st : State S)
        → flag k (tracked c name j st).1.workflow.status ≡ flag k st.workflow.status
    unfolding tracked
    tracked-flag j st = ground (
      arith,
      flag-with_job k name (record (job_of name st.workflow.status) { complete = true })
          st.workflow.status refl,
    )

    tracked_then-flag :
        (r : Result String BmcJob) (st : State S)
        → flag k (continue r (tracked c name) st).1.workflow.status ≡ flag k st.workflow.status
    tracked_then-flag (ok j) st = tracked-flag j st
    tracked_then-flag (err e) st = refl

    track_phase-flag :
        (st : State S)
        → flag k (track_phase c name st).1.workflow.status ≡ flag k st.workflow.status
    unfolding track_running_job
    track_phase-flag st =
        flag-jobs k (track_phase c name st).1.workflow.status
          (track_running_job c name st).1.workflow.status (jobs-track_phase c k name st)
        ∙ tracked_then-flag (relabel _ (c.get_job name st.workflow.namespace st.cluster).0)
            (record st { cluster = (c.get_job name st.workflow.namespace st.cluster).1 })

    -- Whatever the cluster answers, and whether the call succeeds or fails, one pass over the boot
    -- job `name` keeps it true of each job `k` that, if it is complete, then it is recorded that the
    -- job that stood before was deleted, and its uid is known. And the pass leaves that record as it
    -- is, unless it has called the cluster to delete the tasks of the job `name`, and then the job
    -- itself, where each call succeeded or found nothing to delete.
    pub handle_job-IsDeleted :
        (actions : List BmcAction) (st : State S)
        → IsFresh (job_of k st.workflow.status)
        → IsFresh (job_of name st.workflow.status)
        → IsFresh (job_of k (handle_job c name actions st).1.workflow.status)
          × ((flag k (handle_job c name actions st).1.workflow.status ≡ flag k st.workflow.status)
              ⊎ DeletedBy st.workflow.namespace st.cluster (handle_job c name actions st).1.cluster)
    unfolding handle_job
    handle_job-IsDeleted actions st h f = (
      handle_job-IsFresh c k name actions st h f,
      ground (arith, delete_existing-flag st, create_phase-flag actions st, track_phase-flag st),
    )
