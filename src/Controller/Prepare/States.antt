-- ===== src/Controller/Prepare/States.antt =====
-- What the preparation of a workflow leaves behind: a failure, a workflow that goes on preparing, or
-- one whose boot job is done.
use Prim.Native.String.{◌++◌ as text_append}
use tinkerbell.Base.{
  String, Bool, true, false, Option, none, some, List, ◌≡◌, ◌≢◌, ◌∙◌, refl, arith, ◌⊎◌, inl, inr,
  not, Bool-cases, ◌&&◌,
}
use tinkerbell.Base.Equality.{string_eq}
use tinkerbell.Base.Fallible.{Exec, lift, ◌>>=◌}
use tinkerbell.Api.{
  Workflow, WorkflowState, state_eq, JobStatus, ConditionType, BmcAction, BootMode,
}
use tinkerbell.Controller.{Cluster, State, Outcome, on_failure, in_cluster}
use tinkerbell.Controller.AllowPxe.{hardware_from, toggle_hardware}
use tinkerbell.Controller.AllowPxe.Kept.{kept-toggle_hardware}
use tinkerbell.Controller.Job.{job_of, handle_job}
use tinkerbell.Controller.Leaves.{Leaves, Leaves-bind, Leaves-on_failure}
use tinkerbell.Controller.Job.Kept.{kept-handle_job}
use tinkerbell.Controller.Job.Fresh.{IsFresh, IsFresh-jobs, handle_job-IsFresh}
use tinkerbell.Controller.Prepare.{
  job_needed, or_failed, or_failed_with, move_on, run_job, prepare_netboot, prepare_iso,
  prepare_custom, with_needed_job, prepare_boot, toggle_if, prepare_workflow, template_actions,
  netboot_actions, iso_actions, efi_boot,
}

-- The workflow is being prepared, and the record of its boot job is complete only with a
-- deletion and a uid.
abbrev Preparing : {S : Type 0} → String → State S → Type 0
Preparing name st =
    (st.workflow.status.state ≡ WorkflowState.preparing) × IsFresh (job_of name st.workflow.status)

abbrev Named : {S : Type 0} → String → String → State S → Type 0
Named name n st = Preparing name st × (st.workflow.name ≡ n)

-- The job is recorded as complete, with the deletion of the one that stood before and with a uid.
abbrev pub IsDone : JobStatus → Type 0
IsDone j = (j.complete ≡ true) × (j.existing_job_deleted ≡ true) × (j.uid ≢ "")

abbrev pub Prepared : {S : Type 0} → String → State S → Type 0
Prepared name st =
    (st.workflow.status.state ≡ WorkflowState.preparing)
    ⊎ ((st.workflow.status.state ≡ WorkflowState.pending) × IsDone (job_of name st.workflow.status))

module _ {S : Type 0} (c : Cluster S) (name : String) where
  -- A step that leaves the status of the workflow as it is when it succeeds.
  or_failed_with-Preparing :
      {A : Type 0} (t : ConditionType) (what : String) (m : Exec (State S) String A) (st : State S)
      → Preparing name (m st).1
      → Leaves (Preparing name) (or_failed_with c t what m st)
  unfolding or_failed_with
  or_failed_with-Preparing t what m st h = Leaves-on_failure _ (Preparing name) _ st (λ e s. refl) h

  handle_job-Preparing :
      (actions : List BmcAction) (st : State S)
      → Preparing name st
      → Leaves (Preparing name) (or_failed c (handle_job c name actions) st)
  unfolding or_failed
  handle_job-Preparing actions st (p, f) =
      Leaves-on_failure _ (Preparing name) (handle_job c name actions) st (λ e s. refl)
        ((kept-handle_job c name actions st).0 ∙ p, handle_job-IsFresh c name name actions st f f)

  move_on-Prepared :
      (r : Outcome) (st : State S)
      → Preparing name st
      → Leaves (Prepared name) (move_on c name r st)
  unfolding move_on job_of
  move_on-Prepared r st (p, f) = ground arith

  run_job-Prepared :
      (actions : List BmcAction) (st : State S)
      → Preparing name st
      → Leaves (Prepared name) (run_job c name actions st)
  unfolding run_job
  run_job-Prepared actions st h =
      Leaves-bind (Preparing name) (Prepared name) (move_on c name)
        (or_failed c (handle_job c name actions)) st (handle_job-Preparing actions st h)
        (λ r s k. move_on-Prepared r s k)

  after_step-Prepared :
      {A : Type 0} (t : ConditionType) (what : String) (m : Exec (State S) String A)
      (next : A → Exec (State S) String Outcome) (st : State S)
      → ((a : A) (s : State S) → Preparing name s → Leaves (Prepared name) (next a s))
      → Preparing name (m st).1
      → Leaves (Prepared name) ((or_failed_with c t what m >>= next) st)
  after_step-Prepared t what m next st k h =
      Leaves-bind (Preparing name) (Prepared name) next (or_failed_with c t what m) st
        (or_failed_with-Preparing t what m st h) k

  prepare_netboot-Prepared :
      (st : State S) → Preparing name st → Leaves (Prepared name) (prepare_netboot c name st)
  unfolding prepare_netboot
  prepare_netboot-Prepared st h =
      after_step-Prepared ConditionType.boot_job_setup_failed "failed to get hardware: "
        (in_cluster (hardware_from c st.workflow))
        (λ hw. run_job c name (netboot_actions (efi_boot hw))) st
        (λ hw s k. run_job-Prepared (netboot_actions (efi_boot hw)) s k) h

  prepare_iso-Prepared :
      (st : State S) → Preparing name st → Leaves (Prepared name) (prepare_iso c name st)
  unfolding prepare_iso or_failed on_failure
  prepare_iso-Prepared st h = elim (string_eq.dec st.workflow.spec.iso_url "") [
    | yes e ↦ ground arith
    | no n ↦ ground (
      arith,
      after_step-Prepared ConditionType.boot_job_setup_complete "failed to get hardware: "
          (in_cluster (hardware_from c st.workflow))
          (λ hw. run_job c name (iso_actions st.workflow.spec.iso_url (efi_boot hw))) st
          (λ hw s k. run_job-Prepared (iso_actions st.workflow.spec.iso_url (efi_boot hw)) s k) h,
    )
  ]

  prepare_custom-Prepared :
      (st : State S) → Preparing name st → Leaves (Prepared name) (prepare_custom c name st)
  unfolding prepare_custom
  prepare_custom-Prepared st h =
      after_step-Prepared ConditionType.boot_job_setup_failed "failed to get hardware: "
        (in_cluster (hardware_from c st.workflow)) _ st
        (λ hw s k.
          after_step-Prepared ConditionType.boot_job_setup_failed "failed to template actions: "
            (lift (template_actions c hw st.workflow.spec.preparing_actions)) (run_job c name) s
            (λ actions s' k'. run_job-Prepared actions s' k') k)
        h

  toggle_if-Named :
      (n : String) (b d : Bool) (st : State S)
      → Named name n st
      → Leaves (Named name n) (toggle_if c b d st)
  unfolding toggle_if or_failed
  toggle_if-Named n false d st h = h
  toggle_if-Named n true d st (h, e) =
      let (p, _, q, r, _) = kept-toggle_hardware c d st in
      Leaves-on_failure _ (Named name n) (toggle_hardware c d) st (λ e s. refl)
        (
          (
            p ∙ h.0,
            IsFresh-jobs name (toggle_hardware c d st).1.workflow.status st.workflow.status q h.1,
          ),
          r ∙ e,
        )

  with_needed_job-Prepared :
      (m : String → Exec (State S) String Outcome) (prefix : String) (st : State S)
      → text_append prefix (text_append "-" st.workflow.name) ≡ name
      → Leaves (Prepared name) (m name st)
      → Preparing name st
      → Leaves (Prepared name) (with_needed_job c m prefix st)
  unfolding with_needed_job
  with_needed_job-Prepared m prefix st e h p =
      elim (Bool-cases (job_needed (job_of name st.workflow.status))) [
        | inl y ↦ rw (e, y) h
        | inr n ↦ rw (e, n) (inl p.0)
      ]

-- The name that the boot job of a mode begins with.
abbrev pub job_prefix : BootMode → Option String
job_prefix BootMode.netboot = some "netboot"
job_prefix BootMode.iso = some "iso-mount"
job_prefix BootMode.isoboot = some "iso-mount"
job_prefix BootMode.customboot = some "customboot-preparing"
job_prefix _ = none

abbrev pub job_name : String → Workflow → String
job_name prefix w = text_append prefix (text_append "-" w.name)

module _ {S : Type 0} (c : Cluster S) where
  prepare_boot-Prepared :
      (mode : BootMode) (prefix : String) (w : Workflow) (st : State S)
      → job_prefix mode ≡ some prefix
      → st.workflow.name ≡ w.name
      → Preparing (job_name prefix w) st
      → Leaves (Prepared (job_name prefix w)) (prepare_boot c mode st)
  unfolding prepare_boot
  prepare_boot-Prepared BootMode.netboot prefix w st e n h =
      with_needed_job-Prepared c (job_name prefix w) (prepare_netboot c) "netboot" st (cc)
        (prepare_netboot-Prepared c (job_name prefix w) st h) h
  prepare_boot-Prepared BootMode.iso prefix w st e n h =
      with_needed_job-Prepared c (job_name prefix w) (prepare_iso c) "iso-mount" st (cc)
        (prepare_iso-Prepared c (job_name prefix w) st h) h
  prepare_boot-Prepared BootMode.isoboot prefix w st e n h =
      with_needed_job-Prepared c (job_name prefix w) (prepare_iso c) "iso-mount" st (cc)
        (prepare_iso-Prepared c (job_name prefix w) st h) h
  prepare_boot-Prepared BootMode.customboot prefix w st e n h =
      with_needed_job-Prepared c (job_name prefix w) (prepare_custom c) "customboot-preparing" st
        (cc) (prepare_custom-Prepared c (job_name prefix w) st h) h
  prepare_boot-Prepared BootMode.no_mode prefix w st e n h = absurd (cc)
  prepare_boot-Prepared (BootMode.other_mode _) prefix w st e n h = absurd (cc)

  -- `prepareWorkflow`, for a workflow in PREPARING with a boot mode that has a job, whose record of
  -- that job is complete only with a deletion and a uid: if it fails, the workflow is in FAILED; if it
  -- succeeds, the workflow is still in PREPARING, or it is in PENDING and the record of its boot job
  -- is complete, with the deletion of the job that stood before, and with a uid.
  pub prepare_workflow-Prepared :
      (prefix : String) (st : State S)
      → job_prefix st.workflow.spec.boot_mode ≡ some prefix
      → st.workflow.status.state ≡ WorkflowState.preparing
      → IsFresh (job_of (job_name prefix st.workflow) st.workflow.status)
      → Leaves (Prepared (job_name prefix st.workflow)) (prepare_workflow c st)
  unfolding prepare_workflow
  prepare_workflow-Prepared prefix st e p f =
      let name = job_name prefix st.workflow in
      Leaves-bind (Named name st.workflow.name) (Prepared name)
        (λ _. prepare_boot c st.workflow.spec.boot_mode)
        (toggle_if c (st.workflow.spec.toggle_allow_netboot && not st.workflow.status.toggled_true)
          true)
        st (toggle_if-Named c name st.workflow.name _ true st ((p, f), refl))
        (λ _ s k. prepare_boot-Prepared st.workflow.spec.boot_mode prefix st.workflow s e k.1 k.0)
