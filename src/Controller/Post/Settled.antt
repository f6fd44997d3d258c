-- ===== src/Controller/Post/Settled.antt =====
-- The states in which the boot modes leave a workflow after its last action.
use Prim.Native.String.{◌++◌ as text_append}
use tinkerbell.Base.{
  String, Bool, true, false, Option, none, some, List, [], ◌∷◌, ◌≡◌, ◌∙◌, refl, arith, ◌⊎◌, inl,
  inr, Bool-cases, ◌||◌,
}
use tinkerbell.Base.Equality.{string_eq}
use tinkerbell.Base.Fallible.{Exec, lift, map_err, ◌>>=◌}
use tinkerbell.Api.{WorkflowState, WorkflowStatus, CurrentState, BmcAction, BootMode}
use tinkerbell.Controller.{Cluster, State, Outcome, on_failure, in_cluster}
use tinkerbell.Controller.AllowPxe.{hardware_from}
use tinkerbell.Controller.Leaves.{Leaves, Leaves-bind, Leaves-map, Leaves-on_failure}
use tinkerbell.Controller.Job.{job_of, handle_job}
use tinkerbell.Controller.Job.Kept.{kept-handle_job}
use tinkerbell.Controller.Prepare.{job_needed, media, template_actions, or_failed}
use tinkerbell.Controller.Post.{
  take_current_state, is_empty, settle, post_job, post_iso, post_custom, post_done, with_needed_job,
  post_boot,
}

-- The workflow is in POST, and its current state is `c`.
abbrev pub InPost : {S : Type 0} → Option CurrentState → State S → Type 0
InPost c st =
    (st.workflow.status.state ≡ WorkflowState.post) × (st.workflow.status.current_state ≡ c)

-- The workflow is still in POST, or has the state of its current action and `D` holds of its status.
abbrev pub Settled :
    {S : Type 0} → (WorkflowStatus → Type 0) → Option CurrentState → State S → Type 0
Settled D c st =
    (st.workflow.status.state ≡ WorkflowState.post)
    ⊎ ((x : CurrentState) × (c ≡ some x)
        × (st.workflow.status.state ≡ x.state)
        × D st.workflow.status)

-- The job is complete, or there was nothing to do.
abbrev JobDone : Bool → String → WorkflowStatus → Type 0
JobDone idle name x = ((job_of name x).complete ≡ true) ⊎ (idle ≡ true)

-- What the boot mode of a workflow of a name and with the given post actions waits for.
abbrev pub Ready : BootMode → List BmcAction → String → WorkflowStatus → Type 0
Ready BootMode.iso acts n x =
    (job_of (text_append "iso-eject" (text_append "-" n)) x).complete ≡ true
Ready BootMode.isoboot acts n x =
    (job_of (text_append "iso-eject" (text_append "-" n)) x).complete ≡ true
Ready BootMode.customboot acts n x =
    ((job_of (text_append "customboot-post" (text_append "-" n)) x).complete ≡ true) ⊎ (acts ≡ [])
Ready BootMode.netboot acts n x = Unit
Ready BootMode.no_mode acts n x = Unit
Ready (BootMode.other_mode _) acts n x = Unit

module _ {S : Type 0} (c : Cluster S) (x : Option CurrentState) where
  taken :
      (D : WorkflowStatus → Type 0) (st : State S)
      → st.workflow.status.state ≡ WorkflowState.post
      → st.workflow.status.current_state ≡ x
      → D (take_current_state st.workflow.status)
      → Settled D x (record st {
        workflow = record st.workflow { status = take_current_state st.workflow.status };
      })
  unfolding take_current_state
  taken D st p q d = current st.workflow.status.current_state refl
    where
      current :
          (o : Option CurrentState)
          → st.workflow.status.current_state ≡ o
          → Settled D x (record st {
            workflow = record st.workflow { status = take_current_state st.workflow.status };
          })
      current none e = inl (ground (arith, e, p))
      current (some v) e = inr (v, ground (arith, e, q), ground (arith, e), d)

  JobDone-take :
      (idle : Bool) (name : String) (w : WorkflowStatus)
      → JobDone idle name w
      → JobDone idle name (take_current_state w)
  unfolding take_current_state job_of
  JobDone-take idle name w h = same w.current_state refl
    where
      same :
          (o : Option CurrentState) → w.current_state ≡ o → JobDone idle name (take_current_state w)
      same none e = rw e h
      same (some v) e = rw e h

  or-cases : (a b : Bool) → (a || b) ≡ true → (a ≡ true) ⊎ (b ≡ true)
  or-cases a b h = ground (arith, h)

  settle-Settled :
      (idle : Bool) (name : String) (r : Outcome) (st : State S)
      → InPost x st
      → Leaves (Settled (JobDone idle name) x) (settle c idle name r st)
  unfolding settle
  settle-Settled idle name r st (p, q) =
      elim (Bool-cases ((job_of name st.workflow.status).complete || idle)) [
        | inl y ↦ rw y (
            taken (JobDone idle name) st p q
              (JobDone-take idle name st.workflow.status (or-cases _ idle y)))
        | inr n ↦ rw n (inl p)
      ]

  handle_job-InPost :
      (name : String) (actions : List BmcAction) (st : State S)
      → InPost x st
      → Leaves (InPost x) (or_failed c (handle_job c name actions) st)
  unfolding or_failed
  handle_job-InPost name actions st (p, q) =
      Leaves-on_failure _ (InPost x) (handle_job c name actions) st (λ e s. refl)
        ((kept-handle_job c name actions st).0 ∙ p, (kept-handle_job c name actions st).1 ∙ q)

  post_job-Settled :
      (idle : Bool) (name : String) (actions : List BmcAction) (st : State S)
      → InPost x st
      → Leaves (Settled (JobDone idle name) x) (post_job c idle name actions st)
  unfolding post_job
  post_job-Settled idle name actions st h =
      Leaves-bind (InPost x) (Settled (JobDone idle name) x) (settle c idle name)
        (or_failed c (handle_job c name actions)) st (handle_job-InPost name actions st h)
        (λ r s k. settle-Settled idle name r s k)

  post_iso-Settled :
      (name : String) (st : State S)
      → InPost x st
      → Leaves (Settled (JobDone false name) x) (post_iso c name st)
  unfolding post_iso or_failed on_failure
  post_iso-Settled name st h = elim (string_eq.dec st.workflow.spec.iso_url "") [
    | yes e ↦ ground arith
    | no n ↦ ground (arith, post_job-Settled false name (media "" ∷ []) st h)
  ]

  after_step-Settled :
      {A : Type 0} (D : WorkflowStatus → Type 0) (m : Exec (State S) String A)
      (next : A → Exec (State S) String Outcome) (st : State S)
      → ((a : A) (s : State S) → InPost x s → Leaves (Settled D x) (next a s))
      → InPost x (m st).1
      → Leaves (Settled D x) ((or_failed c m >>= next) st)
  unfolding or_failed
  after_step-Settled D m next st k h =
      Leaves-bind (InPost x) (Settled D x) next (or_failed c m) st
        (Leaves-on_failure _ (InPost x) m st (λ e s. refl) h) k

  post_custom-Settled :
      (name : String) (st : State S)
      → InPost x st
      → Leaves
          (Settled (JobDone (is_empty st.workflow.spec.post_actions) name) x)
          (post_custom c name st)
  unfolding post_custom
  post_custom-Settled name st h =
      let D = JobDone (is_empty st.workflow.spec.post_actions) name in
      after_step-Settled D
        (map_err (text_append "failed to get hardware: ")
          (in_cluster (hardware_from c st.workflow)))
        _ st
        (λ hw s k.
          after_step-Settled D
            (map_err (text_append "failed to template post actions: ")
              (lift (template_actions c hw st.workflow.spec.post_actions)))
            (post_job c (is_empty st.workflow.spec.post_actions) name) s
            (λ actions s' k'.
              post_job-Settled (is_empty st.workflow.spec.post_actions) name actions s' k')
            k)
        h

  post_done-Settled :
      (D : WorkflowStatus → Type 0) (st : State S)
      → InPost x st
      → D (take_current_state st.workflow.status)
      → Leaves (Settled D x) (post_done c st)
  unfolding post_done
  post_done-Settled D st (p, q) d = taken D st p q d

  with_needed_job-Settled :
      (idle : Bool) (m : String → Exec (State S) String Outcome) (prefix : String) (st : State S)
      → let name = text_append prefix (text_append "-" st.workflow.name) in
        Leaves (Settled (JobDone idle name) x) (m name st)
        → InPost x st
        → Leaves (Settled (JobDone idle name) x) (with_needed_job c m prefix st)
  unfolding with_needed_job job_needed
  with_needed_job-Settled idle m prefix st h p =
      let name = text_append prefix (text_append "-" st.workflow.name) in
      elim (Bool-cases (job_needed (job_of name st.workflow.status))) [
        | inl y ↦ rw y h
        | inr n ↦ rw n (
            post_done-Settled (JobDone idle name) st p
              (JobDone-take idle name st.workflow.status (inl (ground (arith, n)))))
      ]

  pub Settled-weaken :
      {D E : WorkflowStatus → Type 0}
      → ((w : WorkflowStatus) → D w → E w)
      → (st : State S) → Settled D x st
      → Settled E x st
  Settled-weaken f st (inl p) = inl p
  Settled-weaken f st (inr (v, e, p, d)) = inr (v, e, p, f st.workflow.status d)

  not_idle :
      (name : String) (w : WorkflowStatus) → JobDone false name w → (job_of name w).complete ≡ true
  not_idle name w (inl h) = h
  not_idle name w (inr e) = absurd (cc)

  is_empty-nil : (acts : List BmcAction) → is_empty acts ≡ true → acts ≡ []
  unfolding is_empty
  is_empty-nil [] h = refl
  is_empty-nil (a ∷ acts) h = absurd (cc)

  done_or_empty :
      (acts : List BmcAction) (name : String) (w : WorkflowStatus)
      → JobDone (is_empty acts) name w
      → ((job_of name w).complete ≡ true) ⊎ (acts ≡ [])
  done_or_empty acts name w (inl h) = inl h
  done_or_empty acts name w (inr e) = inr (is_empty-nil acts e)

  pub post_boot-Settled :
      (mode : BootMode) (st : State S)
      → InPost x st
      → Leaves
          (Settled (Ready mode st.workflow.spec.post_actions st.workflow.name) x)
          (post_boot c mode st)
  unfolding post_boot
  post_boot-Settled BootMode.iso st h =
      let name = text_append "iso-eject" (text_append "-" st.workflow.name) in
      Leaves-map _ _ _ (Settled-weaken (not_idle name))
        (with_needed_job-Settled false (post_iso c) "iso-eject" st (post_iso-Settled name st h) h)
  post_boot-Settled BootMode.isoboot st h =
      let name = text_append "iso-eject" (text_append "-" st.workflow.name) in
      Leaves-map _ _ _ (Settled-weaken (not_idle name))
        (with_needed_job-Settled false (post_iso c) "iso-eject" st (post_iso-Settled name st h) h)
  post_boot-Settled BootMode.customboot st h =
      let name = text_append "customboot-post" (text_append "-" st.workflow.name) in
      let acts = st.workflow.spec.post_actions in
      Leaves-map _ _ _ (Settled-weaken (done_or_empty acts name)) (
        with_needed_job-Settled (is_empty acts) (post_custom c) "customboot-post" st
          (post_custom-Settled name st h) h)
  post_boot-Settled BootMode.netboot st h = post_done-Settled (λ w. Unit) st h tt
  post_boot-Settled BootMode.no_mode st h = post_done-Settled (λ w. Unit) st h tt
  post_boot-Settled (BootMode.other_mode _) st h = post_done-Settled (λ w. Unit) st h tt
