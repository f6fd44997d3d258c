-- ===== src/Controller/Process/Rendered.antt =====
-- What a new workflow becomes.
use tinkerbell.Base.{
  String, true, false, List, ◌≡◌, ◌∙◌, refl, sym, ap, arith, inl, inr, Bool-cases, if◌then◌else◌,
  ◌||◌,
}
use tinkerbell.Base.Equality.{◌!=◌, string_eq}
use tinkerbell.Base.Fallible.{Result, ok, err, Exec, continue}
use tinkerbell.Api.{
  Workflow, WorkflowStatus, WorkflowSpec, WorkflowState, TemplateRendering, BootMode, boot_mode_eq,
  Hardware,
}
use tinkerbell.Controller.{Cluster, State, KubeError}
use tinkerbell.Controller.Template.{Engine, Template, TemplateData, render_template_hardware}
use tinkerbell.Controller.Template.Valid.{
  GoodTemplate, HasWorkers, render_template_hardware-GoodTemplate,
}
use tinkerbell.Controller.Template.Converted.{TasksAreNew, worker_of, yaml_to_status-TasksAreNew}
use tinkerbell.Controller.Process.{
  Services, refuse, template_result, hardware_result, then_read, collected, populate, rendered,
  render, process_workflow, to_next, process_new_workflow,
}

-- The status was made from a valid template.
abbrev pub FromTemplate : Engine → WorkflowStatus → Type 0
FromTemplate g x =
    (t : Template) × GoodTemplate g t
    × HasWorkers g t
    × TasksAreNew t.tasks x.tasks
    × (x.agent_id ≡ worker_of t.tasks)
    × (x.template_rendering ≡ TemplateRendering.rendering_successful)

-- The rendering has failed, and the tasks, the agent and the state are those of `w`.
abbrev pub NotRendered : Workflow → WorkflowStatus → Type 0
NotRendered w x =
    (x.template_rendering ≡ TemplateRendering.rendering_failed)
    × (x.tasks ≡ w.status.tasks)
    × (x.agent_id ≡ w.status.agent_id)
    × (x.state ≡ w.status.state)

-- `P` after a success and `Q` after a failure.
abbrev pub Ends :
    {S A : Type 0} → (State S → Type 0) → (State S → Type 0) → Result String A × State S → Type 0
Ends P Q (ok a, st) = P st
Ends P Q (err e, st) = Q st

module _ {S A B : Type 0} (M P Q : State S → Type 0) (f : A → Exec (State S) String B) where
  Ends-continue :
      (r : Result String A) (st : State S)
      → Ends M Q (r, st)
      → ((a : A) (s : State S) → M s → Ends P Q (f a s))
      → Ends P Q (continue r f st)
  Ends-continue (ok a) st h k = k a st h
  Ends-continue (err e) st h k = h

module _ {S : Type 0} (c : Cluster S) (v : Services S) (w : Workflow) where
  abbrev Same : State S → Type 0
  Same st = st.workflow ≡ w

  abbrev Failed : State S → Type 0
  Failed st = NotRendered w st.workflow.status × (st.workflow.spec ≡ w.spec)

  abbrev Made : State S → Type 0
  Made st = FromTemplate v.engine st.workflow.status × (st.workflow.spec ≡ w.spec)

  refuse-Failed :
      (A : Type 0) (message e : String) (st : State S)
      → Same st
      → Ends Same Failed (refuse c v {A = A} message e st)
  unfolding refuse
  refuse-Failed A message e st h = ground (arith, h)

  template_result-Same :
      (r : Result KubeError String) (st : State S)
      → Same st
      → Ends Same Failed (template_result c v w r st)
  unfolding template_result refuse
  template_result-Same r st h = ground (arith, h)

  hardware_result-Same :
      (r : Result KubeError Hardware) (st : State S)
      → Same st
      → Ends Same Failed (hardware_result c v w r st)
  unfolding hardware_result refuse
  hardware_result-Same r st h = ground (arith, h)

  populate-Made :
      (t : Template) (st : State S)
      → GoodTemplate v.engine t × HasWorkers v.engine t
      → Same st
      → Ends Made Failed (populate c v t st)
  unfolding populate
  populate-Made t st (g, k) h = (
    (
      t,
      g,
      k,
      (yaml_to_status-TasksAreNew v.make_id t st.cluster k).0,
      (yaml_to_status-TasksAreNew v.make_id t st.cluster k).1,
      refl,
    ),
    ap (λ (u : Workflow). u.spec) h,
  )

  rendered-Made :
      (errors : List String) (r : Result String Template) (st : State S)
      → ((t : Template) → r ≡ ok t → GoodTemplate v.engine t × HasWorkers v.engine t)
      → Same st
      → Ends Made Failed (rendered c v errors r st)
  unfolding rendered
  rendered-Made errors (ok t) st k h = populate-Made t st (k t refl) h
  rendered-Made errors (err e) st k h = ground (arith, h)

  render-Made :
      (text : String) (hw : Hardware) (st : State S)
      → Same st
      → Ends Made Failed (render c v w text hw st)
  unfolding render
  render-Made text hw st h =
      let refs = collected c v hw st in
      let d : TemplateData = record {
        hardware_map = w.spec.hardware_map;
        hardware = hw;
        references = refs.0.references;
      } in
      rendered-Made refs.0.errors (render_template_hardware v.engine w.name text d)
        (record st { cluster = refs.1 })
        (λ t. render_template_hardware-GoodTemplate v.engine w.name text d t) h

module _ {S : Type 0} (c : Cluster S) (v : Services S) where
  process_workflow-Made :
      (st : State S)
      → Ends (Made c v st.workflow) (Failed c v st.workflow) (process_workflow c v st)
  unfolding process_workflow
  process_workflow-Made st =
      let w = st.workflow in
      Ends-continue (Same c v w) (Made c v w) (Failed c v w) _
        (then_read c v (v.get_template w.spec.template_ref w.namespace) (template_result c v w)
          st).0
        (then_read c v (v.get_template w.spec.template_ref w.namespace) (template_result c v w)
          st).1
        (template_result-Same c v w _ _ refl)
        (λ text s k.
          Ends-continue (Same c v w) (Made c v w) (Failed c v w) _
            (then_read c v (c.get_hardware w.spec.hardware_ref w.namespace) (hardware_result c v w)
              s).0
            (then_read c v (c.get_hardware w.spec.hardware_ref w.namespace) (hardware_result c v w)
              s).1
            (hardware_result-Same c v w _ _ k) (λ hw s' k'. render-Made c v w text hw s' k'))

  -- The state that a new workflow goes to.
  abbrev pub next_state : WorkflowSpec → WorkflowState
  next_state x =
      if x.toggle_allow_netboot || x.boot_mode != BootMode.no_mode
      then WorkflowState.preparing
      else WorkflowState.pending

  -- The status was made from a valid template, and the state is the one that follows.
  abbrev pub IsStarted : Workflow → WorkflowStatus → Type 0
  IsStarted w x = FromTemplate v.engine x × (x.state ≡ next_state w.spec)

  next-preparing :
      (x : WorkflowSpec)
      → (x.toggle_allow_netboot || x.boot_mode != BootMode.no_mode) ≡ true
      → next_state x ≡ WorkflowState.preparing
  next-preparing x h = rw h refl

  next-pending :
      (x : WorkflowSpec)
      → (x.toggle_allow_netboot || x.boot_mode != BootMode.no_mode) ≡ false
      → next_state x ≡ WorkflowState.pending
  next-pending x h = rw h refl

  to_next-IsStarted :
      (w : Workflow) (st : State S)
      → Made c v w st
      → Ends
          (λ (s : State S). IsStarted w s.workflow.status)
          (λ (s : State S). NotRendered w s.workflow.status)
          (to_next c v st)
  unfolding to_next
  to_next-IsStarted w st (m, e) =
      elim (Bool-cases
        (st.workflow.spec.toggle_allow_netboot || st.workflow.spec.boot_mode != BootMode.no_mode)) [
          | inl y ↦ rw y (m, sym (next-preparing st.workflow.spec y) ∙ ap (next_state) e)
          | inr n ↦ rw n (m, sym (next-pending st.workflow.spec n) ∙ ap (next_state) e)
        ]

  -- `processNewWorkflow`: if it succeeds, the status was made from a template that passed the
  -- validation, has a task for each of its tasks with every action PENDING, names the worker of the
  -- first task as the agent, and its state is PREPARING if the boot options ask for something and
  -- PENDING otherwise. If it fails, the rendering is marked as failed, and the tasks, the agent and
  -- the state are what they were.
  pub process_new_workflow-IsStarted :
      (st : State S)
      → Ends
          (λ (s : State S). IsStarted st.workflow s.workflow.status)
          (λ (s : State S). NotRendered st.workflow s.workflow.status)
          (process_new_workflow c v st)
  unfolding process_new_workflow
  process_new_workflow-IsStarted st =
      started (process_workflow c v st).0 (process_workflow c v st).1 (process_workflow-Made st)
    where
      started :
          (r : Result String (Unit {0})) (s : State S)
          → Ends (Made c v st.workflow) (Failed c v st.workflow) (r, s)
          → Ends
              (λ (s : State S). IsStarted st.workflow s.workflow.status)
              (λ (s : State S). NotRendered st.workflow s.workflow.status)
              (continue r (λ _. to_next c v) s)
      started (ok _) s h = to_next-IsStarted st.workflow s h
      started (err _) s h = h.0
