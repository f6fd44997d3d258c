-- ===== src/Server/Get/Served.antt =====
-- What a served action is.
use tinkerbell.Base.{
  String, false, true, inl, inr, Option, none, some, List, [], ◌∷◌, ◌≡◌, ◌⊎◌, find-In, In, not,
  arith, if◌then◌else◌, refl, ◌++◌,
}
use Prim.Native.String.{◌++◌ as text_append}
use tinkerbell.Base.Equality.{◌!=◌, string_eq}
use tinkerbell.Base.Fallible.{ok, Exec, continue-ok, relabel, relabel-ok, fail, ◌>>=◌}
use tinkerbell.Api.{
  WorkflowState, state_eq, Action, Task, CurrentState, Workflow, Hardware, boot_mode_eq,
}
use tinkerbell.Server.{
  Error, Stop, status, not_found, Backend, Attributes, AutoCapabilities, ActionRequest,
  ActionResponse,
}
use tinkerbell.Server.Select.{
  is_task_successful, pick_workflow, pick_task, same_action, next_action, resolve_action,
}
use tinkerbell.Server.Get
use tinkerbell.Server.Get.{
  list_and_answer, discovered, current_of, with_current, response, annotate_at_start, serve_action,
  serve_workflow, do_get_action,
}

abbrev pub IsServable : Workflow → Type 0
IsServable w = (w.status.state ≡ WorkflowState.pending) ⊎ (w.status.state ≡ WorkflowState.running)

pick_workflow-ok :
    (ws : List Workflow) (w : Workflow) → pick_workflow ws ≡ ok w → In w ws × IsServable w
unfolding pick_workflow
pick_workflow-ok [] w h = absurd (cc)
pick_workflow-ok (v ∷ ws) w h = ground (arith, pick_workflow-ok ws w)

pick_task-ok : (ts : List Task) (t : Task) → pick_task ts ≡ ok t → In t ts
unfolding pick_task
pick_task-ok [] t h = absurd (cc)
pick_task-ok (u ∷ ts) t h = ground (arith, find-In (λ v. not (is_task_successful v)) (u ∷ ts) t)

same_action-ok :
    (i : String) (acts : List Action) (a : Action)
    → same_action i acts ≡ ok a
    → In a acts × (a.id ≡ i)
unfolding same_action
same_action-ok i [] a h = absurd (cc)
same_action-ok i (c ∷ acts) a h = ground (arith, same_action-ok i acts a)

next_action-ok :
    (i : String) (acts : List Action) (a : Action) → next_action i acts ≡ ok a → In a acts
unfolding next_action
next_action-ok i [] a h = absurd (cc)
next_action-ok i (c ∷ []) a h = ground arith
next_action-ok i (c ∷ d ∷ acts) a h = ground (arith, next_action-ok i (d ∷ acts) a)

resolve_action-ok :
    (t : Task) (c : Option CurrentState) (a : Action) → resolve_action t c ≡ ok a → In a t.actions
unfolding resolve_action
resolve_action-ok t none a h = ground arith
resolve_action-ok t (some c) a h =
    ground (arith, same_action-ok c.action_id t.actions a, next_action-ok c.action_id t.actions a)

-- What stands behind an answer: a listed workflow that is pending or running, a task of it that is
-- assigned to the agent, an action of that task, and the write of the workflow with that action as
-- its current state, which ended in the state `s'`.
pub record Served {S : Type 0} (b : Backend S) (agent : String) (ws : List Workflow)
    (r : ActionResponse) (s' : S) : Type 0 where
  pub workflow : Workflow
  pub task : Task
  pub action : Action
  pub before : S
  pub listed : In workflow ws
  pub servable : IsServable workflow
  pub of_workflow : In task workflow.status.tasks
  pub of_agent : task.agent_id ≡ agent
  pub of_task : In action task.actions
  pub answer : r ≡ response agent workflow task action
  pub workflow_id : r.workflow_id ≡ text_append workflow.namespace (text_append "/" workflow.name)
  pub ids : (r.task_id ≡ task.id) × (r.agent_id ≡ agent) × (r.action_id ≡ action.id)
  pub runs :
      (r.name ≡ action.name)
      × (r.image ≡ action.image)
      × (r.timeout ≡ action.timeout)
      × (r.command ≡ action.command)
      × (r.volumes ≡ task.volumes ++ action.volumes)
  pub written :
      b.update_workflow
        (record workflow {
          status = record workflow.status {
            current_state = some (record {
              agent_id = agent;
              task_id = task.id;
              action_id = action.id;
              state = action.state;
              action_name = action.name;
              task_name = task.name;
            });
          };
        })
        before
      ≡ (ok tt, s')

module _ {S : Type 0} (b : Backend S) (agent : String) where
  serve_action-ok :
      (w : Workflow) (t : Task) (a : Action) (s : S) (r : ActionResponse) (s' : S)
      → serve_action b agent w t a s ≡ (ok r, s')
      → (r ≡ response agent w t a)
        × (b.update_workflow (with_current w (current_of agent t a)) s ≡ (ok tt, s'))
  unfolding serve_action
  serve_action-ok w t a s r s' h = ground arith

  -- The action is served if the task is the agent's.
  assigned-ok :
      (w : Workflow) (t : Task) (a : Action) (s : S) (r : ActionResponse) (s' : S)
      → (if t.agent_id != agent
            then fail (status not_found "Task not assigned to Agent")
            else serve_action b agent w t a)
          s
        ≡ (ok r, s')
      → (t.agent_id ≡ agent) × (serve_action b agent w t a s ≡ (ok r, s'))
  assigned-ok w t a s r s' h = ground arith

  answer_fields :
      (w : Workflow) (t : Task) (a : Action) (r : ActionResponse)
      → r ≡ response agent w t a
      → (r.workflow_id ≡ text_append w.namespace (text_append "/" w.name))
        × ((r.task_id ≡ t.id) × (r.agent_id ≡ agent) × (r.action_id ≡ a.id))
        × (r.name ≡ a.name)
        × (r.image ≡ a.image)
        × (r.timeout ≡ a.timeout)
        × (r.command ≡ a.command)
        × (r.volumes ≡ t.volumes ++ a.volumes)
  unfolding response
  answer_fields w t a r e = rw e (refl, (refl, refl, refl), refl, refl, refl, refl, refl)

  serve_workflow-Served :
      (hw : Option Hardware) (attrs : Option Attributes) (ws : List Workflow) (w : Workflow)
      → pick_workflow ws ≡ ok w
      → (s : S) (r : ActionResponse) (s' : S) → serve_workflow b agent hw attrs w s ≡ (ok r, s')
      → Served b agent ws r s'
  unfolding serve_workflow with_current current_of
  serve_workflow-Served hw attrs ws w chosen s r s' h =
      let (t, picked, h₁) = continue-ok (pick_task w.status.tasks) _ s h in
      let s₁ = (annotate_at_start b hw attrs w s).1 in
      let (a, resolved, h₂) = continue-ok (resolve_action t w.status.current_state) _ s₁ h₁ in
      let (mine, h₃) = assigned-ok w t a s₁ r s' h₂ in
      let (answered, wrote) = serve_action-ok w t a s₁ r s' h₃ in
      let (whole, ids, named, image, timeout, command, volumes) = answer_fields w t a r answered in
      record {
        workflow = w;
        task = t;
        action = a;
        before = s₁;
        listed = (pick_workflow-ok ws w chosen).0;
        servable = (pick_workflow-ok ws w chosen).1;
        of_workflow = pick_task-ok w.status.tasks t picked;
        of_agent = mine;
        of_task = resolve_action-ok t w.status.current_state a resolved;
        answer = answered;
        workflow_id = whole;
        ids = ids;
        runs = (named, image, timeout, command, volumes);
        written = wrote;
      }

module _ {S : Type 0} (b : Backend S) where
  module _ (discover : String → Option Attributes → Exec S Stop Hardware)
      (enroll : String → Option Attributes → Option Hardware → Exec S Error ActionResponse) where
    -- Where an answer comes from: a listed workflow, or an enrollment.
    Answered : ActionRequest → AutoCapabilities → List Workflow → ActionResponse → S → Type 0
    Answered req auto ws r s' =
        Served b req.agent_id ws r s'
        ⊎ ((auto.enrollment ≡ true)
            × (hw : Option Hardware) × (s₀ : S) × (enroll req.agent_id req.attributes hw s₀
                ≡ (ok r, s')))

    no_workflow-ok :
        (auto : AutoCapabilities) (req : ActionRequest) (hw : Option Hardware) (s : S)
        (r : ActionResponse) (s' : S)
        → Get.no_workflow b discover enroll auto req hw s ≡ (ok r, s')
        → (auto.enrollment ≡ true)
          × ((do found ← Get.looked_up b auto req hw; enroll req.agent_id req.attributes found) s
              ≡ (ok r, s'))
    unfolding Get.no_workflow
    no_workflow-ok auto req hw s r s' h = ground arith

    answer-Answered :
        (auto : AutoCapabilities) (req : ActionRequest) (hw : Option Hardware) (ws : List Workflow)
        (s : S) (r : ActionResponse) (s' : S)
        → Get.answer b discover enroll auto req hw ws s ≡ (ok r, s')
        → Answered req auto ws r s'
    unfolding Get.answer Answered
    answer-Answered auto req hw [] s r s' h =
        let (on, h₁) = no_workflow-ok auto req hw s r s' h in
        let found = Get.looked_up b auto req hw s in
        let (hw₁, _, h₂) = continue-ok found.0 _ found.1 h₁ in inr (on, hw₁, found.1, h₂)
    answer-Answered auto req hw (w ∷ ws) s r s' h =
        let (v, chosen, h₁) = continue-ok (pick_workflow (w ∷ ws)) _ s h in
        inl (serve_workflow-Served b req.agent_id hw req.attributes (w ∷ ws) v chosen s r s' h₁)

    uncancelled :
        (auto : AutoCapabilities) (req : ActionRequest) (s : S) (r : ActionResponse) (s' : S)
        → do_get_action b discover enroll auto req s ≡ (ok r, s')
        → list_and_answer b discover enroll auto req s ≡ (ok r, s')
    unfolding do_get_action
    uncancelled auto req s r s' h = ground arith

    do_get_action-Answered :
        (auto : AutoCapabilities) (req : ActionRequest) (s : S) (r : ActionResponse) (s' : S)
        → do_get_action b discover enroll auto req s ≡ (ok r, s')
        → (s₁ : S) × (s₂ : S) × (ws : List Workflow) × (b.list_workflows req.agent_id s₁
            ≡ (ok ws, s₂))
          × Answered req auto ws r s'
    unfolding do_get_action
    do_get_action-Answered auto req s r s' h =
        let found = discovered b discover enroll auto.discovery req s in
        let (hw, _, h₁) = continue-ok found.0 _ found.1 (uncancelled auto req s r s' h) in
        let listing = b.list_workflows req.agent_id found.1 in
        let (ws, named, h₂) = continue-ok (relabel _ listing.0) _ listing.1 h₁ in
        (
          found.1,
          listing.1,
          ws,
          λ i. (relabel-ok _ listing.0 named i, listing.1),
          answer-Answered auto req hw ws listing.1 r s' h₂,
        )

    -- A success comes from a listed workflow, or is that of an enrollment.
    pub do_get_action-cases :
        (auto : AutoCapabilities) (req : ActionRequest) (s : S) (r : ActionResponse) (s' : S)
        → do_get_action b discover enroll auto req s ≡ (ok r, s')
        → ((s₁ : S) × (s₂ : S) × (ws : List Workflow) × (b.list_workflows req.agent_id s₁
              ≡ (ok ws, s₂))
            × Served b req.agent_id ws r s')
          ⊎ ((auto.enrollment ≡ true)
              × (hw : Option Hardware) × (s₀ : S) × (enroll req.agent_id req.attributes hw s₀
                  ≡ (ok r, s')))
    unfolding Answered
    do_get_action-cases auto req s r s' h =
        let (s₁, s₂, ws, l, a) = do_get_action-Answered auto req s r s' h in
        elim a [ inl served ↦ inl (s₁, s₂, ws, l, served) | inr enrolled ↦ inr enrolled ]

    -- An agent that asks for an action, with no enrollment of agents that have no workflow, is
    -- answered with an action only if the backend listed for it a workflow in PENDING or RUNNING,
    -- with a task that is assigned to this agent and holds the action; the answer is that of the
    -- action, and the last thing done was to write the workflow with the action as current state.
    pub do_get_action-Served :
        (auto : AutoCapabilities) (req : ActionRequest) (s : S) (r : ActionResponse) (s' : S)
        → auto.enrollment ≡ false
        → do_get_action b discover enroll auto req s ≡ (ok r, s')
        → (s₁ : S) × (s₂ : S) × (ws : List Workflow) × (b.list_workflows req.agent_id s₁
            ≡ (ok ws, s₂))
          × Served b req.agent_id ws r s'
    do_get_action-Served auto req s r s' off h = elim (do_get_action-cases auto req s r s' h) [
      | inl served ↦ served
      | inr enrolled ↦ absurd (ground (arith, off, enrolled.0))
    ]
