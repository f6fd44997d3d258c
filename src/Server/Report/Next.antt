-- ===== src/Server/Report/Next.antt =====
-- A report of success, and the request that follows it.
use tinkerbell.Base.{
  String, true, false, Option, none, some, List, [], ◌∷◌, ◌++◌, ◌≡◌, ◌≢◌, refl, ◌∙◌, sym, All,
  arith, not, find, Bool, ◌&&◌,
}
use tinkerbell.Base.Fallible.{ok, Exec}
use tinkerbell.Base.Equality.{string_eq}
use tinkerbell.Api.{
  Action, Task, Workflow, WorkflowStatus, WorkflowState, state_eq, boot_mode_eq, CurrentState,
  Hardware,
}
use tinkerbell.Server.{
  ActionStatusRequest, StateType, Backend, Attributes, AutoCapabilities, ActionRequest,
  ActionResponse, Error, Stop,
}
use tinkerbell.Server.Select.{
  is_first_action, last_succeeded, is_task_successful, pick_workflow, pick_task, next_action,
  resolve_action,
}
use tinkerbell.Server.Get.{
  at_start, serve_workflow, do_get_action, with_current, current_of, response,
}
use tinkerbell.Server.Get.Served.{IsServable}
use tinkerbell.Server.Report.{report_status, state_after}
use tinkerbell.Server.Report.Written.{
  First, written, report_status_first, is_last, is_empty, named_state,
}

next_action_at :
    (before : List Action) (a n : Action) (after : List Action) (i : String)
    → All (λ c. c.id ≢ i) before
    → a.id ≡ i
    → next_action i (before ++ a ∷ n ∷ after) ≡ ok n
unfolding next_action
next_action_at [] a n after i h e = ground arith
next_action_at (c ∷ []) a n after i h e = ground arith
next_action_at (c ∷ d ∷ before) a n after i h e =
    ground (arith, next_action_at (d ∷ before) a n after i)

pub last_succeeded-append :
    (before : List Action) (n : Action) (after : List Action)
    → last_succeeded (before ++ n ∷ after) ≡ last_succeeded (n ∷ after)
unfolding last_succeeded
last_succeeded-append [] n after = refl
last_succeeded-append (c ∷ []) n after = refl
last_succeeded-append (c ∷ d ∷ before) n after = last_succeeded-append (d ∷ before) n after

-- A task that has run: its last action succeeded, and its first one is not pending.
abbrev pub IsDone : Task → Type 0
IsDone u = (is_task_successful u ≡ true) × (is_first_action u ≡ false)

find_past :
    (done : List Task) (t : Task) (rest : List Task)
    → All IsDone done
    → is_task_successful t ≡ false
    → find (λ u. not (is_task_successful u)) (done ++ t ∷ rest) ≡ some t
find_past [] t rest h n = ground arith
find_past (u ∷ done) t rest h n = ground (arith, find_past done t rest)

pub pick_task_past :
    (done : List Task) (t : Task) (rest : List Task)
    → All IsDone done
    → is_first_action t ≡ false
    → is_task_successful t ≡ false
    → pick_task (done ++ t ∷ rest) ≡ ok t
unfolding pick_task
pick_task_past [] t rest h f n = ground arith
pick_task_past (u ∷ done) t rest h f n = ground (arith, find_past done t rest)

pub not_at_start :
    (t : Task) (before : List Action) (a : Action) (after : List Action)
    → All (λ c. c.state ≢ WorkflowState.pending) before
    → a.state ≢ WorkflowState.pending
    → is_first_action (record t { actions = before ++ a ∷ after }) ≡ false
unfolding is_first_action
not_at_start t [] a after h n = ground arith
not_at_start t (c ∷ before) a after h n = ground arith

pub resolve_next :
    (t : Task) (before : List Action) (a n : Action) (after : List Action) (c : CurrentState)
    → t.actions ≡ before ++ a ∷ n ∷ after
    → is_first_action t ≡ false
    → c.state ≡ WorkflowState.success
    → All (λ x. x.id ≢ c.action_id) before
    → a.id ≡ c.action_id
    → resolve_action t (some c) ≡ ok n
unfolding resolve_action
resolve_next t [] a n after c e f s h i = ground (arith, next_action_at [] a n after c.action_id)
resolve_next t (x ∷ before) a n after c e f s h i =
    ground (arith, next_action_at (x ∷ before) a n after c.action_id)

pub unfinished_task :
    (t : Task) (before : List Action) (a n : Action) (after : List Action)
    → last_succeeded (n ∷ after) ≡ false
    → is_task_successful (record t { actions = before ++ a ∷ n ∷ after }) ≡ false
unfolding is_task_successful
unfinished_task t before a n after h = last_succeeded-append before a (n ∷ after) ∙ h

at_start-false :
    (done : List Task) (t : Task) (rest : List Task)
    → All IsDone done
    → is_first_action t ≡ false
    → at_start (done ++ t ∷ rest) ≡ false
at_start-false [] t rest h f = f
at_start-false (u ∷ done) t rest h f = h.0.1

pick_workflow_first :
    (w : Workflow) (ws : List Workflow) (done : List Task) (t : Task) (rest : List Task)
    → w.status.tasks ≡ done ++ t ∷ rest
    → IsServable w
    → pick_workflow (w ∷ ws) ≡ ok w
unfolding pick_workflow
pick_workflow_first w ws [] t rest e h = ground (arith, e, h)
pick_workflow_first w ws (u ∷ done) t rest e h = ground (arith, e, h)

module _ {S : Type 0} (b : Backend S) where
  -- The chosen workflow, task and action are served, without an annotation of the hardware.
  serve_workflow_at :
      (agent : String) (hw : Option Hardware) (attrs : Option Attributes) (w : Workflow) (t : Task)
      (n : Action) (s s' : S)
      → pick_task w.status.tasks ≡ ok t
      → at_start w.status.tasks ≡ false
      → resolve_action t w.status.current_state ≡ ok n
      → t.agent_id ≡ agent
      → b.update_workflow (with_current w (current_of agent t n)) s ≡ (ok tt, s')
      → serve_workflow b agent hw attrs w s ≡ (ok (response agent w t n), s')
  unfolding serve_workflow
  serve_workflow_at agent hw attrs w t n s s' p q r e u = ground (arith, p, q, r, e, u)

  module _ (discover : String → Option Attributes → Exec S Stop Hardware)
      (enroll : String → Option Attributes → Option Hardware → Exec S Error ActionResponse) where
    do_get_action_at :
        (auto : AutoCapabilities) (ask : ActionRequest) (w : Workflow) (ws : List Workflow)
        (r : ActionResponse) (s s₁ s₂ : S)
        → b.cancelled s ≡ false
        → ask.agent_id ≢ ""
        → auto.discovery ≡ false
        → b.list_workflows ask.agent_id s ≡ (ok (w ∷ ws), s₁)
        → pick_workflow (w ∷ ws) ≡ ok w
        → serve_workflow b ask.agent_id none ask.attributes w s₁ ≡ (ok r, s₂)
        → do_get_action b discover enroll auto ask s ≡ (ok r, s₂)
    unfolding do_get_action
    do_get_action_at auto ask w ws r s s₁ s₂ up named off l p q =
        ground (arith, up, named, off, l, p, q)

reported_success :
    (req : ActionStatusRequest)
    → req.action_state ≡ StateType.success
    → named_state req.action_state ≢ WorkflowState.pending
reported_success req h = ground arith

named_success : (st : StateType) → st ≡ StateType.success → named_state st ≡ WorkflowState.success
named_success st h = ground arith

and-false : (x y : Bool) → y ≡ false → (x && y) ≡ false
and-false x y h = ground arith

-- A success that is not the last one leaves the state of the workflow as it is.
success_keeps_state :
    (st : StateType) (last : Bool) (x : WorkflowState)
    → st ≡ StateType.success
    → last ≡ false
    → state_after st last x ≡ x
unfolding state_after
success_keeps_state st last x h k = ground (arith, h, k)

module _ (req : ActionStatusRequest) (st : WorkflowStatus) (f : First req st.tasks) (n : Action)
    (after : List Action) where
  -- The task of the reported action, as it is after the report.
  abbrev pub task_after : Task
  task_after = record f.task {
    actions =
        f.before
        ++ record f.action {
          state = named_state req.action_state;
          execution_start = some req.execution_start;
          execution_stop = some req.execution_stop;
          execution_duration = req.execution_duration;
          message = req.message;
        }
          ∷ n
          ∷ after;
  }

  -- The reported action succeeded, the action `n` of the same task follows it, the tasks before are
  -- done, no action before it in the task is pending or has its id, and the last action of the task
  -- has not succeeded.
  pub record Follows : Type 0 where
    pub success : req.action_state ≡ StateType.success
    pub follows : f.after ≡ n ∷ after
    pub done : All IsDone f.done
    pub started : All (λ c. c.state ≢ WorkflowState.pending) f.before
    pub ids : All (λ c. c.id ≢ req.action_id) f.before
    pub unfinished : last_succeeded (n ∷ after) ≡ false

  module _ (h : Follows) where
    begun : is_first_action task_after ≡ false
    begun = not_at_start f.task f.before _ (n ∷ after) h.started (reported_success req h.success)

    tasks_after :
        (x : WorkflowStatus)
        → report_status req st ≡ some x
        → (x.tasks ≡ f.done ++ task_after ∷ f.rest)
          × (x.state ≡ st.state)
          × (resolve_action task_after x.current_state ≡ ok n)
    tasks_after x e =
        let moved = state_after req.action_state (is_last req f) st.state in
        let same : x ≡ written req st f moved = cc (e, report_status_first req st f) in
        let c : CurrentState = record {
          agent_id = req.agent_id;
          task_id = req.task_id;
          action_id = req.action_id;
          state = named_state req.action_state;
          action_name = req.action_name;
          task_name = f.task.name;
        } in
        rw (same, h.follows)
          (
            refl,
            success_keeps_state req.action_state _ st.state h.success
                (and-false (is_empty f.rest) false refl),
            resolve_next task_after f.before _ n after c refl begun
                (named_success req.action_state h.success) h.ids f.same,
          )

    not_over : is_task_successful task_after ≡ false
    not_over = unfinished_task f.task f.before _ n after h.unfinished

module _ {S : Type 0} (b : Backend S) (discover : String → Option Attributes → Exec S Stop Hardware)
    (enroll : String → Option Attributes → Option Hardware → Exec S Error ActionResponse) where
  -- The success of an action that is not the last of its task is reported, and the workflow that is
  -- stored then has the written status. If the agent has an id, the server is not shutting down, the
  -- state of the workflow is PENDING or RUNNING, it is the first that is
  -- listed for the agent, the discovery is off and the write of the new current state succeeds, then
  -- the next request of the agent is answered with the action that follows, of the same task. It is
  -- assumed that the tasks before are done, that no action before it in the task is pending or has
  -- its id, and that the last action of the task has not succeeded.
  pub next_after_success :
      (req : ActionStatusRequest) (w w' : Workflow) (f : First req w.status.tasks) (n : Action)
      (after : List Action) (auto : AutoCapabilities) (ask : ActionRequest) (ws : List Workflow)
      (s s₁ s₂ : S)
      → Follows req w.status f n after
      → IsServable w
      → report_status req w.status ≡ some w'.status
      → ask.agent_id ≡ req.agent_id
      → ask.agent_id ≢ ""
      → b.cancelled s ≡ false
      → auto.discovery ≡ false
      → b.list_workflows ask.agent_id s ≡ (ok (w' ∷ ws), s₁)
      → b.update_workflow
          (with_current w' (current_of ask.agent_id (task_after req w.status f n after) n))
          s₁
        ≡ (ok tt, s₂)
      → (r : ActionResponse) × (do_get_action b discover enroll auto ask s ≡ (ok r, s₂))
        × (r.action_id ≡ n.id)
        × (r.task_id ≡ f.task.id)
  unfolding response
  next_after_success req w w' f n after auto ask ws s s₁ s₂ h servable e mine named up off l u =
      let t = task_after req w.status f n after in
      let (tasks, state, next) = tasks_after req w.status f n after h w'.status e in
      let chosen = pick_workflow_first w' ws f.done t f.rest tasks (rw state servable) in
      let first = begun req w.status f n after h in
      let picked =
        pick_task_past f.done t f.rest h.done first (not_over req w.status f n after h) in
      let past = at_start-false f.done t f.rest h.done first in
      (
        response ask.agent_id w' t n,
        do_get_action_at b discover enroll auto ask w' ws (response ask.agent_id w' t n) s s₁ s₂ up
            named off l chosen
            (serve_workflow_at b ask.agent_id none ask.attributes w' t n s₁ s₂ (rw tasks picked)
              (rw tasks past) next (f.mine ∙ sym mine) u),
        refl,
        refl,
      )
