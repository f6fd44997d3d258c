-- ===== src/Server/Report/Written.antt =====
-- What a report writes: the first action with the reported id whose task belongs to the agent.
use tinkerbell.Base.{
  Bool, true, false, none, some, List, [], ◌∷◌, ◌++◌, ◌≡◌, refl, ◌≢◌, All, arith, ◌&&◌, ◌⊎◌, inl,
  inr,
}
use Prim.Native.String.{◌++◌ as text_append}
use tinkerbell.Api.{Action, Task, Workflow, WorkflowState, WorkflowStatus}
use tinkerbell.Base.Equality.{string_eq}
use tinkerbell.Base.Fallible.{ok, err, relabel}
use tinkerbell.Server.{
  not_found, internal, status, Backend, BackendError, ActionStatusRequest, StateType,
}
use tinkerbell.Server.Report.{
  matches, reported, report_actions, report_tasks, state_after, state_of, report_status, cut,
  do_report_action_status,
}

abbrev pub is_empty {ℓ} : {A : Type ℓ} → List A → Bool
is_empty [] = true
is_empty (_ ∷ _) = false

-- The state that a report of each kind names.
abbrev pub named_state : StateType → WorkflowState
named_state StateType.unspecified = WorkflowState.other "UNSPECIFIED"
named_state StateType.pending = WorkflowState.pending
named_state StateType.running = WorkflowState.running
named_state StateType.failed = WorkflowState.failed
named_state StateType.timeout = WorkflowState.timeout
named_state StateType.success = WorkflowState.success

module _ (req : ActionStatusRequest) where
  -- The task is not the agent's, or none of the actions has the reported id.
  abbrev pub NotThere : Task → List Action → Type 0
  NotThere t acts = (t.agent_id ≢ req.agent_id) ⊎ All (λ a. a.id ≢ req.action_id) acts

  NoMatch : Task → List Action → Type 0
  NoMatch t = All (λ a. matches req t a ≡ false)

  other_agent : (t : Task) (acts : List Action) → t.agent_id ≢ req.agent_id → NoMatch t acts
  unfolding NoMatch matches
  other_agent t [] n = tt
  other_agent t (a ∷ acts) n = (ground (arith, n), other_agent t acts n)

  other_ids :
      (t : Task) (acts : List Action) → All (λ a. a.id ≢ req.action_id) acts → NoMatch t acts
  unfolding NoMatch matches
  other_ids t [] h = tt
  other_ids t (a ∷ acts) (n, h) = (ground (arith, n), other_ids t acts h)

  NoMatch-NotThere : (t : Task) (acts : List Action) → NotThere t acts → NoMatch t acts
  NoMatch-NotThere t acts (inl n) = other_agent t acts n
  NoMatch-NotThere t acts (inr h) = other_ids t acts h

  matches-same :
      (t : Task) (a : Action)
      → a.id ≡ req.action_id
      → t.agent_id ≡ req.agent_id
      → matches req t a ≡ true
  unfolding matches
  matches-same t a e f = ground (arith, e, f)

  none_there :
      (ts : List Task) → All (λ u. NotThere u u.actions) ts → All (λ u. NoMatch u u.actions) ts
  none_there [] h = tt
  none_there (t ∷ ts) (n, h) = (NoMatch-NotThere t t.actions n, none_there ts h)

  report_actions_first :
      (t : Task) (before : List Action) (a : Action) (after : List Action)
      → NoMatch t before
      → matches req t a ≡ true
      → report_actions req t (before ++ a ∷ after)
        ≡ some (before ++ reported req a ∷ after, is_empty after)
  unfolding NoMatch report_actions
  report_actions_first t [] a [] h m = ground arith
  report_actions_first t [] a (_ ∷ _) h m = ground arith
  report_actions_first t (c ∷ before) a after h m =
      ground (arith, report_actions_first t before a after)

  report_actions-none :
      (t : Task) (acts : List Action) → NoMatch t acts → report_actions req t acts ≡ none
  unfolding NoMatch report_actions
  report_actions-none t [] h = refl
  report_actions-none t (a ∷ acts) h = ground (arith, report_actions-none t acts)

  report_tasks_first :
      (done : List Task) (t : Task) (rest : List Task) (before : List Action) (a : Action)
      (after : List Action)
      → All (λ u. NoMatch u u.actions) done
      → t.actions ≡ before ++ a ∷ after
      → NoMatch t before
      → matches req t a ≡ true
      → report_tasks req (done ++ t ∷ rest)
        ≡ some (record {
          tasks = done ++ record t { actions = before ++ reported req a ∷ after } ∷ rest;
          last = is_empty rest && is_empty after;
          task_name = t.name;
        })
  unfolding report_tasks
  report_tasks_first [] t [] before a after d e h m =
      ground (arith, report_actions_first t before a after)
  report_tasks_first [] t (_ ∷ _) before a after d e h m =
      ground (arith, report_actions_first t before a after)
  report_tasks_first (u ∷ done) t rest before a after d e h m =
      ground (arith, report_actions-none u u.actions, report_tasks_first done t rest before a after)

  report_tasks-none :
      (ts : List Task) → All (λ u. NoMatch u u.actions) ts → report_tasks req ts ≡ none
  unfolding report_tasks
  report_tasks-none [] h = refl
  report_tasks-none (t ∷ ts) h =
      ground (arith, report_actions-none t t.actions, report_tasks-none ts)

  -- Where the reported action stands: the tasks and actions before it have none that matches.
  pub record First (ts : List Task) : Type 0 where
    pub done : List Task
    pub task : Task
    pub rest : List Task
    pub before : List Action
    pub action : Action
    pub after : List Action
    pub tasks_eq : ts ≡ done ++ task ∷ rest
    pub actions_eq : task.actions ≡ before ++ action ∷ after
    pub done_differ : All (λ u. NotThere u u.actions) done
    pub before_differ : All (λ a. a.id ≢ req.action_id) before
    pub same : action.id ≡ req.action_id
    pub mine : task.agent_id ≡ req.agent_id

  -- The state of the workflow after the report, by whether the action is the last of all.
  pub record Moved (last : Bool) (old new : WorkflowState) : Type 0 where
    pub to_post : req.action_state ≢ StateType.success ⊎ (last ≡ false) ⊎ (new ≡ WorkflowState.post)
    pub stays : req.action_state ≢ StateType.success ⊎ (last ≡ true) ⊎ (new ≡ old)
    pub follows : (req.action_state ≡ StateType.success) ⊎ (new ≡ named_state req.action_state)

  -- The status with the one action written, the state `moved`, and the action as current state.
  abbrev pub written : (st : WorkflowStatus) → First st.tasks → WorkflowState → WorkflowStatus
  written st f moved = record st {
    tasks =
        f.done
        ++ record f.task {
          actions =
              f.before
              ++ record f.action {
                state = named_state req.action_state;
                execution_start = some req.execution_start;
                execution_stop = some req.execution_stop;
                execution_duration = req.execution_duration;
                message = req.message;
              }
                ∷ f.after;
        }
          ∷ f.rest;
    state = moved;
    current_state = some (record {
      agent_id = req.agent_id;
      task_id = req.task_id;
      action_id = req.action_id;
      state = named_state req.action_state;
      action_name = req.action_name;
      task_name = f.task.name;
    });
  }

  abbrev pub is_last : {ts : List Task} → First ts → Bool
  is_last f = is_empty f.rest && is_empty f.after

  named_state_eq : (st : StateType) → state_of st ≡ named_state st
  unfolding state_of
  named_state_eq StateType.unspecified = refl
  named_state_eq StateType.pending = refl
  named_state_eq StateType.running = refl
  named_state_eq StateType.failed = refl
  named_state_eq StateType.timeout = refl
  named_state_eq StateType.success = refl

  state_after-Moved :
      (last : Bool) (old : WorkflowState) → Moved last old (state_after req.action_state last old)
  unfolding state_after state_of
  state_after-Moved last old = record {
    to_post = ground arith;
    stays = ground arith;
    follows = ground arith;
  }

  pub report_status_first :
      (st : WorkflowStatus) (f : First st.tasks)
      → report_status req st
        ≡ some (written st f (state_after req.action_state (is_last f) st.state))
  unfolding report_status reported
  report_status_first st f = ground (
    arith,
    f.tasks_eq,
    named_state_eq req.action_state,
    report_tasks_first f.done f.task f.rest f.before f.action f.after
        (none_there f.done f.done_differ) f.actions_eq (other_ids f.task f.before f.before_differ)
        (matches-same f.task f.action f.same f.mine),
  )

  pub report_status-none :
      (st : WorkflowStatus) → All (λ u. NotThere u u.actions) st.tasks → report_status req st ≡ none
  unfolding report_status
  report_status-none st h = ground (arith, report_tasks-none st.tasks (none_there st.tasks h))

  abbrev pub IsComplete : Type 0
  IsComplete = (req.workflow_id ≢ "") × (req.task_id ≢ "") × (req.action_id ≢ "")

  module _ {S : Type 0} (b : Backend S) (s s' : S) (w : Workflow) where
    -- A complete report, where the named workflow is read and has an action with the reported id in
    -- a task of the agent, writes that workflow with the first such action replaced: its state,
    -- times, duration and message are the reported ones. Every other action and task is as it was,
    -- and the current state is the reported action. The state of the workflow is POST after the
    -- success of the last action of the last task, unchanged after any other success, else the
    -- reported one. The answer is that of the write.
    pub do_report-written :
        IsComplete
        → b.read_workflow (cut req.workflow_id).1 (cut req.workflow_id).0 s ≡ (ok w, s')
        → (f : First w.status.tasks)
        → (moved : WorkflowState) × Moved (is_last f) w.status.state moved
          × (do_report_action_status b req s ≡ (
            relabel
                (λ (e : BackendError).
                  status internal (text_append "error writing report status: " e.text))
                (b.update_workflow (record w { status = written w.status f moved }) s').0,
            (b.update_workflow (record w { status = written w.status f moved }) s').1,
          ))
    unfolding do_report_action_status
    do_report-written c r f = (
      state_after req.action_state (is_last f) w.status.state,
      state_after-Moved (is_last f) w.status.state,
      ground (arith, report_status_first w.status f),
    )

    -- A complete report, where the named workflow is read and each of its tasks belongs to another
    -- agent or has no action with the reported id, writes nothing and answers NotFound.
    pub do_report-unknown :
        IsComplete
        → b.read_workflow (cut req.workflow_id).1 (cut req.workflow_id).0 s ≡ (ok w, s')
        → All (λ u. NotThere u u.actions) w.status.tasks
        → do_report_action_status b req s ≡ (err (status not_found "action not found"), s')
    unfolding do_report_action_status
    do_report-unknown c r h = ground (arith, report_status-none w.status h)
