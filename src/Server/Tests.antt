-- ===== src/Server/Tests.antt =====
-- The theorems about the service at a workflow with two actions.
use tinkerbell.Base.{String, Bool, true, false, none, some, List, [], ◌∷◌, ◌≡◌, refl, ◌≢◌, All, inr}
use tinkerbell.Base.Equality.{string_eq}
use tinkerbell.Base.Fallible.{ok, err}
use tinkerbell.Api.{
  WorkflowState, state_eq, boot_mode_eq, Action, Workflow, WorkflowCondition, ConditionType,
  condition_type_eq,
}
use tinkerbell.Api.Conditions.{has_condition, set_condition, entry, UniqueTypes, set_condition_lem}
use tinkerbell.Server.{
  Error, ErrorKind, BackendError, Backend, Attributes, AutoCapabilities, ActionRequest,
  ActionResponse, ActionStatusRequest, StateType,
}
use tinkerbell.Server.Select.{
  is_first_action, is_task_successful, last_succeeded, pick_workflow, pick_task, resolve_action,
}
use tinkerbell.Server
use tinkerbell.Server.Get.{serve_workflow, do_get_action, response, current_of, with_current}
use tinkerbell.Server.Get.Served.{Served, do_get_action-Served}
use tinkerbell.Server.Report.{cut, matches, report_status, do_report_action_status}
use tinkerbell.Server.Report.Written.{
  First, do_report-written, do_report-unknown, written, Moved, is_last, NotThere,
}
use tinkerbell.Server.Report.Next.{task_after, next_after_success}
use tinkerbell.Server.Annotate.{resolve_and_annotate_hardware}
use tinkerbell.Server.Memory.{
  memory, put, make_action, make_task, make_status, make_workflow, new_workflow, off, no_discovery,
  no_enrollment, request, served_response, served_store,
}

first_action_is_served :
    do_get_action memory no_discovery no_enrollment off request (new_workflow ∷ [])
    ≡ (ok served_response, served_store)
unfolding do_get_action pick_workflow pick_task resolve_action is_first_action is_task_successful
    string_eq state_eq boot_mode_eq serve_workflow with_current current_of response
    resolve_and_annotate_hardware
first_action_is_served = refl

do_get_action-Served_example :
    (s₁ : List Workflow) × (s₂ : List Workflow) × (ws : List Workflow) × (memory.list_workflows
        "agent" s₁
      ≡ (ok ws, s₂))
    × Served memory "agent" ws served_response served_store
do_get_action-Served_example =
    do_get_action-Served memory no_discovery no_enrollment off request (new_workflow ∷ [])
      served_response served_store refl first_action_is_served

abbrev report : ActionStatusRequest
report = record {
  workflow_id = "default/wf";
  agent_id = "agent";
  task_id = "t1";
  action_id = "a1";
  action_name = "a1";
  action_state = StateType.success;
  execution_start = 1;
  execution_stop = 2;
  execution_duration = "1s";
  message = "done";
}

abbrev running_actions : List Action
running_actions =
    make_action "a1" WorkflowState.running ∷ make_action "a2" WorkflowState.pending ∷ []

abbrev running_workflow : Workflow
running_workflow = make_workflow (make_status WorkflowState.running none running_actions)

abbrev first_action : First report running_workflow.status.tasks
first_action = record {
  done = [];
  task = make_task running_actions;
  rest = [];
  before = [];
  action = make_action "a1" WorkflowState.running;
  after = make_action "a2" WorkflowState.pending ∷ [];
  tasks_eq = refl;
  actions_eq = refl;
  done_differ = tt;
  before_differ = tt;
  same = refl;
  mine = refl;
}

report_read :
    memory.read_workflow
      (cut report.workflow_id).1
      (cut report.workflow_id).0
      (running_workflow ∷ [])
    ≡ (ok running_workflow, running_workflow ∷ [])
unfolding cut string_eq
report_read = refl

text_not_empty : (report.workflow_id ≢ "") × (report.task_id ≢ "") × (report.action_id ≢ "")
text_not_empty = (λ e. cc, λ e. cc, λ e. cc)

do_report-written_example :
    (moved : WorkflowState) × Moved report (is_last report first_action) WorkflowState.running moved
    × (do_report_action_status memory report (running_workflow ∷ []) ≡ (
      ok tt,
      put
          (record running_workflow {
            status = written report running_workflow.status first_action moved;
          })
          (running_workflow ∷ []),
    ))
do_report-written_example =
    do_report-written report memory (running_workflow ∷ []) (running_workflow ∷ []) running_workflow
      text_not_empty report_read first_action

abbrev unknown_report : ActionStatusRequest
unknown_report = record report { action_id = "x" }

unknown_differs : All (λ u. NotThere unknown_report u u.actions) running_workflow.status.tasks
unknown_differs = (inr ((λ e. cc), ((λ e. cc), tt)), tt)

do_report-unknown_example :
    do_report_action_status memory unknown_report (running_workflow ∷ [])
    ≡ (err (Error.status Server.Code.not_found "action not found"), running_workflow ∷ [])
do_report-unknown_example =
    do_report-unknown unknown_report memory (running_workflow ∷ []) (running_workflow ∷ [])
      running_workflow (λ e. cc, λ e. cc, λ e. cc) report_read unknown_differs

last_pending : last_succeeded (make_action "a2" WorkflowState.pending ∷ []) ≡ false
unfolding last_succeeded state_eq
last_pending = refl

abbrev second_action : Action
second_action = make_action "a2" WorkflowState.pending

abbrev reported_workflow : Workflow
reported_workflow = record running_workflow {
  status = written report running_workflow.status first_action WorkflowState.running;
}

abbrev next_store : List Workflow
next_store =
    with_current reported_workflow (
      current_of "agent" (task_after report running_workflow.status first_action second_action [])
        second_action)
    ∷ []

reported_as : report_status report running_workflow.status ≡ some reported_workflow.status
unfolding report_status matches string_eq Server.Report.reported
reported_as = refl

next_listed :
    memory.list_workflows "agent" (reported_workflow ∷ [])
    ≡ (ok (reported_workflow ∷ []), reported_workflow ∷ [])
unfolding string_eq
next_listed = refl

next_written :
    memory.update_workflow
      (with_current reported_workflow (
        current_of "agent"
          (task_after report running_workflow.status first_action second_action [])
          second_action))
      (reported_workflow ∷ [])
    ≡ (ok tt, next_store)
unfolding string_eq with_current
next_written = refl

next_after_success_example :
    (r : ActionResponse) × (do_get_action memory no_discovery no_enrollment off request
        (reported_workflow ∷ [])
      ≡ (ok r, next_store))
    × (r.action_id ≡ "a2")
    × (r.task_id ≡ "t1")
next_after_success_example =
    next_after_success memory no_discovery no_enrollment report running_workflow reported_workflow
      first_action second_action [] off request [] (reported_workflow ∷ []) (reported_workflow ∷ [])
      next_store
      (record {
        success = refl;
        follows = refl;
        done = tt;
        started = tt;
        ids = tt;
        unfinished = last_pending;
      })
      (inr refl) reported_as refl (λ e. cc) refl refl next_listed next_written

abbrev rendered : Bool → String → WorkflowCondition
rendered st m = record {
  type = ConditionType.template_rendered_success;
  status = st;
  reason = "Error";
  message = m;
  time = 0;
}

set_condition_lem_example :
    let cs = rendered false "no template" ∷ [] in
    let wc = rendered true "rendered" in
    UniqueTypes (set_condition wc cs)
    × (entry wc.type (set_condition wc cs) ≡ some wc)
    × (has_condition wc.type true (set_condition wc cs) ≡ true)
    × ((t : ConditionType) → t ≢ wc.type → entry t (set_condition wc cs) ≡ entry t cs)
    × ((t : ConditionType) (st : Bool)
        → t ≢ wc.type
        → has_condition t st (set_condition wc cs) ≡ has_condition t st cs)
set_condition_lem_example =
    set_condition_lem (rendered true "rendered") (rendered false "no template" ∷ []) (tt, tt)
