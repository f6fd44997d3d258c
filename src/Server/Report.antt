-- ===== src/Server/Report.antt =====
-- `doReportActionStatus` (tink/server/internal/grpc/grpc.go).
pub mod WorkflowKey
pub mod Written
pub mod Next
use Prim.Native.Char.{code}
use Prim.Native.String
use Prim.Native.String.{◌++◌ as text_append}
use tinkerbell.Base.{
  String, Bool, true, false, Option, none, some, List, [], ◌∷◌, ◌&&◌, eqb, if◌then◌else◌,
}
use tinkerbell.Base.Equality.{◌==◌, string_eq}
use tinkerbell.Base.Fallible.{Result, ok, err, Exec, pure, fail, map_err, ◌>>=◌, ◌>>◌}
use tinkerbell.Api.{WorkflowState, Action, Task, CurrentState, WorkflowStatus, Workflow}
use tinkerbell.Server.{
  invalid_argument, not_found, internal, Error, status, read_failed, Backend, StateType,
  ActionStatusRequest,
}

-- `strings.Cut(id, "/")`: the text before the first slash and the text after it.
unfoldable pub cut : String → String × String
cut String.[] = ("", "")
cut (String.◌∷◌ c s) =
    let rest = cut s in if eqb (code c) b'/' then ("", s) else (String.◌∷◌ c rest.0, rest.1)

-- The text of a state, as `WorkflowState(req.GetActionState().String())`.
unfoldable pub state_of : StateType → WorkflowState
state_of StateType.unspecified = WorkflowState.other "UNSPECIFIED"
state_of StateType.pending = WorkflowState.pending
state_of StateType.running = WorkflowState.running
state_of StateType.failed = WorkflowState.failed
state_of StateType.timeout = WorkflowState.timeout
state_of StateType.success = WorkflowState.success

unfoldable pub matches : ActionStatusRequest → Task → Action → Bool
matches req t a = a.id == req.action_id && t.agent_id == req.agent_id

unfoldable pub reported : ActionStatusRequest → Action → Action
unfolding state_of
reported req a = record a {
  state = state_of req.action_state;
  execution_start = some req.execution_start;
  execution_stop = some req.execution_stop;
  execution_duration = req.execution_duration;
  message = req.message;
}

-- The inner loop: the actions with the first match written, and whether it is the last of them.
unfoldable pub report_actions :
    ActionStatusRequest → Task → List Action → Option (List Action × Bool)
report_actions req t [] = none
report_actions req t (a ∷ acts) =
    let rest = report_actions req t acts in
    if matches req t a
    then some (reported req a ∷ acts, elim acts [ [] ↦ true | _ ∷ _ ↦ false ])
    else elim rest [ none ↦ none | some (acts', last) ↦ some (a ∷ acts', last) ]

pub record Reported : Type 0 where
  pub tasks : List Task
  -- whether the action is the last one of the last task
  pub last : Bool
  pub task_name : String

-- The outer loop.
unfoldable pub report_tasks : ActionStatusRequest → List Task → Option Reported
unfolding report_actions
report_tasks req [] = none
report_tasks req (t ∷ ts) =
    let rest = report_tasks req ts in
    elim (report_actions req t t.actions) [
      | some (acts, last) ↦ some (record {
        tasks = record t { actions = acts } ∷ ts;
        last = elim ts [ [] ↦ last | _ ∷ _ ↦ false ];
        task_name = t.name;
      })
      | none ↦ elim rest [ none ↦ none | some r ↦ some (record r { tasks = t ∷ r.tasks }) ]
    ]

-- The state of the workflow after the report of one action.
unfoldable pub state_after : StateType → Bool → WorkflowState → WorkflowState
unfolding state_of
state_after StateType.success true s = WorkflowState.post
state_after StateType.success false s = s
state_after st _ s = state_of st

unfoldable pub report_status : ActionStatusRequest → WorkflowStatus → Option WorkflowStatus
unfolding report_tasks state_after
report_status req st = elim (report_tasks req st.tasks) [
  | none ↦ none
  | some r ↦ some (record st {
    tasks = r.tasks;
    state = state_after req.action_state r.last st.state;
    current_state = some (record {
      agent_id = req.agent_id;
      task_id = req.task_id;
      action_id = req.action_id;
      state = state_of req.action_state;
      action_name = req.action_name;
      task_name = r.task_name;
    });
  })
]

module _ {S : Type 0} (b : Backend S) where
  write_report : ActionStatusRequest → Workflow → Exec S Error (Unit {0})
  unfolding report_status
  write_report req w = elim (report_status req w.status) [
    | none ↦ fail (status not_found "action not found")
    | some st ↦
        map_err (λ e. status internal (text_append "error writing report status: " e.text))
          (b.update_workflow (record w { status = st }))
  ]

  unfoldable pub do_report_action_status : ActionStatusRequest → Exec S Error (Unit {0})
  unfolding write_report cut
  do_report_action_status req =
      if req.workflow_id == ""
      then fail (status invalid_argument "invalid workflow id")
      else if req.task_id == ""
      then fail (status invalid_argument "invalid task name")
      else if req.action_id == ""
      then fail (status invalid_argument "invalid action name")
      else (do
        w ←
            map_err (λ e. read_failed internal (text_append "error getting workflow: " e.text))
              (b.read_workflow (cut req.workflow_id).1 (cut req.workflow_id).0)
        write_report req w)
