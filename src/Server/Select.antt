-- ===== src/Server/Select.antt =====
-- Which workflow, task and action a request gets: the pure parts of `doGetAction`, and
-- `resolveAction`, `isFirstAction` and `isTaskSuccessful` (tink/server/internal/grpc/grpc.go).
use tinkerbell.Base.{
  String, Bool, true, false, Option, none, some, List, [], ◌∷◌, ◌&&◌, ◌||◌, if◌then◌else◌, find,
  not,
}
use tinkerbell.Base.Equality.{◌==◌, ◌!=◌, string_eq}
use tinkerbell.Base.Fallible.{Result, ok, err}
use tinkerbell.Api.{
  WorkflowState, state_eq, BootMode, boot_mode_eq, Action, Task, CurrentState, Workflow,
}
use tinkerbell.Server.{not_found, failed_precondition, Error, status}

unfoldable pub is_first_action : Task → Bool
is_first_action t = elim t.actions [ [] ↦ false | a ∷ _ ↦ a.state == WorkflowState.pending ]

unfoldable pub last_succeeded : List Action → Bool
last_succeeded [] = true
last_succeeded (a ∷ []) = a.state == WorkflowState.success
last_succeeded (a ∷ b ∷ acts) = last_succeeded (b ∷ acts)

unfoldable pub is_task_successful : Task → Bool
unfolding last_succeeded
is_task_successful t = last_succeeded t.actions

-- The loop over the listed workflows: the first one with tasks is served or refused.
unfoldable pub pick_workflow : List Workflow → Result Error Workflow
pick_workflow [] = err (status not_found "no Tasks found in Workflow")
pick_workflow (w ∷ ws) = elim w.status.tasks [
  | [] ↦ pick_workflow ws
  | _ ∷ _ ↦
      if w.spec.boot_mode != BootMode.no_mode && w.status.state == WorkflowState.preparing
      then err (status failed_precondition "Workflow is in preparing state")
      else if w.status.state != WorkflowState.pending && w.status.state != WorkflowState.running
      then err (status failed_precondition "Workflow not in pending or running state")
      else ok w
]

-- The task at hand: the first one if its first action is pending, else the first one whose last
-- action has not succeeded.
unfoldable pub pick_task : List Task → Result Error Task
pick_task [] = err (status not_found "no Tasks found in Workflow")
pick_task (t ∷ ts) =
    if is_first_action t then ok t else elim (find (λ u. not (is_task_successful u)) (t ∷ ts)) [
      | none ↦ err (status not_found "no Tasks found")
      | some u ↦ ok u
    ]

-- The action whose id is that of the current state.
unfoldable pub same_action : String → List Action → Result Error Action
same_action i [] = err (status not_found "in-progress Action not found in task")
same_action i (a ∷ acts) = if a.id == i then ok a else same_action i acts

-- The action after the one whose id is that of the current state.
unfoldable pub next_action : String → List Action → Result Error Action
next_action i [] = err (status not_found "no Action found")
next_action i (a ∷ []) =
    if a.id == i
    then err (status not_found "last Action in task")
    else err (status not_found "no Action found")
next_action i (a ∷ b ∷ acts) = if a.id == i then ok b else next_action i (b ∷ acts)

resolve_current : Option CurrentState → List Action → Result Error Action
unfolding same_action next_action
resolve_current none acts = err (status failed_precondition "no current state available")
resolve_current (some c) acts =
    if c.state == WorkflowState.running || c.state == WorkflowState.pending
    then same_action c.action_id acts
    else if c.state != WorkflowState.success
    then err (status failed_precondition "current Action not in success state")
    else next_action c.action_id acts

-- `resolveAction`, with the test for an empty task that stands before its call.
unfoldable pub resolve_action : Task → Option CurrentState → Result Error Action
unfolding resolve_current is_first_action
resolve_action t c = elim t.actions [
  | [] ↦ err (status not_found "no Actions found")
  | a ∷ acts ↦ if is_first_action t then ok a else resolve_current c (a ∷ acts)
]
