-- ===== src/Server/Get.antt =====
-- `doGetAction` (tink/server/internal/grpc/grpc.go). Discovery and enrollment are arguments here.
pub mod Served
use Prim.Native.String.{◌++◌ as text_append}
use tinkerbell.Base.{
  String, Bool, true, false, Option, none, some, List, [], ◌∷◌, ◌++◌, if◌then◌else◌, ◌≡◌,
}
use tinkerbell.Base.Equality.{◌==◌, ◌!=◌, string_eq}
use tinkerbell.Base.Fallible.{Result, ok, err, Exec, pure, fail, lift, map_err, ◌>>=◌, ◌>>◌}
use tinkerbell.Api.{
  Action, ActionNamespaces, Task, CurrentState, Workflow, WorkflowStatus, Hardware,
}
use tinkerbell.Server.{
  unavailable, invalid_argument, not_found, internal, Error, status, read_failed, write_failed,
  crash, Stop, stopped, crashed, Backend, BackendError, Attributes, AutoCapabilities, ActionRequest,
  ActionResponse,
}
use tinkerbell.Server.Select.{is_first_action, pick_workflow, pick_task, resolve_action}
use tinkerbell.Server.Environment.{environment}
use tinkerbell.Server.Annotate.{resolve_and_annotate_hardware}

unfoldable pub current_of : String → Task → Action → CurrentState
current_of agent t a = record {
  agent_id = agent;
  task_id = t.id;
  action_id = a.id;
  state = a.state;
  action_name = a.name;
  task_name = t.name;
}

unfoldable pub with_current : Workflow → CurrentState → Workflow
with_current w c = record w { status = record w.status { current_state = some c } }

-- `namespaces.pid` before the deprecated field `pid`.
response_pid : Option ActionNamespaces → String → String
response_pid none p = p
response_pid (some n) p = if n.pid != "" then n.pid else p

unfoldable pub response : String → Workflow → Task → Action → ActionResponse
unfolding response_pid
response agent w t a = record {
  workflow_id = text_append w.namespace (text_append "/" w.name);
  task_id = t.id;
  agent_id = agent;
  action_id = a.id;
  name = a.name;
  image = a.image;
  timeout = a.timeout;
  command = a.command;
  volumes = t.volumes ++ a.volumes;
  environment = environment t.environment a.environment;
  pid = response_pid a.namespaces a.pid;
  namespaces = a.namespaces;
}

abbrev pub at_start : List Task → Bool
at_start [] = false
at_start (t ∷ _) = is_first_action t

module _ {S : Type 0} (b : Backend S) where
  -- The annotation of the hardware, made before the very first action alone.
  annotate_at_start : Option Hardware → Option Attributes → Workflow → Exec S Error (Unit {0})
  annotate_at_start hw attrs w s = (
    ok tt,
    if at_start w.status.tasks
        then resolve_and_annotate_hardware b hw w.spec.hardware_ref w.namespace attrs s
        else s,
  )

  -- The write of the current state, and the answer.
  serve_action : String → Workflow → Task → Action → Exec S Error ActionResponse
  serve_action agent w t a = do
    map_err (λ e. write_failed internal (text_append "error writing current state: " e.text))
        (b.update_workflow (with_current w (current_of agent t a)))
    pure (response agent w t a)

  -- From the chosen workflow on.
  unfoldable pub serve_workflow :
      String → Option Hardware → Option Attributes → Workflow → Exec S Error ActionResponse
  unfolding annotate_at_start serve_action
  serve_workflow agent hw attrs w = do
    t ← lift (pick_task w.status.tasks)
    annotate_at_start hw attrs w
    a ← lift (resolve_action t w.status.current_state)
    if t.agent_id != agent
        then fail (status not_found "Task not assigned to Agent")
        else serve_action agent w t a

  -- The hardware that a call found; its error leaves the reference as it was.
  kept : Option Hardware → Result BackendError Hardware × S → Result Error (Option Hardware) × S
  kept hw (ok found, s) = (ok (some found), s)
  kept hw (err _, s) = (ok hw, s)

  -- `Handler.hardware`, called where the discovery did not look already.
  looked_up : AutoCapabilities → ActionRequest → Option Hardware → Exec S Error (Option Hardware)
  unfolding kept
  looked_up auto req hw s =
      if auto.discovery
      then (ok hw, s)
      else kept hw (b.filter_hardware req.agent_id auto.discovery_namespace s)

  -- An error of the discovery is logged and holds up no workflow, a panic ends the call.
  found_or_logged : Result Stop Hardware × S → Result Error (Option Hardware) × S
  found_or_logged (ok found, s) = (ok (some found), s)
  found_or_logged (err (stopped _), s) = (ok none, s)
  found_or_logged (err crashed, s) = (err crash, s)

  module _ (discover : String → Option Attributes → Exec S Stop Hardware)
      (enroll : String → Option Attributes → Option Hardware → Exec S Error ActionResponse) where
    discovered : Bool → ActionRequest → Exec S Error (Option Hardware)
    unfolding found_or_logged
    discovered false req s = (ok none, s)
    discovered true req s = found_or_logged (discover req.agent_id req.attributes s)

    no_workflow : AutoCapabilities → ActionRequest → Option Hardware → Exec S Error ActionResponse
    unfolding looked_up
    no_workflow auto req hw =
        if auto.enrollment
        then (do found ← looked_up auto req hw; enroll req.agent_id req.attributes found)
        else fail (status not_found "no Workflows found")

    answer :
        AutoCapabilities
        → ActionRequest
        → Option Hardware
        → List Workflow
        → Exec S Error ActionResponse
    unfolding no_workflow serve_workflow
    answer auto req hw [] = no_workflow auto req hw
    answer auto req hw (w ∷ ws) = do
      chosen ← lift (pick_workflow (w ∷ ws))
      serve_workflow req.agent_id hw req.attributes chosen

    list_and_answer : AutoCapabilities → ActionRequest → Exec S Error ActionResponse
    unfolding discovered answer
    list_and_answer auto req = do
      hw ← discovered auto.discovery req
      ws ←
          map_err (λ e. read_failed internal (text_append "error getting workflows: " e.text))
            (b.list_workflows req.agent_id)
      answer auto req hw ws

    unfoldable pub do_get_action : AutoCapabilities → ActionRequest → Exec S Error ActionResponse
    unfolding list_and_answer
    do_get_action auto req s =
        if b.cancelled s
        then (err (status unavailable "server shutting down"), s)
        else if req.agent_id == ""
        then (err (status invalid_argument "invalid Agent ID"), s)
        else list_and_answer auto req s
