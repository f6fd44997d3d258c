-- ===== src/Server/Memory.antt =====
-- A cluster in memory and a workflow with two actions, for the tests of the service.
use tinkerbell.Base.{String, true, false, Option, none, List, [], ◌∷◌, if◌then◌else◌, ◌&&◌}
use tinkerbell.Base.Equality.{◌==◌, string_eq}
use tinkerbell.Base.Fallible.{Result, ok, err}
use tinkerbell.Api.{
  WorkflowState, state_eq, BootMode, boot_mode_eq, Action, Task, CurrentState, Workflow,
  WorkflowStatus, WorkflowSpec, TemplateRendering, Hardware, condition_type_eq,
}
use tinkerbell.Server.{
  Error, Stop, ErrorKind, BackendError, Backend, Attributes, AutoCapabilities, ActionRequest,
  ActionResponse, ActionStatusRequest, StateType,
}
use tinkerbell.Server
use tinkerbell.Server.Get.{response, current_of, with_current}

abbrev pub gone : BackendError
gone = record { kind = ErrorKind.missing; text = "not found" }

abbrev pub find_named : String → String → List Workflow → Result BackendError Workflow
find_named n ns [] = err gone
find_named n ns (w ∷ ws) = if w.name == n && w.namespace == ns then ok w else find_named n ns ws

abbrev pub put : Workflow → List Workflow → List Workflow
put v [] = []
put v (w ∷ ws) = if w.name == v.name && w.namespace == v.namespace then v ∷ ws else w ∷ put v ws

abbrev pub of_agent : String → List Workflow → List Workflow
of_agent a [] = []
of_agent a (w ∷ ws) = let rest = of_agent a ws in if w.status.agent_id == a then w ∷ rest else rest

abbrev pub memory : Backend (List Workflow)
memory = record {
  cancelled = λ s. false;
  list_workflows = λ a s. (ok (of_agent a s), s);
  read_workflow = λ n ns s. (find_named n ns s, s);
  update_workflow = λ w s. (ok tt, put w s);
  create_workflow = λ w s. (ok tt, w ∷ s);
  filter_hardware = λ a ns s. (err gone, s);
  read_hardware = λ n ns s. (err gone, s);
  patch_hardware = λ hw old s. (err gone, s);
  create_hardware = λ hw s. (err gone, s);
  list_rule_sets = λ s. (ok [], s);
  rule_matches = λ rules event. ok 0;
  is_mac = λ m. true;
}

abbrev pub make_action : String → WorkflowState → Action
make_action i st = record {
  id = i;
  name = i;
  image = "image";
  timeout = 60;
  command = [];
  volumes = [];
  pid = "";
  namespaces = none;
  environment = ("A", "1") ∷ [];
  state = st;
  execution_start = none;
  execution_stop = none;
  execution_duration = "";
  message = "";
}

abbrev pub make_task : List Action → Task
make_task acts = record {
  id = "t1";
  name = "install";
  agent_id = "agent";
  actions = acts;
  volumes = [];
  environment = ("A", "0") ∷ ("B", "2") ∷ [];
}

abbrev pub make_status : WorkflowState → Option CurrentState → List Action → WorkflowStatus
make_status st c acts = record {
  agent_id = "agent";
  state = st;
  toggled_true = false;
  toggled_false = false;
  jobs = [];
  template_rendering = TemplateRendering.rendering_successful;
  global_timeout = 0;
  global_execution_stop = none;
  current_state = c;
  tasks = make_task acts ∷ [];
  conditions = [];
}

abbrev pub spec : WorkflowSpec
spec = record {
  disabled = none;
  template_ref = "ubuntu";
  hardware_ref = "";
  hardware_map = [];
  toggle_allow_netboot = false;
  iso_url = "";
  boot_mode = BootMode.no_mode;
  preparing_actions = [];
  post_actions = [];
}

abbrev pub make_workflow : WorkflowStatus → Workflow
make_workflow st = record {
  name = "wf";
  namespace = "default";
  annotations = [];
  labels = [];
  owner_references = [];
  spec = spec;
  status = st;
}

abbrev pub new_actions : List Action
new_actions = make_action "a1" WorkflowState.pending ∷ make_action "a2" WorkflowState.pending ∷ []

abbrev pub new_workflow : Workflow
new_workflow = make_workflow (make_status WorkflowState.pending none new_actions)

abbrev pub off : AutoCapabilities
off = record {
  enrollment = false;
  discovery = false;
  discovery_namespace = "";
  discovery_enrollment_enabled = false;
}

abbrev pub no_discovery :
    String → Option Attributes → List Workflow → Result Stop Hardware × List Workflow
no_discovery a attrs s = (err (Stop.stopped gone), s)

abbrev pub no_enrollment :
    String
    → Option Attributes
    → Option Hardware
    → List Workflow
    → Result Error ActionResponse × List Workflow
no_enrollment a attrs hw s = (err (Error.status Server.Code.not_found ""), s)

abbrev pub request : ActionRequest
request = record { agent_id = "agent"; attributes = none }

abbrev pub served_response : ActionResponse
served_response =
    response "agent" new_workflow (make_task new_actions) (make_action "a1" WorkflowState.pending)

abbrev pub served_store : List Workflow
served_store =
    with_current new_workflow
      (current_of "agent" (make_task new_actions) (make_action "a1" WorkflowState.pending))
    ∷ []
