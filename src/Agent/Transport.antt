-- ===== src/Agent/Transport.antt =====
-- The transport of the agent over gRPC (tink/agent/internal/transport/grpc/grpc.go). The service is
-- the two calls of `Service`, with the messages of the service's own model. An absent field of an
-- answer and the empty text are the same to the getters.
pub mod Exchange
use Prim.Native.Char.{code}
use Prim.Native.String
use tinkerbell.Base.{
  ℤ, pos, ℕ, zero, String, Bool, true, false, ◌||◌, not, Option, none, some, List, [], ◌∷◌, map,
  any, eqb, if◌then◌else◌,
}
use tinkerbell.Base.Equality.{◌==◌, ◌!=◌, string_eq}
use tinkerbell.Api.{ActionNamespaces}
use tinkerbell.Server.{Attributes, ActionRequest, ActionResponse, ActionStatusRequest, StateType}
use tinkerbell.Agent.{
  Env, Namespaces, Action, State, success, failure, running, timeout, unknown, Event, Failure,
  cancelled, no_action, other_failure, ReadResult, got, not_got, WriteResult, sent, not_sent,
}

-- The codes of gRPC that the transport tells apart.
pub data RpcCode : Type 0 where
  not_found invalid_argument failed_precondition other_code : RpcCode

-- `violations` are the types of the violations among the details; `is_cancelled` is whether the error
-- is `context.Canceled`.
pub record RpcError : Type 0 where
  pub rpc_code : RpcCode
  pub violations : List String
  pub is_cancelled : Bool

pub data RpcResult {ℓ} (A : Type ℓ) : Type ℓ where
  answered : A → RpcResult A
  refused : RpcError → RpcResult A

pub record Service (S : Type 0) : Type 0 where
  pub get_action : ActionRequest → S → RpcResult ActionResponse × S
  pub report_action_status : ActionStatusRequest → S → RpcResult (Unit {0}) × S

-- `strings.SplitN(v, "=", 2)`
unfoldable pub split_env : String → Env
split_env String.[] = record { key = ""; value = "" }
split_env (String.◌∷◌ c s) =
    let rest = split_env s in
    if eqb (code c) b'='
    then record { key = ""; value = s }
    else record { key = String.◌∷◌ c rest.key; value = rest.value }

namespaces_of : String → Option ActionNamespaces → Namespaces
namespaces_of pid none = record { network = ""; pid = pid }
namespaces_of pid (some n) = record {
  network = n.network;
  pid = if n.pid != "" then n.pid else pid;
}

-- The action that an answer holds.
unfoldable pub action_of : ActionResponse → Action
unfolding split_env namespaces_of
action_of r = record {
  agent_id = r.agent_id;
  task_id = r.task_id;
  workflow_id = r.workflow_id;
  id = r.action_id;
  name = r.name;
  image = r.image;
  cmd = "";
  args = r.command;
  env = map split_env r.environment;
  volumes = r.volumes;
  namespaces = namespaces_of r.pid r.namespaces;
  retries = pos zero;
  timeout_seconds = r.timeout;
  execution_start = 0;
  execution_stop = 0;
  execution_duration = "";
}

abbrev no_action_available : String
no_action_available = "PRECONDITION_FAILURE_VIOLATION_NO_ACTION_AVAILABLE"

is_precondition : RpcCode → Bool
is_precondition failed_precondition = true
is_precondition not_found = false
is_precondition invalid_argument = false
is_precondition other_code = false

-- `isPFVNoActionsAvailable`
is_pfv_no_actions_available : RpcError → Bool
unfolding is_precondition
is_pfv_no_actions_available e =
    any (λ v. v == no_action_available) e.violations || is_precondition e.rpc_code

-- What the agent makes of the error: `NoWorkflowError` has no method `NoAction`, and wraps nothing.
unfoldable pub read_failure : RpcError → Failure
unfolding is_pfv_no_actions_available
read_failure e = elim e.rpc_code [
  | not_found ↦ other_failure
  | failed_precondition ↦
      if e.is_cancelled
      then cancelled
      else if is_pfv_no_actions_available e
      then no_action
      else other_failure
  | invalid_argument ↦
      if e.is_cancelled
      then cancelled
      else if is_pfv_no_actions_available e
      then no_action
      else other_failure
  | other_code ↦
      if e.is_cancelled
      then cancelled
      else if is_pfv_no_actions_available e
      then no_action
      else other_failure
]

-- `specToProto`
unfoldable pub spec_to_proto : State → StateType
spec_to_proto running = StateType.running
spec_to_proto success = StateType.success
spec_to_proto failure = StateType.failed
spec_to_proto timeout = StateType.timeout
spec_to_proto unknown = StateType.unspecified

-- The report of an event.
unfoldable pub request_of : Event → ActionStatusRequest
unfolding spec_to_proto
request_of ev = record {
  workflow_id = ev.action.workflow_id;
  agent_id = ev.action.agent_id;
  task_id = ev.action.task_id;
  action_id = ev.action.id;
  action_name = ev.action.name;
  action_state = spec_to_proto ev.state;
  execution_start = ev.action.execution_start;
  execution_stop = ev.action.execution_stop;
  execution_duration = ev.action.execution_duration;
  message = ev.message;
}

-- How a write ends: taken, refused for good (`backoff.Permanent`), or to be tried again.
pub data Written : Type 0 where
  taken permanent again : Written

unfoldable pub written_of : RpcResult (Unit {0}) → Written
written_of (answered _) = taken
written_of (refused e) = elim e.rpc_code [
  | not_found ↦ permanent
  | invalid_argument ↦ permanent
  | failed_precondition ↦ permanent
  | other_code ↦ again
]

module _ {S : Type 0} (v : Service S) (agent : String) (attrs : Option Attributes) where
  read_of : RpcResult ActionResponse × S → ReadResult × S
  unfolding action_of read_failure
  read_of (answered r, s) = (got (action_of r), s)
  read_of (refused e, s) = (not_got (read_failure e), s)

  -- `doRead`
  unfoldable pub do_read : S → ReadResult × S
  unfolding read_of
  do_read s = read_of (v.get_action (record { agent_id = agent; attributes = attrs }) s)

  -- `doWrite`
  unfoldable pub do_write : Event → S → Written × S
  unfolding request_of written_of
  do_write ev s =
      let reply = v.report_action_status (request_of ev) s in (written_of reply.0, reply.1)
