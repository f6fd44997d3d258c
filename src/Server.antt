-- ===== src/Server.antt =====
-- The workflow service of tink/server/internal/grpc: what a handler is given, what it answers, and
-- its errors. The children model the operations of grpc.go.
pub mod Select
pub mod Environment
pub mod Annotate
pub mod Get
pub mod Report
pub mod Names
pub mod Discover
pub mod Enroll
pub mod Auto
pub mod Memory
mod Tests
use tinkerbell.Base.{ℕ, String, Bool, Option, List}
use tinkerbell.Base.Fallible.{Result, Exec}
use tinkerbell.Base.Dict.{Dict}
use tinkerbell.Api.{Workflow, Hardware, ActionNamespaces}

pub data Code : Type 0 where
  unavailable invalid_argument not_found failed_precondition internal : Code

-- What a call of the backend reports: the kinds that the handler tells apart, and the text.
pub data ErrorKind : Type 0 where
  missing multiple already_exists unexpected : ErrorKind

pub record BackendError : Type 0 where
  pub kind : ErrorKind
  pub text : String

-- How a discovery ends without a hardware: with an error, or at a nil pointer that is followed.
pub data Stop : Type 0 where
  stopped : BackendError → Stop
  crashed : Stop

-- A gRPC status, alone or joined with ErrBackendRead or ErrBackendWrite; or a panic of the handler.
pub data Error : Type 0 where
  status : Code → String → Error
  read_failed : Code → String → Error
  write_failed : Code → String → Error
  crash : Error

pub record Block : Type 0 where
  pub name : Option String
  pub size : Option String

pub record Network : Type 0 where
  pub mac : Option String

-- What the handler reads of the attributes of an agent; `encoded` is their JSON text, or the error
-- that encoding them reports.
pub record Attributes : Type 0 where
  pub block_devices : List (Option Block)
  pub network_interfaces : List (Option Network)
  pub encoded : Result String String

pub record WorkflowRuleSet : Type 0 where
  pub api_version : String
  pub kind : String
  pub uid : String
  pub name : String
  pub rules : List String
  pub workflow_namespace : String
  pub template_ref : String
  pub agent_value : String
  pub kvs : Dict String String
  pub disabled : Option Bool
  pub add_attributes : Bool

-- The interface `Backend` of grpc.go with the creators of the auto capabilities, over a state `S`
-- of the cluster. `cancelled` is the test of `ctx.Done()`; `rule_matches` is the rule engine, which
-- counts the rules of a set that match the JSON text; `is_mac` is the standard library's ParseMAC.
pub record Backend (S : Type 0) : Type 0 where
  pub cancelled : S → Bool
  pub list_workflows : String → Exec S BackendError (List Workflow)
  pub read_workflow : String → String → Exec S BackendError Workflow
  pub update_workflow : Workflow → Exec S BackendError (Unit {0})
  pub create_workflow : Workflow → Exec S BackendError (Unit {0})
  pub filter_hardware : String → String → Exec S BackendError Hardware
  pub read_hardware : String → String → Exec S BackendError Hardware
  pub patch_hardware : Hardware → Hardware → Exec S BackendError (Unit {0})
  pub create_hardware : Hardware → Exec S BackendError (Unit {0})
  pub list_rule_sets : Exec S BackendError (List WorkflowRuleSet)
  pub rule_matches : List String → Option String → Result String ℕ
  pub is_mac : String → Bool

pub record AutoCapabilities : Type 0 where
  pub enrollment : Bool
  pub discovery : Bool
  pub discovery_namespace : String
  pub discovery_enrollment_enabled : Bool

pub record ActionRequest : Type 0 where
  pub agent_id : String
  pub attributes : Option Attributes

pub record ActionResponse : Type 0 where
  pub workflow_id : String
  pub task_id : String
  pub agent_id : String
  pub action_id : String
  pub name : String
  pub image : String
  pub timeout : ℕ
  pub command : List String
  pub volumes : List String
  pub environment : List String
  pub pid : String
  pub namespaces : Option ActionNamespaces

-- `ActionStatusRequest.StateType`
pub data StateType : Type 0 where
  unspecified pending running failed timeout success : StateType

pub record ActionStatusRequest : Type 0 where
  pub workflow_id : String
  pub agent_id : String
  pub task_id : String
  pub action_id : String
  pub action_name : String
  pub action_state : StateType
  pub execution_start : ℕ
  pub execution_stop : ℕ
  pub execution_duration : String
  pub message : String
