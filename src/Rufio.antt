-- ===== src/Rufio.antt =====
-- The BMC controllers of rufio/internal/controller: the conditions of api/v1alpha1/bmc, the objects
-- and the client that the reconcilers of jobs and tasks work with. The BMC and the cluster share one
-- state, since a call of the one may come between calls of the other.
pub mod Conditions
pub mod RunJob
pub mod Access
pub mod RunTask
pub mod Machine
pub mod Inventory
pub mod RunMachine
mod Tests
use tinkerbell.Base.{ℕ, String, Bool, true, false, Option, none, some, List}
use tinkerbell.Base.Dict.{Dict}
use tinkerbell.Base.Equality.{Eq}
use tinkerbell.Base.Fallible.{Result, Exec}
use tinkerbell.Api.{BmcAction}

pub data ConditionType : Type 0 where
  completed failed running : ConditionType

pub ConditionType-discrete : Discrete ConditionType
ConditionType-discrete = hlevel

instance unfoldable pub condition_type_eq : Eq ConditionType
unfolding ConditionType-discrete
condition_type_eq = record { dec = ConditionType-discrete }

-- The conditions of a job and of a task, with `ConditionTrue` and `ConditionFalse` as Booleans. A task
-- has no condition `running`.
pub record Condition : Type 0 where
  pub type : ConditionType
  pub status : Bool
  pub message : String

pub record Status : Type 0 where
  pub conditions : List Condition
  pub start_time : Option ℕ
  pub completion_time : Option ℕ

pub record Job : Type 0 where
  pub name : String
  pub namespace : String
  pub uid : String
  pub machine_name : String
  pub machine_namespace : String
  pub tasks : List BmcAction
  pub status : Status

-- How to reach a BMC. `rpc` is set when the RPC provider is configured, and maps each algorithm of its
-- HMAC to the places of its secrets; otherwise `auth_secret_ref` is read.
pub record Connection : Type 0 where
  pub host : String
  pub auth_secret_ref : String × String
  pub rpc : Option (Dict String (List (String × String)))

pub record Task : Type 0 where
  pub name : String
  pub namespace : String
  pub owner : String
  pub owner_uid : String
  pub action : BmcAction
  pub connection : Connection
  pub status : Status

-- What a pass returns, other than an error.
pub data Requeue : Type 0 where
  no_requeue : Requeue
  requeue_after : ℕ → Requeue

-- What ends a pass early: an error, or a panic of an index out of range.
pub data Halt : Type 0 where
  failure : String → Halt
  panicked : Halt

-- What a failed read of the cluster reports: whether the object is missing, and the text.
pub record ReadError : Type 0 where
  pub is_not_found : Bool
  pub text : String

-- The Kubernetes client. The reads of a job and of a task also tell whether it is being deleted.
pub record Client (S : Type 0) : Type 0 where
  pub now : S → ℕ
  pub get_job : String → String → Exec S ReadError (Bool × Job)
  pub get_task : String → String → Exec S ReadError (Bool × Task)
  pub get_connection : String → String → Exec S ReadError Connection
  pub list_tasks : String → String → Exec S String (List Task)
  pub create_task : Task → Exec S String (Unit {0})
  pub patch_job : Job → Exec S String (Unit {0})
  pub patch_task : Task → Exec S String (Unit {0})
  pub secret_data : String × String → Exec S ReadError (List (String × String))

-- The BMC library, over an open connection of type `B`.
pub record Bmc (S B : Type 0) : Type 0 where
  pub open_connection : Connection → String × String → Dict String (List String) → Exec S String B
  pub close_connection : B → S → S
  pub set_power_state : B → String → Exec S String Bool
  pub set_boot_device : B → String → Bool → Bool → Exec S String Bool
  pub set_virtual_media : B → String → String → Exec S String Bool
  pub get_power_state : B → Exec S String String
