-- ===== src/Api.antt =====
-- The API objects of api/v1alpha1/tinkerbell/workflow.go (and the fields of hardware.go) that the
-- server and the controller read and write. A Go pointer that may be nil is an `Option`; a string
-- type with constants is a data type with the other spellings under `other`; a time is its number
-- of nanoseconds.

pub mod Conditions
use tinkerbell.Base.{ℕ, String, Bool, Option, List}
use tinkerbell.Base.Equality.{Eq, String-discrete}
use tinkerbell.Base.Dict.{Dict}

-- `unset` is the empty string.
pub data WorkflowState : Type 0 where
  unset preparing pending running post success failed timeout : WorkflowState
  other : String → WorkflowState

pub WorkflowState-discrete : Discrete WorkflowState
WorkflowState-discrete = hlevel String-discrete

instance unfoldable pub state_eq : Eq WorkflowState
unfolding WorkflowState-discrete String-discrete
state_eq = record { dec = WorkflowState-discrete }

pub data BootMode : Type 0 where
  no_mode netboot iso isoboot customboot : BootMode
  other_mode : String → BootMode

pub BootMode-discrete : Discrete BootMode
BootMode-discrete = hlevel String-discrete

instance unfoldable pub boot_mode_eq : Eq BootMode
unfolding BootMode-discrete String-discrete
boot_mode_eq = record { dec = BootMode-discrete }

pub record ActionNamespaces : Type 0 where
  pub network : String
  pub pid : String

pub record Action : Type 0 where
  pub id : String
  pub name : String
  pub image : String
  pub timeout : ℕ
  pub command : List String
  pub volumes : List String
  pub pid : String
  pub namespaces : Option ActionNamespaces
  pub environment : Dict String String
  pub state : WorkflowState
  pub execution_start : Option ℕ
  pub execution_stop : Option ℕ
  pub execution_duration : String
  pub message : String

pub record Task : Type 0 where
  pub id : String
  pub name : String
  pub agent_id : String
  pub actions : List Action
  pub volumes : List String
  pub environment : Dict String String

pub record CurrentState : Type 0 where
  pub agent_id : String
  pub task_id : String
  pub action_id : String
  pub state : WorkflowState
  pub action_name : String
  pub task_name : String

pub record JobStatus : Type 0 where
  pub uid : String
  pub complete : Bool
  pub existing_job_deleted : Bool

pub data ConditionType : Type 0 where
  boot_job_failed boot_job_complete boot_job_running boot_job_setup_failed : ConditionType
  boot_job_setup_complete allow_netboot_true allow_netboot_false : ConditionType
  template_rendered_success : ConditionType

pub ConditionType-discrete : Discrete ConditionType
ConditionType-discrete = hlevel

instance unfoldable pub condition_type_eq : Eq ConditionType
unfolding ConditionType-discrete
condition_type_eq = record { dec = ConditionType-discrete }

-- `status` is metav1.ConditionTrue or metav1.ConditionFalse, the two that the program writes.
pub record WorkflowCondition : Type 0 where
  pub type : ConditionType
  pub status : Bool
  pub reason : String
  pub message : String
  pub time : ℕ

pub data TemplateRendering : Type 0 where
  not_rendered rendering_successful rendering_failed : TemplateRendering

pub record WorkflowStatus : Type 0 where
  pub agent_id : String
  pub state : WorkflowState
  pub toggled_true : Bool
  pub toggled_false : Bool
  pub jobs : Dict String JobStatus
  pub template_rendering : TemplateRendering
  pub global_timeout : ℕ
  pub global_execution_stop : Option ℕ
  pub current_state : Option CurrentState
  pub tasks : List Task
  pub conditions : List WorkflowCondition

-- The actions of a BMC task (api/v1alpha1/bmc/task.go).
pub data PowerAction : Type 0 where
  power_on power_hard_off power_soft_off power_cycle power_reset power_status : PowerAction

pub record OneTimeBootDevice : Type 0 where
  pub devices : List String
  pub efi_boot : Bool

pub record BootDevice : Type 0 where
  pub device : String
  pub persistent : Bool
  pub efi_boot : Bool

pub record VirtualMedia : Type 0 where
  pub media_url : String
  pub kind : String

pub record BmcAction : Type 0 where
  pub power : Option PowerAction
  pub one_time_boot_device : Option OneTimeBootDevice
  pub boot_device : Option BootDevice
  pub virtual_media : Option VirtualMedia

pub record WorkflowSpec : Type 0 where
  pub disabled : Option Bool
  pub template_ref : String
  pub hardware_ref : String
  pub hardware_map : Dict String String
  pub toggle_allow_netboot : Bool
  pub iso_url : String
  pub boot_mode : BootMode
  pub preparing_actions : List BmcAction
  pub post_actions : List BmcAction

-- What `metav1.OwnerReference` says of the object that owns another.
pub record OwnerReference : Type 0 where
  pub api_version : String
  pub kind : String
  pub name : String
  pub uid : String

pub record Workflow : Type 0 where
  pub name : String
  pub namespace : String
  pub annotations : Dict String String
  pub labels : Dict String String
  pub owner_references : List OwnerReference
  pub spec : WorkflowSpec
  pub status : WorkflowStatus

pub record Dhcp : Type 0 where
  pub mac : String
  pub uefi : Bool

-- An interface; `netboot` is nil or holds the field allowPXE, itself a pointer.
pub record Interface : Type 0 where
  pub dhcp : Option Dhcp
  pub netboot : Option (Option Bool)

-- An object that a hardware refers to.
pub record Reference : Type 0 where
  pub group : String
  pub version : String
  pub resource : String
  pub name : String
  pub namespace : String

pub record Hardware : Type 0 where
  pub name : String
  pub namespace : String
  pub annotations : Dict String String
  pub labels : Dict String String
  pub agent_id : String
  pub enrollment_enabled : Bool
  pub bmc_ref : Option String
  pub interfaces : List Interface
  pub disks : List String
  pub references : Dict String Reference
