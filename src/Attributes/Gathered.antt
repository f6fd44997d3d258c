-- ===== src/Attributes/Gathered.antt =====
-- The attributes that an agent gathers (pkg/data/attributes.go). The elements of a list may be nil.
use tinkerbell.Base.{ℕ, String, Option, List}

pub record Processor : Type 0 where
  pub id : Option ℕ
  pub cores : Option ℕ
  pub threads : Option ℕ
  pub vendor : Option String
  pub model : Option String
  pub capabilities : List String

pub record Cpu : Type 0 where
  pub total_cores : Option ℕ
  pub total_threads : Option ℕ
  pub processors : List (Option Processor)

pub record Memory : Type 0 where
  pub total : Option String
  pub usable : Option String

pub record Block : Type 0 where
  pub name : Option String
  pub controller_type : Option String
  pub drive_type : Option String
  pub size : Option String
  pub physical_block_size : Option String
  pub vendor : Option String
  pub model : Option String
  pub wwn : Option String
  pub serial_number : Option String

pub record Network : Type 0 where
  pub name : Option String
  pub mac : Option String
  pub speed : Option String
  pub enabled_capabilities : List String

pub record Pci : Type 0 where
  pub vendor : Option String
  pub product : Option String
  pub class : Option String
  pub driver : Option String

pub record Gpu : Type 0 where
  pub vendor : Option String
  pub product : Option String
  pub class : Option String
  pub driver : Option String

pub record Chassis : Type 0 where
  pub serial : Option String
  pub vendor : Option String

pub record Bios : Type 0 where
  pub vendor : Option String
  pub version : Option String
  pub release_date : Option String

pub record Baseboard : Type 0 where
  pub vendor : Option String
  pub product : Option String
  pub version : Option String
  pub serial_number : Option String

pub record Product : Type 0 where
  pub name : Option String
  pub vendor : Option String
  pub serial_number : Option String

pub record AgentAttributes : Type 0 where
  pub cpu : Option Cpu
  pub memory : Option Memory
  pub block_devices : List (Option Block)
  pub network_interfaces : List (Option Network)
  pub pci_devices : List (Option Pci)
  pub gpu_devices : List (Option Gpu)
  pub chassis : Option Chassis
  pub bios : Option Bios
  pub baseboard : Option Baseboard
  pub product : Option Product
