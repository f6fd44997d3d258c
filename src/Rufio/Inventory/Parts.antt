-- ===== src/Rufio/Inventory/Parts.antt =====
-- What the controller reads of the structures of the library bmc-toolbox/common that the BMC library
-- fills with an inventory. `Common` has the fields that the components share. A list may hold nil.
use tinkerbell.Base.{ℤ, String, Option, List}

pub record DeviceStatus : Type 0 where
  pub health : String
  pub state : String
  pub post_code : ℤ
  pub post_code_status : String

-- `firmware` is the version that is installed.
pub record Common : Type 0 where
  pub vendor : String
  pub model : String
  pub product_name : String
  pub serial : String
  pub description : String
  pub firmware : Option String
  pub status : Option DeviceStatus

pub record CpuPart : Type 0 where
  pub common : Common
  pub id : String
  pub slot : String
  pub cores : ℤ
  pub threads : ℤ
  pub clock_speed_hz : ℤ

pub record MemoryPart : Type 0 where
  pub common : Common
  pub id : String
  pub slot : String
  pub part_number : String
  pub size_bytes : ℤ
  pub clock_speed_hz : ℤ
  pub form_factor : String

pub record NicPort : Type 0 where
  pub physical_id : String
  pub id : String
  pub mac_address : String
  pub speed_bits : ℤ
  pub mtu_size : ℤ
  pub link_status : String

pub record Nic : Type 0 where
  pub common : Common
  pub id : String
  pub nic_ports : List (Option NicPort)

pub record Drive : Type 0 where
  pub common : Common
  pub id : String
  pub wwn : String
  pub capacity_bytes : ℤ
  pub kind : String
  pub smart_status : String

pub record Controller : Type 0 where
  pub common : Common
  pub id : String

pub record PowerSupply : Type 0 where
  pub common : Common
  pub id : String
  pub power_capacity_watts : ℤ

pub record TpmPart : Type 0 where
  pub common : Common
  pub interface_type : String

-- A GPU, a BIOS and a mainboard are read by their common fields alone.
pub record BmcPart : Type 0 where
  pub common : Common
  pub nic : Option Nic

pub record Device : Type 0 where
  pub common : Common
  pub bios : Option Common
  pub bmc : Option BmcPart
  pub mainboard : Option Common
  pub cpus : List (Option CpuPart)
  pub memory : List (Option MemoryPart)
  pub nics : List (Option Nic)
  pub drives : List (Option Drive)
  pub storage_controllers : List (Option Controller)
  pub psus : List (Option PowerSupply)
  pub tpms : List (Option TpmPart)
  pub gpus : List (Option Common)
