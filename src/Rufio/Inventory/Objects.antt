-- ===== src/Rufio/Inventory/Objects.antt =====
-- The attributes of a hardware that a collector writes (api/v1alpha1/tinkerbell/hardware.go).
use tinkerbell.Base.{ℕ, ℤ, String, Option, List}

pub record ComponentStatus : Type 0 where
  pub health : String
  pub state : String
  pub post_code : Option ℤ
  pub post_code_status : String

pub record CpuSocket : Type 0 where
  pub slot : String
  pub vendor : String
  pub model : String
  pub cores : ℕ
  pub threads : ℕ
  pub clock_speed_mhz : ℕ
  pub serial_number : String
  pub capabilities : List String
  pub firmware_version : String

pub record Cpu : Type 0 where
  pub total_cores : ℕ
  pub total_threads : ℕ
  pub sockets : List CpuSocket

pub record MemoryModule : Type 0 where
  pub slot : String
  pub vendor : String
  pub model : String
  pub serial_number : String
  pub part_number : String
  pub size_bytes : ℤ
  pub speed_mhz : ℕ
  pub form_factor : String
  pub firmware_version : String

pub record Memory : Type 0 where
  pub total_bytes : ℤ
  pub usable_bytes : ℤ
  pub modules : List MemoryModule

pub record BlockDevice : Type 0 where
  pub name : String
  pub controller_type : String
  pub drive_type : String
  pub vendor : String
  pub model : String
  pub serial_number : String
  pub wwn : String
  pub size_bytes : ℤ
  pub physical_block_size_bytes : ℤ
  pub smart_status : String
  pub firmware_version : String
  pub status : Option ComponentStatus

pub record NetworkPort : Type 0 where
  pub port_id : String
  pub mac : String
  pub speed_mbps : ℕ
  pub mtu : ℕ
  pub link_status : String
  pub enabled_capabilities : List String

pub record NetworkInterface : Type 0 where
  pub name : String
  pub vendor : String
  pub model : String
  pub serial_number : String
  pub firmware_version : String
  pub ports : List NetworkPort

pub record GpuDevice : Type 0 where
  pub vendor : String
  pub model : String
  pub serial_number : String
  pub description : String
  pub class : String
  pub driver : String
  pub firmware_version : String
  pub status : Option ComponentStatus

pub record PciDevice : Type 0 where
  pub vendor : String
  pub model : String
  pub class : String
  pub driver : String

pub record Chassis : Type 0 where
  pub vendor : String
  pub model : String
  pub serial_number : String

pub record Baseboard : Type 0 where
  pub vendor : String
  pub model : String
  pub serial_number : String
  pub description : String
  pub firmware_version : String
  pub status : Option ComponentStatus

pub record Bios : Type 0 where
  pub vendor : String
  pub model : String
  pub serial_number : String
  pub firmware_version : String
  pub release_date : String
  pub status : Option ComponentStatus

pub record Product : Type 0 where
  pub name : String
  pub vendor : String
  pub model : String
  pub serial_number : String
  pub status : Option ComponentStatus

pub record BmcInfo : Type 0 where
  pub vendor : String
  pub model : String
  pub serial_number : String
  pub firmware_version : String
  pub nic : Option NetworkInterface
  pub status : Option ComponentStatus

pub record Psu : Type 0 where
  pub vendor : String
  pub model : String
  pub serial_number : String
  pub description : String
  pub firmware_version : String
  pub power_capacity_watts : ℤ
  pub status : Option ComponentStatus

pub record Tpm : Type 0 where
  pub vendor : String
  pub model : String
  pub serial_number : String
  pub interface_type : String
  pub firmware_version : String
  pub status : Option ComponentStatus

pub record StorageController : Type 0 where
  pub vendor : String
  pub model : String
  pub serial_number : String
  pub description : String
  pub firmware_version : String
  pub status : Option ComponentStatus

pub record Attributes : Type 0 where
  pub last_updated : Option ℕ
  pub collection_method : String
  pub cpu : Option Cpu
  pub memory : Option Memory
  pub block_devices : List BlockDevice
  pub network_interfaces : List NetworkInterface
  pub gpu_devices : List GpuDevice
  pub pci_devices : List PciDevice
  pub chassis : Option Chassis
  pub baseboard : Option Baseboard
  pub bios : Option Bios
  pub product : Option Product
  pub bmc : Option BmcInfo
  pub psus : List Psu
  pub tpms : List Tpm
  pub storage_controllers : List StorageController
