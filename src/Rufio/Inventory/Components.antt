-- ===== src/Rufio/Inventory/Components.antt =====
-- The components that are converted field by field (`statusFromCommon`, `biosFromCommon`,
-- `baseboardFromMainboard` and the loops of `attributesFromDevice`, rufio/internal/controller/inventory.go).
use tinkerbell.Base.{String, pos, Option, none, some}
use tinkerbell.Rufio.Inventory.Objects.{
  ComponentStatus, BlockDevice, GpuDevice, Baseboard, Bios, Psu, Tpm, StorageController,
}
use tinkerbell.Rufio.Inventory.Parts.{DeviceStatus, Common, Drive, Controller, PowerSupply, TpmPart}

abbrev pub firmware_version : Option String → String
firmware_version none = ""
firmware_version (some v) = v

abbrev pub status_of : Option DeviceStatus → Option ComponentStatus
status_of none = none
status_of (some s) =
    some (record { health = s.health; state = s.state; post_code = none; post_code_status = "" })

-- `biosFromCommon`, `baseboardFromMainboard` and the loops of `attributesFromDevice`.
abbrev pub bios_of : Common → Bios
bios_of b = record {
  vendor = b.vendor;
  model = b.model;
  serial_number = b.serial;
  firmware_version = firmware_version b.firmware;
  release_date = "";
  status = status_of b.status;
}

abbrev pub baseboard_of : Common → Baseboard
baseboard_of b = record {
  vendor = b.vendor;
  model = b.model;
  serial_number = b.serial;
  description = b.description;
  firmware_version = firmware_version b.firmware;
  status = status_of b.status;
}

abbrev pub gpu_of : Common → GpuDevice
gpu_of g = record {
  vendor = g.vendor;
  model = g.model;
  serial_number = g.serial;
  description = g.description;
  class = "";
  driver = "";
  firmware_version = firmware_version g.firmware;
  status = status_of g.status;
}

abbrev pub controller_of : Controller → StorageController
controller_of k = record {
  vendor = k.common.vendor;
  model = k.common.model;
  serial_number = k.common.serial;
  description = k.common.description;
  firmware_version = firmware_version k.common.firmware;
  status = status_of k.common.status;
}

abbrev pub psu_of : PowerSupply → Psu
psu_of p = record {
  vendor = p.common.vendor;
  model = p.common.model;
  serial_number = p.common.serial;
  description = p.common.description;
  firmware_version = firmware_version p.common.firmware;
  power_capacity_watts = p.power_capacity_watts;
  status = status_of p.common.status;
}

abbrev pub tpm_of : TpmPart → Tpm
tpm_of t = record {
  vendor = t.common.vendor;
  model = t.common.model;
  serial_number = t.common.serial;
  interface_type = t.interface_type;
  firmware_version = firmware_version t.common.firmware;
  status = status_of t.common.status;
}

abbrev pub drive_of : Drive → BlockDevice
drive_of d = record {
  name = "";
  controller_type = "";
  drive_type = d.kind;
  vendor = d.common.vendor;
  model = d.common.model;
  serial_number = d.common.serial;
  wwn = d.wwn;
  size_bytes = d.capacity_bytes;
  physical_block_size_bytes = pos 0;
  smart_status = d.smart_status;
  firmware_version = firmware_version d.common.firmware;
  status = status_of d.common.status;
}
