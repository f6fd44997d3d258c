-- ===== src/Rufio/Inventory/Convert.antt =====
-- `attributesFromDevice` and its helpers (rufio/internal/controller/inventory.go).
use tinkerbell.Base.{
  ℕ, suc, ◌/◌, ℤ, pos, negsuc, ◌-◌, String, Bool, true, false, Option, none, some, List, [], ◌∷◌,
  if◌then◌else◌, ◌&&◌, ltb,
}
use tinkerbell.Base.Equality.{◌==◌, string_eq}
use tinkerbell.Rufio.Inventory.Objects.{
  ComponentStatus, CpuSocket, Cpu, MemoryModule, Memory, NetworkPort, NetworkInterface, Product,
  BmcInfo, Attributes,
}
use mathlib.Core.Option
use tinkerbell.Rufio.Inventory.Components.{
  firmware_version, status_of, bios_of, baseboard_of, gpu_of, controller_of, psu_of, tpm_of,
  drive_of,
}
use tinkerbell.Rufio.Inventory.Parts.{
  DeviceStatus, Common, CpuPart, MemoryPart, NicPort, Nic, BmcPart, Device,
}

-- Go's division by a million, which rounds towards zero.
abbrev pub per_million : ℤ → ℤ
per_million (pos n) = pos (n / 1000000)
per_million (negsuc n) = if ltb (suc n) 1000000 then pos 0 else negsuc (suc n / 1000000 - 1)

-- `cmp.Or`: the first text that is not empty.
abbrev pub first_of : List String → String
first_of [] = ""
first_of (t ∷ ts) = if t == "" then first_of ts else t

-- The loops over a list with nil in it.
unfoldable pub converted : {A B : Type 0} → (A → B) → List (Option A) → List B
converted f [] = []
converted f (none ∷ xs) = converted f xs
converted f (some x ∷ xs) = f x ∷ converted f xs

abbrev pub cpu_of : List CpuSocket → Option Cpu
cpu_of [] = none
cpu_of (x ∷ xs) = some (record { total_cores = 0; total_threads = 0; sockets = x ∷ xs })

abbrev pub memory_of : List MemoryModule → Option Memory
memory_of [] = none
memory_of (x ∷ xs) = some (record { total_bytes = pos 0; usable_bytes = pos 0; modules = x ∷ xs })

-- The conversions of the library go-safecast, with the error left out.
module _ (to_uint32 : ℤ → ℕ) (to_int32 : ℤ → ℤ) where
  abbrev pub post_status : Option DeviceStatus → Option ComponentStatus
  post_status none = none
  post_status (some s) =
      if s.post_code_status == ""
      then status_of (some s)
      else some (record {
        health = s.health;
        state = s.state;
        post_code = some (to_int32 s.post_code);
        post_code_status = s.post_code_status;
      })

  abbrev pub is_absent : Option ComponentStatus → Bool
  is_absent none = true
  is_absent (some s) = false

  unfoldable pub product_of : Common → Option Product
  product_of c =
      let status : Option ComponentStatus = post_status c.status in
      if c.vendor == ""
        && c.model == ""
        && c.product_name == ""
        && c.serial == ""
        && is_absent status
      then none
      else some (record {
        name = c.product_name;
        vendor = c.vendor;
        model = c.model;
        serial_number = c.serial;
        status = status;
      })

  abbrev pub port_of : NicPort → NetworkPort
  port_of p = record {
    port_id = first_of (p.physical_id ∷ p.id ∷ []);
    mac = p.mac_address;
    speed_mbps = to_uint32 (per_million p.speed_bits);
    mtu = to_uint32 p.mtu_size;
    link_status = p.link_status;
    enabled_capabilities = [];
  }

  abbrev pub nic_of : Nic → NetworkInterface
  nic_of n = record {
    name = "";
    vendor = n.common.vendor;
    model = n.common.model;
    serial_number = n.common.serial;
    firmware_version = firmware_version n.common.firmware;
    ports = converted port_of n.nic_ports;
  }

  abbrev pub bmc_of : BmcPart → BmcInfo
  bmc_of b = record {
    vendor = b.common.vendor;
    model = b.common.model;
    serial_number = b.common.serial;
    firmware_version = firmware_version b.common.firmware;
    nic = Option.map nic_of b.nic;
    status = status_of b.common.status;
  }

  abbrev pub socket_of : CpuPart → CpuSocket
  socket_of c = record {
    slot = c.slot;
    vendor = c.common.vendor;
    model = c.common.model;
    cores = to_uint32 c.cores;
    threads = to_uint32 c.threads;
    clock_speed_mhz = to_uint32 (per_million c.clock_speed_hz);
    serial_number = c.common.serial;
    capabilities = [];
    firmware_version = firmware_version c.common.firmware;
  }

  abbrev pub module_of : MemoryPart → MemoryModule
  module_of m = record {
    slot = m.slot;
    vendor = m.common.vendor;
    model = m.common.model;
    serial_number = m.common.serial;
    part_number = m.part_number;
    size_bytes = m.size_bytes;
    speed_mhz = to_uint32 (per_million m.clock_speed_hz);
    form_factor = m.form_factor;
    firmware_version = firmware_version m.common.firmware;
  }

  -- `attributesFromDevice` of a device that is not nil.
  unfoldable pub attributes_of : String → ℕ → Device → Attributes
  attributes_of method now d = record {
    last_updated = some now;
    collection_method = method;
    cpu = cpu_of (converted socket_of d.cpus);
    memory = memory_of (converted module_of d.memory);
    block_devices = converted drive_of d.drives;
    network_interfaces = converted nic_of d.nics;
    gpu_devices = converted gpu_of d.gpus;
    pci_devices = [];
    chassis = none;
    baseboard = Option.map baseboard_of d.mainboard;
    bios = Option.map bios_of d.bios;
    product = product_of d.common;
    bmc = Option.map bmc_of d.bmc;
    psus = converted psu_of d.psus;
    tpms = converted tpm_of d.tpms;
    storage_controllers = converted controller_of d.storage_controllers;
  }

  -- `attributesFromDevice`
  abbrev pub attributes_from_device : String → ℕ → Option Device → Option Attributes
  attributes_from_device method now d = Option.map (attributes_of method now) d
