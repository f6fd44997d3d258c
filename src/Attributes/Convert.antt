-- ===== src/Attributes/Convert.antt =====
-- `convert` (tink/server/internal/grpc/proto.go): parts that a message does not have are there, empty.
use tinkerbell.Base.{Option, none, some, [], map}
use mathlib.Core.Option
use tinkerbell.Attributes.Gathered
use tinkerbell.Attributes.Message

abbrev pub processor_of_proto : Message.Processor → Gathered.Processor
processor_of_proto x = record {
  id = x.id;
  cores = x.cores;
  threads = x.threads;
  vendor = x.vendor;
  model = x.model;
  capabilities = x.capabilities;
}

abbrev pub memory_of_proto : Message.Memory → Gathered.Memory
memory_of_proto x = record { total = x.total; usable = x.usable }

abbrev pub block_of_proto : Message.Block → Gathered.Block
block_of_proto x = record {
  name = x.name;
  controller_type = x.controller_type;
  drive_type = x.drive_type;
  size = x.size;
  physical_block_size = x.physical_block_size;
  vendor = x.vendor;
  model = x.model;
  wwn = x.wwn;
  serial_number = x.serial_number;
}

abbrev pub network_of_proto : Message.Network → Gathered.Network
network_of_proto x = record {
  name = x.name;
  mac = x.mac;
  speed = x.speed;
  enabled_capabilities = x.enabled_capabilities;
}

abbrev pub pci_of_proto : Message.Pci → Gathered.Pci
pci_of_proto x = record {
  vendor = x.vendor;
  product = x.product;
  class = x.class;
  driver = x.driver;
}

abbrev pub gpu_of_proto : Message.Gpu → Gathered.Gpu
gpu_of_proto x = record {
  vendor = x.vendor;
  product = x.product;
  class = x.class;
  driver = x.driver;
}

abbrev pub chassis_of_proto : Message.Chassis → Gathered.Chassis
chassis_of_proto x = record { serial = x.serial; vendor = x.vendor }

abbrev pub bios_of_proto : Message.Bios → Gathered.Bios
bios_of_proto x = record { vendor = x.vendor; version = x.version; release_date = x.release_date }

abbrev pub baseboard_of_proto : Message.Baseboard → Gathered.Baseboard
baseboard_of_proto x = record {
  vendor = x.vendor;
  product = x.product;
  version = x.version;
  serial_number = x.serial_number;
}

abbrev pub product_of_proto : Message.Product → Gathered.Product
product_of_proto x = record { name = x.name; vendor = x.vendor; serial_number = x.serial_number }

abbrev pub empty_memory : Gathered.Memory
empty_memory = record { total = none; usable = none }

abbrev pub empty_chassis : Gathered.Chassis
empty_chassis = record { serial = none; vendor = none }

abbrev pub empty_bios : Gathered.Bios
empty_bios = record { vendor = none; version = none; release_date = none }

abbrev pub empty_baseboard : Gathered.Baseboard
empty_baseboard = record { vendor = none; product = none; version = none; serial_number = none }

abbrev pub empty_product : Gathered.Product
empty_product = record { name = none; vendor = none; serial_number = none }

abbrev pub empty_cpu : Gathered.Cpu
empty_cpu = record { total_cores = none; total_threads = none; processors = [] }

-- `NewAgentAttributes`
abbrev pub new_agent_attributes : Gathered.AgentAttributes
new_agent_attributes = record {
  cpu = some empty_cpu;
  memory = some empty_memory;
  block_devices = [];
  network_interfaces = [];
  pci_devices = [];
  gpu_devices = [];
  chassis = some empty_chassis;
  bios = some empty_bios;
  baseboard = some empty_baseboard;
  product = some empty_product;
}

abbrev pub cpu_of_proto : Message.Cpu → Gathered.Cpu
cpu_of_proto c = record {
  total_cores = c.total_cores;
  total_threads = c.total_threads;
  processors = map (λ p. some (processor_of_proto p)) c.processors;
}

-- A part that is not nil is converted; otherwise the one of the new attributes stays.
abbrev pub unless_nil : {A B : Type 0} → (A → B) → Option B → Option A → Option B
unless_nil f old none = old
unless_nil f old (some x) = some (f x)

unfoldable pub attributes_of_proto : Message.AgentAttributes → Gathered.AgentAttributes
attributes_of_proto m =
    let new = new_agent_attributes in
    record {
      cpu = unless_nil cpu_of_proto new.cpu m.cpu;
      memory = unless_nil memory_of_proto new.memory m.memory;
      block_devices = map (λ b. some (block_of_proto b)) m.block;
      network_interfaces = map (λ n. some (network_of_proto n)) m.network;
      pci_devices = map (λ p. some (pci_of_proto p)) m.pci;
      gpu_devices = map (λ g. some (gpu_of_proto g)) m.gpu;
      chassis = unless_nil chassis_of_proto new.chassis m.chassis;
      bios = unless_nil bios_of_proto new.bios m.bios;
      baseboard = unless_nil baseboard_of_proto new.baseboard m.baseboard;
      product = unless_nil product_of_proto new.product m.product;
    }

-- `convert`
unfoldable pub convert : Option Message.AgentAttributes → Option Gathered.AgentAttributes
convert m = Option.map attributes_of_proto m
