-- ===== src/Attributes/ToProto.antt =====
-- `ToProto` (tink/agent/internal/transport/grpc/attributes.go). A nil among the elements of a list is
-- followed, which panics: the result is then `none`.
use tinkerbell.Base.{Option, none, some, List, [], ◌∷◌}
use mathlib.Core.Option
use tinkerbell.Attributes.Gathered
use tinkerbell.Attributes.Message

abbrev pub processor_to_proto : Gathered.Processor → Message.Processor
processor_to_proto x = record {
  id = x.id;
  cores = x.cores;
  threads = x.threads;
  vendor = x.vendor;
  model = x.model;
  capabilities = x.capabilities;
}

abbrev pub memory_to_proto : Gathered.Memory → Message.Memory
memory_to_proto x = record { total = x.total; usable = x.usable }

abbrev pub block_to_proto : Gathered.Block → Message.Block
block_to_proto x = record {
  name = x.name;
  controller_type = x.controller_type;
  drive_type = x.drive_type;
  size = x.size;
  physical_block_size = x.physical_block_size;
  vendor = x.vendor;
  model = x.model;
  wwn = x.wwn;
  serial_number = x.serial_number;
}

abbrev pub network_to_proto : Gathered.Network → Message.Network
network_to_proto x = record {
  name = x.name;
  mac = x.mac;
  speed = x.speed;
  enabled_capabilities = x.enabled_capabilities;
}

abbrev pub pci_to_proto : Gathered.Pci → Message.Pci
pci_to_proto x = record {
  vendor = x.vendor;
  product = x.product;
  class = x.class;
  driver = x.driver;
}

abbrev pub gpu_to_proto : Gathered.Gpu → Message.Gpu
gpu_to_proto x = record {
  vendor = x.vendor;
  product = x.product;
  class = x.class;
  driver = x.driver;
}

abbrev pub chassis_to_proto : Gathered.Chassis → Message.Chassis
chassis_to_proto x = record { serial = x.serial; vendor = x.vendor }

abbrev pub bios_to_proto : Gathered.Bios → Message.Bios
bios_to_proto x = record { vendor = x.vendor; version = x.version; release_date = x.release_date }

abbrev pub baseboard_to_proto : Gathered.Baseboard → Message.Baseboard
baseboard_to_proto x = record {
  vendor = x.vendor;
  product = x.product;
  version = x.version;
  serial_number = x.serial_number;
}

abbrev pub product_to_proto : Gathered.Product → Message.Product
product_to_proto x = record { name = x.name; vendor = x.vendor; serial_number = x.serial_number }

unfoldable pub push : {B : Type 0} → B → Option (List B) → Option (List B)
push y none = none
push y (some ys) = some (y ∷ ys)

-- A loop that appends what it makes of each element.
unfoldable pub each : {A B : Type 0} → (A → B) → List (Option A) → Option (List B)
unfolding push
each f [] = some []
each f (none ∷ xs) = none
each f (some x ∷ xs) = push (f x) (each f xs)

unfoldable pub with_processors :
    Gathered.Cpu → Option (List Message.Processor) → Option (Option Message.Cpu)
with_processors c none = none
with_processors c (some ps) = some (
    some (record { total_cores = c.total_cores; total_threads = c.total_threads; processors = ps }))

unfoldable pub cpu_to_proto : Option Gathered.Cpu → Option (Option Message.Cpu)
unfolding with_processors
cpu_to_proto none = some none
cpu_to_proto (some c) = with_processors c (each processor_to_proto c.processors)

-- The message, of the parts that may panic and of the rest.
abbrev pub assembled :
    Gathered.AgentAttributes
    → Option Message.Cpu
    → List Message.Block
    → List Message.Network
    → List Message.Pci
    → List Message.Gpu
    → Message.AgentAttributes
assembled a cpu block network pci gpu = record {
  cpu = cpu;
  memory = Option.map memory_to_proto a.memory;
  block = block;
  network = network;
  pci = pci;
  gpu = gpu;
  chassis = Option.map chassis_to_proto a.chassis;
  bios = Option.map bios_to_proto a.bios;
  baseboard = Option.map baseboard_to_proto a.baseboard;
  product = Option.map product_to_proto a.product;
}

infixl 5 ◌>>=◌
abbrev pub ◌>>=◌ : {A B : Type 0} → Option A → (A → Option B) → Option B
none >>= f = none
some x >>= f = f x

-- `ToProto` of attributes that are not nil.
unfoldable pub attributes_to_proto : Gathered.AgentAttributes → Option Message.AgentAttributes
attributes_to_proto a = do
  cpu ← cpu_to_proto a.cpu
  block ← each block_to_proto a.block_devices
  network ← each network_to_proto a.network_interfaces
  pci ← each pci_to_proto a.pci_devices
  gpu ← each gpu_to_proto a.gpu_devices
  some (assembled a cpu block network pci gpu)

-- `ToProto`
unfoldable pub to_proto : Option Gathered.AgentAttributes → Option (Option Message.AgentAttributes)
to_proto none = some none
to_proto (some a) = Option.map (λ m. some m) (attributes_to_proto a)
