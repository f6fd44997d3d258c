-- ===== src/Attributes/Tests.antt =====
-- The attributes of one agent, sent and read.
use tinkerbell.Base.{none, some, [], ◌∷◌, ◌≡◌, ◌≢◌}
use tinkerbell.Attributes.Gathered
use tinkerbell.Attributes.Message
use tinkerbell.Attributes.ToProto.{to_proto}
use tinkerbell.Attributes.Convert.{convert}
use tinkerbell.Attributes.Exchange.{filled, convert-to_proto}

abbrev disk : Gathered.Block
disk = record {
  name = some "sda";
  controller_type = none;
  drive_type = some "SSD";
  size = some "1TB";
  physical_block_size = none;
  vendor = none;
  model = none;
  wwn = none;
  serial_number = some "1";
}

abbrev attributes : Gathered.AgentAttributes
attributes = record {
  cpu = none;
  memory = none;
  block_devices = some disk ∷ [];
  network_interfaces = [];
  pci_devices = [];
  gpu_devices = [];
  chassis = none;
  bios = none;
  baseboard = none;
  product = some (record { name = some "server"; vendor = none; serial_number = none });
}

disk_is_there : some disk ≢ none
disk_is_there h = cc

convert-to_proto_example :
    (m : Message.AgentAttributes) × (to_proto (some attributes) ≡ some (some m))
    × (convert (some m) ≡ some (filled attributes))
convert-to_proto_example =
    convert-to_proto attributes
      (record { cpu = tt; block = (disk_is_there, tt); network = tt; pci = tt; gpu = tt })
