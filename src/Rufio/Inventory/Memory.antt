-- ===== src/Rufio/Inventory/Memory.antt =====
-- A hardware with two drives, its machine, and a BMC that reports the drives in an order that changes.
use tinkerbell.Base.{
  ℕ, zero, suc, ℤ, pos, negsuc, String, Bool, true, false, Option, none, some, List, [], ◌∷◌, ◌≡◌,
  refl,
}
use tinkerbell.Base.Equality.{◌==◌, string_eq}
use tinkerbell.Base.Fallible.{ok}
use tinkerbell.Rufio.{Connection}
use tinkerbell.Rufio.Access.{PowerState}
use tinkerbell.Rufio.Machine.{Machine, LinkedHardware, Machines, Collector}
use tinkerbell.Rufio.Inventory.{
  refresh_inventory_annotation, reconcile_inventory, apply_out_of_band_attributes,
  apply_hardware_out_of_band,
}
use tinkerbell.Rufio.Inventory.Objects.{Attributes}
use tinkerbell.Rufio.Inventory.Parts.{Common, Drive, Device}
use tinkerbell.Rufio.Inventory.Convert.{attributes_of}
use tinkerbell.Rufio.Inventory.Sorted.{Contents, sort_device}

abbrev pub blank : Common
blank = record {
  vendor = "";
  model = "";
  product_name = "";
  serial = "";
  description = "";
  firmware = none;
  status = none;
}

abbrev pub drive : String → Drive
drive id = record {
  common = blank;
  id = id;
  wwn = "";
  capacity_bytes = pos 1000;
  kind = "SSD";
  smart_status = "ok";
}

abbrev pub device : List (Option Drive) → Device
device ds = record {
  common = blank;
  bios = none;
  bmc = none;
  mainboard = none;
  cpus = [];
  memory = [];
  nics = [];
  drives = ds;
  storage_controllers = [];
  psus = [];
  tpms = [];
  gpus = [];
}

abbrev pub drive_text : Option Drive → String
drive_text none = "<nil>"
drive_text (some d) = d.id

abbrev pub contents : Contents
contents = record {
  of_cpu = λ x. "";
  of_memory = λ x. "";
  of_nic = λ x. "";
  of_port = λ x. "";
  of_drive = drive_text;
  of_controller = λ x. "";
  of_psu = λ x. "";
  of_tpm = λ x. "";
  of_gpu = λ x. "";
}

abbrev pub two : List (Option Drive)
two = some (drive "b") ∷ some (drive "a") ∷ []

abbrev pub turned : List (Option Drive)
turned = some (drive "a") ∷ some (drive "b") ∷ []

abbrev pub hardware : LinkedHardware
hardware = record { name = "hw"; namespace = "default"; annotations = []; out_of_band = none }

abbrev pub connection : Connection
connection = record { host = "bmc"; auth_secret_ref = ("secret", "default"); rpc = none }

abbrev pub machine : List (String × String) → Machine
machine notes = record {
  name = "bmc";
  namespace = "default";
  annotations = notes;
  connection = connection;
  status = record { power = some PowerState.on; conditions = [] };
}

abbrev pub asked : List (String × String)
asked = (refresh_inventory_annotation, "true") ∷ []

-- The state counts the writes.
abbrev pub machines : Machines ℕ
machines = record {
  get_machine = λ n ns s. (ok (false, machine []), s);
  list_hardware = λ ns n s. (ok (hardware ∷ []), s);
  apply_hardware = λ n ns a s. (ok tt, suc s);
  patch_machine = λ new old s. (ok (machine []), suc s);
  patch_status = λ new old s. (ok tt, suc s);
  retry = λ f. f;
}

-- The two drives, in an order that changes with the state.
abbrev pub reported : ℕ → List (Option Drive)
reported zero = two
reported (suc n) = turned

abbrev pub collector : Collector ℕ (Unit {0})
collector = record {
  inventory = λ b s. (ok (some (device (reported s))), s);
  successful_provider = λ b s. "redfish";
}

abbrev pub number_of : ℤ → ℕ
number_of (pos n) = n
number_of (negsuc n) = 0

abbrev pub integer_of : ℤ → ℤ
integer_of n = n

-- Two attributes compare equal when they were collected by the same provider.
abbrev pub same_method : Option Attributes → Option Attributes → Bool
same_method none none = true
same_method none (some b) = false
same_method (some a) none = false
same_method (some a) (some b) = a.collection_method == b.collection_method

abbrev pub now : ℕ → ℕ
now s = 1000

abbrev pub written : LinkedHardware
written = record hardware {
  out_of_band =
      some (attributes_of number_of integer_of "redfish" 1000 (sort_device contents (device two)));
}

pub first_is_written :
    reconcile_inventory machines now contents number_of integer_of same_method collector tt hardware
      0
    ≡ (ok written, 1)
unfolding reconcile_inventory apply_out_of_band_attributes apply_hardware_out_of_band
first_is_written = refl
