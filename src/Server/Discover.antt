-- ===== src/Server/Discover.antt =====
-- `Discover` and `updateHardware` (tink/server/internal/grpc/discovery.go).
pub mod Described
pub mod Listed
pub mod Found
use Prim.Native.String.{len, ◌++◌ as text_append}
use tinkerbell.Base.{
  String, Bool, true, false, Option, none, some, List, [], ◌∷◌, ◌++◌, if◌then◌else◌, ltb,
}
use tinkerbell.Base.Equality.{◌==◌, string_eq}
use tinkerbell.Base.Fallible.{Result, ok, err, Exec}
use tinkerbell.Api.{Hardware, Interface}
use tinkerbell.Server.{
  ErrorKind, missing, multiple, already_exists, unexpected, BackendError, Stop, stopped, crashed,
  Backend, Block, Network, Attributes, AutoCapabilities,
}
use tinkerbell.Server.Annotate.{annotate, max_annotation_size}
use tinkerbell.Server.Names.{make_valid_name}

abbrev pub discovery_prefix : String
discovery_prefix = "discovery-"

-- A pointer to a text that is not nil and not empty.
abbrev pub shown : Option String → Option String
shown none = none
shown (some t) = if t == "" then none else some t

-- `*disk.Name` is read with no test for nil.
device : Option String → Result Stop String
device none = err crashed
device (some n) = ok (text_append "/dev/" n)

push_disk : Result Stop String → Result Stop (List String) → Result Stop (List String)
push_disk (err e) _ = err e
push_disk (ok d) (err e) = err e
push_disk (ok d) (ok ds) = ok (d ∷ ds)

add_sized : Option String → Option String → Result Stop (List String) → Result Stop (List String)
unfolding device push_disk
add_sized none name rest = rest
add_sized (some size) name rest = push_disk (device name) rest

add_disk : Option Block → Result Stop (List String) → Result Stop (List String)
unfolding add_sized
add_disk none rest = rest
add_disk (some b) rest = add_sized (shown b.size) b.name rest

-- The disks that the block devices add.
unfoldable pub new_disks : List (Option Block) → Result Stop (List String)
unfolding add_disk
new_disks [] = ok []
new_disks (b ∷ bs) = add_disk b (new_disks bs)

abbrev pub with_mac : String → Interface
with_mac m = record { dhcp = some (record { mac = m; uefi = false }); netboot = none }

add_mac : (String → Bool) → Option String → List Interface → List Interface
add_mac is_mac none rest = rest
add_mac is_mac (some m) rest = if is_mac m then with_mac m ∷ rest else rest

add_interface : (String → Bool) → Option Network → List Interface → List Interface
unfolding add_mac
add_interface is_mac none rest = rest
add_interface is_mac (some n) rest = add_mac is_mac (shown n.mac) rest

-- The interfaces that the network interfaces add: those with a valid MAC address.
unfoldable pub new_interfaces : (String → Bool) → List (Option Network) → List Interface
unfolding add_interface
new_interfaces is_mac [] = []
new_interfaces is_mac (n ∷ ns) = add_interface is_mac n (new_interfaces is_mac ns)

add_all : (String → Bool) → Hardware → Attributes → Result Stop (List String) → Result Stop Hardware
add_all is_mac hw attrs (err e) = err e
add_all is_mac hw attrs (ok ds) = ok (record hw {
  disks = hw.disks ++ ds;
  interfaces = hw.interfaces ++ new_interfaces is_mac attrs.network_interfaces;
})

-- `updateHardware`
unfoldable pub update_hardware :
    (String → Bool) → Hardware → Option Attributes → Result Stop Hardware
unfolding add_all
update_hardware is_mac hw none = ok hw
update_hardware is_mac hw (some attrs) = add_all is_mac hw attrs (new_disks attrs.block_devices)

-- The object before the attributes are added.
unfoldable pub new_hardware : String → String → String → Bool → Hardware
new_hardware name namespace agent enrollment = record {
  name = name;
  namespace = namespace;
  annotations = [];
  labels = ("tinkerbell.org/auto-discovered", "true") ∷ [];
  agent_id = agent;
  enrollment_enabled = enrollment;
  bmc_ref = none;
  interfaces = [];
  disks = [];
  references = [];
}

-- The annotation of the attributes, unless it is too large.
unfoldable pub annotate_new : Hardware → Option Attributes → Hardware
annotate_new hw none = hw
annotate_new hw (some attrs) = elim attrs.encoded [
  | err _ ↦ hw
  | ok text ↦ if ltb max_annotation_size (len text) then hw else annotate hw text
]

abbrev stop_with : ErrorKind → String → Stop
stop_with k t = stopped (record { kind = k; text = t })

not_made : String → Stop
not_made e =
    stop_with unexpected (text_append "failed to make discovery ID a valid Kubernetes name: " e)

not_found_out : BackendError → Stop
not_found_out e =
    stop_with e.kind (text_append "failed to check for existing hardware object: " e.text)

more_than_one : BackendError → Stop
more_than_one e =
    stop_with multiple (text_append "multiple hardware objects found for agent ID: " e.text)

not_created : BackendError → Stop
not_created e = stop_with e.kind (text_append "failed to create hardware object: " e.text)

module _ {S : Type 0} (b : Backend S) (auto : AutoCapabilities) (agent : String)
    (attrs : Option Attributes) where
  -- The flag of the answer is set in memory alone.
  created : Hardware → Result BackendError (Unit {0}) × S → Result Stop Hardware × S
  unfolding not_created
  created hw (ok _, s) = (ok (record hw { enrollment_enabled = true }), s)
  created hw (err e, s) = (err (not_created e), s)

  create : Result Stop Hardware → Exec S Stop Hardware
  unfolding created
  create (err e) s = (err e, s)
  create (ok hw) s = created hw (b.create_hardware hw s)

  -- The object with everything that is known of the agent.
  unfoldable pub described : String → Result Stop Hardware
  described name =
      update_hardware b.is_mac
        (annotate_new
          (new_hardware name auto.discovery_namespace agent auto.discovery_enrollment_enabled)
          attrs)
        attrs

  -- The tests of the error of the look-up, in their order.
  not_there : String → ErrorKind → BackendError → Exec S Stop Hardware
  unfolding more_than_one not_found_out create
  not_there name multiple e s = (err (more_than_one e), s)
  not_there name missing e s = create (described name) s
  not_there name already_exists e s = (err (not_found_out e), s)
  not_there name unexpected e s = (err (not_found_out e), s)

  looked_for : String → Result BackendError Hardware × S → Result Stop Hardware × S
  unfolding not_there
  looked_for name (ok hw, s) = (ok hw, s)
  looked_for name (err e, s) = not_there name e.kind e s

  discover_named : Result String String → Exec S Stop Hardware
  unfolding not_made looked_for
  discover_named (err e) s = (err (not_made e), s)
  discover_named (ok name) s = looked_for name (b.filter_hardware agent "" s)

  unfoldable pub discover : Exec S Stop Hardware
  unfolding discover_named
  discover s = discover_named (make_valid_name agent discovery_prefix) s
