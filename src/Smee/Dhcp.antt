-- ===== src/Smee/Dhcp.antt =====
-- DHCP in smee (smee/internal/dhcp): what a handler reads of a packet, and the parts of the standard
-- library and of the DHCP library that it calls. Addresses are lists of bytes, `none` where Go has nil
-- or the zero value; a URL is its text.
pub mod Format
pub mod Info
pub mod Convert
pub mod Proxy
pub mod Reservation
mod Tests
use tinkerbell.Base.{ℕ, String, Bool, Option, List}
use tinkerbell.Base.Equality.{Eq, nat_eq}

abbrev pub Bytes : Type 0
Bytes = List ℕ

-- Option 53.
pub data MessageType : Type 0 where
  discover offer request ack : MessageType
  other_message : ℕ → MessageType

-- `iana.Arch`: the names that the program maps, and the other numbers.
pub data Arch : Type 0 where
  intel_x86pc nec_pc98 efi_itanium dec_alpha arc_x86 intel_lean_client : Arch
  efi_ia32 efi_x86_64 efi_xscale efi_bc efi_arm32 efi_arm64 : Arch
  efi_x86_http efi_x86_64_http efi_arm32_http efi_arm64_http intel_x86pc_http : Arch
  other_arch : ℕ → Arch

-- What is read of a packet: whether its code is BootRequest, option 53, the address of the client, the
-- options 60 (class identifier), 77 (user class), 93 (architectures) and 94, whether it is set, 97
-- (machine identifier, empty when not set), and the address of a relay agent.
pub record Packet : Type 0 where
  pub is_boot_request : Bool
  pub message_type : MessageType
  pub client_mac : Option Bytes
  pub class_identifier : Option String
  pub user_class : Option String
  pub architectures : Option (List Arch)
  pub has_network_interface : Bool
  pub machine_identifier : Bytes
  pub gateway : Option Bytes

pub data MacFormat : Type 0 where
  colon dot dash no_delimiter empty : MacFormat
  other_format : String → MacFormat

-- `netip.AddrPort`, with its text.
pub record AddrPort : Type 0 where
  pub addr : Option Bytes
  pub shown : String

-- The libraries: `mac_text` and `ip_text` are the methods String of net.HardwareAddr and net.IP,
-- `join_url` is JoinPath of a parsed URL and `tftp_url` that of a host under the scheme tftp,
-- `is_known` is whether the name of an architecture does not contain "unknown", `url_ok` and
-- `request_uri_ok` are whether a URL and a request URI are parsed.
pub record Library : Type 0 where
  pub mac_text : Option Bytes → String
  pub ip_text : Option Bytes → String
  pub join_url : String → List String → String
  pub tftp_url : String → List String → String
  pub hostname : String → String
  pub parse_ip : String → Option Bytes
  pub is_unspecified : Bytes → Bool
  pub is_known : Arch → Bool
  pub parse_mac : String → Option Bytes
  pub parse_addr : String → Option Bytes
  pub is_4 : Bytes → Bool
  pub is_4_in_6 : Bytes → Bool
  pub to_4 : Bytes → Option Bytes
  pub parse_cidr : String → Option String
  pub url_ok : String → Bool
  pub request_uri_ok : String → Bool
