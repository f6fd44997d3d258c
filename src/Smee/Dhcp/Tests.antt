-- ===== src/Smee/Dhcp/Tests.antt =====
-- The theorems about DHCP at concrete packets.
use tinkerbell.Base.{ℤ, List, ℕ, String, true, false, Option, none, some, [], ◌∷◌, ◌≡◌, ◌↔◌}
use tinkerbell.Base.Fallible.{Result, ok, err}
use tinkerbell.Smee.Dhcp.{Bytes, MessageType, Arch, Packet, MacFormat, Library}
use tinkerbell.Smee.Dhcp.Info.{is_netboot_client}
use tinkerbell.Smee.Dhcp.Info.Netboot.{IsNetboot, is_netboot_client_lem}
use tinkerbell.Smee.Dhcp.Proxy.{Handler, Reply, Destination}
use tinkerbell.Smee.Dhcp.Convert.{HardwareSpec}
use tinkerbell.Smee.Dhcp.Reservation as Reservation
use tinkerbell.Smee.Dhcp.Reservation.{Modifier, NetbootValues}

abbrev packet : Packet
packet = record {
  is_boot_request = true;
  message_type = MessageType.discover;
  client_mac = some (82 ∷ 84 ∷ 0 ∷ 0 ∷ 0 ∷ 1 ∷ []);
  class_identifier = some "PXEClient:Arch:00007:UNDI:003016";
  user_class = none;
  architectures = some (Arch.efi_x86_64 ∷ []);
  has_network_interface = true;
  machine_identifier = [];
  gateway = none;
}

is_netboot_client_lem_example : (is_netboot_client packet ≡ []) ↔ IsNetboot packet
is_netboot_client_lem_example = is_netboot_client_lem packet

abbrev library : Library
library = record {
  mac_text = λ m. "52:54:00:00:00:01";
  ip_text = λ ip. "192.0.2.1";
  join_url = λ u ps. u;
  tftp_url = λ u ps. u;
  hostname = λ u. u;
  parse_ip = λ t. none;
  is_unspecified = λ ip. false;
  is_known = λ a. true;
  parse_mac = λ t. none;
  parse_addr = λ t. none;
  is_4 = λ a. true;
  is_4_in_6 = λ a. false;
  to_4 = λ a. some a;
  parse_cidr = λ t. some t;
  url_ok = λ t. true;
  request_uri_ok = λ t. true;
}

abbrev server : Bytes
server = 192 ∷ 0 ∷ 2 ∷ 1 ∷ []

abbrev handler : Handler
handler = record {
  ip_addr = some server;
  tftp = record { addr = some server; shown = "192.0.2.1:69" };
  http = none;
  script_url = λ p. some "http://192.0.2.1/auto.ipxe";
  enabled = true;
  mac_format = MacFormat.colon;
  arch_mapping = λ a. none;
  auto_proxy_enabled = true;
}

abbrev no_hardware : String → ℕ → Result String (Option HardwareSpec) × ℕ
no_hardware mac s = (err "not found", s)

abbrev reply : Reply
reply = record {
  message_type = MessageType.offer;
  machine_identifier = [];
  vendor_options = (6, 8 ∷ []) ∷ [];
  class_identifier = "PXEClient";
  server_identifier = some server;
  server_ip = some server;
  server_host_name = "192.0.2.1";
  boot_file_name = "ipxe.efi";
  destination = Destination.direct_peer;
}

abbrev hardware_spec : HardwareSpec
hardware_spec = record {
  agent_id = "agent";
  facility_code = "";
  interfaces =
      record {
        dhcp = some (record {
          mac = "52:54:00:00:00:01";
          ip = none;
          name_servers = [];
          time_servers = [];
          hostname = "";
          domain_name = "";
          lease_time = ℤ.pos 60;
          tftp_server_name = "";
          boot_file_name = "";
          arch = "";
          vlan_id = "";
          routes = [];
        });
        disable_dhcp = false;
        netboot = some (record { allow_pxe = some false; ipxe = none });
        isoboot = none;
      }
      ∷ [];
}

abbrev with_hardware : String → ℕ → Result String (Option HardwareSpec) × ℕ
with_hardware mac s = (ok (some hardware_spec), s)

abbrev mac_library : Library
mac_library = record library { parse_mac = λ t. some (82 ∷ []) }

abbrev reservations : Reservation.Handler
reservations = record {
  ip_addr = some server;
  syslog_addr = none;
  otel_enabled = false;
  traceparent = "";
  traceparent_bytes = [];
  tftp = handler.tftp;
  http = none;
  script_url = none;
  enabled = true;
  user_class = "";
  mac_format = MacFormat.colon;
  arch_mapping = λ a. none;
}

abbrev offered : List Modifier
offered =
    Modifier.message_type MessageType.offer
    ∷ Modifier.server_identifier (some server)
    ∷ Modifier.server_ip (some server)
    ∷ Modifier.lease_time 60
    ∷ Modifier.your_ip none
    ∷ Modifier.netboot (record {
      as_http_client = false;
      boot_file_name = "/netboot-not-allowed";
      server_ip = some (0 ∷ 0 ∷ 0 ∷ 0 ∷ []);
      vendor_options = none;
    })
    ∷ []
