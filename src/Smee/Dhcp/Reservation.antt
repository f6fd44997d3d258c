-- ===== src/Smee/Dhcp/Reservation.antt =====
-- The DHCP handler with reservations (smee/internal/dhcp/handler/reservation), from the point on where
-- the packet, the peer and the connection are not nil: which modifiers of the DHCP library it makes the
-- reply with, in their order. The last one, for the network boot, is what it sets in the reply.
pub mod Options
pub mod Reserved
use Prim.Native.String.{◌++◌ as text_append}
use tinkerbell.Base.{
  ℕ, String, Bool, true, false, not, ◌&&◌, Option, none, some, List, [], ◌∷◌, ◌++◌, if◌then◌else◌,
}
use tinkerbell.Base.Equality.{◌==◌, ◌!=◌, string_eq}
use tinkerbell.Base.Fallible.{Result, ok, err}
use tinkerbell.Smee.Dhcp.{
  Bytes, MessageType, discover, offer, request, ack, other_message, Arch, Packet, MacFormat,
  AddrPort, Library,
}
use tinkerbell.Smee.Dhcp.Info.{
  Info, has_prefix, http_client, new_info, is_netboot_client, bootfile, next_server, add_rpi_opt43,
}
use tinkerbell.Smee.Dhcp.Convert.{HardwareSpec, Hardware, Dhcp, Netboot, convert_by_mac}
use tinkerbell.Smee.Dhcp.Proxy.{Destination, reply_destination}

-- `Handler` and its `Netboot`. The trace of the context is its text and the bytes of suboption 69.
pub record Handler : Type 0 where
  pub ip_addr : Option Bytes
  pub syslog_addr : Option Bytes
  pub otel_enabled : Bool
  pub traceparent : String
  pub traceparent_bytes : Bytes
  pub tftp : AddrPort
  pub http : Option String
  pub script_url : Option (Packet → Option String)
  pub enabled : Bool
  pub user_class : String
  pub mac_format : MacFormat
  pub arch_mapping : Arch → Option String

-- What the modifier of `setNetworkBootOpts` sets.
pub record NetbootValues : Type 0 where
  pub as_http_client : Bool
  pub boot_file_name : String
  pub server_ip : Option Bytes
  pub vendor_options : Option (List (ℕ × Bytes))

pub data Modifier : Type 0 where
  message_type : MessageType → Modifier
  server_identifier server_ip your_ip : Option Bytes → Modifier
  lease_time : ℕ → Modifier
  name_servers ntp_servers : List Bytes → Modifier
  domain_search : List String → Modifier
  broadcast_address netmask router log_server : Bytes → Modifier
  domain_name host_name tftp_server_name boot_file_option boot_file_header : String → Modifier
  static_routes : List (String × Bytes) → Modifier
  netboot : NetbootValues → Modifier

pub unless_empty : {A : Type 0} → (List A → Modifier) → List A → List Modifier
unless_empty f [] = []
unless_empty f (x ∷ xs) = f (x ∷ xs) ∷ []

pub unless_zero : (Bytes → Modifier) → Option Bytes → List Modifier
unless_zero f none = []
unless_zero f (some a) = f a ∷ []

pub unless_blank : (String → Modifier) → String → List Modifier
unless_blank f t = if t == "" then [] else f t ∷ []

-- `setDHCPOpts`
unfoldable pub set_dhcp_opts : Handler → Dhcp → List Modifier
unfolding unless_empty unless_zero unless_blank
set_dhcp_opts h d =
    lease_time d.lease_time
    ∷ your_ip d.ip_address
    ∷ (unless_empty name_servers d.name_servers
        ++ (unless_empty domain_search d.domain_search
            ++ (unless_empty ntp_servers d.ntp_servers
                ++ (unless_zero broadcast_address d.broadcast_address
                    ++ (unless_blank domain_name d.domain_name
                        ++ (unless_blank host_name d.hostname
                            ++ (unless_zero netmask d.subnet_mask
                                ++ (unless_zero router d.default_gateway
                                    ++ (unless_zero log_server h.syslog_addr
                                        ++ (unless_empty static_routes d.routes
                                            ++ (unless_blank tftp_server_name d.tftp_server_name
                                                ++ (unless_blank boot_file_option d.boot_file_name
                                                    ++ unless_blank boot_file_header
                                                        d.boot_file_name))))))))))))

is_http : Packet → Bool
is_http p = elim p.class_identifier [ none ↦ false | some v ↦ has_prefix v http_client ]

-- The reply to a client that may not boot, or for which there is no binary.
not_allowed : Packet → NetbootValues
unfolding is_http
not_allowed p = record {
  as_http_client = is_http p;
  boot_file_name = "/netboot-not-allowed";
  server_ip = some (0 ∷ 0 ∷ 0 ∷ 0 ∷ []);
  vendor_options = none;
}

-- The script of the hardware goes before that of the handler.
pub script_for : Handler → Packet → Option String → Option String
script_for h p (some u) = some u
script_for h p none = elim h.script_url [ none ↦ none | some f ↦ f p ]

-- The name of the binary with the trace of the context.
pub traced : Handler → Info → Info
traced h i =
    if h.otel_enabled && h.traceparent != ""
    then record i { ipxe_binary = text_append i.ipxe_binary (text_append "-" h.traceparent) }
    else i

module _ {S : Type 0} (l : Library)
    (filter_hardware : String → S → Result String (Option HardwareSpec) × S) (h : Handler) where
  -- `bootfileAndNextServer`, in the modifier.
  allowed_values : Packet → Netboot → Info → NetbootValues
  unfolding is_http script_for traced
  allowed_values p n i = record {
    as_http_client = is_http p;
    boot_file_name =
        bootfile l (traced h i) h.user_class (script_for h p n.ipxe_script_url) h.http h.tftp;
    server_ip = next_server l (traced h i) h.http h.tftp h.ip_addr;
    vendor_options = some (add_rpi_opt43 i.mac ((6, 8 ∷ []) ∷ (69, h.traceparent_bytes) ∷ []));
  }

  -- `setNetworkBootOpts`
  unfoldable pub set_network_boot_opts : Packet → Netboot → NetbootValues
  unfolding not_allowed allowed_values
  set_network_boot_opts p n =
      let i = new_info l p h.mac_format n.ipxe_binary h.arch_mapping in
      if n.allow_netboot && i.ipxe_binary != "" then allowed_values p n i else not_allowed p

  has_none : List String → Bool
  has_none [] = true
  has_none (_ ∷ _) = false

  -- The modifier of the network boot, unless the hardware names a server or a file itself.
  netboot_mods : Packet → Hardware → List Modifier
  unfolding has_none
  netboot_mods p hw =
      if h.enabled
        && (has_none (is_netboot_client p)
            && (hw.dhcp.tftp_server_name == "" && hw.dhcp.boot_file_name == ""))
      then netboot (set_network_boot_opts p hw.netboot) ∷ []
      else []

  -- `updateMsg`
  unfoldable pub update_msg : Packet → Hardware → MessageType → List Modifier
  unfolding netboot_mods
  update_msg p hw t =
      message_type t
      ∷ server_identifier h.ip_addr
      ∷ server_ip h.ip_addr
      ∷ (set_dhcp_opts h hw.dhcp ++ netboot_mods p hw)

  converted : Packet → Result String (Option HardwareSpec) → Result String Hardware
  converted p (err e) = err e
  converted p (ok spec) = convert_by_mac l p.client_mac spec

  -- `readBackend`; each error ends the call without a reply.
  unfoldable pub read_backend : Packet → S → Result String Hardware × S
  unfolding converted
  read_backend p s =
      let looked = filter_hardware (l.mac_text p.client_mac) s in (converted p looked.0, looked.1)

  reserved :
      Packet → MessageType → Result String Hardware × S → Option (List Modifier × Destination) × S
  reserved p t (err e, s) = (none, s)
  reserved p t (ok hw, s) =
      if hw.dhcp.disabled
      then (none, s)
      else (some (update_msg p hw t, reply_destination l p.gateway), s)

  -- The switch of `Handle`.
  by_type : Packet → MessageType → S → Option (List Modifier × Destination) × S
  unfolding reserved
  by_type p discover s = reserved p offer (read_backend p s)
  by_type p request s = reserved p ack (read_backend p s)
  by_type p offer s = (none, s)
  by_type p ack s = (none, s)
  by_type p (other_message n) s = (none, s)

  -- `Handle`: the modifiers of the reply that is sent and where it goes, if any.
  unfoldable pub handle : Packet → S → Option (List Modifier × Destination) × S
  unfolding by_type
  handle p s = by_type p p.message_type s
