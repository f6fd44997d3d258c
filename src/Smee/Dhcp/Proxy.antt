-- ===== src/Smee/Dhcp/Proxy.antt =====
-- The proxyDHCP handler (smee/internal/dhcp/handler/proxy/proxy.go): what it sends in answer to a
-- packet, from the point on where the packet, the peer and the connection are not nil. Of the reply
-- the fields are here that the handler sets itself, over those of the DHCP library.
pub mod Answered
use Prim.Native.String.{◌++◌ as text_append}
use tinkerbell.Base.{
  ℕ, String, Bool, true, false, not, ◌&&◌, Option, none, some, List, [], ◌∷◌, if◌then◌else◌,
}
use tinkerbell.Base.Equality.{◌==◌, ◌!=◌, string_eq}
use tinkerbell.Base.Fallible.{Result, ok, err}
use tinkerbell.Smee.Dhcp.{
  Bytes, MessageType, discover, offer, request, ack, other_message, Arch, Packet, MacFormat,
  AddrPort, Library,
}
use tinkerbell.Smee.Dhcp.Info.{
  Info, new_info, client_type_from, bootfile, next_server, add_rpi_opt43,
}
use tinkerbell.Smee.Dhcp.Convert.{HardwareSpec, Hardware, Netboot, convert_by_mac}

-- The configuration: `Handler` and its `Netboot`; `script_url` is never nil.
pub record Handler : Type 0 where
  pub ip_addr : Option Bytes
  pub tftp : AddrPort
  pub http : Option String
  pub script_url : Packet → Option String
  pub enabled : Bool
  pub mac_format : MacFormat
  pub arch_mapping : Arch → Option String
  pub auto_proxy_enabled : Bool

-- Where a reply goes: port 67 of the relay agent, or the peer that the packet came from.
pub data Destination : Type 0 where
  relay : Bytes → Destination
  direct_peer : Destination

pub record Reply : Type 0 where
  pub message_type : MessageType
  pub machine_identifier : Bytes
  pub vendor_options : List (ℕ × Bytes)
  pub class_identifier : String
  pub server_identifier : Option Bytes
  pub server_ip : Option Bytes
  pub server_host_name : String
  pub boot_file_name : String
  pub destination : Destination

-- `setMessageType`
unfoldable pub reply_type : MessageType → Option MessageType
reply_type discover = some offer
reply_type request = some ack
reply_type offer = none
reply_type ack = none
reply_type (other_message n) = none

-- `replyDestination`
unfoldable pub reply_destination : Library → Option Bytes → Destination
reply_destination l none = direct_peer
reply_destination l (some giaddr) = if l.is_unspecified giaddr then direct_peer else relay giaddr

module _ {S : Type 0} (l : Library)
    (filter_hardware : String → S → Result String (Option HardwareSpec) × S) (h : Handler) where
  -- The hardware by the error of the backend or of the conversion: without the automatic proxy an
  -- error ends the call, with it the defaults are used.
  unless_auto : Option (Option Hardware)
  unless_auto = if h.auto_proxy_enabled then some none else none

  found_of : Result String Hardware → Option (Option Hardware)
  unfolding unless_auto
  found_of (err e) = unless_auto
  found_of (ok hw) = some (some hw)

  found : Packet → Result String (Option HardwareSpec) → Option (Option Hardware)
  unfolding found_of unless_auto
  found p (err e) = unless_auto
  found p (ok spec) = found_of (convert_by_mac l p.client_mac spec)

  -- The binary of the hardware goes before that of the architecture.
  pub with_binary : Option Hardware → Info → Info
  with_binary none i = i
  with_binary (some hw) i =
      if hw.netboot.ipxe_binary != "" then record i { ipxe_binary = hw.netboot.ipxe_binary } else i

  is_refused : Option Hardware → Bool
  is_refused none = false
  is_refused (some hw) = not hw.netboot.allow_netboot

  file_for : Packet → Option Hardware → Info → String
  unfolding with_binary is_refused
  file_for p hw i =
      if is_refused hw
      then text_append "/" (text_append (l.mac_text p.client_mac) "/netboot-not-allowed")
      else bootfile l (with_binary hw i) "" (h.script_url p) h.http h.tftp

  reply_with : Packet → MessageType → Info → Option Hardware → Reply
  unfolding file_for
  reply_with p t i hw =
      let ns = next_server l i h.http h.tftp h.ip_addr in
      record {
        message_type = t;
        machine_identifier = p.machine_identifier;
        vendor_options = add_rpi_opt43 i.mac ((6, 8 ∷ []) ∷ []);
        class_identifier = client_type_from p;
        server_identifier = ns;
        server_ip = ns;
        server_host_name = l.ip_text ns;
        boot_file_name = file_for p hw i;
        destination = reply_destination l p.gateway;
      }

  answer_with : Packet → MessageType → Info → S → Option (Option Hardware) → Option Reply × S
  unfolding reply_with
  answer_with p t i s none = (none, s)
  answer_with p t i s (some hw) = (some (reply_with p t i hw), s)

  answer : Packet → MessageType → Info → Result String (Option HardwareSpec) × S → Option Reply × S
  unfolding found answer_with
  answer p t i (r, s) = answer_with p t i s (found p r)

  is_ok : List String → Bool
  is_ok [] = true
  is_ok (_ ∷ _) = false

  with_info : Packet → MessageType → Info → S → Option Reply × S
  unfolding answer is_ok
  with_info p t i s =
      if h.enabled && (is_ok i.complaints && i.ipxe_binary != "")
      then answer p t i (filter_hardware (l.mac_text p.client_mac) s)
      else (none, s)

  typed : Packet → Option MessageType → S → Option Reply × S
  unfolding with_info
  typed p none s = (none, s)
  typed p (some t) s = with_info p t (new_info l p h.mac_format "" h.arch_mapping) s

  -- `Handle`: the reply that is sent, if any.
  unfoldable pub handle : Packet → S → Option Reply × S
  unfolding typed
  handle p s = if p.is_boot_request then typed p (reply_type p.message_type) s else (none, s)
