-- ===== src/Smee/Dhcp/Proxy/Answered.antt =====
-- When the proxy answers, and with what.
use Prim.Native.String.{◌++◌ as text_append}
use tinkerbell.Base.{String, true, false, Option, none, some, ◌≡◌, ◌≢◌, ◌⊎◌}
use tinkerbell.Base.Equality.{string_eq}
use tinkerbell.Base.Fallible.{Result, ok}
use tinkerbell.Smee.Dhcp.{discover, offer, request, ack, Packet, Library}
use tinkerbell.Smee.Dhcp.Info.{Info, new_info, bootfile}
use tinkerbell.Smee.Dhcp.Info.Netboot.{IsNetboot}
use tinkerbell.Smee.Dhcp.Convert.{HardwareSpec, Hardware, convert_by_mac}
use tinkerbell.Smee.Dhcp.Proxy.{Handler, Reply, reply_destination, with_binary}

-- There is no hardware, or it allows the network boot.
abbrev pub IsPermitted : Option Hardware → Type 0
IsPermitted o = (o ≡ none) ⊎ ((hw : Hardware) × (o ≡ some hw) × (hw.netboot.allow_netboot ≡ true))

module _ {S : Type 0} (l : Library)
    (filter_hardware : String → S → Result String (Option HardwareSpec) × S) (h : Handler) where
  -- What a reply is that was sent: network boot is on, the packet is a request of a client of the
  -- network boot, an OFFER answers a DISCOVER and an ACK a REQUEST, it goes where replies go, and there
  -- is a binary for the client. The hardware of the client was found, or the automatic proxy is on;
  -- the file is the one that refuses the network boot when the hardware does not allow it, and
  -- otherwise the boot file of the client.
  pub record IsAnswer (p : Packet) (s : S) (r : Reply) (s' : S) : Type 0 where
    pub found_hardware : Option Hardware
    pub looked_up : Result String (Option HardwareSpec)
    pub on : h.enabled ≡ true
    pub boots : p.is_boot_request ≡ true
    pub is_netboot : IsNetboot p
    pub type_is :
        ((p.message_type ≡ discover) × (r.message_type ≡ offer))
        ⊎ ((p.message_type ≡ request) × (r.message_type ≡ ack))
    pub sent_to : r.destination ≡ reply_destination l p.gateway
    pub has_binary : (new_info l p h.mac_format "" h.arch_mapping).ipxe_binary ≢ ""
    pub looks : filter_hardware (l.mac_text p.client_mac) s ≡ (looked_up, s')
    pub known :
        ((hw : Hardware) × (spec : Option HardwareSpec) × (found_hardware ≡ some hw)
          × (looked_up ≡ ok spec)
          × (convert_by_mac l p.client_mac spec ≡ ok hw))
        ⊎ ((found_hardware ≡ none) × (h.auto_proxy_enabled ≡ true))
    pub file_is :
        ((hw : Hardware) × (found_hardware ≡ some hw)
          × (hw.netboot.allow_netboot ≡ false)
          × (r.boot_file_name
              ≡ text_append "/" (text_append (l.mac_text p.client_mac) "/netboot-not-allowed")))
        ⊎ (IsPermitted found_hardware
            × (r.boot_file_name
                ≡ bootfile l
                    (with_binary l filter_hardware h found_hardware
                      (new_info l p h.mac_format "" h.arch_mapping))
                    ""
                    (h.script_url p)
                    h.http
                    h.tftp))

  Known : Packet → Result String (Option HardwareSpec) → Option Hardware → Type 0
  Known p r o =
      ((hw : Hardware) × (spec : Option HardwareSpec) × (o ≡ some hw)
        × (r ≡ ok spec)
        × (convert_by_mac l p.client_mac spec ≡ ok hw))
      ⊎ ((o ≡ none) × (h.auto_proxy_enabled ≡ true))

  FileIs : Packet → Option Hardware → Info → String → Type 0
  FileIs p o i f =
      ((hw : Hardware) × (o ≡ some hw)
        × (hw.netboot.allow_netboot ≡ false)
        × (f ≡ text_append "/" (text_append (l.mac_text p.client_mac) "/netboot-not-allowed")))
      ⊎ (IsPermitted o
          × (f
              ≡ bootfile l (with_binary l filter_hardware h o i) "" (h.script_url p) h.http h.tftp))
