-- ===== src/Smee/Dhcp/Reservation/Reserved.antt =====
-- When a reservation is answered, and what the reply is made of.
use tinkerbell.Base.{String, true, false, Option, some, List, [], ◌∷◌, ◌++◌, ◌≡◌, ◌≢◌, ◌⊎◌}
use tinkerbell.Base.Equality.{string_eq}
use tinkerbell.Base.Fallible.{Result, ok}
use tinkerbell.Smee.Dhcp.{MessageType, discover, offer, request, ack, Packet, Library}
use tinkerbell.Smee.Dhcp.Info.{Info, new_info, bootfile, next_server}
use tinkerbell.Smee.Dhcp.Info.Netboot.{IsNetboot}
use tinkerbell.Smee.Dhcp.Convert.{HardwareSpec, Hardware}
use tinkerbell.Smee.Dhcp.Reservation.Options.{options}
use tinkerbell.Smee.Dhcp.Proxy.{Destination, reply_destination}
use tinkerbell.Smee.Dhcp.Reservation.{
  Handler, NetbootValues, Modifier, message_type, server_identifier, server_ip, netboot, traced,
  script_for, read_backend,
}

module _ {S : Type 0} (l : Library)
    (filter_hardware : String → S → Result String (Option HardwareSpec) × S) (h : Handler) where
  -- What is found out about the client.
  abbrev pub info_of : Packet → Hardware → Info
  info_of p hw = new_info l p h.mac_format hw.netboot.ipxe_binary h.arch_mapping

  -- The values of the network boot are the refusal.
  abbrev pub Refuses : NetbootValues → Type 0
  Refuses v =
      (v.boot_file_name ≡ "/netboot-not-allowed") × (v.server_ip ≡ some (0 ∷ 0 ∷ 0 ∷ 0 ∷ []))

  -- They are the boot file of the client, with the trace, and the server that has it.
  abbrev pub Boots : Packet → Hardware → NetbootValues → Type 0
  Boots p hw v =
      (v.boot_file_name
        ≡ bootfile l (traced h (info_of p hw)) h.user_class
            (script_for h p hw.netboot.ipxe_script_url) h.http h.tftp)
      × (v.server_ip ≡ next_server l (traced h (info_of p hw)) h.http h.tftp h.ip_addr)

  -- The hardware forbids the network boot, or there is no binary for it.
  abbrev pub Forbidden : Packet → Hardware → Type 0
  Forbidden p hw = (hw.netboot.allow_netboot ≡ false) ⊎ ((info_of p hw).ipxe_binary ≡ "")

  -- The one modifier of the network boot, for a client of it whose hardware names neither a server nor
  -- a file.
  pub record BootMods (p : Packet) (hw : Hardware) (mods : List Modifier) : Type 0 where
    pub values : NetbootValues
    pub on : h.enabled ≡ true
    pub is_netboot : IsNetboot p
    pub no_server : hw.dhcp.tftp_server_name ≡ ""
    pub no_file : hw.dhcp.boot_file_name ≡ ""
    pub mods_are : mods ≡ netboot values ∷ []
    pub values_are :
        (Forbidden p hw × Refuses values)
        ⊎ ((hw.netboot.allow_netboot ≡ true)
            × ((info_of p hw).ipxe_binary ≢ "")
            × Boots p hw values)

  -- Why a reply has no modifier of the network boot.
  abbrev pub NoBoot : Packet → Hardware → Type 0
  NoBoot p hw =
      (h.enabled ≡ false)
      ⊎ (IsNetboot p → ⊥)
      ⊎ (hw.dhcp.tftp_server_name ≢ "")
      ⊎ (hw.dhcp.boot_file_name ≢ "")

  -- What is behind a reply: the hardware of the client was found and its DHCP is not disabled; an OFFER
  -- answers a DISCOVER and an ACK a REQUEST.
  pub record IsReserved (p : Packet) (s : S) (mods : List Modifier) (to : Destination) (s' : S)
      : Type 0 where
    pub hardware : Hardware
    pub type : MessageType
    pub boot_mods : List Modifier
    pub reads : read_backend l filter_hardware h p s ≡ (ok hardware, s')
    pub enabled : hardware.dhcp.disabled ≡ false
    pub type_is :
        ((p.message_type ≡ discover) × (type ≡ offer)) ⊎ ((p.message_type ≡ request) × (type ≡ ack))
    pub mods_are :
        mods
        ≡ message_type type
          ∷ server_identifier h.ip_addr
          ∷ server_ip h.ip_addr
          ∷ (options h hardware.dhcp ++ boot_mods)
    pub sent_to : to ≡ reply_destination l p.gateway
    pub boots : ((boot_mods ≡ []) × NoBoot p hardware) ⊎ BootMods p hardware boot_mods
