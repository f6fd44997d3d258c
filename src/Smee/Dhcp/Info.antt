-- ===== src/Smee/Dhcp/Info.antt =====
-- What a handler finds out about a client (smee/internal/dhcp/dhcp.go).
pub mod Netboot
use Prim.Native.Char.{Char, code}
use Prim.Native.String
use tinkerbell.Base.{
  ℕ, ◌+◌, String, Bool, true, false, not, ◌&&◌, ◌||◌, Option, none, some, List, [], ◌∷◌, ◌++◌,
  length, eqb, find, any, map, if◌then◌else◌,
}
use tinkerbell.Base.Equality.{◌==◌, ◌!=◌, string_eq}
use tinkerbell.Smee.Dhcp.{
  Bytes, MessageType, discover, offer, request, ack, other_message, Arch, intel_x86pc, nec_pc98,
  efi_itanium, dec_alpha, arc_x86, intel_lean_client, efi_ia32, efi_x86_64, efi_xscale, efi_bc,
  efi_arm32, efi_arm64, efi_x86_http, efi_x86_64_http, efi_arm32_http, efi_arm64_http,
  intel_x86pc_http, other_arch, Packet, MacFormat, AddrPort, Library,
}
use tinkerbell.Smee.Dhcp.Format.{mac_addr_format}

abbrev pub undionly_kpxe : String
undionly_kpxe = "undionly.kpxe"

abbrev pub ipxe_efi : String
ipxe_efi = "ipxe.efi"

abbrev pub snp_arm64_efi : String
snp_arm64_efi = "snp-arm64.efi"

abbrev pub rpiboot : Arch
rpiboot = other_arch 41

abbrev pub unknown_arch : Arch
unknown_arch = other_arch 255

abbrev pub pxe_client : String
pxe_client = "PXEClient"

abbrev pub http_client : String
http_client = "HTTPClient"

-- `strings.HasPrefix(s, prefix)`
unfoldable pub has_prefix : String → String → Bool
has_prefix s String.[] = true
has_prefix String.[] (String.◌∷◌ c prefix) = false
has_prefix (String.◌∷◌ d s) (String.◌∷◌ c prefix) = eqb (code d) (code c) && has_prefix s prefix

-- `bytes.HasPrefix(bs, prefix)`
bytes_has_prefix : Bytes → Bytes → Bool
bytes_has_prefix bs [] = true
bytes_has_prefix [] (c ∷ prefix) = false
bytes_has_prefix (b ∷ bs) (c ∷ prefix) = eqb b c && bytes_has_prefix bs prefix

abbrev rpi_prefixes : List Bytes
rpi_prefixes =
    (184 ∷ 39 ∷ 235 ∷ [])
    ∷ (220 ∷ 166 ∷ 50 ∷ [])
    ∷ (228 ∷ 95 ∷ 1 ∷ [])
    ∷ (40 ∷ 205 ∷ 193 ∷ [])
    ∷ (216 ∷ 58 ∷ 221 ∷ [])
    ∷ []

unfoldable pub is_raspberry_pi : Option Bytes → Bool
unfolding bytes_has_prefix
is_raspberry_pi none = false
is_raspberry_pi (some mac) = any (λ prefix. bytes_has_prefix mac prefix) rpi_prefixes

-- The architecture before an override, `ArchToBootFile`.
unfoldable pub arch_to_boot_file : Arch → Option String
arch_to_boot_file intel_x86pc = some undionly_kpxe
arch_to_boot_file nec_pc98 = some undionly_kpxe
arch_to_boot_file efi_itanium = some undionly_kpxe
arch_to_boot_file dec_alpha = some undionly_kpxe
arch_to_boot_file arc_x86 = some undionly_kpxe
arch_to_boot_file intel_lean_client = some undionly_kpxe
arch_to_boot_file efi_ia32 = some ipxe_efi
arch_to_boot_file efi_x86_64 = some ipxe_efi
arch_to_boot_file efi_xscale = some ipxe_efi
arch_to_boot_file efi_bc = some ipxe_efi
arch_to_boot_file efi_arm32 = some snp_arm64_efi
arch_to_boot_file efi_arm64 = some snp_arm64_efi
arch_to_boot_file efi_x86_http = some ipxe_efi
arch_to_boot_file efi_x86_64_http = some ipxe_efi
arch_to_boot_file efi_arm32_http = some snp_arm64_efi
arch_to_boot_file efi_arm64_http = some snp_arm64_efi
arch_to_boot_file intel_x86pc_http = some undionly_kpxe
arch_to_boot_file (other_arch n) = if eqb n 41 then some snp_arm64_efi else none

-- `err` of IsNetbootClient: the texts that it wraps, none for nil.
complaint : Bool → String → List String
complaint true text = text ∷ []
complaint false text = []

is_discover_or_request : MessageType → Bool
is_discover_or_request discover = true
is_discover_or_request request = true
is_discover_or_request offer = false
is_discover_or_request ack = false
is_discover_or_request (other_message n) = false

is_set : {A : Type 0} → Option A → Bool
is_set none = false
is_set (some _) = true

text_or_empty : Option String → String
text_or_empty none = ""
text_or_empty (some t) = t

machine_complaint : Bytes → List String
unfolding complaint
machine_complaint [] = []
machine_complaint (b ∷ bs) =
    if eqb (length (b ∷ bs)) 17
    then complaint (not (eqb b 0)) "option 97 does not start with 0"
    else "option 97 has invalid length (must be 0 or 17)" ∷ []

is_other_class : String → Bool
is_other_class t = not (has_prefix t pxe_client) && not (has_prefix t http_client)

unfoldable pub is_netboot_client : Packet → List String
unfolding complaint is_discover_or_request is_set text_or_empty is_other_class machine_complaint
is_netboot_client p =
    complaint (not (is_discover_or_request p.message_type))
      "message type must be either Discover or Request"
    ++ (complaint (not (is_set p.class_identifier)) "option 60 not set"
        ++ (complaint (is_other_class (text_or_empty p.class_identifier))
              "option 60 not PXEClient or HTTPClient"
            ++ (complaint (not (is_set p.architectures)) "option 93 not set"
                ++ (complaint (not p.has_network_interface) "option 94 not set"
                    ++ machine_complaint p.machine_identifier))))

-- `Info`, of a packet; the client type is the empty text when option 60 is not set.
pub record Info : Type 0 where
  pub arch : Arch
  pub mac : Option Bytes
  pub user_class : String
  pub client_type : String
  pub complaints : List String
  pub ipxe_binary : String
  pub mac_format : MacFormat

unfoldable pub client_type_from : Packet → String
client_type_from p = elim p.class_identifier [
  | none ↦ ""
  | some v ↦ if has_prefix v http_client then http_client else pxe_client
]

override : (Arch → Option String) → Arch → String
override mapping a = elim (mapping a) [
  | some bin ↦ bin
  | none ↦ text_or_empty (arch_to_boot_file a)
]

module _ (l : Library) where
  first_known : Option (List Arch) → Arch
  first_known none = unknown_arch
  first_known (some archs) = elim (find l.is_known archs) [ none ↦ unknown_arch | some a ↦ a ]

  -- `Arch`
  unfoldable pub arch_of : Packet → Arch
  unfolding first_known
  arch_of p = if is_raspberry_pi p.client_mac then rpiboot else first_known p.architectures

  -- `NewInfo`, with the option of a format and those of a binary and of the mapping.
  unfoldable pub new_info : Packet → MacFormat → String → (Arch → Option String) → Info
  unfolding override text_or_empty
  new_info p format binary mapping = record {
    arch = arch_of p;
    mac = p.client_mac;
    user_class = text_or_empty p.user_class;
    client_type = client_type_from p;
    complaints = is_netboot_client p;
    ipxe_binary = if binary == "" then override mapping (arch_of p) else binary;
    mac_format = format;
  }

  paths_of : Info → List String
  paths_of i = elim i.mac [
    | none ↦ i.ipxe_binary ∷ []
    | some mac ↦ mac_addr_format l mac i.mac_format ∷ i.ipxe_binary ∷ []
  ]

  -- `Bootfile`
  unfoldable pub bootfile : Info → String → Option String → Option String → AddrPort → String
  unfolding paths_of
  bootfile i custom script http tftp =
      if i.user_class == "Tinkerbell" || (custom != "" && i.user_class == custom)
      then elim script [ none ↦ "/no-ipxe-script-defined" | some u ↦ u ]
      else if i.client_type == http_client
      then elim http [ none ↦ "/no-ipxe-script-defined" | some u ↦ l.join_url u (paths_of i) ]
      else if i.user_class == "iPXE"
      then l.tftp_url tftp.shown (paths_of i)
      else if i.ipxe_binary != ""
      then i.ipxe_binary
      else "/no-ipxe-script-defined"

  -- The address before the public one is tried.
  own_server : Info → Option String → AddrPort → Option Bytes
  own_server i http tftp =
      if i.client_type == http_client
      then elim http [ none ↦ none | some u ↦ l.parse_ip (l.hostname u) ]
      else tftp.addr

  is_missing : Option Bytes → Bool
  is_missing none = true
  is_missing (some ip) = l.is_unspecified ip

  is_usable : Option Bytes → Bool
  is_usable none = false
  is_usable (some ip) = not (l.is_unspecified ip)

  -- `NextServer`
  unfoldable pub next_server : Info → Option String → AddrPort → Option Bytes → Option Bytes
  unfolding own_server is_missing is_usable
  next_server i http tftp public =
      if is_missing (own_server i http tftp) && is_usable public
      then public
      else own_server i http tftp

-- `AddRPIOpt43`: the suboptions before they are encoded.
unfoldable pub add_rpi_opt43 : Option Bytes → List (ℕ × Bytes) → List (ℕ × Bytes)
add_rpi_opt43 mac opts =
    if is_raspberry_pi mac
    then opts
      ++ ((
        9,
        0 ∷ 0 ∷ 17 ∷ 82 ∷ 97 ∷ 115 ∷ 112 ∷ 98 ∷ 101 ∷ 114 ∷ 114 ∷ 121 ∷ 32 ∷ 80 ∷ 105 ∷ 32 ∷ 66
            ∷ 111 ∷ 111 ∷ 116 ∷ [],
      )
          ∷ (10, 0 ∷ 80 ∷ 88 ∷ 69 ∷ [])
          ∷ [])
    else opts
