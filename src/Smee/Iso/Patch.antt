-- ===== src/Smee/Iso/Patch.antt =====
-- The kernel parameters that are patched into an ISO (`constructPatch` of smee/internal/iso/iso.go and
-- `parseIPAM` of ipam.go). A text is the list of its bytes; the texts of addresses are arguments.
pub mod Ipam
use Prim.Native.Char.{code}
use Prim.Native.String as Native
use tinkerbell.Base.{
  ℕ, String, Bool, true, false, Option, none, some, List, [], ◌∷◌, ◌++◌, map, if◌then◌else◌, eqb,
}
use tinkerbell.Smee.Dhcp.{Bytes}
use tinkerbell.Smee.Dhcp.Convert.{Dhcp}

abbrev pub codes : String → List ℕ
codes Native.[] = []
codes (Native.◌∷◌ c s) = code c ∷ codes s

-- `strings.Join` with a separator of one byte
unfoldable pub join : ℕ → List (List ℕ) → List ℕ
join sep [] = []
join sep (x ∷ []) = x
join sep (x ∷ y ∷ ys) = x ++ (sep ∷ join sep (y ∷ ys))

-- `strings.ReplaceAll(m, ":", "-")`
unfoldable pub dashed : List ℕ → List ℕ
dashed [] = []
dashed (x ∷ xs) = (if eqb x b':' then b'-' else x) ∷ dashed xs

-- The kernel parameters of the handler.
pub record KernelParams : Type 0 where
  pub extra_params : List (List ℕ)
  pub syslog : List ℕ
  pub tink_server_tls : Bool
  pub tink_server_grpc_addr : List ℕ

abbrev vlan_param : List ℕ → List (List ℕ)
vlan_param [] = []
vlan_param (x ∷ xs) = (codes "vlan_id=" ++ (x ∷ xs)) ∷ []

abbrev vlan_of : Option Dhcp → List (List ℕ)
vlan_of none = []
vlan_of (some d) = vlan_param (codes d.vlan_id)

module _ (mac_text ip_text : Bytes → List ℕ) where
  abbrev pub shown : (Bytes → List ℕ) → Option Bytes → List ℕ
  shown f none = []
  shown f (some b) = f b

  -- The values after the MAC address, in their order.
  abbrev pub ipam_rest : Dhcp → List (List ℕ)
  ipam_rest d =
      codes d.vlan_id
      ∷ shown ip_text d.ip_address
      ∷ shown ip_text d.subnet_mask
      ∷ shown ip_text d.default_gateway
      ∷ codes d.hostname
      ∷ join b',' (map ip_text d.name_servers)
      ∷ join b',' (map codes d.domain_search)
      ∷ join b',' (map ip_text d.ntp_servers)
      ∷ []

  abbrev pub ipam_fields : Dhcp → List (List ℕ)
  ipam_fields d = dashed (shown mac_text d.mac_address) ∷ ipam_rest d

  -- `parseIPAM`
  unfoldable pub parse_ipam : Option Dhcp → List ℕ
  parse_ipam none = []
  parse_ipam (some d) = codes "ipam=" ++ join b':' (ipam_fields d)

  abbrev ipam_of : Bool → List ℕ → List (List ℕ)
  ipam_of false p = []
  ipam_of true [] = []
  ipam_of true (x ∷ xs) = (x ∷ xs) ∷ []

  -- `constructPatch`
  unfoldable pub construct_patch : KernelParams → Bool → List ℕ → List ℕ → Option Dhcp → List ℕ
  construct_patch k static_ipam console mac d = join b' ' (
      (console ∷ vlan_of d)
      ++ (((codes "hw_addr=" ++ mac)
            ∷ (codes "syslog_host=" ++ k.syslog)
            ∷ (codes "grpc_authority=" ++ k.tink_server_grpc_addr)
            ∷ (codes "tinkerbell_tls=" ++ codes (if k.tink_server_tls then "true" else "false"))
            ∷ (codes "worker_id=" ++ mac)
            ∷ k.extra_params)
          ++ ipam_of static_ipam (parse_ipam d)))
