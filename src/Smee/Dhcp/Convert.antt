-- ===== src/Smee/Dhcp/Convert.antt =====
-- The conversion of a hardware object (smee/internal/dhcp/conv.go) to the data of data.go. Of the data of
-- the network boot the URL, the script and the binary of iPXE are here, which the DHCP handlers read.
use Prim.Native.Nat.{bit_or}
use Prim.Native.String.{◌++◌ as text_append}
use tinkerbell.Base.{
  ℕ, ℤ, pos, negsuc, ◌-◌, String, Bool, false, ◌||◌, Option, none, some, List, [], ◌∷◌, find, ltb,
  if◌then◌else◌,
}
use tinkerbell.Base.Equality.{◌==◌, ◌!=◌, string_eq}
use tinkerbell.Base.Fallible.{Result, ok, err}
use tinkerbell.Smee.Dhcp.{Bytes, Library}

-- The parts of v1alpha1.Interface and of the objects in it that are read.
pub record Ip : Type 0 where
  pub address : String
  pub netmask : String
  pub gateway : String

pub record StaticRoute : Type 0 where
  pub destination : String
  pub router : String

pub record DhcpSpec : Type 0 where
  pub mac : String
  pub ip : Option Ip
  pub name_servers : List String
  pub time_servers : List String
  pub hostname : String
  pub domain_name : String
  pub lease_time : ℤ
  pub tftp_server_name : String
  pub boot_file_name : String
  pub arch : String
  pub vlan_id : String
  pub routes : List StaticRoute

pub record IpxeSpec : Type 0 where
  pub url : String
  pub contents : String
  pub binary : String

pub record NetbootSpec : Type 0 where
  pub allow_pxe : Option Bool
  pub ipxe : Option IpxeSpec

pub record InterfaceSpec : Type 0 where
  pub dhcp : Option DhcpSpec
  pub disable_dhcp : Bool
  pub netboot : Option NetbootSpec
  pub isoboot : Option String

pub record HardwareSpec : Type 0 where
  pub agent_id : String
  pub facility_code : String
  pub interfaces : List InterfaceSpec

-- `dhcp.DHCP`; a route is its network and its router.
pub record Dhcp : Type 0 where
  pub mac_address : Option Bytes
  pub ip_address : Option Bytes
  pub subnet_mask : Option Bytes
  pub default_gateway : Option Bytes
  pub name_servers : List Bytes
  pub hostname : String
  pub domain_name : String
  pub broadcast_address : Option Bytes
  pub ntp_servers : List Bytes
  pub vlan_id : String
  pub lease_time : ℕ
  pub tftp_server_name : String
  pub boot_file_name : String
  pub arch : String
  pub domain_search : List String
  pub routes : List (String × Bytes)
  pub disabled : Bool

pub record Netboot : Type 0 where
  pub allow_netboot : Bool
  pub ipxe_script_url : Option String
  pub ipxe_script : String
  pub ipxe_binary : String
  pub facility : String

pub record Hardware : Type 0 where
  pub agent_id : String
  pub dhcp : Dhcp
  pub netboot : Netboot
  pub isoboot : Option String

abbrev pub and_then : {A B : Type 0} → Result String A → (A → Result String B) → Result String B
and_then (err e) f = err e
and_then (ok a) f = f a

abbrev pub or_error : {A : Type 0} → String → Option A → Result String A
or_error e none = err e
or_error e (some a) = ok a

-- The broadcast address: the bytes of the address with the bits set that the mask does not have.
unfoldable pub broadcast_of : Bytes → Bytes → Bytes
broadcast_of [] mask = []
broadcast_of (b ∷ bs) [] = []
broadcast_of (b ∷ bs) (m ∷ ms) = bit_or b (255 - m) ∷ broadcast_of bs ms

-- `safecast.Convert[uint32]`, with the default of one week.
unfoldable pub lease_of : ℤ → ℕ
lease_of (pos n) = if ltb n 4294967296 then n else 604800
lease_of (negsuc n) = 604800

module _ (l : Library) where
  mac_of : String → Result String (Option Bytes)
  mac_of m =
      if m == ""
      then ok none
      else and_then (or_error "invalid MAC address" (l.parse_mac m)) λ b. ok (some b)

  -- The address and its mask.
  address_of : Option Ip → Result String (Option Bytes × Option Bytes)
  address_of none = ok (none, none)
  address_of (some ip) = and_then (or_error "unable to parse IP" (l.parse_addr ip.address)) λ a.
      if l.is_4 a || l.is_4_in_6 a
      then and_then (or_error "no netmask" (l.parse_ip ip.netmask)) (λ m.
        and_then (or_error "netmask must be an IPv4 address" (l.to_4 m)) λ m4. ok (some a, some m4))
      else if ip.netmask != ""
      then err "netmask is not applicable for IPv6 addresses"
      else ok (some a, none)

  gateway_of : Option Ip → Result String (Option Bytes)
  gateway_of none = ok none
  gateway_of (some ip) =
      if ip.gateway == ""
      then ok none
      else and_then (or_error "unable to parse IP" (l.parse_addr ip.gateway)) λ a. ok (some a)

  -- The texts that are addresses; the others are left out.
  servers_of : List String → List Bytes
  servers_of [] = []
  servers_of (s ∷ ss) =
      let rest = servers_of ss in elim (l.parse_ip s) [ none ↦ rest | some ip ↦ ip ∷ rest ]

  broadcast_address_of : Option Bytes → Option Bytes → Option Bytes
  broadcast_address_of none mask = none
  broadcast_address_of (some a) none = none
  broadcast_address_of (some a) (some m) = if l.is_4 a then some (broadcast_of a m) else none

  routes_of : List StaticRoute → Result String (List (String × Bytes))
  routes_of [] = ok []
  routes_of (r ∷ rs) =
      let rest = routes_of rs in
      and_then (or_error "invalid CIDR address" (l.parse_cidr r.destination)) λ net.
        and_then
          (or_error (text_append "failed to parse router IP " r.router) (l.parse_ip r.router))
          λ ip. and_then rest λ ros. ok ((net, ip) ∷ ros)

  -- `toDHCPData`
  unfoldable pub to_dhcp_data : Option DhcpSpec → Result String Dhcp
  unfolding mac_of address_of gateway_of servers_of broadcast_address_of routes_of
  to_dhcp_data none = err "no DHCP data"
  to_dhcp_data (some h) = and_then (mac_of h.mac) λ mac. and_then (address_of h.ip) λ address.
      and_then (gateway_of h.ip) λ gateway. and_then (routes_of h.routes) λ routes. ok (record {
        mac_address = mac;
        ip_address = address.0;
        subnet_mask = address.1;
        default_gateway = gateway;
        name_servers = servers_of h.name_servers;
        hostname = h.hostname;
        domain_name = h.domain_name;
        broadcast_address = broadcast_address_of address.0 address.1;
        ntp_servers = servers_of h.time_servers;
        vlan_id = h.vlan_id;
        lease_time = lease_of h.lease_time;
        tftp_server_name = h.tftp_server_name;
        boot_file_name = h.boot_file_name;
        arch = h.arch;
        domain_search = if h.domain_name == "" then [] else h.domain_name ∷ [];
        routes = routes;
        disabled = false;
      })

  script_url_of : Option IpxeSpec → Result String (Option String)
  script_url_of none = ok none
  script_url_of (some i) =
      if i.url == ""
      then ok none
      else if l.request_uri_ok i.url
      then ok (some i.url)
      else err "invalid URI for request"

  abbrev allowed : Option Bool → Bool
  allowed none = false
  allowed (some b) = b

  -- `toNetbootData`
  unfoldable pub to_netboot_data : Option NetbootSpec → String → Result String Netboot
  unfolding script_url_of
  to_netboot_data none facility = err "no netboot data"
  to_netboot_data (some i) facility = and_then (script_url_of i.ipxe) λ url. ok (record {
    allow_netboot = allowed i.allow_pxe;
    ipxe_script_url = url;
    ipxe_script = elim i.ipxe [ none ↦ "" | some x ↦ x.contents ];
    ipxe_binary = elim i.ipxe [ none ↦ "" | some x ↦ x.binary ];
    facility = facility;
  })

  -- `transform`
  unfoldable pub transform : InterfaceSpec → String → Result String (Dhcp × Netboot)
  transform i facility = and_then (to_dhcp_data i.dhcp) λ d.
      and_then (to_netboot_data i.netboot facility)
        λ n. ok (record d { disabled = i.disable_dhcp }, n)

  isoboot_of : Option String → Result String (Option String)
  isoboot_of none = ok none
  isoboot_of (some source) =
      if source == ""
      then ok none
      else if l.url_ok source
      then ok (some source)
      else err "failed to parse source ISO as a URL"

  has_mac : String → InterfaceSpec → Bool
  has_mac mac i = elim i.dhcp [ none ↦ false | some d ↦ d.mac == mac ]

  has_ip : String → InterfaceSpec → Bool
  has_ip ip i = elim i.dhcp [
    | none ↦ false
    | some d ↦ elim d.ip [ none ↦ false | some a ↦ a.address == ip ]
  ]

  -- The first interface that passes, or the zero value.
  interface_by : (InterfaceSpec → Bool) → List InterfaceSpec → InterfaceSpec
  interface_by p is = elim (find p is) [
    | some i ↦ i
    | none ↦ record { dhcp = none; disable_dhcp = false; netboot = none; isoboot = none }
  ]

  convert_interface : HardwareSpec → InterfaceSpec → Result String Hardware
  unfolding isoboot_of
  convert_interface hw i = and_then (transform i hw.facility_code) λ both.
      and_then (isoboot_of i.isoboot) λ iso.
        ok (record { agent_id = hw.agent_id; dhcp = both.0; netboot = both.1; isoboot = iso })

  -- `ConvertByMac`
  unfoldable pub convert_by_mac : Option Bytes → Option HardwareSpec → Result String Hardware
  unfolding has_mac interface_by convert_interface
  convert_by_mac mac none = err "hardware is nil"
  convert_by_mac mac (some hw) =
      convert_interface hw (interface_by (has_mac (l.mac_text mac)) hw.interfaces)

  -- `ConvertByIP`
  unfoldable pub convert_by_ip : Option Bytes → Option HardwareSpec → Result String Hardware
  unfolding has_ip interface_by convert_interface
  convert_by_ip ip none = err "hardware is nil"
  convert_by_ip ip (some hw) =
      convert_interface hw (interface_by (has_ip (l.ip_text ip)) hw.interfaces)
