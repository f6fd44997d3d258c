-- ===== src/Smee/Dhcp/Reservation/Options.antt =====
-- Which options of a reservation are set in a reply.
use tinkerbell.Base.{
  String, Option, none, some, List, [], ◌∷◌, ◌++◌, ◌≡◌, refl, ap, ◌∙◌, if◌then◌else◌,
}
use tinkerbell.Base.Equality.{◌==◌, string_eq}
use tinkerbell.Smee.Dhcp.{Bytes}
use tinkerbell.Smee.Dhcp.Convert.{Dhcp}
use tinkerbell.Smee.Dhcp.Reservation.{
  Handler, Modifier, your_ip, lease_time, name_servers, ntp_servers, domain_search,
  broadcast_address, netmask, router, log_server, domain_name, host_name, tftp_server_name,
  boot_file_option, boot_file_header, static_routes, set_dhcp_opts, unless_empty, unless_zero,
  unless_blank,
}

-- The option of an address that is given, of a list or a text that is not empty.
abbrev pub given : (Bytes → Modifier) → Option Bytes → List Modifier
given f none = []
given f (some a) = f a ∷ []

abbrev pub filled : {A : Type 0} → (List A → Modifier) → List A → List Modifier
filled f [] = []
filled f (x ∷ xs) = f (x ∷ xs) ∷ []

abbrev pub named : (String → Modifier) → String → List Modifier
named f t = if t == "" then [] else f t ∷ []

abbrev pub joined : List (List Modifier) → List Modifier
joined [] = []
joined (xs ∷ xss) = xs ++ joined xss

-- The lease time and the address of the reservation, then each option that has a value, from its own
-- field.
abbrev pub options : Handler → Dhcp → List Modifier
options h d =
    lease_time d.lease_time
    ∷ your_ip d.ip_address
    ∷ joined (
        filled name_servers d.name_servers
        ∷ filled domain_search d.domain_search
        ∷ filled ntp_servers d.ntp_servers
        ∷ given broadcast_address d.broadcast_address
        ∷ named domain_name d.domain_name
        ∷ named host_name d.hostname
        ∷ given netmask d.subnet_mask
        ∷ given router d.default_gateway
        ∷ given log_server h.syslog_addr
        ∷ filled static_routes d.routes
        ∷ named tftp_server_name d.tftp_server_name
        ∷ named boot_file_option d.boot_file_name
        ∷ named boot_file_header d.boot_file_name
        ∷ [])

given_eq : (f : Bytes → Modifier) (o : Option Bytes) → unless_zero f o ≡ given f o
unfolding unless_zero
given_eq f none = refl
given_eq f (some a) = refl

filled_eq : {A : Type 0} (f : List A → Modifier) (xs : List A) → unless_empty f xs ≡ filled f xs
unfolding unless_empty
filled_eq f [] = refl
filled_eq f (x ∷ xs) = refl

named_eq : (f : String → Modifier) (t : String) → unless_blank f t ≡ named f t
unfolding unless_blank
named_eq f t = refl

at_end : (xs : List Modifier) → xs ≡ xs ++ []
at_end [] = refl
at_end (x ∷ xs) = ap (λ ys. x ∷ ys) (at_end xs)

beside : {a b c d : List Modifier} → a ≡ b → c ≡ d → a ++ c ≡ b ++ d
beside e f = λ i. e i ++ f i

pub set_dhcp_opts-options : (h : Handler) (d : Dhcp) → set_dhcp_opts h d ≡ options h d
unfolding set_dhcp_opts
set_dhcp_opts-options h d =
    ap (λ xs. lease_time d.lease_time ∷ your_ip d.ip_address ∷ xs)
      (beside (filled_eq name_servers d.name_servers) (
        beside (filled_eq domain_search d.domain_search) (
          beside (filled_eq ntp_servers d.ntp_servers) (
            beside (given_eq broadcast_address d.broadcast_address) (
              beside (named_eq domain_name d.domain_name) (
                beside (named_eq host_name d.hostname) (
                  beside (given_eq netmask d.subnet_mask) (
                    beside (given_eq router d.default_gateway) (
                      beside (given_eq log_server h.syslog_addr) (
                        beside (filled_eq static_routes d.routes) (
                          beside (named_eq tftp_server_name d.tftp_server_name) (
                            beside (named_eq boot_file_option d.boot_file_name) (
                              named_eq boot_file_header d.boot_file_name
                              ∙ at_end (named boot_file_header d.boot_file_name))))))))))))))
