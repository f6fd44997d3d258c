-- ===== src/Smee/Iso/Patch/Ipam.antt =====
-- The values of the parameter `ipam`, read back.
use tinkerbell.Base.{
  ℕ, Option, none, some, List, map, [], ◌∷◌, ◌++◌, ◌≡◌, ◌≢◌, refl, ap, ◌∙◌, All, arith,
  if◌then◌else◌, eqb, drop,
}
use tinkerbell.Smee.Dhcp.{Bytes}
use tinkerbell.Smee.Dhcp.Convert.{Dhcp}
use tinkerbell.Smee.Iso.Patch.{join, dashed, shown, codes, parse_ipam}

push : ℕ → List (List ℕ) → List (List ℕ)
push c [] = (c ∷ []) ∷ []
push c (w ∷ ws) = (c ∷ w) ∷ ws

-- The parts of a text between the separators, as a reader takes it apart.
unfoldable pub split : ℕ → List ℕ → List (List ℕ)
unfolding push
split sep [] = [] ∷ []
split sep (c ∷ cs) = let rest = split sep cs in if eqb c sep then [] ∷ rest else push c rest

abbrev pub Without : ℕ → List ℕ → Type 0
Without sep xs = All (λ x. x ≢ sep) xs

split-last : (sep : ℕ) (x : List ℕ) → Without sep x → split sep x ≡ x ∷ []
unfolding split push
split-last sep [] h = refl
split-last sep (c ∷ x) h = ground (arith, h.0, split-last sep x h.1)

split-append :
    (sep : ℕ) (x rest : List ℕ) → Without sep x → split sep (x ++ (sep ∷ rest)) ≡ x ∷ split sep rest
unfolding split push
split-append sep [] rest h = ground arith
split-append sep (c ∷ x) rest h = ground (arith, h.0, split-append sep x rest h.1)

split-join :
    (sep : ℕ) (x : List ℕ) (xs : List (List ℕ))
    → All (Without sep) (x ∷ xs)
    → split sep (join sep (x ∷ xs)) ≡ x ∷ xs
unfolding join
split-join sep x [] h = split-last sep x h.0
split-join sep x (y ∷ ys) h =
    split-append sep x (join sep (y ∷ ys)) h.0 ∙ ap (λ zs. x ∷ zs) (split-join sep y ys h.1)

Without-dashed : (xs : List ℕ) → Without b':' (dashed xs)
unfolding dashed
Without-dashed [] = tt
Without-dashed (x ∷ xs) = (ground arith, Without-dashed xs)

-- The text of an address, if there is one.
abbrev pub text_of : (Bytes → List ℕ) → Option Bytes → List ℕ
text_of f none = []
text_of f (some b) = f b

shown-text_of : (m i f : Bytes → List ℕ) (o : Option Bytes) → shown m i f o ≡ text_of f o
shown-text_of m i f none = refl
shown-text_of m i f (some b) = refl

-- The parameter `ipam` of a machine, behind its name, read back by its colons: the MAC address with
-- dashes, then the VLAN id, the address, the netmask, the gateway, the hostname, the name servers, the
-- search domains and the time servers, where the last three are lists with commas. An address that
-- is not set is empty. It is assumed that no value but the MAC address has a colon in it.
pub split-parse_ipam :
    (mac_text ip_text : Bytes → List ℕ) (d : Dhcp)
    → All (Without b':') (
        codes d.vlan_id
        ∷ text_of ip_text d.ip_address
        ∷ text_of ip_text d.subnet_mask
        ∷ text_of ip_text d.default_gateway
        ∷ codes d.hostname
        ∷ join b',' (map ip_text d.name_servers)
        ∷ join b',' (map codes d.domain_search)
        ∷ join b',' (map ip_text d.ntp_servers)
        ∷ [])
    → split b':' (drop 5 (parse_ipam mac_text ip_text (some d)))
      ≡ dashed (text_of mac_text d.mac_address)
        ∷ codes d.vlan_id
        ∷ text_of ip_text d.ip_address
        ∷ text_of ip_text d.subnet_mask
        ∷ text_of ip_text d.default_gateway
        ∷ codes d.hostname
        ∷ join b',' (map ip_text d.name_servers)
        ∷ join b',' (map codes d.domain_search)
        ∷ join b',' (map ip_text d.ntp_servers)
        ∷ []
unfolding parse_ipam
split-parse_ipam mac_text ip_text d h =
    rw
      (
        shown-text_of mac_text ip_text mac_text d.mac_address,
        shown-text_of mac_text ip_text ip_text d.ip_address,
        shown-text_of mac_text ip_text ip_text d.subnet_mask,
        shown-text_of mac_text ip_text ip_text d.default_gateway,
      )
      (split-join b':' (dashed (text_of mac_text d.mac_address)) _
        (Without-dashed (text_of mac_text d.mac_address), h))
