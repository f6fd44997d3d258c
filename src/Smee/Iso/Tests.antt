-- ===== src/Smee/Iso/Tests.antt =====
-- Copies of short streams, and the parameters of one machine.
use tinkerbell.Base.{
  All, drop, false, some, ℕ, ◌+◌, String, Option, none, List, [], ◌∷◌, ◌++◌, ◌≡◌, refl, arith,
  length,
}
use tinkerbell.Smee.Iso.{
  Source, more, last, eof, done, index_of, overlay, splice, patched, written_of, write_read,
  continue_copy, copy, end_of,
}
use tinkerbell.Smee.Dhcp.{Bytes}
use tinkerbell.Smee.Dhcp.Convert.{Dhcp}
use tinkerbell.Smee.Iso.Patch.{join, ipam_rest, ipam_fields, parse_ipam}
use tinkerbell.Smee.Iso.Patch.Ipam.{split, Without, split-parse_ipam}
use tinkerbell.Smee.Iso.Copied.{EachReplaced, reads, total, ending, put_all, copy-EachReplaced}

-- The client keeps the bytes of each write.
abbrev keep : List ℕ → List (List ℕ) → List (List ℕ)
keep b log = log ++ (b ∷ [])

abbrev client : List ℕ → List (List ℕ) → (ℕ × Option String) × List (List ℕ)
client b log = ((length b, none), keep b log)

-- "##" is replaced by "p".
abbrev magic : List ℕ
magic = 35 ∷ 35 ∷ []

abbrev patch : List ℕ
patch = 112 ∷ []

abbrev whole : Source
whole = more (97 ∷ 35 ∷ 35 ∷ 98 ∷ []) (last [] eof)

whole_is_patched : copy client magic patch whole 0 [] ≡ ((4, done), (97 ∷ 112 ∷ 32 ∷ 98 ∷ []) ∷ [])
unfolding copy write_read written_of continue_copy patched index_of splice overlay
whole_is_patched = refl

-- A magic string that two reads share is left as it is.
abbrev shared : Source
shared = more (97 ∷ 35 ∷ []) (last (35 ∷ 98 ∷ []) eof)

shared_is_kept :
    copy client magic patch shared 0 [] ≡ ((4, done), (97 ∷ 35 ∷ []) ∷ (35 ∷ 98 ∷ []) ∷ [])
unfolding copy write_read written_of continue_copy patched index_of splice overlay
shared_is_kept = refl

copy-EachReplaced_example :
    (outs : List (List ℕ)) × EachReplaced magic patch (reads whole) outs
    × (copy client magic patch whole 0 [] ≡ (
      (0 + total (reads whole), end_of client magic patch (ending whole)),
      put_all keep outs [],
    ))
copy-EachReplaced_example =
    copy-EachReplaced client magic patch keep whole 0 [] (λ b s. refl) (omega arith)

abbrev lease : Dhcp
lease = record {
  mac_address = some (1 ∷ []);
  ip_address = some (2 ∷ []);
  subnet_mask = none;
  default_gateway = none;
  name_servers = (3 ∷ []) ∷ (4 ∷ []) ∷ [];
  hostname = "h";
  domain_name = "";
  broadcast_address = none;
  ntp_servers = [];
  vlan_id = "";
  lease_time = 0;
  tftp_server_name = "";
  boot_file_name = "";
  arch = "";
  domain_search = [];
  routes = [];
  disabled = false;
}

-- A MAC address of three bytes of text, `a:b`, and addresses of one.
abbrev mac_text : Bytes → List ℕ
mac_text b = 97 ∷ 58 ∷ 98 ∷ []

abbrev ip_text : Bytes → List ℕ
ip_text [] = 48 ∷ []
ip_text (n ∷ b) = (n + 48) ∷ []

no_colons : All (Without b':') (ipam_rest mac_text ip_text lease)
unfolding join
no_colons = omega arith

split-parse_ipam_example :
    split b':' (drop 5 (parse_ipam mac_text ip_text (some lease)))
    ≡ ipam_fields mac_text ip_text lease
split-parse_ipam_example = split-parse_ipam mac_text ip_text lease no_colons
