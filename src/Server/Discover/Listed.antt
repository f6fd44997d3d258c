-- ===== src/Server/Discover/Listed.antt =====
-- Which disks and interfaces stand for the attributes of an agent: one for each that can be used, in
-- their order, and no other.
use Prim.Native.String.{◌++◌ as text_append}
use tinkerbell.Base.{
  String, Bool, true, false, Option, none, some, List, [], ◌∷◌, ◌≡◌, ◌≢◌, ◌⊎◌, inl, inr, refl,
  arith, Bool-cases,
}
use tinkerbell.Base.Equality.{string_eq}
use tinkerbell.Base.Fallible.{Result, ok, err}
use tinkerbell.Api.{Interface}
use tinkerbell.Server.{Stop, Block, Network}
use tinkerbell.Server.Discover.{
  shown, device, push_disk, add_sized, add_mac, add_disk, new_disks, add_interface, new_interfaces,
}

-- A disk for each block device with a size, under its name, and nothing for any other device.
abbrev pub DisksOf : List (Option Block) → List String → Type 0
DisksOf [] ds = ds ≡ []
DisksOf (none ∷ bs) ds = DisksOf bs ds
DisksOf (some b ∷ bs) ds =
    (((b.size ≡ none) ⊎ (b.size ≡ some "")) × DisksOf bs ds)
    ⊎ ((z : String) × (n : String) × (es : List String) × (b.size ≡ some z)
        × (z ≢ "")
        × (b.name ≡ some n)
        × (ds ≡ text_append "/dev/" n ∷ es)
        × DisksOf bs es)

-- An interface for each network interface with a valid MAC address, and nothing for any other.
abbrev pub InterfacesOf : (String → Bool) → List (Option Network) → List Interface → Type 0
InterfacesOf is_mac [] is = is ≡ []
InterfacesOf is_mac (none ∷ ns) is = InterfacesOf is_mac ns is
InterfacesOf is_mac (some n ∷ ns) is =
    (((n.mac ≡ none) ⊎ (n.mac ≡ some "") ⊎ ((m : String) × (n.mac ≡ some m) × (is_mac m ≡ false)))
      × InterfacesOf is_mac ns is)
    ⊎ ((m : String) × (js : List Interface) × (n.mac ≡ some m)
        × (m ≢ "")
        × (is_mac m ≡ true)
        × (is ≡ record { dhcp = some (record { mac = m; uefi = false }); netboot = none } ∷ js)
        × InterfacesOf is_mac ns js)

push_disk-ok :
    (n : Option String) (rest : Result Stop (List String)) (ds : List String)
    → push_disk (device n) rest ≡ ok ds
    → (t : String) × (es : List String) × (n ≡ some t)
      × (ds ≡ text_append "/dev/" t ∷ es)
      × (rest ≡ ok es)
unfolding push_disk device
push_disk-ok none rest ds h = absurd (ground (arith, h))
push_disk-ok (some t) (err e) ds h = absurd (ground (arith, h))
push_disk-ok (some t) (ok es) ds h = (t, es, refl, ground (arith, h), refl)

shown-set : (z : String) → z ≢ "" → shown (some z) ≡ some z
shown-set z n = ground (arith, n)

pub new_disks-DisksOf :
    (bs : List (Option Block)) (ds : List String) → new_disks bs ≡ ok ds → DisksOf bs ds
unfolding new_disks add_disk add_sized
new_disks-DisksOf [] ds h = ground (arith, h)
new_disks-DisksOf (none ∷ bs) ds h = new_disks-DisksOf bs ds h
new_disks-DisksOf (some b ∷ bs) ds h = sized (new_disks-DisksOf bs) b.size refl h
  where
    set :
        ((es : List String) → new_disks bs ≡ ok es → DisksOf bs es)
        → (z : String) → b.size ≡ some z
        → z ≢ ""
        → add_sized (some z) b.name (new_disks bs) ≡ ok ds
        → DisksOf (some b ∷ bs) ds
    set rec z e n q =
        let (t, es, name_is, ds_is, rest_is) = push_disk-ok b.name (new_disks bs) ds q in
        inr (z, t, es, e, n, name_is, ds_is, rec es rest_is)

    sized :
        ((es : List String) → new_disks bs ≡ ok es → DisksOf bs es)
        → (o : Option String) → b.size ≡ o
        → add_sized (shown o) b.name (new_disks bs) ≡ ok ds
        → DisksOf (some b ∷ bs) ds
    sized rec none e q = inl (inl e, rec ds q)
    sized rec (some z) e q = elim (string_eq.dec z "") [
      | yes y ↦ inl (inr (ground (arith, e, y)), rec ds (ground (arith, y, q)))
      | no n ↦ set rec z e n (rw (shown-set z n) at q)
    ]

pub new_interfaces-InterfacesOf :
    (is_mac : String → Bool) (ns : List (Option Network))
    → InterfacesOf is_mac ns (new_interfaces is_mac ns)
unfolding new_interfaces add_interface add_mac string_eq
new_interfaces-InterfacesOf is_mac [] = refl
new_interfaces-InterfacesOf is_mac (none ∷ ns) = new_interfaces-InterfacesOf is_mac ns
new_interfaces-InterfacesOf is_mac (some n ∷ ns) =
    given (new_interfaces-InterfacesOf is_mac ns) n.mac refl
  where
    given :
        InterfacesOf is_mac ns (new_interfaces is_mac ns)
        → (o : Option String) → n.mac ≡ o
        → InterfacesOf is_mac (some n ∷ ns) (add_mac is_mac (shown o) (new_interfaces is_mac ns))
    given rec none e = inl (inl e, rec)
    given rec (some m) e = elim (string_eq.dec m "") [
      | yes y ↦ rw y (inl (inr (inl (rw (← y) e)), rec))
      | no k ↦ (elim (Bool-cases (is_mac m)) [
        | inl v ↦ rw (shown-set m k, v) (inr (m, new_interfaces is_mac ns, e, k, v, refl, rec))
        | inr v ↦ rw (shown-set m k, v) (inl (inr (inr (m, e, v)), rec))
      ])
    ]
