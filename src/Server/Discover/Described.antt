-- ===== src/Server/Discover/Described.antt =====
-- What the object is that a discovery makes of the answers of an agent.
use mathlib.Core.Path.{subst}
use tinkerbell.Base.{String, Bool, Option, none, some, List, [], ◌≡◌, refl, sym, ap, ◌∙◌, arith}
use tinkerbell.Base.Equality.{string_eq}
use tinkerbell.Base.Fallible.{Result, ok, err}
use tinkerbell.Base.Dict.{lookup}
use tinkerbell.Api.{Hardware, Interface}
use tinkerbell.Server.{Stop, Backend, Block, Network, Attributes, AutoCapabilities}
use tinkerbell.Server.Annotate.{annotate}
use tinkerbell.Server.Discover.Listed.{
  DisksOf, InterfacesOf, new_disks-DisksOf, new_interfaces-InterfacesOf,
}
use tinkerbell.Server.Discover.{
  new_disks, new_interfaces, add_all, update_hardware, new_hardware, annotate_new, described,
}

abbrev pub blocks : Option Attributes → List (Option Block)
blocks none = []
blocks (some attrs) = attrs.block_devices

abbrev pub networks : Option Attributes → List (Option Network)
networks none = []
networks (some attrs) = attrs.network_interfaces

-- What the object is that a discovery makes of the answers of an agent.
pub record IsDescribed (is_mac : String → Bool) (auto : AutoCapabilities) (agent : String)
    (attrs : Option Attributes) (name : String) (hw : Hardware) : Type 0 where
  pub name_is : hw.name ≡ name
  pub namespace_is : hw.namespace ≡ auto.discovery_namespace
  pub of_agent : hw.agent_id ≡ agent
  pub marked : lookup "tinkerbell.org/auto-discovered" hw.labels ≡ some "true"
  pub enrollment_is : hw.enrollment_enabled ≡ auto.discovery_enrollment_enabled
  pub disks_are : DisksOf (blocks attrs) hw.disks
  pub interfaces_are : InterfacesOf is_mac (networks attrs) hw.interfaces

-- The fields that the attributes leave as they were made, and those that they fill.
SameBase : Hardware → Hardware → Type 0
SameBase a b =
    (a.name ≡ b.name)
    × (a.namespace ≡ b.namespace)
    × (a.agent_id ≡ b.agent_id)
    × (a.labels ≡ b.labels)
    × (a.enrollment_enabled ≡ b.enrollment_enabled)

annotate_new-SameBase :
    (hw : Hardware) (attrs : Option Attributes)
    → SameBase (annotate_new hw attrs) hw
      × ((annotate_new hw attrs).disks ≡ hw.disks)
      × ((annotate_new hw attrs).interfaces ≡ hw.interfaces)
unfolding annotate_new annotate SameBase
annotate_new-SameBase hw none = ((refl, refl, refl, refl, refl), refl, refl)
annotate_new-SameBase hw (some attrs) = ground arith

update_hardware-ok :
    (is_mac : String → Bool) (hw made : Hardware) (attrs : Option Attributes)
    → hw.disks ≡ []
    → hw.interfaces ≡ []
    → update_hardware is_mac hw attrs ≡ ok made
    → SameBase made hw
      × DisksOf (blocks attrs) made.disks
      × InterfacesOf is_mac (networks attrs) made.interfaces
unfolding update_hardware SameBase add_all
update_hardware-ok is_mac hw made none d i h =
    let same : made ≡ hw = ground (arith, h) in
    (
      ground (arith, same),
      ap (λ (x : Hardware). x.disks) same ∙ d,
      ap (λ (x : Hardware). x.interfaces) same ∙ i,
    )
update_hardware-ok is_mac hw made (some attrs) d i h = added (new_disks attrs.block_devices) refl h
  where
    ns : List Interface
    ns = new_interfaces is_mac attrs.network_interfaces

    added :
        (r : Result Stop (List String))
        → new_disks attrs.block_devices ≡ r
        → add_all is_mac hw attrs r ≡ ok made
        → SameBase made hw
          × DisksOf attrs.block_devices made.disks
          × InterfacesOf is_mac attrs.network_interfaces made.interfaces
    added (err e) q k = absurd (ground (arith, k))
    added (ok ds) q k =
        let disks_is : made.disks ≡ ds = ground (arith, k, d) in
        let interfaces_is : made.interfaces ≡ ns = ground (arith, k, i) in
        (
          ground (arith, k),
          subst (DisksOf attrs.block_devices) (sym disks_is)
              (new_disks-DisksOf attrs.block_devices ds q),
          subst (InterfacesOf is_mac attrs.network_interfaces) (sym interfaces_is)
              (new_interfaces-InterfacesOf is_mac attrs.network_interfaces),
        )

module _ {S : Type 0} (b : Backend S) (auto : AutoCapabilities) (agent : String)
    (attrs : Option Attributes) where
  pub described-IsDescribed :
      (name : String) (made : Hardware)
      → described b auto agent attrs name ≡ ok made
      → IsDescribed b.is_mac auto agent attrs name made
  unfolding described new_hardware SameBase lookup string_eq
  described-IsDescribed name made h =
      let base =
        new_hardware name auto.discovery_namespace agent auto.discovery_enrollment_enabled in
      let (same, no_disks, no_interfaces) = annotate_new-SameBase base attrs in
      let (kept, ds, is) =
        update_hardware-ok b.is_mac (annotate_new base attrs) made attrs no_disks no_interfaces h in
      record {
        name_is = kept.0 ∙ same.0;
        namespace_is = kept.1 ∙ same.1;
        of_agent = kept.2 ∙ same.2;
        marked = ap (lookup "tinkerbell.org/auto-discovered") (kept.3 ∙ same.3);
        enrollment_is = kept.4 ∙ same.4;
        disks_are = ds;
        interfaces_are = is;
      }
