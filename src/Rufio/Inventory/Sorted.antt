-- ===== src/Rufio/Inventory/Sorted.antt =====
-- `sortDevice` with its keys (rufio/internal/controller/inventory.go). What `%+v` makes of a part is an
-- argument, one function for each kind of part; it prints addresses, so it is another one at each call.
use tinkerbell.Base.{
  String, Option, none, some, List, [], ◌∷◌, ◌≡◌, ◌∙◌, ap, refl, inl, inr, All, In,
}
use mathlib.Core.List.{map}
use mathlib.Core.Option
use tinkerbell.Rufio.Inventory.Parts.{
  Common, CpuPart, MemoryPart, NicPort, Nic, Drive, Controller, PowerSupply, TpmPart, BmcPart,
  Device,
}
use tinkerbell.Rufio.Inventory.Convert.{first_of}
use tinkerbell.Rufio.Inventory.Order.{
  sort_by, key_then_content, sort_by-two_contents, All-sort_by, Shuffled, same,
}

-- The key of a part that is not nil, and the empty text for nil.
abbrev pub key_or : {A : Type 0} → (A → String) → Option A → String
key_or key none = ""
key_or key (some x) = key x

abbrev pub cpu_key : CpuPart → String
cpu_key c = first_of (c.id ∷ c.slot ∷ c.common.serial ∷ [])

abbrev pub memory_key : MemoryPart → String
memory_key m = first_of (m.id ∷ m.slot ∷ m.common.serial ∷ [])

abbrev pub nic_key : Nic → String
nic_key n = first_of (n.id ∷ n.common.serial ∷ [])

abbrev pub nic_port_key : NicPort → String
nic_port_key p = first_of (p.physical_id ∷ p.id ∷ p.mac_address ∷ [])

abbrev pub drive_key : Drive → String
drive_key d = first_of (d.id ∷ d.common.serial ∷ d.wwn ∷ [])

abbrev pub storage_controller_key : Controller → String
storage_controller_key k = first_of (k.id ∷ k.common.serial ∷ [])

abbrev pub psu_key : PowerSupply → String
psu_key p = first_of (p.id ∷ p.common.serial ∷ [])

abbrev pub tpm_key : TpmPart → String
tpm_key t = t.common.serial

abbrev pub gpu_key : Common → String
gpu_key g = first_of (g.serial ∷ g.model ∷ g.product_name ∷ [])

-- The texts of the parts.
pub record Contents : Type 0 where
  pub of_cpu : Option CpuPart → String
  pub of_memory : Option MemoryPart → String
  pub of_nic : Option Nic → String
  pub of_port : Option NicPort → String
  pub of_drive : Option Drive → String
  pub of_controller : Option Controller → String
  pub of_psu : Option PowerSupply → String
  pub of_tpm : Option TpmPart → String
  pub of_gpu : Option Common → String

-- `sortByKeyThenContent`
unfoldable pub sorted :
    {A : Type 0} → (A → String) → (Option A → String) → List (Option A) → List (Option A)
sorted key content = sort_by (key_then_content (key_or key) content)

module _ (k : Contents) where
  abbrev pub sort_ports : Nic → Nic
  sort_ports n = record n { nic_ports = sorted nic_port_key k.of_port n.nic_ports }

  abbrev pub sort_bmc_ports : BmcPart → BmcPart
  sort_bmc_ports b = record b { nic = Option.map sort_ports b.nic }

  unfoldable pub sort_device : Device → Device
  sort_device d = record d {
    cpus = sorted cpu_key k.of_cpu d.cpus;
    memory = sorted memory_key k.of_memory d.memory;
    nics = map (Option.map sort_ports) (sorted nic_key k.of_nic d.nics);
    drives = sorted drive_key k.of_drive d.drives;
    storage_controllers = sorted storage_controller_key k.of_controller d.storage_controllers;
    psus = sorted psu_key k.of_psu d.psus;
    tpms = sorted tpm_key k.of_tpm d.tpms;
    gpus = sorted gpu_key k.of_gpu d.gpus;
    bmc = Option.map sort_bmc_ports d.bmc;
  }

-- The key of each part in a list is its own.
abbrev pub TellsApart : {A : Type 0} → (A → String) → List A → Type 0
TellsApart {A} key xs = (a b : A) → In a xs → In b xs → key a ≡ key b → a ≡ b

abbrev pub PortsDiffer : Option Nic → Type 0
PortsDiffer none = Unit
PortsDiffer (some n) = TellsApart (key_or nic_port_key) n.nic_ports

abbrev pub BmcPortsDiffer : Option BmcPart → Type 0
BmcPortsDiffer none = Unit
BmcPortsDiffer (some b) = PortsDiffer b.nic

-- In each list of the report the keys differ; of two parts with the same key only the same may stand.
pub record Distinct (d : Device) : Type 0 where
  pub cpu : TellsApart (key_or cpu_key) d.cpus
  pub memory : TellsApart (key_or memory_key) d.memory
  pub nic : TellsApart (key_or nic_key) d.nics
  pub drive : TellsApart (key_or drive_key) d.drives
  pub controller : TellsApart (key_or storage_controller_key) d.storage_controllers
  pub psu : TellsApart (key_or psu_key) d.psus
  pub tpm : TellsApart (key_or tpm_key) d.tpms
  pub gpu : TellsApart (key_or gpu_key) d.gpus
  pub ports : All PortsDiffer d.nics
  pub bmc_ports : BmcPortsDiffer d.bmc

-- Two reports of the same parts, each list in an order of its own; the ports of an interface stand in
-- the same order.
pub record SameParts (d e : Device) : Type 0 where
  pub common : d.common ≡ e.common
  pub bios : d.bios ≡ e.bios
  pub bmc : d.bmc ≡ e.bmc
  pub mainboard : d.mainboard ≡ e.mainboard
  pub cpus : Shuffled d.cpus e.cpus
  pub memory : Shuffled d.memory e.memory
  pub nics : Shuffled d.nics e.nics
  pub drives : Shuffled d.drives e.drives
  pub storage_controllers : Shuffled d.storage_controllers e.storage_controllers
  pub psus : Shuffled d.psus e.psus
  pub tpms : Shuffled d.tpms e.tpms
  pub gpus : Shuffled d.gpus e.gpus

All-weaken :
    {A : Type 0} (P Q : A → Type 0) → ((a : A) → P a → Q a) → (xs : List A) → All P xs → All Q xs
All-weaken P Q f [] h = tt
All-weaken P Q f (x ∷ xs) (p, h) = (f x p, All-weaken P Q f xs h)

All-In : {A : Type 0} (xs : List A) → All (λ a. In a xs) xs
All-In [] = tt
All-In (x ∷ xs) =
    (inl refl, All-weaken (λ a. In a xs) (λ a. In a (x ∷ xs)) (λ a h. inr h) xs (All-In xs))

sorted-Shuffled :
    {A : Type 0} (key : A → String) (c c' : Option A → String) {xs ys : List (Option A)}
    → TellsApart (key_or key) xs
    → Shuffled xs ys
    → sorted key c xs ≡ sorted key c' ys
unfolding sorted
sorted-Shuffled key c c' {xs} {ys} inj s =
    sort_by-two_contents (λ a. In a xs) (key_or key) c c' inj xs ys s (All-In xs)

map_agree :
    {A B : Type 0} (P : A → Type 0) (f g : A → B)
    → ((a : A) → P a → f a ≡ g a)
    → (xs : List A) → All P xs
    → map f xs ≡ map g xs
map_agree P f g e [] h = refl
map_agree P f g e (x ∷ xs) (p, h) = λ i. e x p i ∷ map_agree P f g e xs h i

module _ (k k' : Contents) where
  sort_ports-agree :
      (n : Option Nic) → PortsDiffer n → Option.map (sort_ports k) n ≡ Option.map (sort_ports k') n
  sort_ports-agree none h = refl
  sort_ports-agree (some n) h =
      let e = sorted-Shuffled nic_port_key k.of_port k'.of_port h (same n.nic_ports) in
      λ i. some (record n { nic_ports = e i })

  sort_bmc-agree :
      (b : Option BmcPart)
      → BmcPortsDiffer b
      → Option.map (sort_bmc_ports k) b ≡ Option.map (sort_bmc_ports k') b
  sort_bmc-agree none h = refl
  sort_bmc-agree (some b) h = let e = sort_ports-agree b.nic h in λ i. some (record b { nic = e i })

  sort_nics :
      (d e : Device)
      → Distinct d
      → Shuffled d.nics e.nics
      → map (Option.map (sort_ports k)) (sorted nic_key k.of_nic d.nics)
        ≡ map (Option.map (sort_ports k')) (sorted nic_key k'.of_nic e.nics)
  unfolding sorted
  sort_nics d e t s =
      map_agree PortsDiffer (Option.map (sort_ports k)) (Option.map (sort_ports k'))
        sort_ports-agree (sorted nic_key k.of_nic d.nics)
        (All-sort_by PortsDiffer (key_then_content (key_or nic_key) k.of_nic)
          (key_then_content (key_or nic_key) k.of_nic) (λ a b p q. refl) d.nics t.ports)
      ∙ ap (map (Option.map (sort_ports k'))) (sorted-Shuffled nic_key k.of_nic k'.of_nic t.nic s)

  -- `sortDevice` brings two reports of the same parts, each list in an order of its own but for the
  -- ports of an interface, to the same device, whatever the texts of the parts are at each of the two
  -- calls, where the keys tell the parts of a list apart.
  pub sort_device-SameParts :
      (d e : Device) → Distinct d → SameParts d e → sort_device k d ≡ sort_device k' e
  unfolding sort_device
  sort_device-SameParts d e t s = λ i. record {
    common = s.common i;
    bios = s.bios i;
    bmc = (sort_bmc-agree d.bmc t.bmc_ports ∙ ap (Option.map (sort_bmc_ports k')) s.bmc) i;
    mainboard = s.mainboard i;
    cpus = sorted-Shuffled cpu_key k.of_cpu k'.of_cpu t.cpu s.cpus i;
    memory = sorted-Shuffled memory_key k.of_memory k'.of_memory t.memory s.memory i;
    nics = sort_nics d e t s.nics i;
    drives = sorted-Shuffled drive_key k.of_drive k'.of_drive t.drive s.drives i;
    storage_controllers =
        sorted-Shuffled storage_controller_key k.of_controller k'.of_controller t.controller
          s.storage_controllers i;
    psus = sorted-Shuffled psu_key k.of_psu k'.of_psu t.psu s.psus i;
    tpms = sorted-Shuffled tpm_key k.of_tpm k'.of_tpm t.tpm s.tpms i;
    gpus = sorted-Shuffled gpu_key k.of_gpu k'.of_gpu t.gpu s.gpus i;
  }
