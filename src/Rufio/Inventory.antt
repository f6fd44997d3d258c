-- ===== src/Rufio/Inventory.antt =====
-- The inventory of a BMC (rufio/internal/controller/inventory.go): when it is due, the hardware that it
-- belongs to, and how it is written. The floats of the jitter and the comparison of attributes
-- (equality.Semantic) are arguments.
pub mod Objects
pub mod Parts
pub mod Components
pub mod Convert
pub mod Order
pub mod Sorted
pub mod Settled
pub mod Memory
mod Tests
use Prim.Native.Nat.{bit_xor}
use Prim.Native.Char.{code}
use Prim.Native.String.{◌++◌ as text_append}
use Prim.Native.String as Native
use tinkerbell.Base.{
  ℕ, suc, ◌+◌, ◌*◌, ◌%◌, ◌^◌, ℤ, pos, negsuc, String, Bool, true, false, Option, none, some, List,
  [], ◌∷◌, if◌then◌else◌, ltb,
}
use tinkerbell.Base.Dict.{Dict, lookup}
use tinkerbell.Base.Equality.{◌==◌, string_eq}
use tinkerbell.Base.Fallible.{Result, ok, err, Exec, pure, fail, map_err, ◌>>=◌, ◌>>◌}
use tinkerbell.Rufio.{Client}
use tinkerbell.Rufio.Machine.{Machine, LinkedHardware, Machines, Collector}
use tinkerbell.Rufio.Inventory.Objects.{Attributes}
use tinkerbell.Rufio.Inventory.Parts.{Device}
use tinkerbell.Rufio.Inventory.Convert.{attributes_from_device}
use tinkerbell.Rufio.Inventory.Sorted.{Contents, sort_device}
use mathlib.Core.Option

abbrev pub refresh_inventory_annotation : String
refresh_inventory_annotation = "tinkerbell.org/refresh-inventory"

abbrev pub disable_out_of_band_inventory_annotation : String
disable_out_of_band_inventory_annotation = "tinkerbell.org/disable-outofband-inventory"

abbrev is_text : Option String → String → Bool
is_text none t = false
is_text (some v) t = v == t

-- `annotations[key] == "true"`
unfoldable pub is_set : String → Dict String String → Bool
is_set key m = is_text (lookup key m) "true"

-- `delete`
unfoldable pub erase : String → Dict String String → Dict String String
erase key [] = []
erase key ((j, v) ∷ m) = if key == j then erase key m else (j, v) ∷ erase key m

-- The standard library's 32-bit FNV-1a hash, of a text of ASCII characters.
abbrev hash_from : ℕ → String → ℕ
hash_from h Native.[] = h
hash_from h (Native.◌∷◌ c s) = hash_from (bit_xor h (code c) * 16777619 % 2 ^ 32) s

abbrev pub fnv32a : String → ℕ
fnv32a s = hash_from 2166136261 s

-- Go's float64 and the operations of the jitter; `fraction` is 0.1.
pub record Floats (F : Type 0) : Type 0 where
  pub of_number : ℕ → F
  pub fraction : F
  pub times : F → F → F
  pub minus : F → F → F
  pub over : F → F → F
  pub is_positive : F → Bool
  pub truncate : F → ℤ

-- `inventoryJitter`
unfoldable pub inventory_jitter : {F : Type 0} → Floats F → Machine → ℕ → ℤ
inventory_jitter f bm interval =
    let max_jitter = f.times (f.of_number interval) f.fraction in
    let hash = fnv32a (text_append bm.namespace (text_append "/" bm.name)) in
    let frac = f.over (f.of_number hash) (f.of_number (2 ^ 32)) in
    if f.is_positive max_jitter
    then f.truncate (f.minus (f.times (f.times frac (f.of_number 2)) max_jitter) max_jitter)
    else pos 0

-- Whether more than an interval and a jitter lies between the two times.
abbrev pub elapsed : ℕ → ℕ → ℕ → ℤ → Bool
elapsed last now interval (pos j) = ltb (last + interval + j) now
elapsed last now interval (negsuc j) = ltb (last + interval) (now + suc j)

abbrev pub stale : Option Attributes → ℕ → ℕ → ℤ → Bool
stale none now interval jitter = true
stale (some a) now interval jitter = elim a.last_updated [
  | none ↦ true
  | some last ↦ elapsed last now interval jitter
]

-- `dueForInventoryRefresh`, at the time `now`.
unfoldable pub due_for_inventory_refresh :
    {F : Type 0} → Floats F → ℕ → LinkedHardware → Machine → ℕ → Bool
unfolding is_set inventory_jitter
due_for_inventory_refresh f now hw bm interval =
    if is_set refresh_inventory_annotation bm.annotations
    then true
    else stale hw.out_of_band now interval (inventory_jitter f bm interval)

module _ {S : Type 0} (k : Machines S) where
  -- `clearRefreshInventoryAnnotation`: the machine that the caller goes on with.
  after_clear : Machine → Result String Machine → Machine
  after_clear bm (ok answered) = answered
  after_clear bm (err e) = bm

  unfoldable pub clear_refresh_annotation : Machine → S → Machine × S
  unfolding after_clear
  clear_refresh_annotation bm s =
      let cleared = record bm { annotations = erase refresh_inventory_annotation bm.annotations } in
      let r = k.retry (k.patch_machine cleared bm) s in
      if is_set refresh_inventory_annotation bm.annotations
      then (after_clear cleared r.0, r.1)
      else (bm, s)

  linked : Machine → List LinkedHardware → Result String (Option LinkedHardware)
  linked bm [] = ok none
  linked bm (hw ∷ []) = ok (some hw)
  linked bm (hw ∷ _ ∷ _) = err (
      text_append "ambiguous Hardware link for Machine "
        (text_append bm.namespace (text_append "/" bm.name)))

  found : Machine → Result String (List LinkedHardware) → Result String (Option LinkedHardware)
  unfolding linked
  found bm (ok hws) = linked bm hws
  found bm (err e) = err (text_append "failed to list Hardware for Machine: " e)

  -- `findLinkedHardware`
  unfoldable pub find_linked_hardware : Machine → Exec S String (Option LinkedHardware)
  unfolding found
  find_linked_hardware bm s = let r = k.list_hardware bm.namespace bm.name s in (found bm r.0, r.1)

  -- `applyHardwareOutOfBand`
  unfoldable pub apply_hardware_out_of_band :
      LinkedHardware → Attributes → Exec S String LinkedHardware
  apply_hardware_out_of_band hw a = do
    map_err (text_append "failed to apply Hardware status.attributes.outOfBand: ")
        (k.apply_hardware hw.name hw.namespace a)
    pure (record hw { out_of_band = some a })

  abbrev pub without_time : Attributes → Attributes
  without_time a = record a { last_updated = none }

  module _ (now : S → ℕ) (contents : Contents) (to_uint32 : ℤ → ℕ) (to_int32 : ℤ → ℤ)
      (deep_equal : Option Attributes → Option Attributes → Bool) where
    -- What is written when the BMC had nothing to report.
    abbrev pub carried : ℕ → String → Option Attributes → Attributes
    carried t method none = record {
      last_updated = some t;
      collection_method = method;
      cpu = none;
      memory = none;
      block_devices = [];
      network_interfaces = [];
      gpu_devices = [];
      pci_devices = [];
      chassis = none;
      baseboard = none;
      bios = none;
      product = none;
      bmc = none;
      psus = [];
      tpms = [];
      storage_controllers = [];
    }
    carried t method (some a) = record a { last_updated = some t; collection_method = method }

    write_if_changed :
        LinkedHardware → Option Attributes → ℕ → String → Exec S String LinkedHardware
    write_if_changed hw none t method =
        apply_hardware_out_of_band hw (carried t method hw.out_of_band)
    write_if_changed hw (some a) t method =
        if deep_equal (Option.map without_time hw.out_of_band) (some (without_time a))
        then pure hw
        else apply_hardware_out_of_band hw a

    -- `applyOutOfBandAttributes`
    unfoldable pub apply_out_of_band_attributes :
        LinkedHardware → Option Device → String → Exec S String LinkedHardware
    unfolding write_if_changed
    apply_out_of_band_attributes hw device method s =
        let t = now s in
        write_if_changed hw (attributes_from_device to_uint32 to_int32 method t device) t method s

    module _ {B : Type 0} (m : Collector S B) where
      -- `reconcileInventory`
      unfoldable pub reconcile_inventory : B → LinkedHardware → Exec S String LinkedHardware
      reconcile_inventory b hw = do
        device ← map_err (text_append "get BMC inventory: ") (m.inventory b)
        (λ s.
            apply_out_of_band_attributes hw (Option.map (sort_device contents) device)
              (m.successful_provider b s) s)
