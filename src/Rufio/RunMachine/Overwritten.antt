-- ===== src/Rufio/RunMachine/Overwritten.antt =====
-- What a pass writes after a refresh of the inventory that the annotation asked for.
use tinkerbell.Base.{ℕ, ℤ, String, Bool, true, false, Option, some, [], ◌∷◌, ◌≡◌, refl, ap, ◌∙◌}
use tinkerbell.Base.Fallible.{Result, ok}
use tinkerbell.Rufio.{Client, Bmc}
use tinkerbell.Rufio.Machine.{Machine, LinkedHardware, Machines, Collector, Reconciler}
use tinkerbell.Rufio.Inventory.{
  Floats, is_set, refresh_inventory_annotation, disable_out_of_band_inventory_annotation, erase,
  clear_refresh_annotation, find_linked_hardware, reconcile_inventory, due_for_inventory_refresh,
}
use tinkerbell.Rufio.Inventory.Objects.{Attributes}
use tinkerbell.Rufio.Inventory.Sorted.{Contents}
use tinkerbell.Rufio.RunMachine.{
  observed, after_collection, with_hardware, reconcile_inventory_if_due, returned, check_machine,
}
use tinkerbell.Rufio.RunMachine.Reported.{observed-annotations, observed-named}

module _ {S B F : Type 0} (c : Client S) (k : Machines S) (m : Bmc S B) (col : Collector S B)
    (f : Floats F) (contents : Contents) (to_uint32 : ℤ → ℕ) (to_int32 : ℤ → ℤ)
    (deep_equal : Option Attributes → Option Attributes → Bool) (r : Reconciler) where
  refreshed :
      (b : B) (seen : Machine) (hw hw' : LinkedHardware) (answered : Machine) (s s₁ s₂ s₃ : S)
      → r.inventory_collection_enabled ≡ true
      → is_set refresh_inventory_annotation seen.annotations ≡ true
      → find_linked_hardware k seen s ≡ (ok (some hw), s₁)
      → is_set disable_out_of_band_inventory_annotation hw.annotations ≡ false
      → reconcile_inventory k c.now contents to_uint32 to_int32 deep_equal col b hw s₁
        ≡ (ok hw', s₂)
      → clear_refresh_annotation k seen s₂ ≡ (answered, s₃)
      → reconcile_inventory_if_due c k m col f contents to_uint32 to_int32 deep_equal r b seen s
        ≡ (answered, s₃)
  unfolding reconcile_inventory_if_due with_hardware after_collection due_for_inventory_refresh
  refreshed b seen hw hw' answered s s₁ s₂ s₃ e a l d i p =
      rw (e, l, with_hardware, d, due_for_inventory_refresh, a, i) p

  cleared :
      (seen answered : Machine) (s s₁ : S)
      → is_set refresh_inventory_annotation seen.annotations ≡ true
      → k.retry
          (k.patch_machine
            (record seen { annotations = erase refresh_inventory_annotation seen.annotations })
            seen)
          s
        ≡ (ok answered, s₁)
      → clear_refresh_annotation k seen s ≡ (answered, s₁)
  unfolding clear_refresh_annotation
  cleared seen answered s s₁ a h = rw (a, h) refl

  listed :
      (seen : Machine) (namespace name : String) (hw : LinkedHardware) (s s₁ : S)
      → seen.namespace ≡ namespace
      → seen.name ≡ name
      → k.list_hardware namespace name s ≡ (ok (hw ∷ []), s₁)
      → find_linked_hardware k seen s ≡ (ok (some hw), s₁)
  unfolding find_linked_hardware
  listed seen namespace name hw s s₁ e e' h = rw (e, e', h) refl

  -- A pass that collects an inventory because the annotation asked for it patches the status of the
  -- machine that the server answered when the annotation was removed, whatever the BMC answered about
  -- its power.
  pub check_machine-answered :
      (bm answered : Machine) (b : B) (hw hw' : LinkedHardware) (power : Result String String)
      (s s₁ s₂ s₃ s₄ : S)
      → r.inventory_collection_enabled ≡ true
      → is_set refresh_inventory_annotation bm.annotations ≡ true
      → is_set disable_out_of_band_inventory_annotation hw.annotations ≡ false
      → m.get_power_state b s ≡ (power, s₁)
      → k.list_hardware bm.namespace bm.name s₁ ≡ (ok (hw ∷ []), s₂)
      → reconcile_inventory k c.now contents to_uint32 to_int32 deep_equal col b hw s₂
        ≡ (ok hw', s₃)
      → k.retry
          (k.patch_machine
            (record (observed (c.now s₁) power bm) {
              annotations =
                  erase refresh_inventory_annotation (observed (c.now s₁) power bm).annotations;
            })
            (observed (c.now s₁) power bm))
          s₃
        ≡ (ok answered, s₄)
      → check_machine c k m col f contents to_uint32 to_int32 deep_equal r bm b s ≡ (
        returned c k m col f contents to_uint32 to_int32 deep_equal r power
            (k.patch_status answered bm s₄).0,
        (k.patch_status answered bm s₄).1,
      )
  unfolding check_machine
  check_machine-answered bm answered b hw hw' power s s₁ s₂ s₃ s₄ e a d g l i p =
      let seen = observed (c.now s₁) power bm in
      let same = observed-annotations (c.now s₁) power bm in
      let named = observed-named (c.now s₁) power bm in
      let set : is_set refresh_inventory_annotation seen.annotations ≡ true =
        ap (is_set refresh_inventory_annotation) same ∙ a in
      let step =
        refreshed b seen hw hw' answered s₁ s₂ s₃ s₄ e set
          (listed seen bm.namespace bm.name hw s₁ s₂ named.1 named.0 l) d i
          (cleared seen answered s₃ s₄ set p) in
      rw (g, step) refl
