-- ===== src/Rufio/RunMachine.antt =====
-- The reconciler of machines (rufio/internal/controller/machine.go).
pub mod Reported
pub mod Overwritten
mod Tests
use Prim.Native.String.{◌++◌ as text_append}
use tinkerbell.Base.{
  ℕ, ℤ, String, Bool, true, false, Option, none, some, List, if◌then◌else◌, not, ◌||◌,
}
use tinkerbell.Base.Dict.{Dict}
use tinkerbell.Base.Fallible.{Result, ok, err, Exec, pure, fail, map_err, ◌>>=◌, ◌>>◌}
use tinkerbell.Rufio.{Requeue, Halt, ReadError, Client, Bmc}
use tinkerbell.Rufio.Access.{PowerState, to_power_state, credentials}
use tinkerbell.Rufio.RunTask.{then_close}
use tinkerbell.Rufio.Machine.{
  Machine, MachineStatus, LinkedHardware, Machines, Collector, Reconciler, contactable,
  set_condition,
}
use tinkerbell.Rufio.Inventory.{
  Floats, is_set, disable_out_of_band_inventory_annotation, due_for_inventory_refresh,
  find_linked_hardware, reconcile_inventory, clear_refresh_annotation,
}
use tinkerbell.Rufio.Inventory.Objects.{Attributes}
use tinkerbell.Rufio.Inventory.Sorted.{Contents}

-- The status of a machine with a power state and the condition `Contactable`.
abbrev pub with_power : ℕ → PowerState → Bool → String → Machine → Machine
with_power now power st message bm = record bm {
  status = record {
    power = some power;
    conditions = set_condition now contactable st message bm.status.conditions;
  };
}

-- `updatePowerState` and the condition that is set by its outcome.
unfoldable pub observed : ℕ → Result String String → Machine → Machine
observed now (ok raw) bm = with_power now (to_power_state raw) true "" bm
observed now (err e) bm =
    with_power now PowerState.unknown false (text_append "get power state: " e) bm

module _ {S B F : Type 0} (c : Client S) (k : Machines S) (m : Bmc S B) (col : Collector S B)
    (f : Floats F) (contents : Contents) (to_uint32 : ℤ → ℕ) (to_int32 : ℤ → ℤ)
    (deep_equal : Option Attributes → Option Attributes → Bool) (r : Reconciler) where
  unfoldable pub after_collection : Machine → Result String LinkedHardware → S → Machine × S
  after_collection bm (ok hw) s = clear_refresh_annotation k bm s
  after_collection bm (err e) s = (bm, s)

  unfoldable pub with_hardware :
      B → Machine → Result String (Option LinkedHardware) → S → Machine × S
  with_hardware b bm (err e) s = (bm, s)
  with_hardware b bm (ok none) s = (bm, s)
  with_hardware b bm (ok (some hw)) s =
      let skip =
        is_set disable_out_of_band_inventory_annotation hw.annotations
        || not (due_for_inventory_refresh f (c.now s) hw bm r.inventory_refresh_interval) in
      let done = reconcile_inventory k c.now contents to_uint32 to_int32 deep_equal col b hw s in
      if skip then (bm, s) else after_collection bm done.0 done.1

  -- `reconcileInventoryIfDue`: the machine that the caller goes on with.
  unfoldable pub reconcile_inventory_if_due : B → Machine → S → Machine × S
  reconcile_inventory_if_due b bm s =
      let found = find_linked_hardware k bm s in
      if r.inventory_collection_enabled then with_hardware b bm found.0 found.1 else (bm, s)

  abbrev power_error : Result String String → Result String (Unit {0}) → String
  power_error _ (ok _) = ""
  power_error (ok raw) (err p) = p
  power_error (err e) (err p) = text_append "get power state: " (text_append e (text_append ", " p))

  -- What a pass returns after the patch of the status.
  unfoldable pub returned : Result String String → Result String (Unit {0}) → Result Halt Requeue
  returned power (ok _) = ok (Requeue.requeue_after r.power_check_interval)
  returned power (err p) = err (Halt.failure (power_error power (err p)))

  -- The work over an open connection.
  unfoldable pub check_machine : Machine → B → Exec S Halt Requeue
  unfolding returned
  check_machine bm b s =
      let power = m.get_power_state b s in
      let (bm', s') = reconcile_inventory_if_due b (observed (c.now power.1) power.0 bm) power.1 in
      let patched = k.patch_status bm' bm s' in (returned power.0 patched.0, patched.1)

  unreachable : String → Result String (Unit {0}) → Result Halt Requeue
  unreachable e (ok _) = ok (Requeue.requeue_after r.power_check_interval)
  unreachable e (err p) = err (Halt.failure (text_append p (text_append ", " e)))

  opened : Machine → Result String B → Exec S Halt Requeue
  unfolding unreachable
  opened bm (ok b) s = then_close c m b (check_machine bm b) s
  opened bm (err e) s =
      let patched = k.patch_status (with_power (c.now s) PowerState.unknown false e bm) bm s in
      (unreachable e patched.0, patched.1)

  -- `doReconcile`
  unfoldable pub do_reconcile : Machine → Exec S Halt Requeue
  unfolding opened
  do_reconcile bm = do
    (user, secrets) ← credentials c "resolving Machine SecretReference: " bm.connection
    (λ s. let got = m.open_connection bm.connection user secrets s in opened bm got.0 got.1)

  got_machine : Result ReadError (Bool × Machine) → Exec S Halt Requeue
  got_machine (ok (deleting, bm)) = if deleting then pure Requeue.no_requeue else do_reconcile bm
  got_machine (err e) =
      if e.is_not_found then pure Requeue.no_requeue else fail (Halt.failure e.text)

  -- `Reconcile`, for the name and namespace of a machine.
  unfoldable pub reconcile : String → String → Exec S Halt Requeue
  unfolding got_machine
  reconcile name namespace s = let got = k.get_machine name namespace s in got_machine got.0 got.1
