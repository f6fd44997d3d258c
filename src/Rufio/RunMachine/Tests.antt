-- ===== src/Rufio/RunMachine/Tests.antt =====
-- The theorems about the machines at one machine, its BMC and its hardware.
use tinkerbell.Base.{ℕ, suc, ◌*◌, pos, true, false, [], ◌∷◌, ◌≡◌, refl, ◌-◌, ◌/◌, ltb}
use tinkerbell.Base.Dict.{lookup}
use tinkerbell.Base.Equality.{string_eq}
use tinkerbell.Base.Fallible.{ok, err}
use tinkerbell.Rufio.{Client, Bmc, Requeue}
use tinkerbell.Rufio.Access.{credentials, resolve_auth_secret_ref}
use tinkerbell.Rufio.RunTask.{then_close}
use tinkerbell.Rufio.Machine.{Reconciler}
use tinkerbell.Rufio.Inventory.{
  Floats, is_set, refresh_inventory_annotation, disable_out_of_band_inventory_annotation,
  reconcile_inventory, apply_out_of_band_attributes, apply_hardware_out_of_band,
  find_linked_hardware, due_for_inventory_refresh, inventory_jitter, clear_refresh_annotation,
}
use tinkerbell.Rufio.RunMachine.{
  observed, returned, check_machine, do_reconcile, reconcile_inventory_if_due, with_hardware,
  after_collection,
}
use tinkerbell.Rufio.RunMachine.Reported.{Reported, do_reconcile-Reported}
use tinkerbell.Rufio.RunMachine.Overwritten.{check_machine-answered}
use tinkerbell.Rufio.Inventory.Memory.{
  contents, hardware, connection, machine, asked, machines, collector, number_of, integer_of,
  same_method, now, written, first_is_written,
}

abbrev client : Client ℕ
client = record {
  now = now;
  get_job = λ n ns s. (err (record { is_not_found = true; text = "" }), s);
  get_task = λ n ns s. (err (record { is_not_found = true; text = "" }), s);
  get_connection = λ n ns s. (ok connection, s);
  list_tasks = λ n ns s. (ok [], s);
  create_task = λ t s. (ok tt, suc s);
  patch_job = λ j s. (ok tt, suc s);
  patch_task = λ t s. (ok tt, suc s);
  secret_data = λ ref s. (ok (("username", "u") ∷ ("password", "p") ∷ []), s);
}

abbrev bmc : Bmc ℕ (Unit {0})
bmc = record {
  open_connection = λ k user secrets s. (ok tt, s);
  close_connection = λ b s. s;
  set_power_state = λ b p s. (ok true, suc s);
  set_boot_device = λ b d p e s. (ok true, suc s);
  set_virtual_media = λ b k u s. (ok true, suc s);
  get_power_state = λ b s. (ok "Off", s);
}

-- Whole numbers in the place of floats.
abbrev floats : Floats ℕ
floats = record {
  of_number = λ n. n;
  fraction = 0;
  times = λ a b. a * b;
  minus = λ a b. a - b;
  over = λ a b. a / b;
  is_positive = λ a. ltb 0 a;
  truncate = λ a. pos a;
}

abbrev reconciler : Reconciler
reconciler = record {
  power_check_interval = 180;
  inventory_refresh_interval = 86400;
  inventory_collection_enabled = true;
}

not_asked : is_set refresh_inventory_annotation (machine []).annotations ≡ false
unfolding is_set lookup
not_asked = refl

abbrev PassEnds : Type 0
PassEnds =
    do_reconcile client machines bmc collector floats contents number_of integer_of same_method
      reconciler (machine []) 0
    ≡ (ok (Requeue.requeue_after 180), 2)

machine_is_checked : PassEnds
unfolding do_reconcile credentials resolve_auth_secret_ref lookup string_eq then_close check_machine
    reconcile_inventory_if_due with_hardware find_linked_hardware observed is_set
    due_for_inventory_refresh after_collection reconcile_inventory apply_out_of_band_attributes
    apply_hardware_out_of_band clear_refresh_annotation returned inventory_jitter
machine_is_checked = refl

do_reconcile-Reported_example :
    Reported client machines bmc collector floats contents number_of integer_of same_method
      reconciler
      (machine [])
      0
      (Requeue.requeue_after 180)
do_reconcile-Reported_example =
    do_reconcile-Reported client machines bmc collector floats contents number_of integer_of
      same_method reconciler (machine []) 0 2 (Requeue.requeue_after 180) not_asked
      machine_is_checked

is_asked : is_set refresh_inventory_annotation (machine asked).annotations ≡ true
unfolding is_set lookup string_eq
is_asked = refl

not_disabled : is_set disable_out_of_band_inventory_annotation hardware.annotations ≡ false
unfolding is_set lookup
not_disabled = refl

-- The BMC answered that the machine is off; the status that is patched says that it is on.
check_machine-answered_example :
    check_machine client machines bmc collector floats contents number_of integer_of same_method
      reconciler
      (machine asked)
      tt
      0
    ≡ (
      returned client machines bmc collector floats contents number_of integer_of same_method
          reconciler
          (ok "Off")
          (machines.patch_status (machine []) (machine asked) 2).0,
      (machines.patch_status (machine []) (machine asked) 2).1,
    )
check_machine-answered_example =
    check_machine-answered client machines bmc collector floats contents number_of integer_of
      same_method reconciler (machine asked) (machine []) tt hardware written (ok "Off") 0 0 0 1 2
      refl is_asked not_disabled refl refl first_is_written refl
