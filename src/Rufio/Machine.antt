-- ===== src/Rufio/Machine.antt =====
-- The machines of api/v1alpha1/bmc/machine.go with `SetCondition`, the hardware that is linked to one,
-- and the clients that the reconciler of machines works with. The recorder of events is left out, as
-- logging is.
use tinkerbell.Base.{
  ℕ, ◌*◌, ℤ, pos, negsuc, String, Bool, Option, none, some, List, [], ◌∷◌, if◌then◌else◌, ◌≡◌,
  arith, ltb,
}
use tinkerbell.Base.Dict.{Dict}
use tinkerbell.Base.Equality.{◌==◌, string_eq}
use tinkerbell.Base.Fallible.{Exec}
use mathlib.Core.Bool.{Bool-discrete}
use mathlib.Core.Logic.{ite}
use tinkerbell.Rufio.{Connection, ReadError}
use tinkerbell.Rufio.Access.{PowerState}
use tinkerbell.Rufio.Inventory.Objects.{Attributes}
use tinkerbell.Rufio.Inventory.Parts.{Device}

-- `ConditionTrue` and `ConditionFalse` are Booleans.
pub record MachineCondition : Type 0 where
  pub type : String
  pub status : Bool
  pub last_update_time : ℕ
  pub message : String

pub record MachineStatus : Type 0 where
  pub power : Option PowerState
  pub conditions : List MachineCondition

pub record Machine : Type 0 where
  pub name : String
  pub namespace : String
  pub annotations : Dict String String
  pub connection : Connection
  pub status : MachineStatus

abbrev pub contactable : String
contactable = "Contactable"

-- `SetCondition` with a message, at the time `now`: the time moves only with the status.
unfoldable pub set_condition :
    ℕ → String → Bool → String → List MachineCondition → List MachineCondition
set_condition now t st m [] =
    (record { type = t; status = st; last_update_time = now; message = m }) ∷ []
set_condition now t st m (c ∷ cs) =
    if c.type == t
    then (record c {
      status = st;
      last_update_time = ite (Bool-discrete c.status st) c.last_update_time now;
      message = m;
    })
      ∷ cs
    else c ∷ set_condition now t st m cs

-- The first condition of a type.
unfoldable pub condition_of : String → List MachineCondition → Option (Bool × String)
condition_of t [] = none
condition_of t (c ∷ cs) = if c.type == t then some (c.status, c.message) else condition_of t cs

pub condition-set_condition :
    (now : ℕ) (t u : String) (st : Bool) (m : String) (cs : List MachineCondition)
    → condition_of u (set_condition now t st m cs)
      ≡ (if t == u then some (st, m) else condition_of u cs)
unfolding set_condition condition_of
condition-set_condition now t u st m [] = ground arith
condition-set_condition now t u st m (c ∷ cs) =
    ground (arith, condition-set_condition now t u st m cs)

-- What is read of a hardware; `out_of_band` stands for both optional levels of its status.
pub record LinkedHardware : Type 0 where
  pub name : String
  pub namespace : String
  pub annotations : Dict String String
  pub out_of_band : Option Attributes

-- The client of the cluster, with the new and the old object of a patch. `patch_machine` comes back with
-- the object that the server answers, which the client writes over the one it was given. `retry` is the
-- library retry-go with three attempts.
pub record Machines (S : Type 0) : Type 0 where
  pub get_machine : String → String → Exec S ReadError (Bool × Machine)
  pub list_hardware : String → String → Exec S String (List LinkedHardware)
  pub apply_hardware : String → String → Attributes → Exec S String (Unit {0})
  pub patch_machine : Machine → Machine → Exec S String Machine
  pub patch_status : Machine → Machine → Exec S String (Unit {0})
  pub retry : Exec S String Machine → Exec S String Machine

-- The BMC library over an open connection.
pub record Collector (S B : Type 0) : Type 0 where
  pub inventory : B → Exec S String (Option Device)
  pub successful_provider : B → S → String

pub record Reconciler : Type 0 where
  pub power_check_interval : ℕ
  pub inventory_refresh_interval : ℕ
  pub inventory_collection_enabled : Bool

abbrev pub machine_requeue_interval : ℕ
machine_requeue_interval = 3 * 60 * 1000000000

abbrev pub default_inventory_refresh_interval : ℕ
default_inventory_refresh_interval = 24 * 60 * 60 * 1000000000

abbrev pub positive_or : ℤ → ℕ → ℕ
positive_or (pos n) default = if ltb 0 n then n else default
positive_or (negsuc n) default = default

-- `NewMachineReconciler`
abbrev pub new_machine_reconciler : ℤ → ℤ → Bool → Reconciler
new_machine_reconciler check refresh enabled = record {
  power_check_interval = positive_or check machine_requeue_interval;
  inventory_refresh_interval = positive_or refresh default_inventory_refresh_interval;
  inventory_collection_enabled = enabled;
}
