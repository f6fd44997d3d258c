-- ===== src/Rufio/Inventory/Settled.antt =====
-- An inventory that a BMC reports again, in another order, is not written again.
use tinkerbell.Base.{ℕ, ℤ, String, Bool, Option}
use mathlib.Core.Option
use tinkerbell.Rufio.Machine.{Machines, Collector}
use tinkerbell.Rufio.Inventory.Objects.{Attributes}
use tinkerbell.Rufio.Inventory.Parts.{Device}
use tinkerbell.Rufio.Inventory.Convert.{attributes_of}
use tinkerbell.Rufio.Inventory.{without_time}

module _ {S B : Type 0} (k : Machines S) (now : S → ℕ) (to_uint32 : ℤ → ℕ) (to_int32 : ℤ → ℤ)
    (deep_equal : Option Attributes → Option Attributes → Bool) (m : Collector S B) where
  timeless : String → ℕ → Device → Attributes
  timeless method t d = without_time k (attributes_of to_uint32 to_int32 method t d)
