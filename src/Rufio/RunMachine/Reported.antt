-- ===== src/Rufio/RunMachine/Reported.antt =====
-- What a pass over a machine reports.
use Prim.Native.String.{◌++◌ as text_append}
use tinkerbell.Base.{
  ℕ, ℤ, List, String, Bool, true, false, Option, none, some, ◌≡◌, refl, arith, ◌⊎◌, inl, inr, ap,
}
use tinkerbell.Base.Fallible.{Result, ok, err, continue-ok}
use tinkerbell.Rufio.{Requeue, Halt, Client, Bmc}
use tinkerbell.Rufio.Access.{PowerState, to_power_state, credentials}
use tinkerbell.Rufio.RunTask.{then_close}
use tinkerbell.Rufio.Machine.{
  Machine, LinkedHardware, Machines, Collector, Reconciler, contactable, condition_of,
  condition-set_condition,
}
use tinkerbell.Rufio.Inventory.{
  Floats, is_set, refresh_inventory_annotation, clear_refresh_annotation, find_linked_hardware,
  reconcile_inventory,
}
use tinkerbell.Rufio.Inventory.Objects.{Attributes}
use tinkerbell.Rufio.Inventory.Sorted.{Contents}
use tinkerbell.Rufio.RunMachine.{
  with_power, observed, after_collection, with_hardware, reconcile_inventory_if_due, returned,
  check_machine, unreachable, opened, do_reconcile,
}

-- The status tells the power state and whether the BMC was reached.
abbrev pub Tells : Machine → PowerState → Bool → String → Type 0
Tells bm power st message =
    (bm.status.power ≡ some power)
    × (condition_of contactable bm.status.conditions ≡ some (st, message))

with_power-Tells :
    (now : ℕ) (power : PowerState) (st : Bool) (message : String) (bm : Machine)
    → Tells (with_power now power st message bm) power st message
with_power-Tells now power st message bm = (
  refl,
  ground
      (arith, condition-set_condition now contactable contactable st message bm.status.conditions),
)

-- What the answer of the BMC about its power makes of the status.
abbrev pub TellsPower : Machine → Result String String → Type 0
TellsPower bm (ok raw) = Tells bm (to_power_state raw) true ""
TellsPower bm (err e) = Tells bm PowerState.unknown false (text_append "get power state: " e)

observed-TellsPower :
    (now : ℕ) (power : Result String String) (bm : Machine)
    → TellsPower (observed now power bm) power
unfolding observed
observed-TellsPower now (ok raw) bm = with_power-Tells now (to_power_state raw) true "" bm
observed-TellsPower now (err e) bm =
    with_power-Tells now PowerState.unknown false (text_append "get power state: " e) bm

pub observed-annotations :
    (now : ℕ) (power : Result String String) (bm : Machine)
    → (observed now power bm).annotations ≡ bm.annotations
unfolding observed
observed-annotations now (ok raw) bm = refl
observed-annotations now (err e) bm = refl

pub observed-named :
    (now : ℕ) (power : Result String String) (bm : Machine)
    → ((observed now power bm).name ≡ bm.name) × ((observed now power bm).namespace ≡ bm.namespace)
unfolding observed
observed-named now (ok raw) bm = (refl, refl)
observed-named now (err e) bm = (refl, refl)

module _ {S B F : Type 0} (c : Client S) (k : Machines S) (m : Bmc S B) (col : Collector S B)
    (f : Floats F) (contents : Contents) (to_uint32 : ℤ → ℕ) (to_int32 : ℤ → ℤ)
    (deep_equal : Option Attributes → Option Attributes → Bool) (r : Reconciler) where
  clear-unset :
      (bm : Machine) (s : S)
      → is_set refresh_inventory_annotation bm.annotations ≡ false
      → clear_refresh_annotation k bm s ≡ (bm, s)
  unfolding clear_refresh_annotation
  clear-unset bm s h = rw h refl

  collection-unset :
      (bm : Machine) (done : Result String LinkedHardware) (s : S)
      → is_set refresh_inventory_annotation bm.annotations ≡ false
      → (after_collection c k m col f contents to_uint32 to_int32 deep_equal r bm done s).0 ≡ bm
  unfolding after_collection
  collection-unset bm (ok hw) s h = ap (λ (x : Machine × S). x.0) (clear-unset bm s h)
  collection-unset bm (err e) s h = refl

  with_hardware-unset :
      (b : B) (bm : Machine) (found : Result String (Option LinkedHardware)) (s : S)
      → is_set refresh_inventory_annotation bm.annotations ≡ false
      → (with_hardware c k m col f contents to_uint32 to_int32 deep_equal r b bm found s).0 ≡ bm
  unfolding with_hardware
  with_hardware-unset b bm (err e) s h = refl
  with_hardware-unset b bm (ok none) s h = refl
  with_hardware-unset b bm (ok (some hw)) s h =
      let done = reconcile_inventory k c.now contents to_uint32 to_int32 deep_equal col b hw s in
      ground (arith, collection-unset bm done.0 done.1 h)

  -- Without the annotation that asks for a refresh, the inventory leaves the machine as it is.
  pub reconcile_inventory_if_due-unset :
      (b : B) (bm : Machine) (s : S)
      → is_set refresh_inventory_annotation bm.annotations ≡ false
      → (reconcile_inventory_if_due c k m col f contents to_uint32 to_int32 deep_equal r b bm s).0
        ≡ bm
  unfolding reconcile_inventory_if_due
  reconcile_inventory_if_due-unset b bm s h =
      let found = find_linked_hardware k bm s in
      ground (arith, with_hardware-unset b bm found.0 found.1 h)

  -- The BMC was opened with the credentials that were read for the machine from the state `s`, and the
  -- attempt gave `got`.
  abbrev pub Opened : Machine → S → Result String B × S → Type 0
  Opened bm s got =
      (user : String × String) × (secrets : List (String × List String)) × (s₀ : S) × (credentials c
          "resolving Machine SecretReference: " bm.connection s
        ≡ (ok (user, secrets), s₀))
      × (m.open_connection bm.connection user secrets s₀ ≡ got)

  -- What a pass that begins in `s` and ends well has done: it comes back after the interval, and the
  -- last write is the status of the machine. It tells that the BMC could not be opened, or what it
  -- answered about its power when it was asked over the connection that was opened.
  pub record Reported (bm : Machine) (s : S) (req : Requeue) : Type 0 where
    pub later : req ≡ Requeue.requeue_after r.power_check_interval
    pub written : Machine
    pub from_state : S
    pub to_state : S
    pub patched : k.patch_status written bm from_state ≡ (ok tt, to_state)
    pub why :
        ((e : String) × Opened bm s (err e, from_state) × Tells written PowerState.unknown false e)
        ⊎ ((b : B) × (s₁ : S) × (power : Result String String) × (s₂ : S) × Opened bm s (ok b, s₁)
            × (m.get_power_state b s₁ ≡ (power, s₂))
            × TellsPower written power)

  checked-Reported :
      (bm : Machine) (b : B) (s s₀ : S) (power : Result String String) (s₁ : S) (bm' : Machine)
      (s₂ : S) (p : Result String (Unit {0})) (s₃ : S) (req : Requeue)
      → Opened bm s (ok b, s₀)
      → m.get_power_state b s₀ ≡ (power, s₁)
      → TellsPower bm' power
      → k.patch_status bm' bm s₂ ≡ (p, s₃)
      → returned c k m col f contents to_uint32 to_int32 deep_equal r power p ≡ ok req
      → Reported bm s req
  unfolding returned
  checked-Reported bm b s s₀ power s₁ bm' s₂ (ok u) s₃ req o g t q h = record {
    later = ground (arith, h);
    written = bm';
    from_state = s₂;
    to_state = s₃;
    patched = q;
    why = inr (b, s₀, power, s₁, o, g, t);
  }
  checked-Reported bm b s s₀ power s₁ bm' s₂ (err e) s₃ req o g t q h = absurd (cc)

  check_machine-Reported :
      (bm : Machine) (b : B) (start s : S) (req : Requeue)
      → is_set refresh_inventory_annotation bm.annotations ≡ false
      → Opened bm start (ok b, s)
      → (check_machine c k m col f contents to_uint32 to_int32 deep_equal r bm b s).0 ≡ ok req
      → Reported bm start req
  unfolding check_machine
  check_machine-Reported bm b start s req u o h =
      let power = m.get_power_state b s in
      let seen = observed (c.now power.1) power.0 bm in
      let same = observed-annotations (c.now power.1) power.0 bm in
      let after =
        reconcile_inventory_if_due c k m col f contents to_uint32 to_int32 deep_equal r b seen
          power.1 in
      let kept = reconcile_inventory_if_due-unset b seen power.1 (rw same u) in
      checked-Reported bm b start s power.0 power.1 after.0 after.1
        (k.patch_status after.0 bm after.1).0 (k.patch_status after.0 bm after.1).1 req o refl
        (rw kept (observed-TellsPower (c.now power.1) power.0 bm)) refl h

  opened-Reported :
      (bm : Machine) (got : Result String B) (s s₁ s' : S) (req : Requeue)
      → is_set refresh_inventory_annotation bm.annotations ≡ false
      → Opened bm s (got, s₁)
      → opened c k m col f contents to_uint32 to_int32 deep_equal r bm got s₁ ≡ (ok req, s')
      → Reported bm s req
  unfolding opened then_close unreachable
  opened-Reported bm (ok b) s s₁ s' req u o h =
      check_machine-Reported bm b s s₁ req u o (ap (λ (x : Result Halt Requeue × S). x.0) h)
  opened-Reported bm (err e) s s₁ s' req u o h =
      lost (k.patch_status (with_power (c.now s₁) PowerState.unknown false e bm) bm s₁) refl
        (ap (λ (x : Result Halt Requeue × S). x.0) h)
    where
      lost :
          (p : Result String (Unit {0}) × S)
          → k.patch_status (with_power (c.now s₁) PowerState.unknown false e bm) bm s₁ ≡ p
          → unreachable c k m col f contents to_uint32 to_int32 deep_equal r e p.0 ≡ ok req
          → Reported bm s req
      lost (ok u', s₂) q l = record {
        later = ground (arith, l);
        written = with_power (c.now s₁) PowerState.unknown false e bm;
        from_state = s₁;
        to_state = s₂;
        patched = q;
        why = inl (e, o, with_power-Tells (c.now s₁) PowerState.unknown false e bm);
      }
      lost (err x, s₂) q l = absurd (cc)

  -- A pass over a machine without the annotation that asks for a refresh of its inventory, which ends
  -- without an error, comes back after the interval of the power check. It has read the credentials of
  -- the machine, tried to open its BMC with them, and written a status: if the BMC was not opened, the
  -- power is unknown and the machine not contactable, with that error; if the opened BMC gave an error
  -- when it was asked for its power, the power is unknown and the machine not contactable, with that
  -- error; otherwise the power is what the BMC answered and the machine is contactable.
  pub do_reconcile-Reported :
      (bm : Machine) (s s' : S) (req : Requeue)
      → is_set refresh_inventory_annotation bm.annotations ≡ false
      → do_reconcile c k m col f contents to_uint32 to_int32 deep_equal r bm s ≡ (ok req, s')
      → Reported bm s req
  unfolding do_reconcile
  do_reconcile-Reported bm s s' req u h =
      let creds = credentials c "resolving Machine SecretReference: " bm.connection s in
      let got = continue-ok creds.0 _ creds.1 h in
      let o = m.open_connection bm.connection got.0.0 got.0.1 creds.1 in
      opened-Reported bm o.0 s o.1 s' req u
        (got.0.0, got.0.1, creds.1, λ i. (got.1 i, creds.1), refl) got.2
