-- ===== src/Rufio/RunTask/Once.antt =====
-- An action is performed once.
use Prim.Native.String.{◌++◌ as text_append}
use tinkerbell.Base.{
  String, Bool, true, false, Option, none, some, ◌≡◌, refl, sym, ap, ◌∙◌, arith, ◌⊎◌, inl, inr,
  List, [], ◌∷◌,
}
use tinkerbell.Base.Fallible.{Result, ok, err, continue, relabel, pure, lift}
use tinkerbell.Api.{BmcAction, PowerAction, OneTimeBootDevice, BootDevice, VirtualMedia}
use tinkerbell.Rufio.{condition_type_eq, Task, Requeue, Halt, Client, Bmc}
use tinkerbell.Rufio.RunJob.{is_completed, is_failed}
use tinkerbell.Rufio.RunTask.Watched.{pair_eq, fail_task-err}
use tinkerbell.Rufio.RunTask.{
  performed, accepted, power_text, got_task, reconcile, run_task, with_task_status, start_task,
  patch_status,
}

-- What the library that talks to the BMC is asked for.
abbrev pub word : PowerAction → String
word PowerAction.power_on = "on"
word PowerAction.power_hard_off = "off"
word PowerAction.power_soft_off = "soft"
word PowerAction.power_cycle = "cycle"
word PowerAction.power_reset = "reset"
word PowerAction.power_status = "status"

module _ {S B : Type 0} (c : Client S) (m : Bmc S B) where
  -- A pass over a task that is being deleted, has failed or is completed reads the task and does
  -- nothing else, so its action is not performed again.
  pub reconcile-finished :
      (name namespace : String) (s s' : S) (deleting : Bool) (t : Task)
      → c.get_task name namespace s ≡ (ok (deleting, t), s')
      → (deleting ≡ true) ⊎ (is_failed t.status ≡ true) ⊎ (is_completed t.status ≡ true)
      → reconcile c m name namespace s ≡ (ok Requeue.no_requeue, s')
  unfolding reconcile got_task
  reconcile-finished name namespace s s' deleting t h d = rw h (ground (arith, d))

  performed-ok :
      (t : Task) (x : Result Halt (Unit {0})) (s s' : S) (r : Requeue)
      → performed c m t x s ≡ (ok r, s')
      → (x ≡ ok tt) × (c.patch_task t s ≡ (ok tt, s')) × (r ≡ Requeue.no_requeue)
  unfolding performed patch_status
  performed-ok t (err (Halt.failure e)) s s' r h = absurd (fail_task-err c m e e t s s' r h)
  performed-ok t (err Halt.panicked) s s' r h = absurd (cc)
  performed-ok t (ok u) s s' r h = let k = patched (c.patch_task t s).0 refl h in (refl, k.0, k.1)
    where
      patched :
          (p : Result String (Unit {0}))
          → (c.patch_task t s).0 ≡ p
          → continue
              (relabel Halt.failure (relabel (text_append "failed to patch Task status: ") p))
              (λ _. pure Requeue.no_requeue)
              (c.patch_task t s).1
            ≡ (ok r, s')
          → (c.patch_task t s ≡ (ok tt, s')) × (r ≡ Requeue.no_requeue)
      patched (ok u) e k = (pair_eq e (ground (arith, k)), ground (arith, k))
      patched (err q) e k = absurd (ground (arith, k))

  word_eq : (p : PowerAction) → power_text p ≡ word p
  word_eq p = ground arith

  -- The call of the BMC that the action asks for, which ended without an error in the state `s'`: a
  -- change of power, a one-time boot device, a boot device, which the BMC accepted, or virtual media,
  -- the first that is given.
  abbrev pub IsAsked : B → BmcAction → S → S → Type 0
  IsAsked b a s s' =
      ((p : PowerAction) × (done : Bool) × (a.power ≡ some p)
        × (m.set_power_state b (word p) s ≡ (ok done, s')))
      ⊎ ((d : OneTimeBootDevice) × (x : String) × (xs : List String) × (done : Bool) × (a.power
            ≡ none)
          × (a.one_time_boot_device ≡ some d)
          × (d.devices ≡ x ∷ xs)
          × (m.set_boot_device b x false d.efi_boot s ≡ (ok done, s')))
      ⊎ ((d : BootDevice) × (a.power ≡ none)
          × (a.one_time_boot_device ≡ none)
          × (a.boot_device ≡ some d)
          × (m.set_boot_device b d.device d.persistent d.efi_boot s ≡ (ok true, s')))
      ⊎ ((d : VirtualMedia) × (done : Bool) × (a.power ≡ none)
          × (a.one_time_boot_device ≡ none)
          × (a.boot_device ≡ none)
          × (a.virtual_media ≡ some d)
          × (m.set_virtual_media b d.kind d.media_url s ≡ (ok done, s')))

  said-ok :
      (f : String → Halt) (x : Result String Bool × S) (s' : S)
      → continue (relabel f x.0) (λ _. pure tt) x.1 ≡ (ok tt, s')
      → (done : Bool) × (x ≡ (ok done, s'))
  said-ok f (ok d, s) s' h = (d, ground (arith, h))
  said-ok f (err e, s) s' h = absurd (cc)

  accepted-ok :
      (f : String → Halt) (x : Result String Bool × S) (s' : S)
      → continue (relabel f x.0) (λ done. lift (accepted c m done)) x.1 ≡ (ok tt, s')
      → x ≡ (ok true, s')
  accepted-ok f (ok true, s) s' h = ground (arith, h)
  accepted-ok f (ok false, s) s' h = absurd (cc)
  accepted-ok f (err e, s) s' h = absurd (cc)

  asked :
      (b : B) (p : Option PowerAction) (o : Option OneTimeBootDevice) (d : Option BootDevice)
      (v : Option VirtualMedia) (s s' : S)
      → let a : BmcAction = record {
        power = p;
        one_time_boot_device = o;
        boot_device = d;
        virtual_media = v;
      } in
        run_task c m b a s ≡ (ok tt, s') → IsAsked b a s s'
  unfolding run_task
  asked b (some p) o d v s s' h =
      let k = said-ok _ (m.set_power_state b (power_text p) s) s' h in
      inl (p, k.0, refl, ap (λ z. m.set_power_state b z s) (sym (word_eq p)) ∙ k.1)
  asked b none (some d) e v s s' h = devices d.devices refl h
    where
      devices :
          (xs : List String)
          → d.devices ≡ xs
          → run_task c m b
              (record {
                power = none;
                one_time_boot_device = some (record d { devices = xs });
                boot_device = e;
                virtual_media = v;
              })
              s
            ≡ (ok tt, s')
          → IsAsked b
              (record {
                power = none;
                one_time_boot_device = some d;
                boot_device = e;
                virtual_media = v;
              })
              s
              s'
      devices [] q k = absurd (cc)
      devices (x ∷ xs) q k =
          let r = said-ok _ (m.set_boot_device b x false d.efi_boot s) s' k in
          inr (inl (d, x, xs, r.0, refl, refl, q, r.1))
  asked b none none (some d) v s s' h = inr (
      inr (
        inl (
          d,
          refl,
          refl,
          refl,
          accepted-ok _ (m.set_boot_device b d.device d.persistent d.efi_boot s) s' h,
        )))
  asked b none none none (some v) s s' h =
      let r = said-ok _ (m.set_virtual_media b v.kind v.media_url s) s' h in
      inr (inr (inr (v, r.0, refl, refl, refl, refl, r.1)))
  asked b none none none none s s' h = absurd (cc)

  -- A pass that starts a task and succeeds has made the call of the BMC that the action asks for, and
  -- the call gave no error; then it has stored the task with the time at which the pass began as its
  -- start. Whether the BMC said that it took the call is looked at for a boot device alone.
  pub start_task-ok :
      (t : Task) (b : B) (r : Requeue) (s s' : S)
      → start_task c m t b s ≡ (ok r, s')
      → (s₁ : S) × IsAsked b t.action s s₁
        × (c.patch_task (record t { status = record t.status { start_time = some (c.now s) } }) s₁
            ≡ (ok tt, s'))
        × (r ≡ Requeue.no_requeue)
  unfolding start_task
  start_task-ok t b r s s' h =
      let a = t.action in
      let x = run_task c m b a s in
      let started = with_task_status c m t (record t.status { start_time = some (c.now s) }) in
      let k = performed-ok started x.0 x.1 s' r h in
      (
        x.1,
        asked b a.power a.one_time_boot_device a.boot_device a.virtual_media s x.1
            (pair_eq k.0 refl),
        k.1,
        k.2,
      )
