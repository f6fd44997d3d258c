-- ===== src/Rufio/RunTask.antt =====
-- The reconciler of tasks (rufio/internal/controller/task.go). A duration is in
-- nanoseconds.
pub mod Watched
pub mod Once
use Prim.Native.Char.{code}
use Prim.Native.String.{◌++◌ as text_append}
use Prim.Native.String as Native
use tinkerbell.Base.{
  ℕ, ◌-◌, ◌*◌, String, Bool, true, false, Option, none, some, List, [], ◌∷◌, if◌then◌else◌, leb,
  eqb, ◌+◌, ◌++◌, not, ◌||◌, ◌&&◌,
}
use tinkerbell.Base.Dict.{Dict, lookup, insert}
use tinkerbell.Base.Equality.{◌==◌, string_eq}
use tinkerbell.Base.Fallible.{
  Result, ok, err, Exec, pure, fail, lift, map_err, relabel, ◌>>=◌, ◌>>◌,
}
use tinkerbell.Api.{BmcAction, PowerAction}
use tinkerbell.Rufio.{
  Condition, ConditionType, condition_type_eq, Status, Task, Connection, Requeue, Halt, ReadError,
  Client, Bmc,
}
use tinkerbell.Rufio.Conditions.{with_condition}
use tinkerbell.Rufio.RunJob.{is_completed, is_failed}
use tinkerbell.Rufio.Access.{PowerState, to_power_state, credentials}

abbrev power_action_requeue_after : ℕ
power_action_requeue_after = 3 * 1000000000

abbrev pub task_timeout : ℕ
task_timeout = 10 * 60 * 1000000000

abbrev pub power_text : PowerAction → String
power_text PowerAction.power_on = "on"
power_text PowerAction.power_hard_off = "off"
power_text PowerAction.power_soft_off = "soft"
power_text PowerAction.power_cycle = "cycle"
power_text PowerAction.power_reset = "reset"
power_text PowerAction.power_status = "status"

module _ {S B : Type 0} (c : Client S) (m : Bmc S B) where
  abbrev pub with_task_status : Task → Status → Task
  with_task_status t x = record t { status = x }

  unfoldable pub patch_status : Task → Exec S String (Unit {0})
  patch_status t = map_err (text_append "failed to patch Task status: ") (c.patch_task t)

  -- The task is marked as failed, and the error comes back, joined with the patch's.
  unfoldable pub fail_task : String → String → Task → Exec S Halt Requeue
  fail_task message e t s =
      let p =
        patch_status
          (with_task_status t (with_condition ConditionType.failed true (some message) t.status))
          s in
      (
        elim p.0 [
          | ok _ ↦ err (Halt.failure e)
          | err q ↦ err (Halt.failure (text_append q (text_append ", " e)))
        ],
        p.1,
      )

  -- The action failed, or the BMC answered that it did not take the boot device.
  abbrev pub accepted : Bool → Result Halt (Unit {0})
  accepted true = ok tt
  accepted false = err (Halt.failure "failed to set BootDevice, ok: false")

  -- `runTask`
  unfoldable pub run_task : B → BmcAction → Exec S Halt (Unit {0})
  run_task b a = elim a.power [
    | some p ↦ (do
      map_err (λ e. Halt.failure (text_append "failed to perform PowerAction: " e))
          (m.set_power_state b (power_text p))
      pure tt)
    | none ↦ (elim a.one_time_boot_device [
      | some d ↦ (elim d.devices [
        | [] ↦ fail Halt.panicked
        | x ∷ _ ↦ (do
          map_err (λ e. Halt.failure (text_append "failed to perform OneTimeBootDeviceAction: " e))
              (m.set_boot_device b x false d.efi_boot)
          pure tt)
      ])
      | none ↦ (elim a.boot_device [
        | some d ↦ (do
          done ←
              map_err (λ e. Halt.failure (text_append "failed to set BootDevice: " e))
                (m.set_boot_device b d.device d.persistent d.efi_boot)
          lift (accepted done))
        | none ↦ (elim a.virtual_media [
          | some d ↦ (do
            map_err (λ e. Halt.failure (text_append "failed to perform SetVirtualMedia: " e))
                (m.set_virtual_media b d.kind d.media_url)
            pure tt)
          | none ↦ fail (Halt.failure "no action specified in Task, nothing to do")
        ])
      ])
    ])
  ]

  -- Whether the power state that was asked for is reached. The other actions have nothing to wait for.
  abbrev pub reached : PowerAction → PowerState → Bool
  reached PowerAction.power_on PowerState.on = true
  reached PowerAction.power_on _ = false
  reached PowerAction.power_hard_off PowerState.off = true
  reached PowerAction.power_hard_off _ = false
  reached PowerAction.power_soft_off PowerState.off = true
  reached PowerAction.power_soft_off _ = false
  reached _ _ = true

  unfoldable pub waiting : PowerAction → Result String String → Exec S Halt Requeue
  waiting p (err e) s = (err (Halt.failure (text_append "failed to get power state: " e)), s)
  waiting p (ok raw) s = (
    ok (
        if reached p (to_power_state raw)
        then Requeue.no_requeue
        else Requeue.requeue_after power_action_requeue_after),
    s,
  )

  unfoldable pub check_power : B → Option PowerAction → Exec S Halt Requeue
  check_power b none s = (ok Requeue.no_requeue, s)
  check_power b (some p) s = let r = m.get_power_state b s in waiting p r.0 r.1

  -- `checkTaskStatus`
  unfoldable pub check_task_status : B → BmcAction → Exec S Halt Requeue
  check_task_status b a = check_power b a.power

  -- A task that was started: it fails after ten minutes, waits while its action is not done, and is
  -- completed when it is.
  checked : Task → Result Halt Requeue → Exec S Halt Requeue
  checked t (err (Halt.failure e)) s =
      (err (Halt.failure (text_append "bmc task status check: " e)), s)
  checked t (err Halt.panicked) s = (err Halt.panicked, s)
  checked t (ok (Requeue.requeue_after d)) s = (ok (Requeue.requeue_after d), s)
  checked t (ok Requeue.no_requeue) s =
      (do
        map_err Halt.failure (
            patch_status (
              with_task_status t (
                with_condition ConditionType.completed true none
                  (record t.status { completion_time = some (c.now s) }))))
        pure Requeue.no_requeue)
        s

  unfoldable pub watch_task : Task → B → ℕ → Exec S Halt Requeue
  unfolding checked
  watch_task t b start s =
      if leb task_timeout (c.now s - start)
      then fail_task "bmc task timeout" "bmc task timeout" t s
      else (let r = check_task_status b t.action s in checked t r.0 r.1)

  -- A new task: its action is performed, once.
  performed : Task → Result Halt (Unit {0}) → Exec S Halt Requeue
  performed t (err (Halt.failure e)) = fail_task e e t
  performed t (err Halt.panicked) = fail Halt.panicked
  performed t (ok _) = do map_err Halt.failure (patch_status t); pure Requeue.no_requeue

  unfoldable pub start_task : Task → B → Exec S Halt Requeue
  unfolding performed
  start_task t b s =
      let started = with_task_status t (record t.status { start_time = some (c.now s) }) in
      let r = run_task b t.action s in performed started r.0 r.1

  -- The work over an open connection, which is closed afterwards, also after an error or a panic.
  work : Task → B → Exec S Halt Requeue
  work t b = elim t.status.start_time [ some start ↦ watch_task t b start | none ↦ start_task t b ]

  unfoldable pub then_close : B → Exec S Halt Requeue → Exec S Halt Requeue
  then_close b f s = ((f s).0, m.close_connection b (f s).1)

  opened : Task → Result String B → Exec S Halt Requeue
  unfolding work
  opened t (ok b) = then_close b (work t b)
  opened t (err e) = fail_task (text_append "Failed to connect to BMC: " e) e t

  -- `doReconcile`
  unfoldable pub do_reconcile : Task → Exec S Halt Requeue
  unfolding opened
  do_reconcile t = do
    (user, secrets) ← credentials c "resolving connection secret for task: " t.connection
    (λ s. let r = m.open_connection t.connection user secrets s in opened t r.0 r.1)

  got_task : Result ReadError (Bool × Task) → Exec S Halt Requeue
  got_task (ok (deleting, t)) =
      if deleting || is_failed t.status || is_completed t.status
      then pure Requeue.no_requeue
      else do_reconcile t
  got_task (err e) = if e.is_not_found then pure Requeue.no_requeue else fail (Halt.failure e.text)

  -- `Reconcile`, for the name and namespace of a task.
  unfoldable pub reconcile : String → String → Exec S Halt Requeue
  unfolding got_task
  reconcile name namespace s = let got = c.get_task name namespace s in got_task got.0 got.1
