-- ===== src/Rufio/RunTask/Watched.antt =====
-- A task that was started comes to an end.
use Prim.Native.String.{◌++◌ as text_append}
use tinkerbell.Base.{
  ℕ, ◌-◌, ◌<◌, String, Bool, true, false, Option, none, some, ◌≡◌, ◌≢◌, refl, ap, ◌∙◌, arith, ◌⊎◌,
  inl, inr, Bool-cases, leb, if◌then◌else◌,
}
use tinkerbell.Base.Fallible.{Result, ok, err, continue, relabel, pure}
use tinkerbell.Api.{BmcAction, PowerAction}
use tinkerbell.Rufio.{Status, ConditionType, condition_type_eq, Task, Requeue, Halt, Client, Bmc}
use tinkerbell.Rufio.Conditions.{has_condition, has-set_condition, with_condition}
use tinkerbell.Rufio.Access.{PowerState, to_power_state}
use tinkerbell.Rufio.RunTask.{
  reached, task_timeout, fail_task, check_task_status, check_power, waiting, checked, watch_task,
  patch_status,
}

pub pair_eq : {A B : Type 0} {x : A × B} {a : A} {b : B} → x.0 ≡ a → x.1 ≡ b → x ≡ (a, b)
pair_eq e f = λ i. (e i, f i)

-- The power state is not yet the one that the action asks for; only switching on and off wait.
abbrev pub Missing : PowerAction → PowerState → Type 0
Missing p x =
    ((p ≡ PowerAction.power_on) × (x ≢ PowerState.on))
    ⊎ (((p ≡ PowerAction.power_hard_off) ⊎ (p ≡ PowerAction.power_soft_off)) × (x ≢ PowerState.off))

-- The power state is the one that the action asks for, or the action is not one that is waited for.
abbrev pub IsReached : PowerAction → PowerState → Type 0
IsReached p x =
    ((p ≡ PowerAction.power_on) × (x ≡ PowerState.on))
    ⊎ (((p ≡ PowerAction.power_hard_off) ⊎ (p ≡ PowerAction.power_soft_off)) × (x ≡ PowerState.off))
    ⊎ (p ≡ PowerAction.power_cycle)
    ⊎ (p ≡ PowerAction.power_reset)
    ⊎ (p ≡ PowerAction.power_status)

module _ {S B : Type 0} (c : Client S) (m : Bmc S B) where
  -- Whether to wait, by the answer of the BMC.
  waits :
      (p : PowerAction) (r : Result String String) (s s' : S) (d : ℕ)
      → waiting c m p r s ≡ (ok (Requeue.requeue_after d), s')
      → (raw : String) × (r ≡ ok raw) × (s ≡ s') × (reached c m p (to_power_state raw) ≡ false)
  unfolding waiting
  waits p (err e) s s' d h = absurd (cc)
  waits p (ok raw) s s' d h = elim (Bool-cases (reached c m p (to_power_state raw))) [
    | inl y ↦ absurd (ground (arith, y, h))
    | inr n ↦ (raw, refl, ground (arith, n, h), n)
  ]

  not_reached : (p : PowerAction) (x : PowerState) → reached c m p x ≡ false → Missing p x
  not_reached p x h = ground arith

  check_task_status-requeue :
      (b : B) (a : BmcAction) (o : Option PowerAction) (s s' : S) (d : ℕ)
      → a.power ≡ o
      → check_power c m b o s ≡ (ok (Requeue.requeue_after d), s')
      → (p : PowerAction) × (raw : String) × (a.power ≡ some p)
        × (m.get_power_state b s ≡ (ok raw, s'))
        × (reached c m p (to_power_state raw) ≡ false)
  unfolding check_power
  check_task_status-requeue b a none s s' d e h = absurd (cc)
  check_task_status-requeue b a (some p) s s' d e h =
      let got = m.get_power_state b s in
      let w = waits p got.0 got.1 s' d h in (p, w.0, e, pair_eq w.1 w.2, w.3)

  checked-requeue :
      (t : Task) (r : Result Halt Requeue) (s s' : S) (d : ℕ)
      → checked c m t r s ≡ (ok (Requeue.requeue_after d), s')
      → (r ≡ ok (Requeue.requeue_after d)) × (s ≡ s')
  unfolding checked
  checked-requeue t (err (Halt.failure e)) s s' d h = absurd (cc)
  checked-requeue t (err Halt.panicked) s s' d h = absurd (cc)
  checked-requeue t (ok (Requeue.requeue_after d')) s s' d h = ground (arith, h)
  checked-requeue t (ok Requeue.no_requeue) s s' d h = absurd (ground (arith, h))

  pub fail_task-err :
      (message e : String) (t : Task) (s s' : S) (r : Requeue)
      → fail_task c m message e t s ≢ (ok r, s')
  unfolding fail_task patch_status
  fail_task-err message e t s s' r = ground arith

  watched-requeue :
      (late : Bool) (t : Task) (b : B) (d : ℕ) (s s' : S)
      → (if late
          then fail_task c m "bmc task timeout" "bmc task timeout" t s
          else checked c m t
              (check_task_status c m b t.action s).0
              (check_task_status c m b t.action s).1)
        ≡ (ok (Requeue.requeue_after d), s')
      → (late ≡ false) × (check_task_status c m b t.action s ≡ (ok (Requeue.requeue_after d), s'))
  watched-requeue true t b d s s' h = absurd (fail_task-err _ _ t s s' _ h)
  watched-requeue false t b d s s' h =
      let r = check_task_status c m b t.action s in
      let k = checked-requeue t r.0 r.1 s' d h in (refl, pair_eq k.0 k.1)

  -- A pass over a task that was started, which asks without an error to be called again, means that
  -- the ten minutes of the task last, and that the BMC answered, at its end, with a power state that is
  -- not on where the action is to switch on, or not off where it is to switch off, hard or soft.
  watch_task-requeue :
      (t : Task) (b : B) (start d : ℕ) (s s' : S)
      → watch_task c m t b start s ≡ (ok (Requeue.requeue_after d), s')
      → (c.now s - start < task_timeout)
        × ((p : PowerAction) × (raw : String) × (t.action.power ≡ some p)
            × (m.get_power_state b s ≡ (ok raw, s'))
            × Missing p (to_power_state raw))
  unfolding watch_task check_task_status
  watch_task-requeue t b start d s s' h =
      let k = watched-requeue (leb task_timeout (c.now s - start)) t b d s s' h in
      let (p, raw, e, got, n) =
        check_task_status-requeue b t.action t.action.power s s' d refl k.1 in
      (ground (arith, k.0), (p, raw, e, got, not_reached p (to_power_state raw) n))

  is_reached : (p : PowerAction) (x : PowerState) → reached c m p x ≡ true → IsReached p x
  is_reached p x h = ground arith

  -- The task has no power action, or the BMC answered that it is done.
  abbrev pub IsDone : Task → B → S → S → Type 0
  IsDone t b s s₁ =
      ((t.action.power ≡ none) × (s ≡ s₁))
      ⊎ ((p : PowerAction) × (raw : String) × (t.action.power ≡ some p)
          × (m.get_power_state b s ≡ (ok raw, s₁))
          × IsReached p (to_power_state raw))

  -- The task was stored as completed now.
  abbrev pub IsStored : Task → S → S → Type 0
  IsStored t s₁ s' =
      (x : Status) × (has_condition ConditionType.completed true x.conditions ≡ true)
      × (x.completion_time ≡ some (c.now s₁))
      × (c.patch_task (record t { status = x }) s₁ ≡ (ok tt, s'))

  -- The pass waits for the power, or the task is done and stored as completed.
  abbrev pub Watched : Task → B → S → S → Requeue → Type 0
  Watched t b s s' r =
      ((p : PowerAction) × (raw : String) × (d : ℕ) × (r ≡ Requeue.requeue_after d)
        × (t.action.power ≡ some p)
        × (m.get_power_state b s ≡ (ok raw, s'))
        × Missing p (to_power_state raw))
      ⊎ ((s₁ : S) × (r ≡ Requeue.no_requeue) × IsDone t b s s₁ × IsStored t s₁ s')

  ends :
      (p : PowerAction) (r : Result String String) (s s' : S)
      → waiting c m p r s ≡ (ok Requeue.no_requeue, s')
      → (raw : String) × (r ≡ ok raw) × (s ≡ s') × (reached c m p (to_power_state raw) ≡ true)
  unfolding waiting
  ends p (err e) s s' h = absurd (cc)
  ends p (ok raw) s s' h = elim (Bool-cases (reached c m p (to_power_state raw))) [
    | inl y ↦ (raw, refl, ground (arith, y, h), y)
    | inr n ↦ absurd (ground (arith, n, h))
  ]

  check_power-IsDone :
      (t : Task) (b : B) (o : Option PowerAction) (s s' : S)
      → t.action.power ≡ o
      → check_power c m b o s ≡ (ok Requeue.no_requeue, s')
      → IsDone t b s s'
  unfolding check_power
  check_power-IsDone t b none s s' e h = inl (e, ap (λ (x : Result Halt Requeue × S). x.1) h)
  check_power-IsDone t b (some p) s s' e h =
      let got = m.get_power_state b s in
      let w = ends p got.0 got.1 s' h in
      inr (p, w.0, e, pair_eq w.1 w.2, is_reached p (to_power_state w.0) w.3)

  checked-IsStored :
      (t : Task) (r : Result Halt Requeue) (s s' : S)
      → checked c m t r s ≡ (ok Requeue.no_requeue, s')
      → (r ≡ ok Requeue.no_requeue) × IsStored t s s'
  unfolding checked patch_status
  checked-IsStored t (err (Halt.failure e)) s s' h = absurd (cc)
  checked-IsStored t (err Halt.panicked) s s' h = absurd (cc)
  checked-IsStored t (ok (Requeue.requeue_after d)) s s' h = absurd (ground (arith, h))
  checked-IsStored t (ok Requeue.no_requeue) s s' h =
      (refl, stored (c.patch_task (record t { status = x }) s) refl h)
    where
      x : Status
      x =
          with_condition ConditionType.completed true none
            (record t.status { completion_time = some (c.now s) })

      stored :
          (p : Result String (Unit {0}) × S)
          → c.patch_task (record t { status = x }) s ≡ p
          → continue
              (relabel Halt.failure (relabel (text_append "failed to patch Task status: ") p.0))
              (λ _. pure Requeue.no_requeue)
              p.1
            ≡ (ok Requeue.no_requeue, s')
          → IsStored t s s'
      stored (ok u, s₁) e k =
          let same : s₁ ≡ s' = ground (arith, k) in
          (
            x,
            ground (
              arith,
              has-set_condition ConditionType.completed ConditionType.completed true true none
                  t.status.conditions,
            ),
            refl,
            e ∙ ap (λ z. (ok tt, z)) same,
          )
      stored (err q, s₁) e k = absurd (ground (arith, k))

  watched-done :
      (late : Bool) (t : Task) (b : B) (s s' : S)
      → (if late
          then fail_task c m "bmc task timeout" "bmc task timeout" t s
          else checked c m t
              (check_task_status c m b t.action s).0
              (check_task_status c m b t.action s).1)
        ≡ (ok Requeue.no_requeue, s')
      → (late ≡ false)
        × (check_task_status c m b t.action s
            ≡ (ok Requeue.no_requeue, (check_task_status c m b t.action s).1))
        × IsStored t (check_task_status c m b t.action s).1 s'
  watched-done true t b s s' h = absurd (fail_task-err _ _ t s s' _ h)
  watched-done false t b s s' h =
      let r = check_task_status c m b t.action s in
      let k = checked-IsStored t r.0 r.1 s' h in (refl, pair_eq k.0 refl, k.1)

  -- A pass over a task that was started, which ends without an error, means that the ten minutes of the
  -- task last. It asks to be called again where the BMC answered, at its end, with a power state that is
  -- not on although the action is to switch on, or not off although it is to switch off, hard or soft.
  -- Otherwise the task has no power action, or the BMC answered with the power state that it asks for,
  -- or it is one that is not waited for, and the task was stored as completed, at that time.
  pub watch_task-Watched :
      (t : Task) (b : B) (start : ℕ) (r : Requeue) (s s' : S)
      → watch_task c m t b start s ≡ (ok r, s')
      → (c.now s - start < task_timeout) × Watched t b s s' r
  unfolding watch_task check_task_status
  watch_task-Watched t b start (Requeue.requeue_after d) s s' h =
      let (last, (p, raw, e, got, n)) = watch_task-requeue t b start d s s' h in
      (last, inl (p, raw, d, refl, e, got, n))
  watch_task-Watched t b start Requeue.no_requeue s s' h =
      let (last, done, kept) = watched-done (leb task_timeout (c.now s - start)) t b s s' h in
      let s₁ = (check_task_status c m b t.action s).1 in
      (
        ground (arith, last),
        inr (s₁, refl, check_power-IsDone t b t.action.power s s₁ refl done, kept),
      )
