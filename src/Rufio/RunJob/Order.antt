-- ===== src/Rufio/RunJob/Order.antt =====
-- The tasks of a job are created one after the other.
use Prim.Native.String.{◌++◌ as text_append}
use tinkerbell.Base.{
  ℕ, zero, suc, ◌+◌, ◌≤◌, String, true, false, Option, none, some, List, [], ◌∷◌, ◌++◌, length,
  get_elem?, All, ◌≡◌, ◌≢◌, refl, arith, ◌⊎◌, inl, inr, ◌↔◌, Option-cases,
}
use tinkerbell.Base.Fallible.{Result, ok, err}
use tinkerbell.Api.{BmcAction}
use tinkerbell.Rufio.{
  Status, ConditionType, condition_type_eq, Job, Task, Connection, Requeue, Halt, Client,
}
use tinkerbell.Rufio.Conditions.{has_condition, has-set_condition, with_condition}
use tinkerbell.Rufio.RunJob.{
  Progress, is_completed, is_failed, fail_job, patch_and_stop, patch_status, owned_task, created,
  create_next,
}

abbrev pub AllCompleted : List Task → Type 0
AllCompleted ts = All (λ (t : Task). is_completed t.status ≡ true) ts

-- The first task that is not completed, after completed ones.
abbrev pub StopsAt : List Task → Task → Type 0
StopsAt ts t =
    (before : List Task) × (later : List Task) × (ts ≡ before ++ (t ∷ later))
    × AllCompleted before
    × (is_completed t.status ≡ false)

-- What the loop over the tasks finds, in words.
abbrev pub Found : ℕ → List Task → Progress → Type 0
Found n ts (Progress.all_completed m) = AllCompleted ts × (m ≡ n + length ts)
Found n ts (Progress.task_failed t) = StopsAt ts t × (is_failed t.status ≡ true)
Found n ts Progress.task_unfinished = (t : Task) × StopsAt ts t × (is_failed t.status ≡ false)

module _ {S : Type 0} (c : Client S) (digits : ℕ → String) where
  -- The job is stored with the status `x`, and the pass ends; an error of the store is returned.
  abbrev Stores : Job → Status → S → Result Halt Requeue × S → Type 0
  Stores j x s r =
      (r.1 ≡ (c.patch_job (record j { status = x }) s).1)
      × (((r.0 ≡ ok Requeue.no_requeue) × ((c.patch_job (record j { status = x }) s).0 ≡ ok tt))
          ⊎ ((e : String) × (q : String) × (r.0 ≡ err (Halt.failure e))
              × ((c.patch_job (record j { status = x }) s).0 ≡ err q)))

  -- The job is stored as completed now.
  abbrev pub Completes : Job → S → Result Halt Requeue × S → Type 0
  Completes j s r =
      (x : Status) × (has_condition ConditionType.completed true x.conditions ≡ true)
      × (x.completion_time ≡ some (c.now s))
      × Stores j x s r

  -- The job is stored as failed, and an error is returned.
  abbrev pub Fails : Job → S → Result Halt Requeue × S → Type 0
  Fails j s r =
      (x : Status) × (e : String) × (has_condition ConditionType.failed true x.conditions ≡ true)
      × (r.0 ≡ err (Halt.failure e))
      × (r.1 ≡ (c.patch_job (record j { status = x }) s).1)

  -- The task of index `n` is created, with the action that the job lists there and the connection;
  -- then the job is stored, or it fails if the task was not created. Without an action there the pass
  -- panics.
  abbrev pub Creates : Job → ℕ → Connection → S → Result Halt Requeue × S → Type 0
  Creates j n k s r =
      ((get_elem? j.tasks n ≡ none) × (r ≡ (err Halt.panicked, s)))
      ⊎ ((t : Task) × (get_elem? j.tasks n ≡ some t.action)
          × (t.connection ≡ k)
          × (t.name ≡ text_append j.name (text_append "-task-" (digits n)))
          × (t.namespace ≡ j.namespace)
          × (t.owner ≡ j.name)
          × (t.status.conditions ≡ [])
          × ((((c.create_task t s).0 ≡ ok tt) × Stores j j.status (c.create_task t s).1 r)
              ⊎ ((e : String) × ((c.create_task t s).0 ≡ err e) × Fails j (c.create_task t s).1 r)))

  -- The pass comes to `r`, by the tasks that the job owns.
  abbrev pub Sequential : Job → Connection → List Task → S → Result Halt Requeue × S → Type 0
  Sequential j k ts s r =
      (AllCompleted ts × (length ts ≡ length j.tasks) × Completes j s r)
      ⊎ (AllCompleted ts × (length ts ≢ length j.tasks) × Creates j (length ts) k s r)
      ⊎ ((t : Task) × StopsAt ts t × (is_failed t.status ≡ true) × Fails j s r)
      ⊎ ((t : Task) × StopsAt ts t
          × (is_failed t.status ≡ false)
          × (r ≡ (ok Requeue.no_requeue, s)))

  is_set :
      (t : ConditionType) (m : Option String) (x : Status)
      → has_condition t true (with_condition t true m x).conditions ≡ true
  is_set t m x = ground (arith, has-set_condition t t true true m x.conditions)

  patch_and_stop-safe : (j : Job) (s : S) → (patch_and_stop c digits j s).0 ≢ err Halt.panicked
  unfolding patch_and_stop patch_status
  patch_and_stop-safe j s = ground arith

  fail_job-safe : (e : String) (j : Job) (s : S) → (fail_job c digits e j s).0 ≢ err Halt.panicked
  unfolding fail_job
  fail_job-safe e j s = ground arith

  get_elem?-none : (xs : List BmcAction) (n : ℕ) → (get_elem? xs n ≡ none) ↔ (length xs ≤ n)
  get_elem?-none [] n = ground arith
  get_elem?-none (x ∷ xs) zero = ground arith
  get_elem?-none (x ∷ xs) (suc n) = ground (arith, get_elem?-none xs n)

  created-safe :
      (j : Job) (r : Result String (Unit {0})) (s : S)
      → (created c digits j r s).0 ≢ err Halt.panicked
  unfolding created
  created-safe j (ok _) s = patch_and_stop-safe j s
  created-safe j (err e) s = fail_job-safe (text_append "failed to create Task: " e) j s

  -- Creating the task of an index panics exactly when the job lists no task of that index.
  pub create_next-panicked :
      (j : Job) (n : ℕ) (k : Connection) (s : S)
      → ((create_next c digits j n k s).0 ≡ err Halt.panicked) ↔ (length j.tasks ≤ n)
  unfolding create_next
  create_next-panicked j n k s = elim (Option-cases (get_elem? j.tasks n)) [
    | inl e ↦ rw (create_next, e) ((λ _. (get_elem?-none j.tasks n).0 e), (λ _. refl))
    | inr (a, e) ↦
        rw (create_next, e)
          (
            (λ h. absurd (
                created-safe j (c.create_task (owned_task c digits j n a k) s).0
                  (c.create_task (owned_task c digits j n a k) s).1 h)),
            (λ l. absurd (ground (arith, (get_elem?-none j.tasks n).1 l))),
          )
  ]
