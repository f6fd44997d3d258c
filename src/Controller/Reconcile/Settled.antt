-- ===== src/Controller/Reconcile/Settled.antt =====
-- The passes that change nothing, and the running workflow.
use tinkerbell.Base.{
  ℕ, String, Bool, true, Option, none, some, ◌≡◌, ◌≢◌, Bool-cases, refl, sym, ap, ◌∙◌, arith, ◌⊎◌,
  inl, inr, ◌<◌, ◌≤◌, if◌then◌else◌, ltb,
}
use tinkerbell.Base.Equality.{string_eq}
use tinkerbell.Base.Fallible.{ok}
use tinkerbell.Api.{Workflow, WorkflowStatus, WorkflowState}
use tinkerbell.Controller.{Cluster, Outcome, finished}
use tinkerbell.Controller.AgentId.{update_agent_id_if_needed}
use tinkerbell.Controller.Process.{Services}
use tinkerbell.Controller.Reconcile.{
  with_stop, timed_out, run_on, first_running, by_state, other_workflow, got_workflow, reconcile,
  stop_at,
}

-- The states in which the controller has nothing to do.
abbrev pub IsSettled : WorkflowState → Type 0
IsSettled WorkflowState.pending = Unit
IsSettled WorkflowState.timeout = Unit
IsSettled WorkflowState.failed = Unit
IsSettled WorkflowState.success = Unit
IsSettled (WorkflowState.other name) = name ≢ "STATE_PENDING"
IsSettled _ = ⊥

-- What a pass over a running workflow may write: the state is kept or becomes TIMEOUT, and a stop
-- that was set stays.
abbrev pub RunsOn : ℕ → WorkflowStatus → WorkflowStatus → Type 0
RunsOn now x y =
    (((y.state ≡ x.state) × ((stop : ℕ) → x.global_execution_stop ≡ some stop → now ≤ stop))
      ⊎ ((y.state ≡ WorkflowState.timeout)
          × ((stop : ℕ) × (x.global_execution_stop ≡ some stop) × (stop < now))))
    × ((stop : ℕ) → x.global_execution_stop ≡ some stop → y.global_execution_stop ≡ some stop)
    × (y.tasks ≡ x.tasks)

module _ {S : Type 0} (c : Cluster S) (v : Services S) where
  by_state-IsSettled :
      (x : WorkflowState) (stored : Workflow) (s : S)
      → IsSettled x
      → by_state c v x stored s ≡ (ok finished, s)
  unfolding by_state other_workflow
  by_state-IsSettled WorkflowState.pending stored s h = refl
  by_state-IsSettled WorkflowState.timeout stored s h = refl
  by_state-IsSettled WorkflowState.failed stored s h = refl
  by_state-IsSettled WorkflowState.success stored s h = refl
  by_state-IsSettled (WorkflowState.other name) stored s h = ground (arith, h)
  by_state-IsSettled WorkflowState.unset stored s h = absurd h
  by_state-IsSettled WorkflowState.preparing stored s h = absurd h
  by_state-IsSettled WorkflowState.running stored s h = absurd h
  by_state-IsSettled WorkflowState.post stored s h = absurd h

  -- A pass over a workflow that is being deleted, or that is in PENDING, TIMEOUT, FAILED, SUCCESS or a
  -- state that the controller does not know (other than the deprecated STATE_PENDING), asks the
  -- cluster for the workflow and for nothing else: it writes nothing and is not repeated.
  pub reconcile-IsSettled :
      (name namespace : String) (s s' : S) (deleting : Bool) (stored : Workflow)
      → v.get_workflow name namespace s ≡ (ok (deleting, stored), s')
      → (deleting ≡ true) ⊎ IsSettled stored.status.state
      → reconcile c v name namespace s ≡ (ok finished, s')
  unfolding reconcile got_workflow
  reconcile-IsSettled name namespace s s' deleting stored h d = rw h (elim d [
    | inl e ↦ rw e refl
    | inr k ↦ ground (arith, by_state-IsSettled stored.status.state stored s' k)
  ])

  agent-kept :
      (x : WorkflowStatus)
      → ((update_agent_id_if_needed x).0.state ≡ x.state)
        × ((update_agent_id_if_needed x).0.global_execution_stop ≡ x.global_execution_stop)
        × ((update_agent_id_if_needed x).0.tasks ≡ x.tasks)
  unfolding update_agent_id_if_needed
  agent-kept x = ground arith

  first_running-none :
      (x : WorkflowStatus) (stop : ℕ)
      → x.global_execution_stop ≡ some stop
      → first_running c v x ≡ none
  unfolding first_running
  first_running-none x stop h = rw h refl

  with_stop-RunsOn :
      (now : ℕ) (x y z : WorkflowStatus) (o : Outcome) (f : Option (Option ℕ))
      → (y.state ≡ x.state)
        × (y.global_execution_stop ≡ x.global_execution_stop)
        × (y.tasks ≡ x.tasks)
      → ((stop : ℕ) → x.global_execution_stop ≡ some stop → now ≤ stop)
      → ((stop : ℕ) → y.global_execution_stop ≡ some stop → f ≡ none)
      → with_stop c v now y f ≡ some (z, o)
      → RunsOn now x z
  with_stop-RunsOn now x y z o none (p, q, r) b n h =
      let e : y ≡ z = cc in
      (
        inl (ap (λ (u : WorkflowStatus). u.state) (sym e) ∙ p, b),
        (λ stop k. ap (λ (u : WorkflowStatus). u.global_execution_stop) (sym e) ∙ q ∙ k),
        ap (λ (u : WorkflowStatus). u.tasks) (sym e) ∙ r,
      )
  with_stop-RunsOn now x y z o (some none) k b n h = absurd (cc)
  with_stop-RunsOn now x y z o (some (some start)) (p, q, r) b n h =
      let e : record y { global_execution_stop = some (stop_at c v now y.global_timeout start) }
          ≡ z =
        cc in
      (
        inl (ap (λ (u : WorkflowStatus). u.state) (sym e) ∙ p, b),
        (λ stop k. absurd (ground (arith, n stop (q ∙ k)))),
        ap (λ (u : WorkflowStatus). u.tasks) (sym e) ∙ r,
      )

  -- The status that a running workflow gets when the global stop is past.
  abbrev stopped : WorkflowStatus → WorkflowStatus
  stopped x = record x { state = WorkflowState.timeout }

  stopped-RunsOn :
      (now stop : ℕ) (x y : WorkflowStatus)
      → x.global_execution_stop ≡ some stop
      → stop < now
      → stopped x ≡ y
      → RunsOn now x y
  stopped-RunsOn now stop x y h l e = (
    inr (ap (λ (u : WorkflowStatus). u.state) (sym e), (stop, h, l)),
    (λ t k. ap (λ (u : WorkflowStatus). u.global_execution_stop) (sym e) ∙ k),
    ap (λ (u : WorkflowStatus). u.tasks) (sym e),
  )

  -- What a pass over a running workflow patches has the same tasks and keeps a global stop that was
  -- set. Its state is TIMEOUT exactly when a global stop was set and is past, and is kept otherwise.
  pub run_on-RunsOn :
      (now : ℕ) (x y : WorkflowStatus) (o : Outcome)
      → run_on c v now x ≡ some (y, o)
      → RunsOn now x y
  unfolding run_on
  run_on-RunsOn now x y o h = by_stop x.global_execution_stop refl h
    where
      z : WorkflowStatus
      z = (update_agent_id_if_needed x).0

      by_stop :
          (m : Option ℕ)
          → x.global_execution_stop ≡ m
          → (if timed_out c v m now
              then some (stopped x, finished)
              else with_stop c v now z (first_running c v z))
            ≡ some (y, o)
          → RunsOn now x y
      by_stop none e k =
          with_stop-RunsOn now x z y o (first_running c v z) (agent-kept x) (λ stop q. absurd (cc))
            (first_running-none z) k
      by_stop (some stop) e k = elim (Bool-cases (ltb stop now)) [
        | inl a ↦ stopped-RunsOn now stop x y e (ground arith) (ground (arith, k))
        | inr b ↦
            with_stop-RunsOn now x z y o (first_running c v z) (agent-kept x) (λ t q. ground arith)
              (first_running-none z) (ground (arith, k))
      ]
