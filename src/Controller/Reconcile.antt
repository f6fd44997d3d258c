-- ===== src/Controller/Reconcile.antt =====
-- `Reconcile` and `mergePatchStatus` (tink/controller/internal/workflow/reconciler.go).
pub mod Settled
use Prim.Native.String.{◌++◌ as text_append}
use tinkerbell.Base.{
  ℕ, ◌+◌, ◌-◌, ◌*◌, String, Bool, false, Option, none, some, [], ◌∷◌, ◌^◌, ◌%◌, if◌then◌else◌, ltb,
}
use tinkerbell.Base.Equality.{◌==◌, string_eq}
use tinkerbell.Base.Fallible.{Result, ok, err, Exec, pure, map_err, ◌>>=◌, ◌>>◌}
use tinkerbell.Api.{Workflow, WorkflowStatus, WorkflowState, boot_mode_eq, Action, CurrentState}
use tinkerbell.Controller.{Cluster, State, KubeError, KubeKind, Outcome, finished}
use tinkerbell.Controller.Prepare.{prepare_workflow}
use tinkerbell.Controller.Post.{post_actions}
use tinkerbell.Controller.AgentId.{first_action, update_agent_id_if_needed}
use tinkerbell.Controller.Process.{Services, join_errors, process_workflow, process_new_workflow}

-- `time.Duration(n) * time.Second` in nanoseconds, a signed number of 64 bits, added to a time.
abbrev pub add_seconds : ℕ → ℕ → ℕ
add_seconds t n =
    let d = (n * 1000000000) % (2 ^ 64) in if ltb d (2 ^ 63) then t + d else t - (2 ^ 64 - d)

-- The two errors of a call and of the patch that follows it, joined.
abbrev pub join_results : Result String Outcome → Result String (Unit {0}) → Result String Outcome
join_results r (ok _) = r
join_results (ok _) (err p) = err p
join_results (err e) (err p) = err (join_errors (e ∷ p ∷ []))

module _ {S : Type 0} (c : Cluster S) (v : Services S) where
  -- `mergePatchStatus`
  unfoldable pub merge_patch_status : Workflow → Workflow → Exec S String (Unit {0})
  merge_patch_status stored w =
      if v.same_status w.status stored.status
      then pure tt
      else map_err
          (λ e. text_append "error patching status of workflow: " (text_append w.name e.text))
          (v.patch_status w stored)

  -- What a call has left of the workflow is patched, also after an error.
  abbrev pub patched : Workflow → Result String Outcome × State S → Result String Outcome × S
  patched stored (r, st) =
      let p = merge_patch_status stored st.workflow st.cluster in (join_results r p.0, p.1)

  abbrev pub then_patch : Workflow → Workflow → Outcome → Exec S String Outcome
  then_patch stored w o s = patched stored (ok o, record { cluster = s; workflow = w })

  is_disabled : Workflow → Bool
  is_disabled w = elim w.spec.disabled [ none ↦ false | some b ↦ b ]

  unfoldable pub new_workflow : Workflow → Exec S String Outcome
  unfolding is_disabled
  new_workflow stored s =
      let made = process_new_workflow c v (record { cluster = s; workflow = stored }) in
      if is_disabled stored
      then then_patch stored
          (record stored {
            status = record stored.status { agent_id = made.1.workflow.status.agent_id };
          })
          finished made.1.cluster
      else patched stored made

  abbrev timed_out : Option ℕ → ℕ → Bool
  timed_out none now = false
  timed_out (some stop) now = ltb stop now

  is_current : Action → Option CurrentState → Bool
  is_current a none = false
  is_current a (some x) = a.id == x.action_id

  -- The stop of the whole workflow: the timeout from now on, and the time since the first action began.
  abbrev pub stop_at : ℕ → ℕ → ℕ → ℕ
  stop_at now timeout start = add_seconds now timeout + (now - start)

  -- The first action runs and no stop is set: the stop to set, or none while no start is known.
  unfoldable pub first_running : WorkflowStatus → Option (Option ℕ)
  unfolding is_current
  first_running x = elim x.global_execution_stop [
    | some _ ↦ none
    | none ↦ (elim (first_action x) [
      | none ↦ none
      | some a ↦ if is_current a x.current_state then some a.execution_start else none
    ])
  ]

  abbrev pub with_stop : ℕ → WorkflowStatus → Option (Option ℕ) → Option (WorkflowStatus × Outcome)
  with_stop now y none = some (y, finished)
  with_stop now y (some none) = none
  with_stop now y (some (some start)) =
      let stop = stop_at now y.global_timeout start in
      some (
        record y { global_execution_stop = some stop },
        record { requeue = false; requeue_after = some (stop - now) },
      )

  -- What is patched at a time: nothing when the first action runs without a start.
  unfoldable pub run_on : ℕ → WorkflowStatus → Option (WorkflowStatus × Outcome)
  unfolding first_running
  run_on now x =
      let y = (update_agent_id_if_needed x).0 in
      if timed_out x.global_execution_stop now
      then some (record x { state = WorkflowState.timeout }, finished)
      else with_stop now y (first_running y)

  unfoldable pub running_workflow : Workflow → Exec S String Outcome
  running_workflow stored s = elim (run_on (c.now s) stored.status) [
    | none ↦ (ok finished, s)
    | some (y, o) ↦ then_patch stored (record stored { status = y }) o s
  ]

  -- The state of a workflow that an older version wrote.
  unfoldable pub other_workflow : String → Workflow → Exec S String Outcome
  other_workflow name stored s =
      if name == "STATE_PENDING"
      then patched stored
          ((process_workflow c v >> pure finished) (record { cluster = s; workflow = stored }))
      else (ok finished, s)

  -- The switch over the state.
  unfoldable pub by_state : WorkflowState → Workflow → Exec S String Outcome
  by_state WorkflowState.unset stored s = new_workflow stored s
  by_state WorkflowState.preparing stored s =
      patched stored (prepare_workflow c (record { cluster = s; workflow = stored }))
  by_state WorkflowState.running stored s = running_workflow stored s
  by_state WorkflowState.post stored s =
      patched stored (post_actions c (record { cluster = s; workflow = stored }))
  by_state (WorkflowState.other name) stored s = other_workflow name stored s
  by_state _ stored s = (ok finished, s)

  got_workflow : Result KubeError (Bool × Workflow) → Exec S String Outcome
  got_workflow (ok (deleting, stored)) s =
      if deleting then (ok finished, s) else by_state stored.status.state stored s
  got_workflow (err e) s = elim e.kind [ KubeKind.missing ↦ (ok finished, s) | _ ↦ (err e.text, s) ]

  -- `Reconcile`, for the name and namespace of a workflow.
  unfoldable pub reconcile : String → String → Exec S String Outcome
  unfolding got_workflow
  reconcile name namespace s = let got = v.get_workflow name namespace s in got_workflow got.0 got.1
