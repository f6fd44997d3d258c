-- ===== src/Agent/Transport/Exchange.antt =====
-- What the agent and the service understand of each other.
use Prim.Native.Char.{code}
use Prim.Native.String.append
use Prim.Native.String.{◌++◌ as text_append}
use tinkerbell.Base.{String, Bool, true, false, ◌≡◌, refl, ap, ◌∙◌, ◌||◌, ◌↔◌, eqb, arith}
use tinkerbell.Base.Equality.{string_eq}
use tinkerbell.Api.{Workflow, Task, WorkflowState}
use tinkerbell.Api
use tinkerbell.Server.Environment.{format_entry}
use tinkerbell.Server.Get.{response}
use tinkerbell.Server.Report.{cut, matches, state_of}
use tinkerbell.Server.Report.WorkflowKey.{has_slash, cut-response}
use tinkerbell.Agent.{State, success, Event}
use tinkerbell.Agent.Transport.{split_env, action_of, spec_to_proto, request_of}
use tinkerbell.Agent.Run.Reported.{SameAction}

abbrev pub has_equals : String → Bool
has_equals String.[] = false
has_equals (String.◌∷◌ c s) = eqb (code c) b'=' || has_equals s

equals-append : (rest : String) → text_append "=" rest ≡ String.◌∷◌ "=" rest
equals-append rest = append.cons "=" "" rest ∙ ap (String.◌∷◌ "=") (append.nil rest)

split_env-append :
    (k v : String)
    → has_equals k ≡ false
    → split_env (text_append k (text_append "=" v)) ≡ record { key = k; value = v }
unfolding split_env
split_env-append String.[] v h = rw (append.nil (text_append "=" v), equals-append v) refl
split_env-append (String.◌∷◌ c s) v h =
    rw (append.cons c s (text_append "=" v)) (ground (arith, split_env-append s v))

-- A variable that the service writes as text is read by the agent as it was, if its name has no equals
-- sign; the value may have some.
pub split_env-format_entry :
    (k v : String)
    → has_equals k ≡ false
    → split_env (format_entry (k, v)) ≡ record { key = k; value = v }
unfolding format_entry
split_env-format_entry k v h = split_env-append k v h

state_of-spec_to_proto :
    (st : State) → (st ≡ success) ↔ (state_of (spec_to_proto st) ≡ WorkflowState.success)
unfolding state_of spec_to_proto
state_of-spec_to_proto st = ground arith

-- A report about an action that was read from an answer of the service names the workflow, if its
-- namespace has no slash, and matches the action that was served, if its task is the agent's; the
-- state that the service writes for it is SUCCESS exactly when the agent's is.
pub request_of-matches :
    (agent : String) (w : Workflow) (t : Task) (a : Api.Action) (ev : Event)
    → has_slash w.namespace ≡ false
    → t.agent_id ≡ agent
    → SameAction ev.action (action_of (response agent w t a))
    → (cut (request_of ev).workflow_id ≡ (w.namespace, w.name))
      × (matches (request_of ev) t a ≡ true)
      × ((ev.state ≡ success) ↔ (state_of (request_of ev).action_state ≡ WorkflowState.success))
unfolding request_of action_of response matches
request_of-matches agent w t a ev h e (same_id, same_task, same_workflow, same_agent, same_name) = (
  ap cut same_workflow ∙ cut-response agent w t a h,
  ground (arith, same_id, same_agent, e),
  state_of-spec_to_proto ev.state,
)
