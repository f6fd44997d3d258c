-- ===== src/Controller.antt =====
-- The workflow controller of tink/controller/internal/workflow: the cluster that it works on, the
-- workflow that it changes, and the answers that it gives to the controller runtime. The children
-- model hardware.go, job.go, pre.go, post.go, template_validator.go, convert.go, lists.go and
-- reconciler.go.
pub mod Leaves
pub mod AllowPxe
pub mod Job
pub mod Prepare
pub mod Post
pub mod AgentId
pub mod Template
pub mod References
pub mod Functions
pub mod Process
pub mod Reconcile
pub mod Memory
mod Tests
use tinkerbell.Base.{ℕ, String, Bool, true, false, Option, none, some, List, [], ◌∷◌}
use tinkerbell.Base.Fallible.{Result, ok, err, Exec, relabel}
use tinkerbell.Api.{Workflow, WorkflowStatus, WorkflowCondition, ConditionType, Hardware, BmcAction}
use tinkerbell.Api.Conditions.{set_condition, set_condition_if_different}

-- What a call of the Kubernetes client reports: the kinds that the controller tells apart, and the
-- text.
pub data KubeKind : Type 0 where
  missing conflict unexpected : KubeKind

pub record KubeError : Type 0 where
  pub kind : KubeKind
  pub text : String

-- What the controller reads of a job of bmc.tinkerbell.org.
pub record BmcJob : Type 0 where
  pub uid : String
  pub deleting : Bool
  pub failed : Bool
  pub completed : Bool

-- What it creates one from: its name and namespace, the machine, the actions and the owner.
pub record BmcJobSpec : Type 0 where
  pub name : String
  pub namespace : String
  pub machine : String
  pub tasks : List BmcAction
  pub owner : String

-- The Kubernetes client over a state `S` of the cluster, and the clock. `templated` is the text
-- template engine, applied to the text of a media URL and a hardware.
pub record Cluster (S : Type 0) : Type 0 where
  pub now : S → ℕ
  pub get_hardware : String → String → Exec S KubeError Hardware
  pub update_hardware : Hardware → Exec S KubeError (Unit {0})
  pub get_job : String → String → Exec S KubeError BmcJob
  pub create_job : BmcJobSpec → Exec S KubeError (Unit {0})
  pub delete_job : String → String → Exec S KubeError (Unit {0})
  pub delete_tasks : String → String → Exec S KubeError (Unit {0})
  pub templated : String → Hardware → Result String String

-- The receiver `state` of the source: the client's cluster and the workflow that is changed in place,
-- which keeps what was written to it when an error comes later.
pub record State (S : Type 0) : Type 0 where
  pub cluster : S
  pub workflow : Workflow

-- `reconcile.Result`
pub record Outcome : Type 0 where
  pub requeue : Bool
  pub requeue_after : Option ℕ

abbrev pub finished : Outcome
finished = record { requeue = false; requeue_after = none }

abbrev pub again : Outcome
again = record { requeue = true; requeue_after = none }

module _ {S : Type 0} where
  abbrev pub with_status : State S → WorkflowStatus → State S
  with_status st x = record st { workflow = record st.workflow { status = x } }

  -- A write to the workflow in memory, which does not fail.
  abbrev pub change : (State S → WorkflowStatus) → Exec (State S) String (Unit {0})
  change f st = (ok tt, with_status st (f st))

  module _ {A : Type 0} where
    -- A call of the client, with its error put in words.
    abbrev pub on_cluster : (KubeError → String) → Exec S KubeError A → Exec (State S) String A
    on_cluster f m st = (relabel f (m st.cluster).0, record st { cluster = (m st.cluster).1 })

    -- A call on the cluster alone.
    abbrev pub in_cluster : Exec S String A → Exec (State S) String A
    in_cluster m st = ((m st.cluster).0, record st { cluster = (m st.cluster).1 })

    after_failure :
        (String → State S → WorkflowStatus) → Result String A × State S → Result String A × State S
    after_failure f (ok a, st) = (ok a, st)
    after_failure f (err e, st) = (err e, with_status st (f e st))

    -- A call, and what is done to the status of the workflow when it fails.
    unfoldable pub on_failure :
        (String → State S → WorkflowStatus) → Exec (State S) String A → Exec (State S) String A
    unfolding after_failure
    on_failure f m st = after_failure f (m st)

  module _ (c : Cluster S) where
    abbrev pub condition : ConditionType → Bool → String → String → State S → WorkflowCondition
    condition t b reason message st = record {
      type = t;
      status = b;
      reason = reason;
      message = message;
      time = c.now st.cluster;
    }

    -- `SetCondition` and `SetConditionIfDifferent` on the workflow, at the present time.
    abbrev pub set : ConditionType → Bool → String → String → State S → WorkflowStatus
    set t b reason message st = record st.workflow.status {
      conditions = set_condition (condition t b reason message st) st.workflow.status.conditions;
    }

    abbrev pub set_if_different : ConditionType → Bool → String → String → State S → WorkflowStatus
    set_if_different t b reason message st = record st.workflow.status {
      conditions =
          set_condition_if_different (condition t b reason message st)
            st.workflow.status.conditions;
    }
