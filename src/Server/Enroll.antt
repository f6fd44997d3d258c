-- ===== src/Server/Enroll.antt =====
-- `enroll`, `findMatch` and `getActionNoAuto` (tink/server/internal/grpc/enrollment.go). The rule
-- engine is the backend's `rule_matches`; `retry` is the library's `backoff.Retry` with its options.
pub mod Best
pub mod Enrolled
use Prim.Native.String.{◌++◌ as text_append}
use tinkerbell.Base.{
  ℕ, String, Bool, true, false, not, Option, none, some, List, [], ◌∷◌, if◌then◌else◌, ltb,
}
use tinkerbell.Base.Equality.{string_eq}
use tinkerbell.Base.Fallible.{Result, ok, err, Exec}
use tinkerbell.Base.Dict.{Dict, insert}
use tinkerbell.Api.{
  WorkflowState, BootMode, TemplateRendering, Workflow, WorkflowStatus, WorkflowSpec, Hardware,
}
use tinkerbell.Server.{
  not_found, failed_precondition, internal, Error, status, read_failed, write_failed, ErrorKind,
  missing, multiple, already_exists, unexpected, BackendError, Stop, stopped, Backend, Attributes,
  WorkflowRuleSet, AutoCapabilities, ActionRequest, ActionResponse,
}
use tinkerbell.Server.Annotate.{attributes_annotation}
use tinkerbell.Server.Get.{do_get_action}
use tinkerbell.Server.Names.{make_valid_name}

abbrev pub workflow_prefix : String
workflow_prefix = "enrollment-"

-- `match`
pub record Match : Type 0 where
  pub wrs : WorkflowRuleSet
  pub num_matches : ℕ

-- `&match{}`
abbrev pub no_match : Match
no_match = record {
  wrs = record {
    api_version = "";
    kind = "";
    uid = "";
    name = "";
    rules = [];
    workflow_namespace = "";
    template_ref = "";
    agent_value = "";
    kvs = [];
    disabled = none;
    add_attributes = false;
  };
  num_matches = 0;
}

-- `maps.Copy(onto, m)`
unfoldable pub copy_all : Dict String String → Dict String String → Dict String String
copy_all [] onto = onto
copy_all ((k, v) ∷ m) onto = insert k v (copy_all m onto)

-- `json.Marshal`, of a pointer that may be nil.
encoded_or_null : Option Attributes → Result String String
encoded_or_null none = ok "null"
encoded_or_null (some a) = a.encoded

put_annotation : Result String String → Dict String String
unfolding insert
put_annotation (err _) = []
put_annotation (ok text) = insert attributes_annotation text []

enrollment_annotations : Bool → Option Attributes → Dict String String
unfolding encoded_or_null put_annotation
enrollment_annotations false attrs = []
enrollment_annotations true attrs = put_annotation (encoded_or_null attrs)

hardware_name : Option Hardware → String
hardware_name none = ""
hardware_name (some hw) = hw.name

-- The status of a workflow that no one has handled yet.
abbrev pub new_status : WorkflowStatus
new_status = record {
  agent_id = "";
  state = WorkflowState.unset;
  toggled_true = false;
  toggled_false = false;
  jobs = [];
  template_rendering = TemplateRendering.not_rendered;
  global_timeout = 0;
  global_execution_stop = none;
  current_state = none;
  tasks = [];
  conditions = [];
}

-- The workflow of the agent by the rule set.
unfoldable pub enrollment_workflow :
    String → String → Option Attributes → Option Hardware → WorkflowRuleSet → Workflow
unfolding enrollment_annotations hardware_name
enrollment_workflow name agent attrs hw wrs = record {
  name = name;
  namespace = wrs.workflow_namespace;
  annotations = enrollment_annotations wrs.add_attributes attrs;
  labels = ("tinkerbell.org/auto-enrollment", "true") ∷ [];
  owner_references =
      record { api_version = wrs.api_version; kind = wrs.kind; name = wrs.name; uid = wrs.uid }
      ∷ [];
  spec = record {
    disabled = wrs.disabled;
    template_ref = wrs.template_ref;
    hardware_ref = hardware_name hw;
    hardware_map = copy_all wrs.kvs (insert wrs.agent_value agent []);
    toggle_allow_netboot = false;
    iso_url = "";
    boot_mode = BootMode.no_mode;
    preparing_actions = [];
    post_actions = [];
  };
  status = new_status;
}

-- Auto enrollment is off for the hardware.
unfoldable pub is_disabled : Option Hardware → Bool
is_disabled none = false
is_disabled (some hw) = not hw.enrollment_enabled

abbrev no_auto : AutoCapabilities
no_auto = record {
  enrollment = false;
  discovery = false;
  discovery_namespace = "";
  discovery_enrollment_enabled = false;
}

module _ {S : Type 0} (b : Backend S) where
  -- The count of the rules that match.
  unfoldable pub count_event : WorkflowRuleSet → Option Attributes → Result String ℕ
  count_event wr none = b.rule_matches wr.rules none
  count_event wr (some a) = elim a.encoded [
    | err e ↦ err e
    | ok text ↦ b.rule_matches wr.rules (some text)
  ]

  more_than : WorkflowRuleSet → ℕ → Result String ℕ → Result String (Option Match)
  more_than wr current (err e) = err e
  more_than wr current (ok n) =
      ok (if ltb current n then some (record { wrs = wr; num_matches = n }) else none)

  unfoldable pub find_match : WorkflowRuleSet → Option Attributes → ℕ → Result String (Option Match)
  unfolding count_event more_than
  find_match wr attrs current = more_than wr current (count_event wr attrs)

  -- One round of the loop; an error is logged and the set skipped.
  better : Match → Result String (Option Match) → Match
  better final (err _) = final
  better final (ok none) = final
  better final (ok (some m)) = m

  unfoldable pub best_match : Option Attributes → Match → List WorkflowRuleSet → Match
  unfolding better
  best_match attrs final [] = final
  best_match attrs final (wr ∷ wrs) =
      best_match attrs (better final (find_match wr attrs final.num_matches)) wrs

  -- With discovery and enrollment off, `doGetAction` calls neither.
  unused_discover : String → Option Attributes → Exec S Stop Hardware
  unused_discover agent attrs s = (err (stopped (record { kind = unexpected; text = "" })), s)

  unused_enroll : String → Option Attributes → Option Hardware → Exec S Error ActionResponse
  unused_enroll agent attrs hw s = (err (status internal ""), s)

  module _ (retry : Exec S Error ActionResponse → Exec S Error ActionResponse) where
    -- `getActionNoAuto`
    unfoldable pub get_action_no_auto : String → Exec S Error ActionResponse
    unfolding unused_discover unused_enroll
    get_action_no_auto agent = retry (
        do_get_action b unused_discover unused_enroll no_auto
          (record { agent_id = agent; attributes = none }))

    create_error : BackendError → Error
    create_error e = elim e.kind [
      | already_exists ↦ status failed_precondition "existing workflow found"
      | missing ↦ write_failed internal (text_append "error creating enrollment workflow: " e.text)
      | multiple ↦ write_failed internal (text_append "error creating enrollment workflow: " e.text)
      | unexpected ↦
          write_failed internal (text_append "error creating enrollment workflow: " e.text)
    ]

    after_create : String → Result BackendError (Unit {0}) × S → Result Error ActionResponse × S
    unfolding get_action_no_auto create_error
    after_create agent (err e, s) = (err (create_error e), s)
    after_create agent (ok _, s) = get_action_no_auto agent s

    module _ (agent : String) (attrs : Option Attributes) (hw : Option Hardware) where
      create_for : String → Match → Exec S Error ActionResponse
      unfolding after_create
      create_for name final s =
          if ltb 0 final.num_matches
          then after_create agent
              (b.create_workflow (enrollment_workflow name agent attrs hw final.wrs) s)
          else (
            err (
                status not_found
                  (text_append "no Workflow Rule Sets found or matched for Agent " agent)),
            s,
          )

      with_name : Result String String → List WorkflowRuleSet → Exec S Error ActionResponse
      unfolding create_for
      with_name (err e) wrs s = (
        err (status internal (text_append "error making agentID a valid Kubernetes name: " e)),
        s,
      )
      with_name (ok name) wrs s = create_for name (best_match attrs no_match wrs) s

      with_rule_sets :
          Result BackendError (List WorkflowRuleSet) × S → Result Error ActionResponse × S
      unfolding with_name
      with_rule_sets (err e, s) =
          (err (read_failed internal (text_append "error getting workflow rules: " e.text)), s)
      with_rule_sets (ok wrs, s) = with_name (make_valid_name agent workflow_prefix) wrs s

      unfoldable pub enroll : Exec S Error ActionResponse
      unfolding with_rule_sets
      enroll s =
          if is_disabled hw
          then (err (status failed_precondition "auto enrollment is disabled for this hardware"), s)
          else with_rule_sets (b.list_rule_sets s)
