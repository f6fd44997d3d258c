-- ===== src/Server/Auto/Tests.antt =====
-- The theorems about names, discovery and enrollment at a cluster whose controller prepares each
-- workflow that is created.
use tinkerbell.Base.{String, true, false, none, some, List, [], ◌∷◌, ◌≡◌, ◌⊎◌, refl, length, All}
use tinkerbell.Base.Equality.{string_eq}
use tinkerbell.Base.Fallible.{ok, Exec}
use tinkerbell.Base.Dict.{insert}
use tinkerbell.Api.{WorkflowState, state_eq, boot_mode_eq, Workflow, Hardware}
use tinkerbell.Server.{
  Error, Backend, Attributes, AutoCapabilities, ActionRequest, ActionResponse, WorkflowRuleSet,
}
use tinkerbell.Server.Select.{
  is_first_action, is_task_successful, pick_workflow, pick_task, resolve_action,
}
use tinkerbell.Server.Annotate.{annotate, resolve_and_annotate_hardware}
use tinkerbell.Server.Get.{serve_workflow, do_get_action, response, current_of, with_current}
use tinkerbell.Server.Names.Chars.{
  Char, chars, trim_space, trim_space_left, trim_space_right, lower,
}
use tinkerbell.Server.Names.{
  ends_alnum, pad, begins_hyphen, collapse, trim_left, trim_right, normalise, ends_hyphen,
  has_double, is_valid, truncate, make_trimmed, make_valid_chars, named_text, make_valid_name,
}
use tinkerbell.Server.Names.Valid.{IsName, make_valid_chars-IsName}
use tinkerbell.Server.Discover.{
  new_disks, new_interfaces, update_hardware, new_hardware, annotate_new, described, discover,
}
use tinkerbell.Server.Discover.Found.{FoundOrCreated, discover-FoundOrCreated}
use tinkerbell.Server.Enroll.{
  no_match, enrollment_workflow, is_disabled, count_event, find_match, best_match,
  get_action_no_auto, enroll,
}
use tinkerbell.Server.Enroll.Best.{score, IsFirstBest, best_match-IsFirstBest}
use tinkerbell.Server.Enroll.Enrolled.{IsListed}
use tinkerbell.Server.Auto.{get_action, get_action-IsListed}
use tinkerbell.Server.Memory.{memory, make_status, make_task, make_action, new_actions, off}

abbrev mixed : List Char
mixed = chars " 52:54:AB_-"

abbrev shown_name : List Char
shown_name = chars "enrollment-52-54-ab-e"

mixed_name : make_valid_chars mixed (chars "enrollment-") ≡ ok shown_name
unfolding make_valid_chars make_trimmed trim_space trim_space_left trim_space_right normalise pad
    ends_alnum begins_hyphen collapse trim_left trim_right lower truncate is_valid ends_hyphen
    has_double
mixed_name = refl

make_valid_chars-IsName_example : IsName shown_name
make_valid_chars-IsName_example =
    make_valid_chars-IsName mixed (chars "enrollment-") shown_name mixed_name

abbrev rules_of : String → List String → WorkflowRuleSet
rules_of n rules = record no_match.wrs {
  name = n;
  rules = rules;
  workflow_namespace = "default";
  template_ref = n;
  agent_value = "device";
}

abbrev rule_sets : List WorkflowRuleSet
rule_sets =
    rules_of "small" ("r" ∷ [])
    ∷ rules_of "large" ("r" ∷ "s" ∷ [])
    ∷ rules_of "late" ("t" ∷ "u" ∷ [])
    ∷ []

abbrev prepared : Workflow → Workflow
prepared w = record w { status = make_status WorkflowState.pending none new_actions }

abbrev cluster : Backend (List Workflow)
cluster = record memory {
  create_workflow = λ w s. (ok tt, prepared w ∷ s);
  create_hardware = λ hw s. (ok tt, s);
  list_rule_sets = λ s. (ok rule_sets, s);
  rule_matches = λ rules event. ok (length rules);
}

abbrev at_once :
    Exec (List Workflow) Error ActionResponse → Exec (List Workflow) Error ActionResponse
at_once m = m

at_once-runs :
    (m : Exec (List Workflow) Error ActionResponse) (s : List Workflow) (r : ActionResponse)
    (s' : List Workflow)
    → at_once m s ≡ (ok r, s')
    → (s₀ : List Workflow) × (m s₀ ≡ (ok r, s'))
at_once-runs m s r s' h = (s, h)

abbrev enrolled : Workflow
enrolled =
    prepared
      (enrollment_workflow "enrollment-agent" "agent" none none (rules_of "large" ("r" ∷ "s" ∷ [])))

abbrev enrolled_response : ActionResponse
enrolled_response =
    response "agent" enrolled (make_task new_actions) (make_action "a1" WorkflowState.pending)

abbrev enrolled_store : List Workflow
enrolled_store =
    with_current enrolled
      (current_of "agent" (make_task new_actions) (make_action "a1" WorkflowState.pending))
    ∷ []

agent_is_enrolled :
    enroll cluster at_once "agent" none none [] ≡ (ok enrolled_response, enrolled_store)
unfolding enroll is_disabled make_valid_name named_text make_valid_chars make_trimmed trim_space
    trim_space_left trim_space_right normalise pad ends_alnum begins_hyphen collapse trim_left
    trim_right lower truncate is_valid ends_hyphen has_double best_match find_match count_event
    get_action_no_auto do_get_action pick_workflow pick_task resolve_action is_first_action
    is_task_successful string_eq state_eq boot_mode_eq serve_workflow with_current current_of
    response resolve_and_annotate_hardware enrollment_workflow
agent_is_enrolled = refl

abbrev on : AutoCapabilities
on = record off { enrollment = true; discovery = true; discovery_namespace = "default" }

abbrev on_request : ActionRequest
on_request = record { agent_id = "agent"; attributes = none }

best_match-IsFirstBest_example :
    (((best_match cluster none no_match rule_sets).num_matches ≡ 0)
      × All (λ wr. score cluster none wr ≡ 0) rule_sets)
    ⊎ IsFirstBest cluster none rule_sets (best_match cluster none no_match rule_sets)
best_match-IsFirstBest_example = best_match-IsFirstBest cluster none rule_sets

abbrev attributes : Attributes
attributes = record {
  block_devices =
      some (record { name = some "sda"; size = some "1GB" })
      ∷ some (record { name = none; size = none })
      ∷ [];
  network_interfaces = some (record { mac = some "52:54:00:00:00:01" }) ∷ none ∷ [];
  encoded = ok "{}";
}

abbrev found : Hardware
found = record (new_hardware "discovery-agent" "default" "agent" false) {
  enrollment_enabled = true;
  annotations = ("tinkerbell.org/agent-attributes", "{}") ∷ [];
  disks = "/dev/sda" ∷ [];
  interfaces =
      record { dhcp = some (record { mac = "52:54:00:00:00:01"; uefi = false }); netboot = none }
      ∷ [];
}

agent_is_discovered : discover cluster on "agent" (some attributes) [] ≡ (ok found, [])
unfolding discover make_valid_name named_text make_valid_chars make_trimmed trim_space
    trim_space_left trim_space_right normalise pad ends_alnum begins_hyphen collapse trim_left
    trim_right lower truncate is_valid ends_hyphen has_double described update_hardware new_disks
    new_interfaces annotate_new annotate new_hardware insert string_eq
agent_is_discovered = refl

discover-FoundOrCreated_example : FoundOrCreated cluster on "agent" (some attributes) [] found []
discover-FoundOrCreated_example =
    discover-FoundOrCreated cluster on "agent" (some attributes) [] found [] agent_is_discovered

agent_is_served :
    get_action cluster at_once (record off { enrollment = true }) on_request []
    ≡ (ok enrolled_response, enrolled_store)
unfolding get_action do_get_action string_eq
agent_is_served = agent_is_enrolled

get_action-IsListed_example : IsListed cluster "agent" enrolled_response enrolled_store
get_action-IsListed_example =
    get_action-IsListed cluster at_once at_once-runs (record off { enrollment = true }) on_request
      [] enrolled_response enrolled_store agent_is_served
