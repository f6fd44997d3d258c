-- ===== src/Controller/Process.antt =====
-- `processWorkflow` and `processNewWorkflow` (tink/controller/internal/workflow/reconciler.go), and the
-- services that the reconciler calls beside the cluster.
pub mod Rendered
use Prim.Native.String.{◌++◌ as text_append}
use tinkerbell.Base.{
  ◌+◌, String, Bool, true, false, Option, none, List, [], ◌∷◌, ◌++◌, if◌then◌else◌, not, ◌||◌,
}
use tinkerbell.Base.Equality.{◌!=◌, string_eq}
use tinkerbell.Base.Fallible.{Result, ok, err, Exec, pure, fail, ◌>>=◌, ◌>>◌}
use tinkerbell.Api.{
  Workflow, WorkflowStatus, WorkflowState, ConditionType, TemplateRendering, BootMode, boot_mode_eq,
  Hardware, Reference,
}
use tinkerbell.Controller.{
  Cluster, State, KubeError, KubeKind, Outcome, finished, again, with_status, change, set,
  set_if_different,
}
use tinkerbell.Controller.Template.{Engine, Template, render_template_hardware, yaml_to_status}
use tinkerbell.Controller.References.{
  EvaluationData, ReferenceRules, Collected, no_references, collect,
}

-- The rest of what the reconciler calls: the client for workflows and templates, the rule engine, the
-- dynamic client, the template engine, the generator of identifiers, and the comparison of two
-- statuses. `get_workflow` also tells whether the workflow is being deleted.
pub record Services (S : Type 0) : Type 0 where
  pub get_workflow : String → String → Exec S KubeError (Bool × Workflow)
  pub patch_status : Workflow → Workflow → Exec S KubeError (Unit {0})
  pub same_status : WorkflowStatus → WorkflowStatus → Bool
  pub get_template : String → String → Exec S KubeError String
  pub matching : List String → EvaluationData → Result String (List String)
  pub dynamic_read : Reference → S → (Option String × Option String) × S
  pub engine : Engine
  pub make_id : S → String × S
  pub rules : ReferenceRules

-- The zero value of a hardware, which stands for one that the workflow does not name.
abbrev pub no_hardware : Hardware
no_hardware = record {
  name = "";
  namespace = "";
  annotations = [];
  labels = [];
  agent_id = "";
  enrollment_enabled = false;
  bmc_ref = none;
  interfaces = [];
  disks = [];
  references = [];
}

-- `errors.Join`: the texts, one to a line.
abbrev pub join_errors : List String → String
join_errors [] = ""
join_errors (e ∷ []) = e
join_errors (e ∷ f ∷ es) = text_append e (text_append "\n" (join_errors (f ∷ es)))

module _ {S : Type 0} (c : Cluster S) (v : Services S) where
  -- The mark of a rendering that failed.
  abbrev mark_failed : String → State S → WorkflowStatus
  mark_failed message st =
      record (set_if_different c ConditionType.template_rendered_success false "Error" message st) {
        template_rendering = TemplateRendering.rendering_failed;
      }

  refuse : {A : Type 0} → String → String → Exec (State S) String A
  refuse message e = do change (mark_failed message); fail e

  template_result : Workflow → Result KubeError String → Exec (State S) String String
  unfolding refuse
  template_result w (ok text) = pure text
  template_result w (err e) = elim e.kind [
    | KubeKind.missing ↦
        refuse "template not found" (text_append "no template found: name=" w.spec.template_ref)
    | _ ↦ refuse e.text e.text
  ]

  hardware_result : Workflow → Result KubeError Hardware → Exec (State S) String Hardware
  unfolding refuse
  hardware_result w (ok hw) = pure hw
  hardware_result w (err e) = elim e.kind [
    | KubeKind.missing ↦
        if w.spec.hardware_ref != ""
        then refuse (text_append "hardware not found: " e.text)
            (text_append "hardware not found: name=" w.spec.hardware_ref)
        else pure no_hardware
    | _ ↦ refuse (text_append "error getting hardware: " e.text) e.text
  ]

  -- A read of the cluster, and what is made of the answer.
  abbrev then_read :
      {A : Type 0}
      → Exec S KubeError A
      → (Result KubeError A → Exec (State S) String A)
      → Exec (State S) String A
  then_read m f st = f (m st.cluster).0 (record st { cluster = (m st.cluster).1 })

  abbrev collected : Hardware → State S → Collected × S
  collected hw st =
      collect v.matching v.dynamic_read v.rules hw hw.references no_references st.cluster

  -- The status that the rendered template gives replaces the old one, whole.
  unfoldable pub populate : Template → Exec (State S) String (Unit {0})
  populate t st =
      let made = yaml_to_status v.make_id t st.cluster in
      let st' = record (with_status st made.0) { cluster = made.1 } in
      (
        ok tt,
        with_status st'
            (record (set c ConditionType.template_rendered_success true "Complete"
              "template rendered successfully" st') {
                template_rendering = TemplateRendering.rendering_successful;
              }),
      )

  unfoldable pub rendered : List String → Result String Template → Exec (State S) String (Unit {0})
  unfolding refuse
  rendered errors (ok t) = populate t
  rendered errors (err e) =
      refuse (text_append "error rendering template: " (join_errors (errors ++ (e ∷ [])))) e

  unfoldable pub render : Workflow → String → Hardware → Exec (State S) String (Unit {0})
  render w text hw st =
      let refs = collected hw st in
      rendered refs.0.errors
        (render_template_hardware v.engine w.name text (record {
          hardware_map = w.spec.hardware_map;
          hardware = hw;
          references = refs.0.references;
        }))
        (record st { cluster = refs.1 })

  -- `processWorkflow`
  unfoldable pub process_workflow : Exec (State S) String (Unit {0})
  unfolding template_result hardware_result
  process_workflow st =
      let w = st.workflow in
      (do
        text ← then_read (v.get_template w.spec.template_ref w.namespace) (template_result w)
        hw ← then_read (c.get_hardware w.spec.hardware_ref w.namespace) (hardware_result w)
        render w text hw)
        st

  abbrev set_state : WorkflowState → State S → WorkflowStatus
  set_state x st = record st.workflow.status { state = x }

  unfoldable pub to_next : Exec (State S) String Outcome
  to_next st =
      if st.workflow.spec.toggle_allow_netboot || st.workflow.spec.boot_mode != BootMode.no_mode
      then (ok again, with_status st (set_state WorkflowState.preparing st))
      else (ok finished, with_status st (set_state WorkflowState.pending st))

  -- `processNewWorkflow`
  unfoldable pub process_new_workflow : Exec (State S) String Outcome
  process_new_workflow = process_workflow >> to_next
