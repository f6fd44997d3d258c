-- ===== src/Controller/Template.antt =====
-- The workflow that a template becomes: types.go, template_validator.go and convert.go of
-- tink/controller/internal/workflow. The template engine, the YAML decoder and the parser of image
-- names are third-party code, the fields of `Engine`.
pub mod Valid
pub mod Converted
use Prim.Native.String.{◌++◌ as text_append, len}
use tinkerbell.Base.{
  ℕ, String, Bool, true, false, Option, none, some, List, [], ◌∷◌, if◌then◌else◌, ltb, all, any,
  ◌&&◌, ◌||◌,
}
use tinkerbell.Base.Dict.{Dict}
use tinkerbell.Base.Equality.{◌==◌, ◌!=◌, string_eq}
use tinkerbell.Base.Fallible.{Result, ok, err}
use tinkerbell.Api.{
  ActionNamespaces, Action, Task, Hardware, WorkflowState, WorkflowStatus, TemplateRendering,
}

pub record TemplateAction : Type 0 where
  pub name : String
  pub image : String
  pub timeout : ℕ
  pub command : List String
  pub on_timeout : List String
  pub on_failure : List String
  pub volumes : List String
  pub environment : Dict String String
  pub pid : String
  pub namespaces : ActionNamespaces

pub record TemplateTask : Type 0 where
  pub name : String
  pub worker_addr : String
  pub actions : List TemplateAction
  pub volumes : List String
  pub environment : Dict String String

pub record Template : Type 0 where
  pub version : String
  pub name : String
  pub id : String
  pub global_timeout : ℕ
  pub tasks : List TemplateTask

-- What a template is rendered with: the values of the workflow, the hardware, and the objects that
-- the hardware refers to.
pub record TemplateData : Type 0 where
  pub hardware_map : Dict String String
  pub hardware : Hardware
  pub references : Dict String String

pub record Engine : Type 0 where
  pub execute : String → TemplateData → Result String String
  pub unmarshal : String → Result String Template
  pub image_ok : String → Bool

-- The length of a text is in bytes.
unfoldable pub has_valid_length : String → Bool
has_valid_length s = ltb 0 (len s) && ltb (len s) 200

module _ (g : Engine) where
  -- The names seen so far are the keys of the source's map.
  unfoldable pub validate_actions : List String → List TemplateAction → Result String (Unit {0})
  unfolding has_valid_length
  validate_actions seen [] = ok tt
  validate_actions seen (a ∷ acts) =
      let rest = validate_actions (a.name ∷ seen) acts in
      if has_valid_length a.name
      then (if g.image_ok a.image
          then (if any (λ n. n == a.name) seen
              then err (text_append "two actions in a task cannot have same name: " a.name)
              else rest)
          else err (text_append "invalid action image " a.image))
      else err (text_append "name cannot be empty or have more than 200 characters: " a.name)

  unfoldable pub validate_tasks : List String → List TemplateTask → Result String (Unit {0})
  unfolding has_valid_length validate_actions
  validate_tasks seen [] = ok tt
  validate_tasks seen (t ∷ ts) =
      let rest = validate_tasks (t.name ∷ seen) ts in
      if has_valid_length t.name
      then (if any (λ n. n == t.name) seen
          then err (text_append "two tasks in a template cannot have same name " t.name)
          else (elim (validate_actions [] t.actions) [ err e ↦ err e | ok _ ↦ rest ]))
      else err (text_append "name cannot be empty or have more than 200 characters: " t.name)

  unfoldable pub validate : Template → Result String (Unit {0})
  unfolding has_valid_length validate_tasks
  validate w =
      if has_valid_length w.name
      then (elim w.tasks [
        | [] ↦ err "template must have at least one task defined"
        | t ∷ ts ↦ validate_tasks [] (t ∷ ts)
      ])
      else err (text_append "name cannot be empty or have more than 200 characters: " w.name)

  unfoldable pub parse : String → Result String Template
  unfolding validate
  parse text = elim (g.unmarshal text) [
    | err e ↦ err (text_append "parsing yaml data: err: " e)
    | ok w ↦ (elim (validate w) [
      | err e ↦ err (text_append "validating workflow template: " e)
      | ok _ ↦ ok w
    ])
  ]

  -- `renderTemplateHardware`
  unfoldable pub render_template_hardware : String → String → TemplateData → Result String Template
  render_template_hardware id text d = elim (g.execute text d) [
    | err e ↦ err (text_append "failed to parse template with ID " (text_append id e))
    | ok rendered ↦ (elim (parse rendered) [
      | err e ↦ err e
      | ok w ↦
          if any (λ t. t.worker_addr == "") w.tasks
          then err "failed to render template, empty hardware address"
          else ok w
    ])
  ]

-- The agent of the first task that names one.
unfoldable pub first_worker : String → List TemplateTask → String
first_worker agent [] = agent
first_worker agent (t ∷ ts) = first_worker (if agent == "" then t.worker_addr else agent) ts

-- `YAMLToStatus`. The identifiers come from a generator over the state `S`.
module _ {S : Type 0} (make_id : S → String × S) where
  abbrev namespaces_of : ActionNamespaces → Option ActionNamespaces
  namespaces_of n = if n.network != "" || n.pid != "" then some n else none

  abbrev action_from : String → TemplateAction → Action
  action_from id a = record {
    id = id;
    name = a.name;
    image = a.image;
    timeout = a.timeout;
    command = a.command;
    volumes = a.volumes;
    pid = a.pid;
    namespaces = namespaces_of a.namespaces;
    environment = a.environment;
    state = WorkflowState.pending;
    execution_start = none;
    execution_stop = none;
    execution_duration = "";
    message = "";
  }

  unfoldable pub actions_from : List TemplateAction → S → List Action × S
  actions_from [] s = ([], s)
  actions_from (a ∷ acts) s =
      let rest = actions_from acts (make_id s).1 in (action_from (make_id s).0 a ∷ rest.0, rest.1)

  abbrev task_from : String → TemplateTask → List Action → Task
  task_from id t acts = record {
    id = id;
    name = t.name;
    agent_id = t.worker_addr;
    actions = acts;
    volumes = t.volumes;
    environment = t.environment;
  }

  unfoldable pub tasks_from : List TemplateTask → S → List Task × S
  unfolding actions_from
  tasks_from [] s = ([], s)
  tasks_from (t ∷ ts) s =
      let acts = actions_from t.actions s in
      let rest = tasks_from ts (make_id acts.1).1 in
      (task_from (make_id acts.1).0 t acts.0 ∷ rest.0, rest.1)

  unfoldable pub yaml_to_status : Template → S → WorkflowStatus × S
  unfolding tasks_from first_worker
  yaml_to_status w s =
      let made = tasks_from w.tasks s in
      (
        record {
          agent_id = first_worker "" w.tasks;
          state = WorkflowState.unset;
          toggled_true = false;
          toggled_false = false;
          jobs = [];
          template_rendering = TemplateRendering.not_rendered;
          global_timeout = w.global_timeout;
          global_execution_stop = none;
          current_state = none;
          tasks = made.0;
          conditions = [];
        },
        made.1,
      )
