-- ===== src/Controller/Template/Converted.antt =====
-- What `YAMLToStatus` makes of a template.
use tinkerbell.Base.{String, List, [], ◌∷◌, All, arith, ◌≡◌, ◌≢◌, refl}
use tinkerbell.Base.Equality.{string_eq}
use tinkerbell.Api.{Action, Task, WorkflowState}
use tinkerbell.Controller.Template.{
  TemplateAction, TemplateTask, Template, actions_from, tasks_from, first_worker, yaml_to_status,
}

-- An action that has not been run, made from `a`.
abbrev pub IsNew : TemplateAction → Action → Type 0
IsNew a b =
    (b.name ≡ a.name)
    × (b.image ≡ a.image)
    × (b.command ≡ a.command)
    × (b.timeout ≡ a.timeout)
    × (b.environment ≡ a.environment)
    × (b.volumes ≡ a.volumes)
    × (b.pid ≡ a.pid)
    × (b.state ≡ WorkflowState.pending)

abbrev pub AreNew : List TemplateAction → List Action → Type 0
AreNew [] [] = Unit
AreNew (a ∷ acts) (b ∷ bs) = IsNew a b × AreNew acts bs
AreNew _ _ = ⊥

abbrev pub TasksAreNew : List TemplateTask → List Task → Type 0
TasksAreNew [] [] = Unit
TasksAreNew (t ∷ ts) (u ∷ us) =
    (u.name ≡ t.name)
    × (u.agent_id ≡ t.worker_addr)
    × AreNew t.actions u.actions
    × TasksAreNew ts us
TasksAreNew _ _ = ⊥

-- The agent that the first task names.
abbrev pub worker_of : List TemplateTask → String
worker_of [] = ""
worker_of (t ∷ _) = t.worker_addr

first_worker-set :
    (agent : String) (ts : List TemplateTask) → agent ≢ "" → first_worker agent ts ≡ agent
unfolding first_worker
first_worker-set agent [] h = refl
first_worker-set agent (t ∷ ts) h = ground (arith, first_worker-set agent ts)

first_worker_lem :
    (ts : List TemplateTask)
    → All (λ (t : TemplateTask). t.worker_addr ≢ "") ts
    → first_worker "" ts ≡ worker_of ts
unfolding first_worker string_eq
first_worker_lem [] h = refl
first_worker_lem (t ∷ ts) h = first_worker-set t.worker_addr ts h.0

module _ {S : Type 0} (make_id : S → String × S) where
  actions_from-AreNew :
      (acts : List TemplateAction) (s : S) → AreNew acts (actions_from make_id acts s).0
  unfolding actions_from
  actions_from-AreNew [] s = tt
  actions_from-AreNew (a ∷ acts) s =
      ((refl, refl, refl, refl, refl, refl, refl, refl), actions_from-AreNew acts (make_id s).1)

  tasks_from-TasksAreNew :
      (ts : List TemplateTask) (s : S) → TasksAreNew ts (tasks_from make_id ts s).0
  unfolding tasks_from
  tasks_from-TasksAreNew [] s = tt
  tasks_from-TasksAreNew (t ∷ ts) s = (
    refl,
    refl,
    actions_from-AreNew t.actions s,
    tasks_from-TasksAreNew ts (make_id (actions_from make_id t.actions s).1).1,
  )

  -- `YAMLToStatus` on a template none of whose tasks has an empty worker address: the status has a
  -- task for each task of the template, in order, for its worker, with its actions in order, all of
  -- them PENDING; and the agent of the workflow is the worker of the first task.
  pub yaml_to_status-TasksAreNew :
      (w : Template) (s : S)
      → All (λ (t : TemplateTask). t.worker_addr ≢ "") w.tasks
      → TasksAreNew w.tasks (yaml_to_status make_id w s).0.tasks
        × ((yaml_to_status make_id w s).0.agent_id ≡ worker_of w.tasks)
  unfolding yaml_to_status
  yaml_to_status-TasksAreNew w s h = (tasks_from-TasksAreNew w.tasks s, first_worker_lem w.tasks h)
