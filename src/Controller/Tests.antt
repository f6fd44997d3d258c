-- ===== src/Controller/Tests.antt =====
-- The theorems about the controller at one cluster and a few workflows.
use tinkerbell.Base.{ℕ, String, true, false, some, [], ◌≡◌, ◌⊎◌, refl}
use tinkerbell.Base.Dict.{lookup, insert}
use tinkerbell.Base.Equality.{string_eq}
use tinkerbell.Base.Fallible.{ok}
use tinkerbell.Api.{WorkflowState, WorkflowStatus}
use tinkerbell.Controller.{State, finished, on_failure}
use tinkerbell.Controller.Leaves.{Leaves}
use tinkerbell.Controller.AllowPxe.{
  allow_pxe, hardware_from, set_allow_pxe, toggled, toggle_fetch, toggle_set, toggle_done,
  toggle_with, toggle_hardware,
}
use tinkerbell.Controller.AllowPxe.Updated.{IsUpdated, toggle_hardware-IsUpdated}
use tinkerbell.Controller.Job.{job_of, handle_job}
use tinkerbell.Controller.Job.Fresh.{IsFresh}
use tinkerbell.Controller.Job.Deleted.{flag, DeletedBy, handle_job-IsDeleted}
use tinkerbell.Controller.Prepare.{prepare_workflow, netboot_actions}
use tinkerbell.Controller.Prepare.States.{Prepared, job_name, prepare_workflow-Prepared}
use tinkerbell.Controller.Post.{post_actions}
use tinkerbell.Controller.Post.States.{Ends as PostEnds, post_actions-Settled}
use tinkerbell.Controller.AgentId.{Moves, update_agent_id_if_needed, update_agent_id_lem}
use tinkerbell.Controller.Template.{
  render_template_hardware, parse, validate, validate_tasks, validate_actions, has_valid_length,
  TemplateData, yaml_to_status,
}
use tinkerbell.Controller.Template.Valid.{
  GoodTemplate, HasWorkers, render_template_hardware-GoodTemplate,
}
use tinkerbell.Controller.Template.Converted.{TasksAreNew, worker_of, yaml_to_status-TasksAreNew}
use tinkerbell.Controller.References.{collect, collect_one, admit, evaluate, no_references}
use tinkerbell.Controller.References.Admitted.{HasAllowed, collect-HasAllowed}
use tinkerbell.Controller.Process.{process_new_workflow}
use tinkerbell.Controller.Reconcile.{run_on}
use tinkerbell.Controller.Process.Rendered.{
  Ends, IsStarted, NotRendered, process_new_workflow-IsStarted,
}
use tinkerbell.Controller.Reconcile.Settled.{RunsOn, run_on-RunsOn}
use tinkerbell.Controller.Memory.{
  machine, cluster, template, engine, stored_in, services, netbooting,
}

abbrev preparing : State ℕ
preparing = record { cluster = 0; workflow = netbooting WorkflowState.preparing }

abbrev boot_job : String
boot_job = job_name "netboot" preparing.workflow

no_job-IsFresh : IsFresh (job_of boot_job preparing.workflow.status)
unfolding job_of lookup
no_job-IsFresh h = absurd (cc)

handle_job-IsDeleted_example :
    let after = (handle_job cluster boot_job (netboot_actions false) preparing).1 in
    IsFresh (job_of boot_job after.workflow.status)
    × ((flag boot_job after.workflow.status ≡ flag boot_job preparing.workflow.status)
        ⊎ DeletedBy cluster boot_job preparing.workflow.namespace preparing.cluster after.cluster)
handle_job-IsDeleted_example =
    handle_job-IsDeleted cluster boot_job boot_job (netboot_actions false) preparing no_job-IsFresh
      no_job-IsFresh

prepare_workflow-Prepared_example : Leaves (Prepared boot_job) (prepare_workflow cluster preparing)
prepare_workflow-Prepared_example =
    prepare_workflow-Prepared cluster "netboot" preparing refl refl no_job-IsFresh

abbrev in_post : State ℕ
in_post = record { cluster = 0; workflow = netbooting WorkflowState.post }

post_actions-Settled_example : Leaves (PostEnds cluster in_post) (post_actions cluster in_post)
post_actions-Settled_example = post_actions-Settled cluster in_post refl

abbrev one_task : WorkflowStatus
one_task = (stored_in WorkflowState.running).status

update_agent_id_lem_example :
    ((agent : String)
      → Moves one_task agent
      → update_agent_id_if_needed one_task ≡ (record one_task { agent_id = agent }, true))
    × (((a : String) → ¬ Moves one_task a) → update_agent_id_if_needed one_task ≡ (one_task, false))
update_agent_id_lem_example = update_agent_id_lem one_task

abbrev render_data : TemplateData
render_data = record { hardware_map = []; hardware = machine; references = [] }

template_renders : render_template_hardware engine "wf" "template" render_data ≡ ok template
unfolding render_template_hardware parse validate validate_tasks validate_actions has_valid_length
    string_eq
template_renders = refl

render_template_hardware-GoodTemplate_example :
    GoodTemplate engine template × HasWorkers engine template
render_template_hardware-GoodTemplate_example =
    render_template_hardware-GoodTemplate engine "wf" "template" render_data template
      template_renders

agent_is_named : HasWorkers engine template
agent_is_named = ((λ e. cc), tt)

yaml_to_status-TasksAreNew_example :
    TasksAreNew template.tasks (yaml_to_status services.make_id template 0).0.tasks
    × ((yaml_to_status services.make_id template 0).0.agent_id ≡ worker_of template.tasks)
yaml_to_status-TasksAreNew_example =
    yaml_to_status-TasksAreNew services.make_id template 0 agent_is_named

tree_is_collected :
    lookup "tree"
      (collect services.matching services.dynamic_read services.rules machine machine.references
        no_references 0).0.references
    ≡ some "oak"
unfolding collect collect_one admit evaluate lookup string_eq insert
tree_is_collected = refl

collect-HasAllowed_example :
    HasAllowed services.matching services.rules machine services.dynamic_read machine.references
      "tree" "oak"
collect-HasAllowed_example =
    collect-HasAllowed services.matching services.rules machine services.dynamic_read "tree" "oak" 0
      tree_is_collected

abbrev new : State ℕ
new = record { cluster = 0; workflow = netbooting WorkflowState.unset }

process_new_workflow-IsStarted_example :
    Ends
      (λ (s : State ℕ). IsStarted cluster services new.workflow s.workflow.status)
      (λ (s : State ℕ). NotRendered new.workflow s.workflow.status)
      (process_new_workflow cluster services new)
process_new_workflow-IsStarted_example = process_new_workflow-IsStarted cluster services new

abbrev late : WorkflowStatus
late = record one_task { global_execution_stop = some 999 }

late_times_out :
    run_on cluster services 1000 late
    ≡ some (record late { state = WorkflowState.timeout }, finished)
unfolding run_on
late_times_out = refl

run_on-RunsOn_example : RunsOn 1000 late (record late { state = WorkflowState.timeout })
run_on-RunsOn_example =
    run_on-RunsOn cluster services 1000 late (record late { state = WorkflowState.timeout })
      finished late_times_out

toggle_succeeds :
    toggle_hardware cluster true preparing ≡ (ok tt, (toggle_hardware cluster true preparing).1)
unfolding toggle_hardware toggle_fetch toggle_with toggle_set toggle_done toggled hardware_from
    set_allow_pxe allow_pxe on_failure
toggle_succeeds = refl

not_toggled : toggled true preparing.workflow.status ≡ false
unfolding toggled
not_toggled = refl

toggle_hardware-IsUpdated_example :
    IsUpdated cluster preparing.workflow true (toggle_hardware cluster true preparing).1.cluster
    × (toggled true (toggle_hardware cluster true preparing).1.workflow.status ≡ true)
toggle_hardware-IsUpdated_example =
    toggle_hardware-IsUpdated cluster true preparing (toggle_hardware cluster true preparing).1
      not_toggled toggle_succeeds
