-- ===== src/Controller/Post.antt =====
-- `postActions` (tink/controller/internal/workflow/post.go): what is done for the boot mode of a
-- workflow after its actions.
pub mod Settled
pub mod States
use Prim.Native.String.{◌++◌ as text_append}
use tinkerbell.Base.{
  String, Bool, true, false, Option, none, some, List, [], ◌∷◌, if◌then◌else◌, not, ◌&&◌, ◌||◌,
}
use tinkerbell.Base.Equality.{◌==◌, string_eq}
use tinkerbell.Base.Fallible.{Exec, ok, pure, fail, lift, map_err, ◌>>=◌, ◌>>◌}
use tinkerbell.Api.{WorkflowStatus, BmcAction, BootMode}
use tinkerbell.Controller.{Cluster, State, Outcome, finished, change, in_cluster}
use tinkerbell.Controller.AllowPxe.{hardware_from, toggle_hardware}
use tinkerbell.Controller.Job.{job_of, handle_job}
use tinkerbell.Controller.Prepare.{job_needed, media, template_actions, or_failed}

-- The workflow takes the state of its current action.
unfoldable pub take_current_state : WorkflowStatus → WorkflowStatus
take_current_state x = elim x.current_state [ none ↦ x | some c ↦ record x { state = c.state } ]

is_empty : List BmcAction → Bool
is_empty [] = true
is_empty (_ ∷ _) = false

module _ {S : Type 0} (c : Cluster S) where
  -- After the job: the workflow is done if the job is, or if there was nothing to do.
  unfoldable pub settle : Bool → String → Outcome → Exec (State S) String Outcome
  settle idle name r = do
    change (λ st.
        if (job_of name st.workflow.status).complete || idle
        then take_current_state st.workflow.status
        else st.workflow.status)
    pure r

  unfoldable pub post_job : Bool → String → List BmcAction → Exec (State S) String Outcome
  post_job idle name actions = do r ← or_failed c (handle_job c name actions); settle idle name r

  unfoldable pub post_iso : String → Exec (State S) String Outcome
  post_iso name st =
      if st.workflow.spec.iso_url == ""
      then or_failed c (fail "iso url must be a valid url") st
      else post_job false name (media "" ∷ []) st

  unfoldable pub post_custom : String → Exec (State S) String Outcome
  unfolding is_empty
  post_custom name st =
      (do
        hw ← or_failed c (
            map_err (λ e. text_append "failed to get hardware: " e)
              (in_cluster (hardware_from c st.workflow)))
        actions ← or_failed c (
            map_err (λ e. text_append "failed to template post actions: " e)
              (lift (template_actions c hw st.workflow.spec.post_actions)))
        post_job (is_empty st.workflow.spec.post_actions) name actions)
        st

  unfoldable pub post_done : Exec (State S) String Outcome
  post_done = do change (λ st. take_current_state st.workflow.status); pure finished

  unfoldable pub with_needed_job :
      (String → Exec (State S) String Outcome) → String → Exec (State S) String Outcome
  with_needed_job m prefix st =
      let name = text_append prefix (text_append "-" st.workflow.name) in
      if job_needed (job_of name st.workflow.status) then m name st else post_done st

  unfoldable pub post_boot : BootMode → Exec (State S) String Outcome
  post_boot BootMode.iso = with_needed_job post_iso "iso-eject"
  post_boot BootMode.isoboot = with_needed_job post_iso "iso-eject"
  post_boot BootMode.customboot = with_needed_job post_custom "customboot-post"
  post_boot _ = post_done

  unfoldable pub toggle_back : Bool → Exec (State S) String (Unit {0})
  toggle_back true = or_failed c (toggle_hardware c false)
  toggle_back false = pure tt

  -- `postActions`
  unfoldable pub post_actions : Exec (State S) String Outcome
  post_actions st =
      (do
        toggle_back (st.workflow.spec.toggle_allow_netboot && not st.workflow.status.toggled_false)
        post_boot st.workflow.spec.boot_mode)
        st
