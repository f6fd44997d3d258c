-- ===== src/Controller/Prepare.antt =====
-- `prepareWorkflow` and `templateActions` (tink/controller/internal/workflow/pre.go): what is done
-- for the boot mode of a workflow before its actions are served.
pub mod States
use Prim.Native.String.{◌++◌ as text_append}
use tinkerbell.Base.{
  String, Bool, true, false, Option, none, some, List, [], ◌∷◌, if◌then◌else◌, not, any, ◌&&◌, ◌||◌,
}
use tinkerbell.Base.Equality.{◌==◌, string_eq}
use tinkerbell.Base.Fallible.{Result, ok, err, Exec, pure, fail, lift, map_err, ◌>>=◌, ◌>>◌}
use tinkerbell.Api.{
  Workflow, WorkflowStatus, WorkflowState, state_eq, JobStatus, ConditionType, Hardware, Interface,
  BmcAction, PowerAction, BootMode,
}
use tinkerbell.Controller.{
  Cluster, State, Outcome, finished, with_status, change, in_cluster, on_failure, set_if_different,
}
use tinkerbell.Controller.AllowPxe.{hardware_from, toggle_hardware}
use tinkerbell.Controller.Job.{job_of, handle_job}

unfoldable pub job_needed : JobStatus → Bool
job_needed j = not j.existing_job_deleted || j.uid == "" || not j.complete

uefi : Interface → Bool
uefi i = elim i.dhcp [ none ↦ false | some d ↦ d.uefi ]

unfoldable pub efi_boot : Hardware → Bool
unfolding uefi
efi_boot hw = any uefi hw.interfaces

abbrev nothing : BmcAction
nothing = record {
  power = none;
  one_time_boot_device = none;
  boot_device = none;
  virtual_media = none;
}

abbrev power : PowerAction → BmcAction
power p = record nothing { power = some p }

abbrev boot_once : String → Bool → BmcAction
boot_once d efi = record nothing {
  one_time_boot_device = some (record { devices = d ∷ []; efi_boot = efi });
}

abbrev pub media : String → BmcAction
media url = record nothing { virtual_media = some (record { media_url = url; kind = "CD" }) }

unfoldable pub netboot_actions : Bool → List BmcAction
netboot_actions efi =
    power PowerAction.power_hard_off ∷ boot_once "pxe" efi ∷ power PowerAction.power_on ∷ []

-- The media is ejected before the new one is inserted.
unfoldable pub iso_actions : String → Bool → List BmcAction
iso_actions url efi =
    power PowerAction.power_hard_off
    ∷ media ""
    ∷ media url
    ∷ boot_once "cdrom" efi
    ∷ power PowerAction.power_on
    ∷ []

module _ {S : Type 0} (c : Cluster S) where
  unfoldable pub template_action : Hardware → BmcAction → Result String BmcAction
  template_action hw a = elim a.virtual_media [
    | none ↦ ok a
    | some v ↦ elim (c.templated v.media_url hw) [
      | ok url ↦ ok (record a { virtual_media = some (record v { media_url = url }) })
      | err e ↦ err (text_append "failed to template VirtualMediaAction.MediaURL: " e)
    ]
  ]

  -- `templateActions`
  unfoldable pub template_actions : Hardware → List BmcAction → Result String (List BmcAction)
  unfolding template_action
  template_actions hw [] = ok []
  template_actions hw (a ∷ actions) =
      let rest = template_actions hw actions in
      elim (template_action hw a) [
        | err e ↦ err e
        | ok a' ↦ elim rest [ err e ↦ err e | ok actions' ↦ ok (a' ∷ actions') ]
      ]

  -- The error path that every step shares: the workflow has failed.
  unfoldable pub or_failed : {A : Type 0} → Exec (State S) String A → Exec (State S) String A
  or_failed m = on_failure (λ e st. record st.workflow.status { state = WorkflowState.failed }) m

  -- The same with a condition that tells what failed.
  unfoldable pub or_failed_with :
      {A : Type 0} → ConditionType → String → Exec (State S) String A → Exec (State S) String A
  or_failed_with t what m =
      on_failure
        (λ e st. record (set_if_different c t false "Error" (text_append what e) st) {
          state = WorkflowState.failed;
        })
        (map_err (λ e. text_append what e) m)

  -- A complete job moves the workflow on.
  unfoldable pub move_on : String → Outcome → Exec (State S) String Outcome
  move_on name r = do
    change (λ st.
        if (job_of name st.workflow.status).complete
          && st.workflow.status.state == WorkflowState.preparing
        then record st.workflow.status { state = WorkflowState.pending }
        else st.workflow.status)
    pure r

  unfoldable pub run_job : String → List BmcAction → Exec (State S) String Outcome
  run_job name actions = do r ← or_failed (handle_job c name actions); move_on name r

  -- The three boot modes, for a job that is not done yet.
  unfoldable pub prepare_netboot : String → Exec (State S) String Outcome
  prepare_netboot name st =
      (do
        hw ←
            or_failed_with ConditionType.boot_job_setup_failed "failed to get hardware: "
              (in_cluster (hardware_from c st.workflow))
        run_job name (netboot_actions (efi_boot hw)))
        st

  unfoldable pub prepare_iso : String → Exec (State S) String Outcome
  prepare_iso name st =
      if st.workflow.spec.iso_url == ""
      then or_failed (fail "iso url must be a valid url") st
      else (do
        hw ←
            or_failed_with ConditionType.boot_job_setup_complete "failed to get hardware: "
              (in_cluster (hardware_from c st.workflow))
        run_job name (iso_actions st.workflow.spec.iso_url (efi_boot hw)))
          st

  unfoldable pub prepare_custom : String → Exec (State S) String Outcome
  prepare_custom name st =
      (do
        hw ←
            or_failed_with ConditionType.boot_job_setup_failed "failed to get hardware: "
              (in_cluster (hardware_from c st.workflow))
        actions ←
            or_failed_with ConditionType.boot_job_setup_failed "failed to template actions: "
              (lift (template_actions hw st.workflow.spec.preparing_actions))
        run_job name actions)
        st

  unfoldable pub with_needed_job :
      (String → Exec (State S) String Outcome) → String → Exec (State S) String Outcome
  with_needed_job m prefix st =
      let name = text_append prefix (text_append "-" st.workflow.name) in
      if job_needed (job_of name st.workflow.status) then m name st else (ok finished, st)

  unfoldable pub prepare_boot : BootMode → Exec (State S) String Outcome
  prepare_boot BootMode.netboot = with_needed_job prepare_netboot "netboot"
  prepare_boot BootMode.iso = with_needed_job prepare_iso "iso-mount"
  prepare_boot BootMode.isoboot = with_needed_job prepare_iso "iso-mount"
  prepare_boot BootMode.customboot = with_needed_job prepare_custom "customboot-preparing"
  prepare_boot _ = do
    change (λ st. record st.workflow.status { state = WorkflowState.pending })
    pure finished

  unfoldable pub toggle_if : Bool → Bool → Exec (State S) String (Unit {0})
  toggle_if true b = or_failed (toggle_hardware c b)
  toggle_if false b = pure tt

  -- `prepareWorkflow`
  unfoldable pub prepare_workflow : Exec (State S) String Outcome
  prepare_workflow st =
      (do
        toggle_if (st.workflow.spec.toggle_allow_netboot && not st.workflow.status.toggled_true)
            true
        prepare_boot st.workflow.spec.boot_mode)
        st
