-- ===== src/Controller/AllowPxe.antt =====
-- Reading the hardware of a workflow and toggling its allowPXE
-- (tink/controller/internal/workflow/hardware.go). The waits between the attempts are left out.
pub mod Updated
pub mod Kept
use Prim.Native.String.{◌++◌ as text_append}
use tinkerbell.Base.{
  ℕ, zero, suc, String, Bool, true, false, Option, none, some, map, if◌then◌else◌,
}
use tinkerbell.Base.Fallible.{Result, ok, err, Exec, pure, map_err, ◌>>=◌, ◌>>◌}
use tinkerbell.Api.{Workflow, WorkflowStatus, ConditionType, Hardware, Interface}
use tinkerbell.Controller.{
  KubeKind, KubeError, Cluster, State, change, in_cluster, on_failure, set, set_if_different,
}

-- The hardware with allowPXE written on each interface.
unfoldable pub allow_pxe : Bool → Hardware → Hardware
allow_pxe b h = record h {
  interfaces = map (λ (i : Interface). record i { netboot = some (some b) }) h.interfaces;
}

abbrev pub max_retries : ℕ
max_retries = 4

bool_text : Bool → String
bool_text true = "true"
bool_text false = "false"

is_zero : ℕ → Bool
is_zero zero = true
is_zero (suc _) = false

unfoldable pub toggled : Bool → WorkflowStatus → Bool
toggled true x = x.toggled_true
toggled false x = x.toggled_false

set_toggled : Bool → WorkflowStatus → WorkflowStatus
set_toggled true x = record x { toggled_true = true }
set_toggled false x = record x { toggled_false = true }

toggle_type : Bool → ConditionType
toggle_type true = ConditionType.allow_netboot_true
toggle_type false = ConditionType.allow_netboot_false

module _ {S : Type 0} (c : Cluster S) where
  -- `hardwareFrom`
  unfoldable pub hardware_from : Workflow → Exec S String Hardware
  hardware_from w =
      map_err (λ e. text_append "hardware not found: " e.text)
        (c.get_hardware w.spec.hardware_ref w.namespace)

  fetch : Workflow → Option Hardware → Exec S String Hardware
  unfolding hardware_from
  fetch w none = hardware_from w
  fetch w (some h) = pure h

  -- What an attempt does with the answer to its update; `next` is the attempts that are left.
  settle :
      Bool
      → Exec S String (Unit {0})
      → Result KubeError (Unit {0}) × S
      → Result String (Unit {0}) × S
  settle last next (ok u, s) = (ok u, s)
  settle last next (err e, s) = elim e.kind [
    | KubeKind.conflict ↦
        if last
        then (err (text_append "error updating allow pxe after 4 retries: " e.text), s)
        else next s
    | _ ↦ (err (text_append "error updating allow pxe: " e.text), s)
  ]

  -- `setAllowPXE`, by the attempts that are left. After a conflict the hardware is fetched anew.
  unfoldable pub set_allow_pxe : ℕ → Workflow → Option Hardware → Bool → Exec S String (Unit {0})
  unfolding fetch settle is_zero
  set_allow_pxe zero w h b = pure tt
  set_allow_pxe (suc n) w h b =
      let next = set_allow_pxe n w none b in
      do found ← fetch w h; λ s. settle (is_zero n) next (c.update_hardware (allow_pxe b found) s)

  -- The hardware of the workflow; a failure is noted as a condition.
  unfoldable pub toggle_fetch : Exec (State S) String Hardware
  toggle_fetch st =
      on_failure
        (λ e.
          set_if_different c ConditionType.allow_netboot_true false "Error"
            (text_append "error getting hardware: " e))
        (in_cluster (hardware_from st.workflow)) st

  unfoldable pub toggle_set : Bool → Hardware → Exec (State S) String (Unit {0})
  unfolding bool_text toggle_type
  toggle_set b hw st =
      on_failure
        (λ e. set_if_different c (toggle_type b) false "Error" (
          text_append "error setting allowPXE to "
            (text_append (bool_text b) (text_append ": " e))))
        (in_cluster (set_allow_pxe max_retries st.workflow (some hw) b)) st

  unfoldable pub toggle_done : Bool → Exec (State S) String (Unit {0})
  unfolding set_toggled bool_text toggle_type
  toggle_done b = do
    change (λ st'. set_toggled b st'.workflow.status)
    change (set c (toggle_type b) true "Complete" (text_append "set allowPXE to " (bool_text b)))

  unfoldable pub toggle_with : Bool → Hardware → Exec (State S) String (Unit {0})
  toggle_with b hw st =
      if toggled b st.workflow.status then (ok tt, st) else (toggle_set b hw >> toggle_done b) st

  -- `toggleHardware`
  unfoldable pub toggle_hardware : Bool → Exec (State S) String (Unit {0})
  toggle_hardware b = do hw ← toggle_fetch; toggle_with b hw
