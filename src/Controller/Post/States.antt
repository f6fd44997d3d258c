-- ===== src/Controller/Post/States.antt =====
-- The states in which the work after the last action can leave a workflow.
use mathlib.Core.Path.{subst}
use tinkerbell.Base.{
  String, Bool, true, false, List, ◌≡◌, ◌∙◌, refl, sym, ap, arith, ◌⊎◌, inl, inr, not, ◌&&◌,
}
use tinkerbell.Base.Equality.{string_eq}
use tinkerbell.Base.Fallible.{Result, ok, err}
use tinkerbell.Api.{WorkflowState, BmcAction}
use tinkerbell.Controller.{Cluster, State, on_failure, after_failure}
use tinkerbell.Controller.AllowPxe.{toggle_hardware}
use tinkerbell.Controller.Leaves.{Leaves, Leaves-bind, Leaves-map}
use tinkerbell.Controller.AllowPxe.Kept.{kept-toggle_hardware}
use tinkerbell.Controller.Prepare.{or_failed}
use tinkerbell.Controller.Post.Settled.{InPost, Settled, Ready, Settled-weaken, post_boot-Settled}
use tinkerbell.Controller.Post.{post_boot, toggle_back, post_actions}

module _ {S : Type 0} (c : Cluster S) where
  -- The toggle back to false was made and succeeded, or it was not asked for, or it was made before.
  abbrev pub ToggledBack : State S → State S → Type 0
  ToggledBack st mid =
      ((st.workflow.spec.toggle_allow_netboot ≡ true)
        × (st.workflow.status.toggled_false ≡ false)
        × (toggle_hardware c false st ≡ (ok tt, mid)))
      ⊎ (((st.workflow.spec.toggle_allow_netboot ≡ false)
            ⊎ (st.workflow.status.toggled_false ≡ true))
          × (mid ≡ st))

  -- What holds of the state that the pass ends in.
  abbrev pub Ends : State S → State S → Type 0
  Ends st s' =
      Settled (Ready st.workflow.spec.boot_mode st.workflow.spec.post_actions st.workflow.name)
        st.workflow.status.current_state s'
      × ((mid : State S) × ToggledBack st mid)

  Back : State S → State S → Type 0
  Back st s =
      InPost st.workflow.status.current_state s
      × (s.workflow.name ≡ st.workflow.name)
      × (s.workflow.spec ≡ st.workflow.spec)
      × ToggledBack st s

  toggle_back-Back :
      (st : State S)
      → st.workflow.status.state ≡ WorkflowState.post
      → (b : Bool)
      → (st.workflow.spec.toggle_allow_netboot && not st.workflow.status.toggled_false) ≡ b
      → Leaves (Back st) (toggle_back c b st)
  unfolding toggle_back or_failed on_failure after_failure Back
  toggle_back-Back st p false e = ((p, refl), refl, refl, inr (ground (arith, e), refl))
  toggle_back-Back st p true e = toggled (toggle_hardware c false st) refl
    where
      toggled :
          (r : Result String (Unit {0}) × State S)
          → toggle_hardware c false st ≡ r
          → Leaves (Back st) (toggle_back c true st)
      toggled (ok u, s) q =
          let (f, g, _, n, k) = kept-toggle_hardware c false st in
          let at : (toggle_hardware c false st).1 ≡ s = λ i. (q i).1 in
          rw q (
            (
              sym (ap (λ (t : State S). t.workflow.status.state) at) ∙ f ∙ p,
              sym (ap (λ (t : State S). t.workflow.status.current_state) at) ∙ g,
            ),
            sym (ap (λ (t : State S). t.workflow.name) at) ∙ n,
            sym (ap (λ (t : State S). t.workflow.spec) at) ∙ k,
            inl (ground (arith, e), ground (arith, e), q),
          )
      toggled (err m, s) q = rw q refl

  -- `postActions`, for a workflow in POST: if it fails, the workflow is in FAILED. If it succeeds,
  -- allowPXE was toggled back to false before, where this is asked for and not recorded as done, and
  -- the workflow is still in POST, or it has the state of the current action that it had before. It has
  -- that state only if the job that the boot mode wants is recorded as complete: the job that ejects
  -- the ISO, or the custom job, unless there are no post actions.
  pub post_actions-Settled :
      (st : State S)
      → st.workflow.status.state ≡ WorkflowState.post
      → Leaves (Ends st) (post_actions c st)
  unfolding post_actions Back
  post_actions-Settled st p =
      let x = st.workflow.status.current_state in
      let mode = st.workflow.spec.boot_mode in
      Leaves-bind (Back st) (Ends st) (λ _. post_boot c mode)
        (toggle_back c
          (st.workflow.spec.toggle_allow_netboot && not st.workflow.status.toggled_false))
        st (toggle_back-Back st p _ refl)
        (λ _ s (k, n, sp, b).
          Leaves-map (Settled (Ready mode s.workflow.spec.post_actions s.workflow.name) x) (Ends st)
            _
            (λ s' d. (
              Settled-weaken c x
                  (λ w.
                    subst (λ (m : List BmcAction × String). Ready mode m.0 m.1 w)
                      (λ i. ((sp i).post_actions, n i)))
                  s' d,
              (s, b),
            ))
            (post_boot-Settled c x mode s k))
