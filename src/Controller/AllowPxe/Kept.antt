-- ===== src/Controller/AllowPxe/Kept.antt =====
-- A toggle leaves the state of the workflow, its current action, its jobs, its name and its spec as they are.
use tinkerbell.Base.{String, Bool, true, false, ◌≡◌, refl, arith, ◌∙◌}
use tinkerbell.Base.Fallible.{Result, ok, err, continue}
use tinkerbell.Api.{Hardware}
use tinkerbell.Controller.{Cluster, State, on_failure}
use tinkerbell.Controller.AllowPxe.{
  toggle_fetch, toggle_set, toggle_done, toggle_with, toggle_hardware, set_toggled,
}

abbrev pub SameWork : {S : Type 0} → State S → State S → Type 0
SameWork a b =
    (a.workflow.status.state ≡ b.workflow.status.state)
    × (a.workflow.status.current_state ≡ b.workflow.status.current_state)
    × (a.workflow.status.jobs ≡ b.workflow.status.jobs)
    × (a.workflow.name ≡ b.workflow.name)
    × (a.workflow.spec ≡ b.workflow.spec)

then-kept : {S : Type 0} (x y z : State S) → SameWork x y → SameWork y z → SameWork x z
then-kept x y z (a, b, c, d, e) (f, g, h, i, j) = (a ∙ f, b ∙ g, c ∙ h, d ∙ i, e ∙ j)

module _ {S : Type 0} (c : Cluster S) where
  kept-toggle_fetch : (st : State S) → SameWork (toggle_fetch c st).1 st
  unfolding toggle_fetch on_failure
  kept-toggle_fetch st = ground arith

  kept-toggle_set : (b : Bool) (hw : Hardware) (st : State S) → SameWork (toggle_set c b hw st).1 st
  unfolding toggle_set on_failure
  kept-toggle_set b hw st = ground arith

  kept-toggle_done : (b : Bool) (st : State S) → SameWork (toggle_done c b st).1 st
  unfolding toggle_done set_toggled
  kept-toggle_done true st = (refl, refl, refl, refl, refl)
  kept-toggle_done false st = (refl, refl, refl, refl, refl)

  kept-toggle_with :
      (b : Bool) (hw : Hardware) (st : State S) → SameWork (toggle_with c b hw st).1 st
  unfolding toggle_with
  kept-toggle_with b hw st =
      ground (arith, kept-toggle_set b hw st, kept-toggle_done b (toggle_set c b hw st).1)

  pub kept-toggle_hardware : (b : Bool) (st : State S) → SameWork (toggle_hardware c b st).1 st
  unfolding toggle_hardware
  kept-toggle_hardware b st = kept (toggle_fetch c st).0
    where
      kept :
          (r : Result String Hardware)
          → SameWork (continue r (toggle_with c b) (toggle_fetch c st).1).1 st
      kept (ok hw) =
          then-kept (toggle_with c b hw (toggle_fetch c st).1).1 (toggle_fetch c st).1 st
            (kept-toggle_with b hw (toggle_fetch c st).1) (kept-toggle_fetch st)
      kept (err e) = kept-toggle_fetch st
