-- ===== src/Controller/Job/Kept.antt =====
-- A pass over the boot job leaves the state of the workflow and its current action as they are.
use tinkerbell.Base.{String, List, [], ◌∷◌, ◌≡◌, refl, arith}
use tinkerbell.Api.{BmcAction}
use tinkerbell.Controller.{Cluster, State}
use tinkerbell.Controller.Job.{
  delete_existing, create_job, create_phase, track_phase, track_running_job, tracked, handle_job,
}

abbrev pub SameState : {S : Type 0} → State S → State S → Type 0
SameState a b =
    (a.workflow.status.state ≡ b.workflow.status.state)
    × (a.workflow.status.current_state ≡ b.workflow.status.current_state)

module _ {S : Type 0} (c : Cluster S) (name : String) where
  kept-delete_existing : (st : State S) → SameState (delete_existing c name st).1 st
  unfolding delete_existing
  kept-delete_existing st = ground arith

  kept-create_job :
      (actions : List BmcAction) (st : State S) → SameState (create_job c name actions st).1 st
  unfolding create_job
  kept-create_job actions st = ground arith

  kept-create_phase :
      (actions : List BmcAction) (st : State S) → SameState (create_phase c name actions st).1 st
  unfolding create_phase
  kept-create_phase [] st = (refl, refl)
  kept-create_phase (a ∷ actions) st = ground (arith, kept-create_job (a ∷ actions) st)

  kept-track_running_job : (st : State S) → SameState (track_running_job c name st).1 st
  unfolding track_running_job tracked
  kept-track_running_job st = ground arith

  kept-track_phase : (st : State S) → SameState (track_phase c name st).1 st
  unfolding track_phase
  kept-track_phase st = ground (arith, kept-track_running_job st)

  pub kept-handle_job :
      (actions : List BmcAction) (st : State S) → SameState (handle_job c name actions st).1 st
  unfolding handle_job
  kept-handle_job actions st =
      ground (arith, kept-delete_existing st, kept-create_phase actions st, kept-track_phase st)
