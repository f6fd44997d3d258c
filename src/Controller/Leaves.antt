-- ===== src/Controller/Leaves.antt =====
-- The two ways in which a step of the controller ends, and the rules for a chain of steps.
use tinkerbell.Base.{String, ◌≡◌}
use tinkerbell.Base.Fallible.{Result, ok, err, Exec, continue, ◌>>=◌}
use tinkerbell.Api.{WorkflowStatus, WorkflowState}
use tinkerbell.Controller.{State, on_failure}

-- What holds after a call: `P` if it succeeds; if it fails, the workflow has failed.
abbrev pub Leaves : {S A : Type 0} → (State S → Type 0) → Result String A × State S → Type 0
Leaves P (ok a, st) = P st
Leaves P (err e, st) = st.workflow.status.state ≡ WorkflowState.failed

module _ {S A B : Type 0} (P Q : State S → Type 0) (f : A → Exec (State S) String B) where
  pub Leaves-continue :
      (r : Result String A) (st : State S)
      → Leaves P (r, st)
      → ((a : A) (s : State S) → P s → Leaves Q (f a s))
      → Leaves Q (continue r f st)
  Leaves-continue (ok a) st h k = k a st h
  Leaves-continue (err e) st h k = h

  pub Leaves-bind :
      (m : Exec (State S) String A) (st : State S)
      → Leaves P (m st)
      → ((a : A) (s : State S) → P s → Leaves Q (f a s))
      → Leaves Q ((m >>= f) st)
  Leaves-bind m st h k = Leaves-continue (m st).0 (m st).1 h k

module _ {S A : Type 0} (f : String → State S → WorkflowStatus) where
  -- A call whose failure fails the workflow.
  pub Leaves-on_failure :
      (P : State S → Type 0) (m : Exec (State S) String A) (st : State S)
      → ((e : String) (s : State S) → (f e s).state ≡ WorkflowState.failed)
      → P (m st).1
      → Leaves P (on_failure f m st)
  unfolding on_failure
  Leaves-on_failure P m st h p = Leaves-of (m st).0 (m st).1 p
    where
      Leaves-of :
          (r : Result String A) (s : State S) → P s → Leaves P (on_failure f (λ _. (r, s)) s)
      Leaves-of (ok a) s p = p
      Leaves-of (err e) s p = h e s

pub Leaves-map :
    {S A : Type 0} (P Q : State S → Type 0) (r : Result String A × State S)
    → ((s : State S) → P s → Q s)
    → Leaves P r
    → Leaves Q r
Leaves-map P Q (ok a, st) f h = f st h
Leaves-map P Q (err e, st) f h = h
