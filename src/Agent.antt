-- ===== src/Agent.antt =====
-- The agent (tink/agent/agent.go with the types of tink/agent/internal/spec/spec.go): what it reads,
-- runs and reports, over a state `S` of the world. Times are nanoseconds.
pub mod Duration
pub mod Run
pub mod Transport
pub mod Options
mod Tests
use tinkerbell.Base.{ℕ, ℤ, String, Bool, List}

pub record Env : Type 0 where
  pub key : String
  pub value : String

pub record Namespaces : Type 0 where
  pub network : String
  pub pid : String

pub record Action : Type 0 where
  pub agent_id : String
  pub task_id : String
  pub workflow_id : String
  pub id : String
  pub name : String
  pub image : String
  pub cmd : String
  pub args : List String
  pub env : List Env
  pub volumes : List String
  pub namespaces : Namespaces
  pub retries : ℤ
  pub timeout_seconds : ℕ
  pub execution_start : ℕ
  pub execution_stop : ℕ
  pub execution_duration : String

pub data State : Type 0 where
  success failure running timeout unknown : State

pub record Event : Type 0 where
  pub action : Action
  pub message : String
  pub state : State

-- What a read or a write reports: the context was cancelled, there is no action (the error has the
-- method `NoAction`), or something else.
pub data Failure : Type 0 where
  cancelled no_action other_failure : Failure

pub data ReadResult : Type 0 where
  got : Action → ReadResult
  not_got : Failure → ReadResult

pub data WriteResult : Type 0 where
  sent : WriteResult
  not_sent : Failure → WriteResult

-- How one execution ends.
pub data Outcome : Type 0 where
  done deadline_exceeded broken : Outcome

-- The interfaces TransportReader, TransportWriter and RuntimeExecutor, the clock and the context.
-- `execute` is Execute under the context of the action, whose deadline is the timeout after the start. `write_retrying` is `backoff.Retry` of
-- a write with no limit; it comes back when a write succeeded (true), or when an error was permanent
-- or the context was cancelled (false).
pub record World (S : Type 0) : Type 0 where
  pub is_done : S → Bool
  pub wait : S → S
  pub now : S → ℕ
  pub read : S → ReadResult × S
  pub write : Event → S → WriteResult × S
  pub execute : Action → S → Outcome × S
  pub write_retrying : Event → S → Bool × S
