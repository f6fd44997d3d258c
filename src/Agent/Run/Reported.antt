-- ===== src/Agent/Run/Reported.antt =====
-- What the agent has done with an action when it asks for the next one.
use tinkerbell.Base.{ℕ, String, true, ◌≡◌}
use tinkerbell.Agent.{Action, Event, got, sent, World}
use tinkerbell.Agent.Run.{running_event}
use tinkerbell.Agent.Run.Attempts.{TriesEnd}

-- The fields by which the service knows an action.
abbrev pub SameAction : Action → Action → Type 0
SameAction a b =
    (a.id ≡ b.id)
    × (a.task_id ≡ b.task_id)
    × (a.workflow_id ≡ b.workflow_id)
    × (a.agent_id ≡ b.agent_id)
    × (a.name ≡ b.name)

module _ {S : Type 0} (w : World S) (digits : ℕ → String) where
  -- An action that was read, announced as running, executed, and whose end was reported until a report
  -- was taken, which ended in `s'`.
  pub record Reported (s' : S) : Type 0 where
    pub before : S
    pub read : S
    pub announced : S
    pub ran : S
    pub action : Action
    pub begun : Action
    pub event : Event
    pub reads : w.read before ≡ (got action, read)
    pub announces : w.write (running_event w action) read ≡ (sent, announced)
    pub begun_same : SameAction begun action
    pub ends : TriesEnd w begun action.retries announced event.state ran
    pub event_same : SameAction event.action action
    pub reports : w.write_retrying event ran ≡ (true, s')
