-- ===== src/Agent/Run.antt =====
-- `Config.Run` (tink/agent/agent.go): one round of its loop. The channel `doBackoff` holds at most one
-- element, which the next round takes before it reads; here the wait stands in that next round.
pub mod Attempts
pub mod Reported
use tinkerbell.Base.{
  ℤ, pos, negsuc, ℕ, zero, suc, ◌-◌, ◌*◌, ◌+◌, String, Bool, true, false, ◌&&◌, if◌then◌else◌,
}
use tinkerbell.Agent.{
  Action, State, success, failure, running, timeout, Event, Failure, cancelled, no_action,
  other_failure, Outcome, done, deadline_exceeded, broken, ReadResult, got, not_got, WriteResult,
  sent, not_sent, World,
}
use tinkerbell.Agent.Duration.{human_duration}

-- What the loop goes on with: it has returned, or the next round begins, after a wait or at once.
pub data Next : Type 0 where
  returned after_wait at_once : Next

-- How often the loop over the tries may run: `ternary(action.Retries == 0, 1, action.Retries)`, and
-- not at all for a negative number.
unfoldable pub tries : ℤ → ℕ
tries (pos zero) = 1
tries (pos (suc n)) = suc n
tries (negsuc n) = 0

module _ {S : Type 0} (w : World S) where
  -- The end of one try; `retried` is the end of those after it.
  tried : Outcome → S → State × S → State × S
  tried done s retried = (success, s)
  tried deadline_exceeded s retried = (timeout, s)
  tried broken s retried = retried

  -- The loop over the tries, with how many are left.
  unfoldable pub attempts : Action → ℕ → State → S → State × S
  unfolding tried
  attempts a zero state s = (state, s)
  attempts a (suc left) state s =
      let ran = w.execute a s in
      let retried = attempts a left failure ran.1 in tried ran.0 ran.1 retried

  -- The action with the times of its execution, the state that it ended in, and the world after it.
  unfoldable pub run_action : (ℕ → String) → Action → S → Event × S
  unfolding attempts
  run_action digits a s =
      let start = w.now s in
      let begun : Action = record a { execution_start = start } in
      let ran = attempts begun (tries a.retries) success s in
      let stop = w.now ran.1 in
      (
        record {
          action = record begun {
            execution_stop = stop;
            execution_duration = human_duration digits (stop - start) 2;
          };
          message = "action completed";
          state = ran.0;
        },
        ran.1,
      )

  abbrev running_event : Action → Event
  running_event a = record { action = a; message = "running action"; state = running }

  -- A failure of a read or of the first write.
  abbrev failed_call : Failure → Next
  failed_call cancelled = returned
  failed_call no_action = after_wait
  failed_call other_failure = after_wait

  completed : Bool × S → Next × S
  completed (true, s) = (at_once, s)
  completed (false, s) = (returned, s)

  begun_write : (ℕ → String) → Action → WriteResult × S → Next × S
  unfolding completed
  begun_write digits a (not_sent f, s) = (failed_call f, s)
  begun_write digits a (sent, s) =
      let ran = run_action digits a s in completed (w.write_retrying ran.0 ran.1)

  after_read : (ℕ → String) → ReadResult × S → Next × S
  unfolding begun_write
  after_read digits (not_got f, s) = (failed_call f, s)
  after_read digits (got a, s) = begun_write digits a (w.write (running_event a) s)

  -- The wait of a round that takes an element of the channel.
  rested : Bool → S → S
  rested true s = w.wait s
  rested false s = s

  -- One round; `waiting` is whether the channel holds an element. A context that is done goes first.
  unfoldable pub round : (ℕ → String) → Bool → S → Next × S
  unfolding rested after_read
  round digits waiting s =
      if w.is_done s
      then (returned, s)
      else if waiting && w.is_done (rested waiting s)
      then (returned, rested waiting s)
      else after_read digits (w.read (rested waiting s))
