-- ===== src/Agent/Tests.antt =====
-- The theorems about the agent at concrete worlds.
use tinkerbell.Base.{
  ℤ, ℕ, zero, suc, ◌≤◌, ◌<◌, ◌+◌, String, true, false, ◌≡◌, ◌⊎◌, ◌↔◌, refl, some, [], ◌∷◌, length,
  if◌then◌else◌,
}
use tinkerbell.Base.Equality.{◌==◌, string_eq}
use tinkerbell.Api.{WorkflowState}
use tinkerbell.Server.Get.{response}
use tinkerbell.Server.Report.{cut, matches, state_of}
use tinkerbell.Server.Memory.{new_workflow, new_actions, make_task, make_action}
use tinkerbell.Agent.{Action, State, Event, Outcome, ReadResult, WriteResult, World}
use tinkerbell.Agent.Duration.{TimeUnit, nanos_of, keep, counts, parts_of}
use tinkerbell.Agent.Duration.Bounds.{total, last_unit, parts_of-bounds}
use tinkerbell.Agent.Run.Reported.{Reported}
use tinkerbell.Agent.Transport.{action_of, request_of}
use tinkerbell.Agent.Transport.Exchange.{request_of-matches}
use tinkerbell.Agent.Options.{select_transport, set_transport, Transport}

-- An hour, two minutes and three seconds.
abbrev long_time : ℕ
long_time = 3723000000000

abbrev two : ℕ
two = 2

long_time_is_short : parts_of long_time 2 ≡ (1, TimeUnit.hour) ∷ (2, TimeUnit.minute) ∷ []
unfolding parts_of keep counts
long_time_is_short = refl

parts_of-bounds_example :
    (length (parts_of long_time two) ≤ two)
    × (total (parts_of long_time two) ≤ long_time)
    × ((two < 6) ⊎ (total (parts_of long_time two) ≡ long_time))
    × ((two ≡ 0)
        ⊎ (long_time ≡ 0)
        ⊎ (long_time
            < total (parts_of long_time two)
              + nanos_of (last_unit TimeUnit.nanosecond (parts_of long_time two))))
parts_of-bounds_example = parts_of-bounds long_time two

-- A world that counts its executions, of which the first breaks off.
abbrev ends_at : ℕ → Outcome
ends_at zero = Outcome.broken
ends_at (suc n) = Outcome.done

abbrev given : Action
given =
    record (action_of (
      response "agent" new_workflow (make_task new_actions)
        (make_action "a1" WorkflowState.pending))) { retries = ℤ.pos 3 }

abbrev world : World ℕ
world = record {
  is_done = λ s. false;
  wait = λ s. s;
  now = λ s. s;
  read = λ s. (ReadResult.got given, s);
  write = λ ev s. (WriteResult.sent, s);
  execute = λ a s. (ends_at s, suc s);
  write_retrying = λ ev s. (true, s);
}

abbrev finished : Event
finished = record {
  action = action_of (
      response "agent" new_workflow (make_task new_actions)
        (make_action "a1" WorkflowState.pending));
  message = "action completed";
  state = State.success;
}

request_of-matches_example :
    (cut (request_of finished).workflow_id ≡ ("default", "wf"))
    × (matches
          (request_of finished)
          (make_task new_actions)
          (make_action "a1" WorkflowState.pending)
        ≡ true)
    × ((State.success ≡ State.success)
        ↔ (state_of (request_of finished).action_state ≡ WorkflowState.success))
request_of-matches_example =
    request_of-matches "agent" new_workflow (make_task new_actions)
      (make_action "a1" WorkflowState.pending) finished refl refl (refl, refl, refl, refl, refl)

-- Small letters, for the text NATS.
abbrev small : String → String
small s = if s == "NATS" then "nats" else s

nats_is_accepted : set_transport small "NATS" ≡ some "NATS"
unfolding set_transport string_eq
nats_is_accepted = refl

nats_selects_grpc : select_transport "NATS" ≡ Transport.grpc_transport
unfolding select_transport string_eq
nats_selects_grpc = refl
