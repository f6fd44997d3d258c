-- ===== src/Server/Auto.antt =====
-- `GetAction` (tink/server/internal/grpc/grpc.go), with discovery and enrollment in place. `retry` is
-- the library's `backoff.Retry`; the options that it takes are the same in both calls, because the
-- first call sets them in the handler.
mod Tests
use tinkerbell.Base.{String, Option, List, ◌≡◌, ◌⊎◌, inl, inr}
use tinkerbell.Base.Fallible.{ok, Exec}
use tinkerbell.Api.{Workflow}
use tinkerbell.Server.{Error, Backend, AutoCapabilities, ActionRequest, ActionResponse}
use tinkerbell.Server.Get.{do_get_action}
use tinkerbell.Server.Get.Served.{do_get_action-cases}
use tinkerbell.Server.Discover.{discover}
use tinkerbell.Server.Enroll.{enroll}
use tinkerbell.Server.Enroll.Enrolled.{IsListed, IsEnrolled, enroll-IsEnrolled}

module _ {S : Type 0} (b : Backend S)
    (retry : Exec S Error ActionResponse → Exec S Error ActionResponse) where
  unfoldable pub get_action : AutoCapabilities → ActionRequest → Exec S Error ActionResponse
  get_action auto req = retry (do_get_action b (discover b auto) (enroll b retry) auto req)

  module _
      (runs : (m : Exec S Error ActionResponse) (s : S) (r : ActionResponse) (s' : S)
        → retry m s ≡ (ok r, s')
        → (s₀ : S) × (m s₀ ≡ (ok r, s'))) where
    -- Every action that `GetAction` answers, with the auto capabilities on or off, is that of a
    -- workflow which the backend listed for the agent and which is pending or running, in a task that
    -- is assigned to the agent, and the workflow was written last with it as its current state; this is
    -- under the hypothesis that a success of the library's `Retry` is a success of a run of the
    -- operation.
    pub get_action-IsListed :
        (auto : AutoCapabilities) (req : ActionRequest) (s : S) (r : ActionResponse) (s' : S)
        → get_action auto req s ≡ (ok r, s')
        → IsListed b req.agent_id r s'
    unfolding get_action
    get_action-IsListed auto req s r s' h =
        let (s₀, ran) = runs _ s r s' h in
        elim (do_get_action-cases b (discover b auto) (enroll b retry) auto req s₀ r s' ran) [
          | inl listed ↦ listed
          | inr (on, hw, s₁, enrolled) ↦
              (enroll-IsEnrolled b retry runs req.agent_id req.attributes hw s₁ r s'
                enrolled).served
        ]
