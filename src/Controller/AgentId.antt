-- ===== src/Controller/AgentId.antt =====
-- `updateAgentIDIfNeeded` and `firstAction` (tink/controller/internal/workflow/reconciler.go).
use tinkerbell.Base.{
  String, Bool, true, false, Option, none, some, List, [], ◌∷◌, ◌++◌, if◌then◌else◌, all, ◌&&◌, ◌≡◌,
  ◌≢◌, refl, All, arith, ap, Option-cases, inl, inr,
}
use tinkerbell.Base.Equality.{◌==◌, ◌!=◌, string_eq}
use tinkerbell.Api.{WorkflowStatus, WorkflowState, state_eq, CurrentState, Task, Action}

unfoldable pub first_action : WorkflowStatus → Option Action
first_action x = elim x.tasks [ [] ↦ none | t ∷ _ ↦ elim t.actions [ [] ↦ none | a ∷ _ ↦ some a ] ]

abbrev succeeded : Action → Bool
succeeded a = a.state == WorkflowState.success

first_is_pending : List Action → Bool
first_is_pending [] = false
first_is_pending (a ∷ _) = a.state == WorkflowState.pending

-- The agent to go on to, by the tasks from the current one on.
next_agent : String → Task → List Task → Option String
unfolding first_is_pending
next_agent agent t [] = none
next_agent agent t (u ∷ _) =
    if all succeeded t.actions && first_is_pending u.actions && agent != u.agent_id
    then some u.agent_id
    else none

-- The search for the current task.
from_current : String → String → List Task → Option String
unfolding next_agent
from_current agent id [] = none
from_current agent id (t ∷ ts) =
    if t.id == id then next_agent agent t ts else from_current agent id ts

agent_to_set : WorkflowStatus → Option String
unfolding from_current
agent_to_set x = elim x.current_state [
  | none ↦ none
  | some c ↦ from_current x.agent_id c.task_id x.tasks
]

-- The status, and whether an update was made.
unfoldable pub update_agent_id_if_needed : WorkflowStatus → WorkflowStatus × Bool
unfolding agent_to_set
update_agent_id_if_needed x = elim (agent_to_set x) [
  | none ↦ (x, false)
  | some a ↦ (record x { agent_id = a }, true)
]

-- The tasks split at the current one: all its actions have succeeded, the next task begins with a
-- pending action, and the agent of the next task is another one.
pub record Moving (old id : String) (ts : List Task) (agent : String) : Type 0 where
  pub before : List Task
  pub task : Task
  pub next : Task
  pub rest : List Task
  pub action : Action
  pub later : List Action
  pub tasks_eq : ts ≡ before ++ task ∷ next ∷ rest
  pub not_before : All (λ t. t.id ≢ id) before
  pub is_current : task.id ≡ id
  pub all_succeeded : All (λ a. a.state ≡ WorkflowState.success) task.actions
  pub next_actions : next.actions ≡ action ∷ later
  pub next_pending : action.state ≡ WorkflowState.pending
  pub agent_eq : next.agent_id ≡ agent
  pub other_agent : old ≢ agent

abbrev pub Moves : WorkflowStatus → String → Type 0
Moves x agent =
    (c : CurrentState) × (x.current_state ≡ some c) × Moving x.agent_id c.task_id x.tasks agent

all-succeeded :
    (acts : List Action)
    → All (λ a. a.state ≡ WorkflowState.success) acts
    → all succeeded acts ≡ true
all-succeeded [] h = refl
all-succeeded (a ∷ acts) h = ground (arith, all-succeeded acts)

from_current-at :
    (agent id : String) (before : List Task) (t u : Task) (rest : List Task)
    → All (λ v. v.id ≢ id) before
    → t.id ≡ id
    → from_current agent id (before ++ t ∷ u ∷ rest) ≡ next_agent agent t (u ∷ rest)
unfolding from_current
from_current-at agent id [] t u rest h e = ground arith
from_current-at agent id (v ∷ before) t u rest h e =
    ground (arith, from_current-at agent id before t u rest)

next_agent-moves :
    (agent : String) (t u : Task) (rest : List Task) (a : Action) (later : List Action)
    → All (λ x. x.state ≡ WorkflowState.success) t.actions
    → u.actions ≡ a ∷ later
    → a.state ≡ WorkflowState.pending
    → agent ≢ u.agent_id
    → next_agent agent t (u ∷ rest) ≡ some u.agent_id
unfolding next_agent
next_agent-moves agent t u rest a later h e p n = ground (arith, all-succeeded t.actions)

from_current-Moving :
    (old id : String) (ts : List Task) (agent : String)
    → Moving old id ts agent
    → from_current old id ts ≡ some agent
from_current-Moving old id ts agent m = ground (
  arith,
  from_current-at old id m.before m.task m.next m.rest m.not_before m.is_current,
  next_agent-moves old m.task m.next m.rest m.action m.later m.all_succeeded m.next_actions
      m.next_pending,
  m.tasks_eq,
  m.agent_eq,
  m.other_agent,
)

All-succeeded :
    (acts : List Action)
    → all succeeded acts ≡ true
    → All (λ a. a.state ≡ WorkflowState.success) acts
All-succeeded [] h = tt
All-succeeded (a ∷ acts) h = ground (arith, All-succeeded acts)

Moving-here :
    (old id : String) (t u : Task) (rest : List Task) (agent : String) (acts : List Action)
    → u.actions ≡ acts
    → t.id ≡ id
    → next_agent old t (u ∷ rest) ≡ some agent
    → Moving old id (t ∷ u ∷ rest) agent
unfolding next_agent
Moving-here old id t u rest agent [] e i h = absurd (ground arith)
Moving-here old id t u rest agent (a ∷ acts) e i h = record {
  before = [];
  task = t;
  next = u;
  rest = rest;
  action = a;
  later = acts;
  tasks_eq = refl;
  not_before = tt;
  is_current = i;
  all_succeeded = All-succeeded t.actions (ground arith);
  next_actions = e;
  next_pending = ground arith;
  agent_eq = ground arith;
  other_agent = ground arith;
}

Moving-later :
    (old id : String) (t : Task) (ts : List Task) (agent : String)
    → t.id ≢ id
    → Moving old id ts agent
    → Moving old id (t ∷ ts) agent
Moving-later old id t ts agent n m = record {
  before = t ∷ m.before;
  task = m.task;
  next = m.next;
  rest = m.rest;
  action = m.action;
  later = m.later;
  tasks_eq = ap (◌∷◌ t) m.tasks_eq;
  not_before = (n, m.not_before);
  is_current = m.is_current;
  all_succeeded = m.all_succeeded;
  next_actions = m.next_actions;
  next_pending = m.next_pending;
  agent_eq = m.agent_eq;
  other_agent = m.other_agent;
}

Moving-from_current :
    (old id : String) (ts : List Task) (agent : String)
    → from_current old id ts ≡ some agent
    → Moving old id ts agent
unfolding from_current
Moving-from_current old id [] agent h = absurd (cc)
Moving-from_current old id (t ∷ []) agent h = absurd (ground arith)
Moving-from_current old id (t ∷ u ∷ ts) agent h = elim (string_eq.dec t.id id) [
  | yes e ↦ Moving-here old id t u ts agent u.actions refl e (ground arith)
  | no n ↦
      Moving-later old id t (u ∷ ts) agent n
        (Moving-from_current old id (u ∷ ts) agent (ground arith))
]

Moves-agent_to_set : (x : WorkflowStatus) (a : String) → agent_to_set x ≡ some a → Moves x a
unfolding agent_to_set
Moves-agent_to_set x a h = elim (Option-cases x.current_state) [
  | inl n ↦ absurd (ground arith)
  | inr (c, e) ↦ (c, e, Moving-from_current x.agent_id c.task_id x.tasks a (ground arith))
]

update_agent_id-Moves :
    (x : WorkflowStatus) (agent : String)
    → Moves x agent
    → update_agent_id_if_needed x ≡ (record x { agent_id = agent }, true)
unfolding update_agent_id_if_needed
update_agent_id-Moves x agent (c, e, m) =
    ground (arith, from_current-Moving x.agent_id c.task_id x.tasks agent m)

update_agent_id-stays :
    (x : WorkflowStatus) → ((a : String) → ¬ Moves x a) → update_agent_id_if_needed x ≡ (x, false)
unfolding update_agent_id_if_needed
update_agent_id-stays x stuck = elim (Option-cases (agent_to_set x)) [
  | inl n ↦ ground arith
  | inr (a, e) ↦ absurd (stuck a (Moves-agent_to_set x a e))
]

-- The agent of the status becomes that of the next task exactly when all actions of the current
-- task have succeeded, the next task begins with a pending action, and its agent is another one;
-- otherwise nothing changes. The result tells which of the two happened.
pub update_agent_id_lem :
    (x : WorkflowStatus)
    → ((agent : String)
        → Moves x agent
        → update_agent_id_if_needed x ≡ (record x { agent_id = agent }, true))
      × (((a : String) → ¬ Moves x a) → update_agent_id_if_needed x ≡ (x, false))
update_agent_id_lem x = (update_agent_id-Moves x, update_agent_id-stays x)
