-- ===== src/Api/Conditions.antt =====
-- The condition methods of WorkflowStatus (api/v1alpha1/tinkerbell/workflow.go). The loops that look
-- for an index and then write there are one recursion.
use tinkerbell.Base.{
  ◌≡◌, ◌≢◌, Bool, true, false, ◌&&◌, List, [], ◌∷◌, Option, none, some, arith, if◌then◌else◌,
}
use tinkerbell.Base.Equality.{◌==◌, string_eq}
use tinkerbell.Api.{WorkflowCondition, ConditionType, condition_type_eq}
use mathlib.Core.Bool.{Bool-discrete}
use mathlib.Core.Logic.{ite}

abbrev same_status : Bool → Bool → Bool
same_status a b = ite (Bool-discrete a b) true false

unfoldable pub has_condition : ConditionType → Bool → List WorkflowCondition → Bool
has_condition t st [] = false
has_condition t st (c ∷ cs) = if c.type == t then same_status c.status st else has_condition t st cs

unfoldable pub set_condition : WorkflowCondition → List WorkflowCondition → List WorkflowCondition
set_condition wc [] = wc ∷ []
set_condition wc (c ∷ cs) = if c.type == wc.type then wc ∷ cs else c ∷ set_condition wc cs

unfoldable pub set_condition_if_different :
    WorkflowCondition → List WorkflowCondition → List WorkflowCondition
set_condition_if_different wc [] = wc ∷ []
set_condition_if_different wc (c ∷ cs) =
    if c.type == wc.type
    then if same_status c.status wc.status && c.reason == wc.reason && c.message == wc.message
      then c ∷ cs
      else wc ∷ cs
    else c ∷ set_condition_if_different wc cs

-- The entry of a type.
abbrev pub entry : ConditionType → List WorkflowCondition → Option WorkflowCondition
entry t [] = none
entry t (c ∷ cs) = if c.type == t then some c else entry t cs

-- Each type stands at most once.
abbrev pub Fresh : ConditionType → List WorkflowCondition → Type 0
Fresh t [] = Unit
Fresh t (c ∷ cs) = (c.type ≢ t) × Fresh t cs

abbrev pub UniqueTypes : List WorkflowCondition → Type 0
UniqueTypes [] = Unit
UniqueTypes (c ∷ cs) = Fresh c.type cs × UniqueTypes cs

Fresh-set_condition :
    (t : ConditionType) (wc : WorkflowCondition) (cs : List WorkflowCondition)
    → Fresh t cs
    → wc.type ≢ t
    → Fresh t (set_condition wc cs)
unfolding set_condition
Fresh-set_condition t wc [] h n = ground arith
Fresh-set_condition t wc (c ∷ cs) h n = ground (arith, Fresh-set_condition t wc cs)

Fresh-set_condition_if_different :
    (t : ConditionType) (wc : WorkflowCondition) (cs : List WorkflowCondition)
    → Fresh t cs
    → wc.type ≢ t
    → Fresh t (set_condition_if_different wc cs)
unfolding set_condition_if_different
Fresh-set_condition_if_different t wc [] h n = ground arith
Fresh-set_condition_if_different t wc (c ∷ cs) h n =
    ground (arith, Fresh-set_condition_if_different t wc cs)

Fresh-of_eq : (t u : ConditionType) (cs : List WorkflowCondition) → t ≡ u → Fresh t cs → Fresh u cs
Fresh-of_eq t u cs e h = rw (← e) h

module _ (wc : WorkflowCondition) where
  set_condition-UniqueTypes :
      (cs : List WorkflowCondition) → UniqueTypes cs → UniqueTypes (set_condition wc cs)
  unfolding set_condition
  set_condition-UniqueTypes [] h = ground arith
  set_condition-UniqueTypes (c ∷ cs) h = ground (
    arith,
    set_condition-UniqueTypes cs,
    Fresh-set_condition c.type wc cs,
    Fresh-of_eq c.type wc.type cs,
  )

  set_condition_if_different-UniqueTypes :
      (cs : List WorkflowCondition)
      → UniqueTypes cs
      → UniqueTypes (set_condition_if_different wc cs)
  unfolding set_condition_if_different
  set_condition_if_different-UniqueTypes [] h = ground arith
  set_condition_if_different-UniqueTypes (c ∷ cs) h = ground (
    arith,
    set_condition_if_different-UniqueTypes cs,
    Fresh-set_condition_if_different c.type wc cs,
    Fresh-of_eq c.type wc.type cs,
  )

  has_condition-set_condition_self :
      (cs : List WorkflowCondition) → has_condition wc.type wc.status (set_condition wc cs) ≡ true
  unfolding set_condition has_condition
  has_condition-set_condition_self [] = ground arith
  has_condition-set_condition_self (c ∷ cs) = ground (arith, has_condition-set_condition_self cs)

  has_condition-set_condition_ne :
      (cs : List WorkflowCondition) (t : ConditionType) (st : Bool)
      → t ≢ wc.type
      → has_condition t st (set_condition wc cs) ≡ has_condition t st cs
  unfolding set_condition has_condition
  has_condition-set_condition_ne [] t st n = ground arith
  has_condition-set_condition_ne (c ∷ cs) t st n =
      ground (arith, has_condition-set_condition_ne cs t st)

  entry-set_condition_self :
      (cs : List WorkflowCondition) → entry wc.type (set_condition wc cs) ≡ some wc
  unfolding set_condition
  entry-set_condition_self [] = ground arith
  entry-set_condition_self (c ∷ cs) = ground (arith, entry-set_condition_self cs)

  entry-set_condition_ne :
      (cs : List WorkflowCondition) (t : ConditionType)
      → t ≢ wc.type
      → entry t (set_condition wc cs) ≡ entry t cs
  unfolding set_condition
  entry-set_condition_ne [] t n = ground arith
  entry-set_condition_ne (c ∷ cs) t n = ground (arith, entry-set_condition_ne cs t)

  -- Writing a condition, where each type has at most one entry, keeps it so. The entry of its own
  -- type is then the one that was written, the whole of it, and shows its status; the entry of every
  -- other type is as it was, with its status, reason, message and time.
  pub set_condition_lem :
      (cs : List WorkflowCondition)
      → UniqueTypes cs
      → UniqueTypes (set_condition wc cs)
        × (entry wc.type (set_condition wc cs) ≡ some wc)
        × (has_condition wc.type wc.status (set_condition wc cs) ≡ true)
        × ((t : ConditionType) → t ≢ wc.type → entry t (set_condition wc cs) ≡ entry t cs)
        × ((t : ConditionType) (st : Bool)
            → t ≢ wc.type
            → has_condition t st (set_condition wc cs) ≡ has_condition t st cs)
  set_condition_lem cs h = (
    set_condition-UniqueTypes cs h,
    entry-set_condition_self cs,
    has_condition-set_condition_self cs,
    entry-set_condition_ne cs,
    has_condition-set_condition_ne cs,
  )

  has_condition-if_different_self :
      (cs : List WorkflowCondition)
      → has_condition wc.type wc.status (set_condition_if_different wc cs) ≡ true
  unfolding set_condition_if_different has_condition
  has_condition-if_different_self [] = ground arith
  has_condition-if_different_self (c ∷ cs) = ground (arith, has_condition-if_different_self cs)

  has_condition-if_different_ne :
      (cs : List WorkflowCondition) (t : ConditionType) (st : Bool)
      → t ≢ wc.type
      → has_condition t st (set_condition_if_different wc cs) ≡ has_condition t st cs
  unfolding set_condition_if_different has_condition
  has_condition-if_different_ne [] t st n = ground arith
  has_condition-if_different_ne (c ∷ cs) t st n =
      ground (arith, has_condition-if_different_ne cs t st)

  -- The write that is skipped when status, reason and message are the same, where each type has at
  -- most one entry, keeps it so, shows the status of its own type, and leaves what every other type
  -- shows.
  pub set_condition_if_different_lem :
      (cs : List WorkflowCondition)
      → UniqueTypes cs
      → UniqueTypes (set_condition_if_different wc cs)
        × (has_condition wc.type wc.status (set_condition_if_different wc cs) ≡ true)
        × ((t : ConditionType) (st : Bool)
            → t ≢ wc.type
            → has_condition t st (set_condition_if_different wc cs) ≡ has_condition t st cs)
  set_condition_if_different_lem cs h = (
    set_condition_if_different-UniqueTypes cs h,
    has_condition-if_different_self cs,
    has_condition-if_different_ne cs,
  )
