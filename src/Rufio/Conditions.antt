-- ===== src/Rufio/Conditions.antt =====
-- `SetCondition` and `HasCondition` of api/v1alpha1/bmc/job.go, which task.go has again for tasks.
use tinkerbell.Base.{
  String, Bool, true, false, Option, none, some, List, [], ◌∷◌, if◌then◌else◌, ◌≡◌, arith,
}
use tinkerbell.Base.Equality.{◌==◌}
use tinkerbell.Rufio.{Condition, ConditionType, condition_type_eq, Status}
use mathlib.Core.Bool.{Bool-discrete}
use mathlib.Core.Logic.{ite}

abbrev pub same_status : Bool → Bool → Bool
same_status a b = ite (Bool-discrete a b) true false

unfoldable pub has_condition : ConditionType → Bool → List Condition → Bool
has_condition t st [] = false
has_condition t st (c ∷ cs) = if c.type == t then same_status c.status st else has_condition t st cs

abbrev message_or : Option String → String → String
message_or none old = old
message_or (some m) old = m

-- A condition that stands keeps its message unless one is given; a new one begins without.
unfoldable pub set_condition :
    ConditionType → Bool → Option String → List Condition → List Condition
set_condition t st m [] = (record { type = t; status = st; message = message_or m "" }) ∷ []
set_condition t st m (c ∷ cs) =
    if c.type == t
    then (record c { status = st; message = message_or m c.message }) ∷ cs
    else c ∷ set_condition t st m cs

-- After `SetCondition` a condition has the status that was set, and those of the other types have the
-- status that they had.
pub has-set_condition :
    (t u : ConditionType) (st b : Bool) (m : Option String) (cs : List Condition)
    → has_condition u b (set_condition t st m cs)
      ≡ (if t == u then same_status st b else has_condition u b cs)
unfolding has_condition set_condition
has-set_condition t u st b m [] = ground arith
has-set_condition t u st b m (c ∷ cs) = ground (arith, has-set_condition t u st b m cs)

abbrev pub with_condition : ConditionType → Bool → Option String → Status → Status
with_condition t st m x = record x { conditions = set_condition t st m x.conditions }
