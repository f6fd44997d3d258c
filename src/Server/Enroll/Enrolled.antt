-- ===== src/Server/Enroll/Enrolled.antt =====
-- What stands behind an action that an enrollment serves.
use tinkerbell.Base.{◌<◌, String, false, Option, List, ◌≡◌, inl, inr, refl, arith}
use tinkerbell.Base.Fallible.{Result, ok, err, Exec}
use tinkerbell.Api.{Workflow, Hardware}
use tinkerbell.Server.{Error, BackendError, Backend, Attributes, WorkflowRuleSet, ActionResponse}
use tinkerbell.Server.Names.Chars.{Char, chars, text}
use tinkerbell.Server.Names.{make_valid_chars, make_valid_name, named_text}
use tinkerbell.Server.Names.Valid.{IsName, make_valid_chars-IsName}
use tinkerbell.Server.Get.Served.{Served, do_get_action-Served}
use tinkerbell.Server.Enroll.{
  Match, no_match, workflow_prefix, best_match, enrollment_workflow, is_disabled,
  get_action_no_auto, after_create, create_for, with_name, with_rule_sets, enroll,
}
use tinkerbell.Server.Enroll.Best.{IsFirstBest, best_match-IsFirstBest}

-- An action that was served from a workflow that the backend listed.
abbrev pub IsListed : {S : Type 0} → Backend S → String → ActionResponse → S → Type 0
IsListed {S} b agent r s' =
    (s₁ : S) × (s₂ : S) × (ws : List Workflow) × (b.list_workflows agent s₁ ≡ (ok ws, s₂))
    × Served b agent ws r s'

-- What an enrollment has done that ends with an action: the hardware, if there is one, allows it; the
-- first of the rule sets with the most matching rules was chosen, its workflow created under a valid
-- name; the action is that of a workflow that was listed afterwards.
pub record IsEnrolled {S : Type 0} (b : Backend S) (agent : String) (attrs : Option Attributes)
    (hw : Option Hardware) (s : S) (r : ActionResponse) (s' : S) : Type 0 where
  pub rule_sets : List WorkflowRuleSet
  pub listed : S
  pub created : S
  pub best : Match
  pub name_chars : List Char
  pub allowed : is_disabled hw ≡ false
  pub lists : b.list_rule_sets s ≡ (ok rule_sets, listed)
  pub best_IsFirstBest : IsFirstBest b attrs rule_sets best
  pub name_IsName : IsName name_chars
  pub creates :
      b.create_workflow (enrollment_workflow (text name_chars) agent attrs hw best.wrs) listed
      ≡ (ok tt, created)
  pub served : IsListed b agent r s'

module _ {S : Type 0} (b : Backend S)
    (retry : Exec S Error ActionResponse → Exec S Error ActionResponse)
    (runs : (m : Exec S Error ActionResponse) (s : S) (r : ActionResponse) (s' : S)
      → retry m s ≡ (ok r, s')
      → (s₀ : S) × (m s₀ ≡ (ok r, s')))
    (agent : String) where
  get_action_no_auto-IsListed :
      (s : S) (r : ActionResponse) (s' : S)
      → get_action_no_auto b retry agent s ≡ (ok r, s')
      → IsListed b agent r s'
  unfolding get_action_no_auto
  get_action_no_auto-IsListed s r s' h =
      let (s₀, ran) = runs _ s r s' h in do_get_action-Served b _ _ _ _ s₀ r s' refl ran

  after_create-IsListed :
      (c : Result BackendError (Unit {0}) × S) (r : ActionResponse) (s' : S)
      → after_create b retry agent c ≡ (ok r, s')
      → (c.0 ≡ ok tt) × IsListed b agent r s'
  unfolding after_create
  after_create-IsListed (err e, s) r s' h = absurd (ground (arith, h))
  after_create-IsListed (ok u, s) r s' h = (refl, get_action_no_auto-IsListed s r s' h)

  module _ (attrs : Option Attributes) (hw : Option Hardware) where
    create_for-ok :
        (name : String) (m : Match) (s : S) (r : ActionResponse) (s' : S)
        → create_for b retry agent attrs hw name m s ≡ (ok r, s')
        → (0 < m.num_matches)
          × (after_create b retry agent
                (b.create_workflow (enrollment_workflow name agent attrs hw m.wrs) s)
              ≡ (ok r, s'))
    unfolding create_for
    create_for-ok name m s r s' h = ground (arith, h)

    create_for-IsEnrolled :
        (wrs : List WorkflowRuleSet) (cs : List Char) (s s₁ : S) (r : ActionResponse) (s' : S)
        → is_disabled hw ≡ false
        → b.list_rule_sets s ≡ (ok wrs, s₁)
        → IsName cs
        → create_for b retry agent attrs hw (text cs) (best_match b attrs no_match wrs) s₁
          ≡ (ok r, s')
        → IsEnrolled b agent attrs hw s r s'
    create_for-IsEnrolled wrs cs s s₁ r s' a l n h =
        let m = best_match b attrs no_match wrs in
        let (some_match, h₁) = create_for-ok (text cs) m s₁ r s' h in
        let made = b.create_workflow (enrollment_workflow (text cs) agent attrs hw m.wrs) s₁ in
        let (done, end) = after_create-IsListed made r s' h₁ in
        record {
          rule_sets = wrs;
          listed = s₁;
          created = made.1;
          best = m;
          name_chars = cs;
          allowed = a;
          lists = l;
          best_IsFirstBest = elim (best_match-IsFirstBest b attrs wrs) [
            | inl (none_matched, _) ↦ absurd (omega (arith, none_matched, some_match))
            | inr first_best ↦ first_best
          ];
          name_IsName = n;
          creates = λ i. (done i, made.1);
          served = end;
        }

    with_name-IsEnrolled :
        (wrs : List WorkflowRuleSet) (name : Result String (List Char)) (s s₁ : S)
        (r : ActionResponse) (s' : S)
        → is_disabled hw ≡ false
        → b.list_rule_sets s ≡ (ok wrs, s₁)
        → ((cs : List Char) → name ≡ ok cs → IsName cs)
        → with_name b retry agent attrs hw (named_text name) wrs s₁ ≡ (ok r, s')
        → IsEnrolled b agent attrs hw s r s'
    unfolding with_name named_text
    with_name-IsEnrolled wrs (err e) s s₁ r s' a l n h = absurd (ground (arith, h))
    with_name-IsEnrolled wrs (ok cs) s s₁ r s' a l n h =
        create_for-IsEnrolled wrs cs s s₁ r s' a l (n cs refl) h

    with_rule_sets-IsEnrolled :
        (s : S) (sets : Result BackendError (List WorkflowRuleSet) × S) (r : ActionResponse)
        (s' : S)
        → is_disabled hw ≡ false
        → b.list_rule_sets s ≡ sets
        → with_rule_sets b retry agent attrs hw sets ≡ (ok r, s')
        → IsEnrolled b agent attrs hw s r s'
    unfolding with_rule_sets make_valid_name
    with_rule_sets-IsEnrolled s (err e, s₁) r s' a l h = absurd (ground (arith, h))
    with_rule_sets-IsEnrolled s (ok wrs, s₁) r s' a l h =
        with_name-IsEnrolled wrs (make_valid_chars (chars agent) (chars workflow_prefix)) s s₁ r s'
          a l (make_valid_chars-IsName (chars agent) (chars workflow_prefix)) h

    allowed-ok :
        (s : S) (r : ActionResponse) (s' : S)
        → enroll b retry agent attrs hw s ≡ (ok r, s')
        → (is_disabled hw ≡ false)
          × (with_rule_sets b retry agent attrs hw (b.list_rule_sets s) ≡ (ok r, s'))
    unfolding enroll
    allowed-ok s r s' h = ground (arith, h)

    pub enroll-IsEnrolled :
        (s : S) (r : ActionResponse) (s' : S)
        → enroll b retry agent attrs hw s ≡ (ok r, s')
        → IsEnrolled b agent attrs hw s r s'
    enroll-IsEnrolled s r s' h =
        let (a, k) = allowed-ok s r s' h in
        with_rule_sets-IsEnrolled s (b.list_rule_sets s) r s' a refl k
