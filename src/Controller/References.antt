-- ===== src/Controller/References.antt =====
-- The objects that a hardware refers to and that a template may see: `evaluate` of
-- tink/controller/internal/workflow/lists.go and the loop over the references in `processWorkflow`
-- (reconciler.go). `matching` is the rule engine and `dynamic_read` the dynamic client, which may
-- give an object, an error, or both.
pub mod Admitted
use Prim.Native.String.{◌++◌ as text_append}
use tinkerbell.Base.{
  String, Bool, true, false, Option, none, some, List, [], ◌∷◌, ◌++◌, if◌then◌else◌, not, ◌&&◌,
  ◌||◌,
}
use tinkerbell.Base.Dict.{Dict, insert}
use tinkerbell.Base.Equality.{string_eq}
use tinkerbell.Base.Fallible.{Result, ok, err}
use tinkerbell.Api.{Reference, Hardware}

-- `evaluationData`: the name and namespace of the hardware, and the reference.
pub record EvaluationData : Type 0 where
  pub source_name : String
  pub source_namespace : String
  pub reference : Reference

pub record ReferenceRules : Type 0 where
  pub allowlist : List String
  pub denylist : List String

-- The objects read so far and the errors met, the variables `references` and `refErr`.
pub record Collected : Type 0 where
  pub references : Dict String String
  pub errors : List String

abbrev pub no_references : Collected
no_references = record { references = []; errors = [] }

abbrev pub join_rules : List String → String
join_rules [] = ""
join_rules (r ∷ []) = r
join_rules (r ∷ q ∷ rules) = text_append r (text_append ";" (join_rules (q ∷ rules)))

module _ (matching : List String → EvaluationData → Result String (List String)) where
  -- Whether a rule matches, and the rules that do.
  unfoldable pub evaluate : List String → EvaluationData → Result String (Bool × String)
  evaluate rules d = elim (matching rules d) [
    | err e ↦ err e
    | ok [] ↦ ok (false, "")
    | ok (m ∷ ms) ↦ ok (true, join_rules (m ∷ ms))
  ]

  unfoldable pub admit : ReferenceRules → EvaluationData → Result String (Unit {0})
  admit r d = elim (evaluate r.denylist d) [
    | err e ↦ err e
    | ok (denied, _) ↦ (elim (evaluate r.allowlist d) [
      | err e ↦ err e
      | ok (allowed, _) ↦ if denied && not allowed then err "reference denied" else ok tt
    ])
  ]

  module _ {S : Type 0} (dynamic_read : Reference → S → (Option String × Option String) × S) where
    abbrev with_error : Collected → String → Collected
    with_error c e = record c { errors = c.errors ++ (e ∷ []) }

    -- What the read gave: an object, or nothing and no error, stands under the name; otherwise the
    -- error is kept.
    keep_read : String → Collected → Option String × Option String → Collected
    keep_read n c (some v, e) = record c { references = insert n v c.references }
    keep_read n c (none, none) = record c { references = insert n "null" c.references }
    keep_read n c (none, some e) = with_error c e

    unfoldable pub collect_one :
        ReferenceRules → Hardware → String → Reference → Collected → S → Collected × S
    unfolding keep_read
    collect_one r hw n rf c s =
        elim (admit r
          (record { source_name = hw.name; source_namespace = hw.namespace; reference = rf })) [
            | err e ↦ (with_error c e, s)
            | ok _ ↦ (keep_read n c (dynamic_read rf s).0, (dynamic_read rf s).1)
          ]

    unfoldable pub collect :
        ReferenceRules → Hardware → Dict String Reference → Collected → S → Collected × S
    collect r hw [] c s = (c, s)
    collect r hw ((n, rf) ∷ refs) c s =
        collect r hw refs (collect_one r hw n rf c s).0 (collect_one r hw n rf c s).1
