-- ===== src/Controller/References/Admitted.antt =====
-- Only the objects that the rules admit reach a template.
use tinkerbell.Base.{
  String, ap, refl, sym, Option, none, some, List, [], ◌∷◌, ◌≡◌, arith, ◌⊎◌, inl, inr, In,
}
use tinkerbell.Base.Dict.{Dict, lookup, insert, lookup-insert}
use tinkerbell.Base.Equality.{string_eq}
use tinkerbell.Base.Fallible.{Result, ok}
use tinkerbell.Api.{Reference, Hardware}
use tinkerbell.Controller.References.{
  EvaluationData, ReferenceRules, Collected, evaluate, admit, keep_read, collect_one, collect,
  no_references,
}

module _ (matching : List String → EvaluationData → Result String (List String))
    (r : ReferenceRules) (hw : Hardware) where
  abbrev pub event_of : Reference → EvaluationData
  event_of rf = record { source_name = hw.name; source_namespace = hw.namespace; reference = rf }

  -- No rule of the denylist matches, or one of the allowlist does.
  abbrev pub IsAllowed : Reference → Type 0
  IsAllowed rf =
      (matching r.denylist (event_of rf) ≡ ok [])
      ⊎ ((m : String) × (ms : List String) × (matching r.allowlist (event_of rf) ≡ ok (m ∷ ms)))

  -- What the read of a reference gave is the text `v`, where nothing is shown as null.
  abbrev pub Gave : Option String × Option String → String → Type 0
  Gave x v = ((e : Option String) × (x ≡ (some v, e))) ⊎ ((v ≡ "null") × (x ≡ (none, none)))

  -- Some reference of that name is allowed, and `v` is what a read of that very reference gave.
  abbrev pub HasAllowed :
      {S : Type 0}
      → (Reference → S → (Option String × Option String) × S)
      → Dict String Reference
      → String
      → String
      → Type 0
  HasAllowed {S = S} dynamic_read refs n v =
      (rf : Reference) × (s : S) × In (n, rf) refs × IsAllowed rf × Gave (dynamic_read rf s).0 v

  admit-IsAllowed : (rf : Reference) → admit matching r (event_of rf) ≡ ok tt → IsAllowed rf
  unfolding admit evaluate
  admit-IsAllowed rf h = ground arith

  module _ {S : Type 0} (dynamic_read : Reference → S → (Option String × Option String) × S) where
    inserted :
        (n k w v : String) (c : Collected)
        → lookup k (insert n w c.references) ≡ some v
        → (lookup k c.references ≡ some v) ⊎ ((k ≡ n) × (w ≡ v))
    inserted n k w v c h = ground (arith, lookup-insert k n w c.references)

    lookup-keep_read :
        (n k : String) (c : Collected) (x : Option String × Option String) (v : String)
        → lookup k (keep_read matching dynamic_read n c x).references ≡ some v
        → (lookup k c.references ≡ some v) ⊎ ((k ≡ n) × Gave x v)
    unfolding keep_read
    lookup-keep_read n k c (some w, e) v h = elim (inserted n k w v c h) [
      | inl same ↦ inl same
      | inr (here, eq) ↦ inr (here, inl (e, ap (λ z. (some z, e)) eq))
    ]
    lookup-keep_read n k c (none, none) v h = elim (inserted n k "null" v c h) [
      | inl same ↦ inl same
      | inr (here, eq) ↦ inr (here, inr (sym eq, refl))
    ]
    lookup-keep_read n k c (none, some e) v h = inl h

    lookup-collect_one :
        (n k : String) (rf : Reference) (c : Collected) (s : S) (v : String)
        → lookup k (collect_one matching dynamic_read r hw n rf c s).0.references ≡ some v
        → (lookup k c.references ≡ some v) ⊎ ((k ≡ n) × IsAllowed rf × Gave (dynamic_read rf s).0 v)
    unfolding collect_one
    lookup-collect_one n k rf c s v h =
        ground (arith, admit-IsAllowed rf, lookup-keep_read n k c (dynamic_read rf s).0 v)

    lookup-collect :
        (k v : String) (refs : Dict String Reference) (c : Collected) (s : S)
        → lookup k (collect matching dynamic_read r hw refs c s).0.references ≡ some v
        → (lookup k c.references ≡ some v) ⊎ HasAllowed dynamic_read refs k v
    unfolding collect
    lookup-collect k v [] c s h = inl h
    lookup-collect k v ((n, rf) ∷ refs) c s h =
        let one = collect_one matching dynamic_read r hw n rf c s in
        elim (lookup-collect k v refs one.0 one.1 h) [
          | inr (q, t, i, a, g) ↦ inr (q, t, inr i, a, g)
          | inl e ↦ (elim (lookup-collect_one n k rf c s v e) [
            | inl e' ↦ inl e'
            | inr (e', a, g) ↦ inr (rf, s, inl (ap (λ (m : String). (m, rf)) e'), a, g)
          ])
        ]

    -- The objects that the loop over the references of a hardware has collected: each stands under the
    -- name of a reference of the hardware for which no rule of the denylist matches, or a rule of the
    -- allowlist does, and it is what a read of that reference gave, with null where the read gave
    -- nothing and no error.
    pub collect-HasAllowed :
        (k v : String) (s : S)
        → lookup k (collect matching dynamic_read r hw hw.references no_references s).0.references
          ≡ some v
        → HasAllowed dynamic_read hw.references k v
    unfolding lookup
    collect-HasAllowed k v s h = elim (lookup-collect k v hw.references no_references s h) [
      | inl e ↦ absurd (cc)
      | inr a ↦ a
    ]
