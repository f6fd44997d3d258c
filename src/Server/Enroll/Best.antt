-- ===== src/Server/Enroll/Best.antt =====
-- The rule set that an enrollment chooses.
use mathlib.Core.Path.{subst}
use tinkerbell.Base.{
  ℕ, ◌≤◌, ◌<◌, String, Option, List, [], ◌∷◌, ◌++◌, ◌≡◌, ◌⊎◌, inl, inr, refl, sym, ap, ◌∙◌, All,
  arith,
}
use tinkerbell.Base.Fallible.{Result, ok, err}
use tinkerbell.Server.{Backend, Attributes, WorkflowRuleSet}
use tinkerbell.Server.Enroll.{
  Match, no_match, count_event, more_than, find_match, better, best_match,
}

module _ {S : Type 0} (b : Backend S) (attrs : Option Attributes) where
  score_of : Result String ℕ → ℕ
  score_of (err _) = 0
  score_of (ok n) = n

  -- How many rules of a set match; a set whose rules or event cannot be read counts none.
  unfoldable pub score : WorkflowRuleSet → ℕ
  unfolding score_of
  score wr = score_of (count_event b wr attrs)

  -- The first of the sets with the most matching rules, if a rule matches at all.
  pub record IsFirstBest (wrs : List WorkflowRuleSet) (m : Match) : Type 0 where
    pub before : List WorkflowRuleSet
    pub after : List WorkflowRuleSet
    pub stands : wrs ≡ before ++ (m.wrs ∷ after)
    pub counted : score m.wrs ≡ m.num_matches
    pub positive : 0 < m.num_matches
    pub all_before : All (λ wr. score wr < m.num_matches) before
    pub all_after : All (λ wr. score wr ≤ m.num_matches) after

  better_lem :
      (final : Match) (wr : WorkflowRuleSet)
      → ((score wr ≤ final.num_matches)
          × (better b final (find_match b wr attrs final.num_matches) ≡ final))
        ⊎ ((final.num_matches < score wr)
            × (better b final (find_match b wr attrs final.num_matches)
                ≡ record { wrs = wr; num_matches = score wr }))
  unfolding better find_match more_than score score_of
  better_lem final wr = counted (count_event b wr attrs)
    where
      counted :
          (r : Result String ℕ)
          → ((score_of r ≤ final.num_matches)
              × (better b final (more_than b wr final.num_matches r) ≡ final))
            ⊎ ((final.num_matches < score_of r)
                × (better b final (more_than b wr final.num_matches r)
                    ≡ record { wrs = wr; num_matches = score_of r }))
      counted (err e) = inl (omega arith, refl)
      counted (ok n) = ground arith

  -- What the loop leaves, from any match that it starts with: that match, or a later set that counts
  -- more.
  Improved : Match → List WorkflowRuleSet → Match → Type 0
  Improved final wrs m =
      ((m ≡ final) × All (λ wr. score wr ≤ final.num_matches) wrs)
      ⊎ ((xs : List WorkflowRuleSet) × (ys : List WorkflowRuleSet) × (wrs ≡ xs ++ (m.wrs ∷ ys))
          × (score m.wrs ≡ m.num_matches)
          × (final.num_matches < m.num_matches)
          × All (λ wr. score wr < m.num_matches) xs
          × All (λ wr. score wr ≤ m.num_matches) ys)

  Improved-kept :
      (final : Match) (wr : WorkflowRuleSet) (wrs : List WorkflowRuleSet) (m : Match)
      → score wr ≤ final.num_matches
      → Improved final wrs m
      → Improved final (wr ∷ wrs) m
  unfolding Improved
  Improved-kept final wr wrs m k (inl (e, rest)) = inl (e, (k, rest))
  Improved-kept final wr wrs m k (inr (xs, ys, e, c, l, before, after)) =
      inr (wr ∷ xs, ys, ap (λ x. wr ∷ x) e, c, l, (omega (arith, k, l), before), after)

  Improved-taken :
      (final : Match) (wr : WorkflowRuleSet) (wrs : List WorkflowRuleSet) (m : Match)
      → final.num_matches < score wr
      → Improved (record { wrs = wr; num_matches = score wr }) wrs m
      → Improved final (wr ∷ wrs) m
  unfolding Improved
  Improved-taken final wr wrs m k (inl (e, rest)) = inr (
    [],
    wrs,
    ap (λ (x : Match). x.wrs ∷ wrs) (sym e),
    ap (λ (x : Match). score x.wrs) e ∙ sym (ap (λ (x : Match). x.num_matches) e),
    ground (arith, k, e),
    tt,
    subst (λ (x : Match). All (λ w. score w ≤ x.num_matches) wrs) (sym e) rest,
  )
  Improved-taken final wr wrs m k (inr (xs, ys, e, c, l, before, after)) =
      inr (wr ∷ xs, ys, ap (λ x. wr ∷ x) e, c, omega (arith, k, l), (l, before), after)

  best_match-Improved :
      (wrs : List WorkflowRuleSet) (final : Match)
      → Improved final wrs (best_match b attrs final wrs)
  unfolding best_match Improved
  best_match-Improved [] final = inl (refl, tt)
  best_match-Improved (wr ∷ wrs) final =
      let taken : Match = record { wrs = wr; num_matches = score wr } in
      let rest : Match → Match = λ f. best_match b attrs f wrs in
      elim (better_lem final wr) [
        | inl (k, e) ↦
            subst (λ f. Improved final (wr ∷ wrs) (rest f)) (sym e)
              (Improved-kept final wr wrs (rest final) k (best_match-Improved wrs final))
        | inr (k, e) ↦
            subst (λ f. Improved final (wr ∷ wrs) (rest f)) (sym e)
              (Improved-taken final wr wrs (rest taken) k
                (best_match-Improved wrs (record { wrs = wr; num_matches = score wr })))
      ]

  All-none :
      (wrs : List WorkflowRuleSet) → All (λ wr. score wr ≤ 0) wrs → All (λ wr. score wr ≡ 0) wrs
  All-none [] h = tt
  All-none (wr ∷ wrs) (k, h) = (omega (arith, k), All-none wrs h)

  -- The loop of `enroll` over the rule sets finds no match exactly when no rule of any set matches;
  -- otherwise it ends with the first of the sets that have the most matching rules. A set that cannot
  -- be read counts as one with no matching rule.
  pub best_match-IsFirstBest :
      (wrs : List WorkflowRuleSet)
      → (((best_match b attrs no_match wrs).num_matches ≡ 0) × All (λ wr. score wr ≡ 0) wrs)
        ⊎ IsFirstBest wrs (best_match b attrs no_match wrs)
  unfolding Improved
  best_match-IsFirstBest wrs =
      chosen (best_match b attrs no_match wrs) (best_match-Improved wrs no_match)
    where
      chosen :
          (m : Match)
          → Improved no_match wrs m
          → ((m.num_matches ≡ 0) × All (λ wr. score wr ≡ 0) wrs) ⊎ IsFirstBest wrs m
      chosen m (inl (e, rest)) = inl (ap (λ (x : Match). x.num_matches) e, All-none wrs rest)
      chosen m (inr (xs, ys, e, c, l, before, after)) = inr (record {
        before = xs;
        after = ys;
        stands = e;
        counted = c;
        positive = l;
        all_before = before;
        all_after = after;
      })
