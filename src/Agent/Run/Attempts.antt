-- ===== src/Agent/Run/Attempts.antt =====
-- How often an action is executed, and the state that it ends in.
use tinkerbell.Base.{ℤ, pos, negsuc, ℕ, zero, suc, ◌<◌, ◌≡◌, ◌⊎◌, inl, inr, refl, ap, arith}
use tinkerbell.Agent.{
  Action, State, success, failure, timeout, Outcome, done, deadline_exceeded, broken, World,
}
use tinkerbell.Agent.Run.{tries, attempts, tried}

module _ {S : Type 0} (w : World S) (a : Action) where
  -- The world after `n` executions.
  abbrev pub after : ℕ → S → S
  after zero s = s
  after (suc n) s = after n (w.execute a s).1

  -- How execution `n` ends, counted from 0.
  abbrev pub outcome : ℕ → S → Outcome
  outcome zero s = (w.execute a s).0
  outcome (suc n) s = outcome n (w.execute a s).1

  -- The first `n` executions all broke off.
  abbrev pub AllBroken : ℕ → S → Type 0
  AllBroken zero s = Unit
  AllBroken (suc n) s = ((w.execute a s).0 ≡ broken) × AllBroken n (w.execute a s).1

  -- The end of the tries: the last of `n + 1` executions decides, and the ones before it broke off.
  pub record Decided (allowed : ℕ) (s : S) (state : State) (s' : S) : Type 0 where
    pub failed_before : ℕ
    pub in_bounds : failed_before < allowed
    pub before_broken : AllBroken failed_before s
    pub world_is : s' ≡ after (suc failed_before) s
    pub decided :
        ((outcome failed_before s ≡ done) × (state ≡ success))
        ⊎ ((outcome failed_before s ≡ deadline_exceeded) × (state ≡ timeout))
        ⊎ ((outcome failed_before s ≡ broken) × (state ≡ failure) × (suc failed_before ≡ allowed))

  Decided-later :
      (left : ℕ) (s : S) (state : State) (s' : S)
      → (w.execute a s).0 ≡ broken
      → Decided (suc left) (w.execute a s).1 state s'
      → Decided (suc (suc left)) s state s'
  Decided-later left s state s' e d = record {
    failed_before = suc d.failed_before;
    in_bounds = omega (arith, d.in_bounds);
    before_broken = (e, d.before_broken);
    world_is = d.world_is;
    decided = elim d.decided [
      | inl x ↦ inl x
      | inr (inl x) ↦ inr (inl x)
      | inr (inr (x, y, z)) ↦ inr (inr (x, y, ap suc z))
    ];
  }

  -- The end that the first execution decides.
  at_first :
      (left : ℕ) (s : S) (state : State)
      → (((outcome 0 s ≡ done) × (state ≡ success))
          ⊎ ((outcome 0 s ≡ deadline_exceeded) × (state ≡ timeout))
          ⊎ ((outcome 0 s ≡ broken) × (state ≡ failure) × (1 ≡ suc left)))
      → Decided (suc left) s state (w.execute a s).1
  at_first left s state d = record {
    failed_before = 0;
    in_bounds = omega arith;
    before_broken = tt;
    world_is = refl;
    decided = d;
  }

  Ends : ℕ → S → State × S → Type 0
  Ends left s p = Decided left s p.0 p.1

  attempts-Ends :
      (left : ℕ) (state : State) (s : S) → Ends (suc left) s (attempts w a (suc left) state s)
  unfolding attempts Ends
  attempts-Ends zero state s = ended (w.execute a s).0 refl
    where
      ended :
          (o : Outcome)
          → (w.execute a s).0 ≡ o
          → Ends 1 s (tried w o (w.execute a s).1 (failure, (w.execute a s).1))
      ended done e = at_first 0 s success (inl (e, refl))
      ended deadline_exceeded e = at_first 0 s timeout (inr (inl (e, refl)))
      ended broken e = at_first 0 s failure (inr (inr (e, refl, refl)))
  attempts-Ends (suc left) state s =
      ended (w.execute a s).0 refl (attempts-Ends left failure (w.execute a s).1)
    where
      ended :
          (o : Outcome)
          → (w.execute a s).0 ≡ o
          → Ends (suc left) (w.execute a s).1 (attempts w a (suc left) failure (w.execute a s).1)
          → Ends
              (suc (suc left))
              s
              (tried w o (w.execute a s).1 (attempts w a (suc left) failure (w.execute a s).1))
      ended done e rest = at_first (suc left) s success (inl (e, refl))
      ended deadline_exceeded e rest = at_first (suc left) s timeout (inr (inl (e, refl)))
      ended broken e rest = Decided-later left s _ _ e rest

  -- The end of the tries of an action: at least one execution and at most as many as the retries say,
  -- one for a count of 0. A negative count allows none, and the state is SUCCESS.
  abbrev pub TriesEnd : ℤ → S → State → S → Type 0
  TriesEnd (pos n) s state s' = Decided (tries (pos n)) s state s'
  TriesEnd (negsuc n) s state s' = (state ≡ success) × (s' ≡ s)

  pub attempts-TriesEnd :
      (n : ℤ) (s : S)
      → TriesEnd n s (attempts w a (tries n) success s).0 (attempts w a (tries n) success s).1
  unfolding tries attempts Ends
  attempts-TriesEnd (pos zero) s = attempts-Ends 0 success s
  attempts-TriesEnd (pos (suc n)) s = attempts-Ends n success s
  attempts-TriesEnd (negsuc n) s = (refl, refl)
