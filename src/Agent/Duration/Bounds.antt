-- ===== src/Agent/Duration/Bounds.antt =====
-- How far the units that are printed are from the duration.
use mathlib.Core.Path.{subst}
use tinkerbell.Base.{
  append-snoc, true, false, ℕ, zero, suc, ◌+◌, ◌*◌, ◌≤◌, ◌<◌, List, [], ◌∷◌, ◌++◌, ◌≡◌, ◌⊎◌, inl,
  inr, refl, sym, ap, ◌∙◌, length, ltb, arith,
}
use tinkerbell.Agent.Duration.{TimeUnit, nanosecond, nanos_of, Part, counts, keep, parts_of}

-- The nanoseconds that the parts say.
abbrev pub total : List Part → ℕ
total [] = 0
total ((n, u) ∷ parts) = n * nanos_of u + total parts

-- The unit of the last part.
abbrev pub last_unit : TimeUnit → List Part → TimeUnit
last_unit u [] = u
last_unit u ((_, v) ∷ parts) = last_unit v parts

-- The units that are not zero, the first `p` of them.
abbrev first_units : ℕ → List Part → List Part
first_units p [] = []
first_units zero ((n, u) ∷ rest) = []
first_units (suc p) ((zero, u) ∷ rest) = first_units (suc p) rest
first_units (suc p) ((suc n, u) ∷ rest) = (suc n, u) ∷ first_units p rest

-- What follows a part is less than one of its unit.
Descending : List Part → Type 0
Descending [] = Unit
Descending ((n, u) ∷ rest) = (total rest < nanos_of u) × Descending rest

total-counts : (d : ℕ) → total (counts d) ≡ d
unfolding counts
total-counts d = omega arith

counts-Descending : (d : ℕ) → Descending (counts d)
unfolding counts Descending
counts-Descending d =
    (omega arith, (omega arith, (omega arith, (omega arith, (omega arith, (omega arith, tt))))))

append-nil : (xs : List Part) → xs ++ [] ≡ xs
append-nil [] = refl
append-nil (x ∷ xs) = ap (λ ys. x ∷ ys) (append-nil xs)

length-push : (xs : List Part) (x : Part) → length (xs ++ (x ∷ [])) ≡ suc (length xs)
length-push [] x = refl
length-push (z ∷ xs) x = ap suc (length-push xs x)

first_units-zero : (xs : List Part) → first_units zero xs ≡ []
first_units-zero [] = refl
first_units-zero ((n, u) ∷ rest) = refl

keep_lem :
    (p q : ℕ) (xs parts : List Part)
    → length parts + q ≡ p
    → keep p parts xs ≡ parts ++ first_units q xs
unfolding keep
keep_lem p q [] parts h = sym (append-nil parts)
keep_lem p zero ((zero, u) ∷ rest) parts h =
    keep_lem p zero rest parts h ∙ ap (λ ys. parts ++ ys) (first_units-zero rest)
keep_lem p zero ((suc n, u) ∷ rest) parts h =
    let full : ltb (length parts) p ≡ false = ground (arith, h) in
    let shown : ltb 0 (suc n) ≡ true = ground arith in
    rw (shown, full) (keep_lem p zero rest parts h ∙ ap (λ ys. parts ++ ys) (first_units-zero rest))
keep_lem p (suc q) ((zero, u) ∷ rest) parts h = keep_lem p (suc q) rest parts h
keep_lem p (suc q) ((suc n, u) ∷ rest) parts h =
    let fits : ltb (length parts) p ≡ true = ground (arith, h) in
    let more : length (parts ++ ((suc n, u) ∷ [])) + q ≡ p =
      omega (arith, h, length-push parts (suc n, u)) in
    let shown : ltb 0 (suc n) ≡ true = ground arith in
    rw (shown, fits)
      (keep_lem p q rest (parts ++ ((suc n, u) ∷ [])) more
        ∙ append-snoc parts (suc n, u) (first_units q rest))

length-first_units : (p : ℕ) (xs : List Part) → length (first_units p xs) ≤ p
length-first_units p [] = omega arith
length-first_units zero ((n, u) ∷ rest) = omega arith
length-first_units (suc p) ((zero, u) ∷ rest) = length-first_units (suc p) rest
length-first_units (suc p) ((suc n, u) ∷ rest) = omega (arith, length-first_units p rest)

total-first_units : (p : ℕ) (xs : List Part) → total (first_units p xs) ≤ total xs
total-first_units p [] = omega arith
total-first_units zero ((n, u) ∷ rest) = omega arith
total-first_units (suc p) ((zero, u) ∷ rest) = ground (arith, total-first_units (suc p) rest)
total-first_units (suc p) ((suc n, u) ∷ rest) = ground (arith, total-first_units p rest)

total-first_units_all :
    (p : ℕ) (xs : List Part) → length xs ≤ p → total (first_units p xs) ≡ total xs
total-first_units_all p [] h = refl
total-first_units_all zero ((n, u) ∷ rest) h = absurd (omega (arith, h))
total-first_units_all (suc p) ((zero, u) ∷ rest) h =
    ground (arith, total-first_units_all (suc p) rest)
total-first_units_all (suc p) ((suc n, u) ∷ rest) h = ground (arith, total-first_units_all p rest)

zero_or_more : (n : ℕ) → (n ≡ 0) ⊎ (0 < n)
zero_or_more zero = inl refl
zero_or_more (suc n) = inr (omega arith)

nanos_of_pos : (u : TimeUnit) → 0 < nanos_of u
nanos_of_pos TimeUnit.hour = omega arith
nanos_of_pos TimeUnit.minute = omega arith
nanos_of_pos TimeUnit.second = omega arith
nanos_of_pos TimeUnit.millisecond = omega arith
nanos_of_pos TimeUnit.microsecond = omega arith
nanos_of_pos TimeUnit.nanosecond = omega arith

first_units-none : (p : ℕ) (xs : List Part) → total xs ≡ 0 → first_units p xs ≡ []
first_units-none p [] h = refl
first_units-none zero ((n, u) ∷ rest) h = refl
first_units-none (suc p) ((zero, u) ∷ rest) h = first_units-none (suc p) rest (omega (arith, h))
first_units-none (suc p) ((suc n, u) ∷ rest) h = absurd (omega (arith, h, nanos_of_pos u))

-- The units that are printed say the whole duration but less than one of the last of them.
total-last_unit :
    (p : ℕ) (xs : List Part) (u : TimeUnit)
    → Descending xs
    → 0 < total xs
    → total xs < total (first_units (suc p) xs) + nanos_of (last_unit u (first_units (suc p) xs))
unfolding Descending
total-last_unit p [] u d h = absurd (omega (arith, h))
total-last_unit p ((zero, v) ∷ rest) u d h =
    omega (arith, total-last_unit p rest u d.1 (omega (arith, h)))
total-last_unit zero ((suc n, v) ∷ rest) u d h = rw (first_units-zero rest) (omega (arith, d.0))
total-last_unit (suc p) ((suc n, v) ∷ rest) u d h = elim (zero_or_more (total rest)) [
  | inl none_left ↦
      rw (first_units-none (suc p) rest none_left) (omega (arith, none_left, nanos_of_pos v))
  | inr left ↦ omega (arith, total-last_unit p rest v d.1 left)
]

-- What the parts say of the duration.
Says : ℕ → ℕ → List Part → Type 0
Says d precision parts =
    (length parts ≤ precision)
    × (total parts ≤ d)
    × ((precision < 6) ⊎ (total parts ≡ d))
    × ((precision ≡ 0) ⊎ (d ≡ 0) ⊎ (d < total parts + nanos_of (last_unit nanosecond parts)))

last_unit-first_units :
    (d precision : ℕ)
    → (precision ≡ 0)
      ⊎ (d ≡ 0)
      ⊎ (d
          < total (first_units precision (counts d))
            + nanos_of (last_unit nanosecond (first_units precision (counts d))))
last_unit-first_units d zero = inl refl
last_unit-first_units d (suc p) = elim (zero_or_more d) [
  | inl none_at_all ↦ inr (inl none_at_all)
  | inr some_time ↦ inr (
      inr (
        omega (
          arith,
          total-last_unit p (counts d) nanosecond (counts-Descending d)
              (omega (arith, some_time, total-counts d)),
          total-counts d,
        )))
]

first_units-exact :
    (d precision : ℕ) → (precision < 6) ⊎ (total (first_units precision (counts d)) ≡ d)
unfolding counts
first_units-exact d precision = exact (precision_cases precision)
  where
    precision_cases : (p : ℕ) → (p < 6) ⊎ (6 ≤ p)
    precision_cases p = ground arith

    exact :
        (precision < 6) ⊎ (6 ≤ precision)
        → (precision < 6) ⊎ (total (first_units precision (counts d)) ≡ d)
    exact (inl few) = inl few
    exact (inr enough) = inr (total-first_units_all precision (counts d) enough ∙ total-counts d)

first_units-Says : (d precision : ℕ) → Says d precision (first_units precision (counts d))
unfolding Says
first_units-Says d precision = (
  length-first_units precision (counts d),
  omega (arith, total-first_units precision (counts d), total-counts d),
  first_units-exact d precision,
  last_unit-first_units d precision,
)

-- `humanDuration`: at most as many units are printed as the precision says, together they are not more
-- than the duration; from a precision of six on they are the duration itself, and at a precision and
-- a duration that are not zero what they leave out is less than one of the last unit that is printed.
pub parts_of-bounds :
    (d precision : ℕ)
    → (length (parts_of d precision) ≤ precision)
      × (total (parts_of d precision) ≤ d)
      × ((precision < 6) ⊎ (total (parts_of d precision) ≡ d))
      × ((precision ≡ 0)
          ⊎ (d ≡ 0)
          ⊎ (d
              < total (parts_of d precision)
                + nanos_of (last_unit nanosecond (parts_of d precision))))
unfolding parts_of Says
parts_of-bounds d precision =
    subst (Says d precision) (sym (keep_lem precision precision (counts d) [] (omega arith)))
      (first_units-Says d precision)
