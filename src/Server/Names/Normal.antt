-- ===== src/Server/Names/Normal.antt =====
-- What the normalised text of a name looks like.
use tinkerbell.Base.{
  ℕ, zero, suc, ◌-◌, ◌<◌, Bool, true, false, List, [], ◌∷◌, ◌≡◌, refl, sym, ap, ◌∙◌, ◌⊎◌, arith,
  map, length, all, not, ◌&&◌, ◌||◌, Bool-cases, inl, inr,
}
use Prim.Native.String.{char_at}
use tinkerbell.Server.Names.Chars.{Char, code, is_hyphen, is_alnum, is_upper, is_name_char, lower}
use tinkerbell.Server.Names.{
  starts_alnum, ends_alnum, is_single_alnum, pad_start, pad_end, pad, replace_char, begins_hyphen,
  collapse, trim_left, add_kept, trim_right, normalise, ends_hyphen, has_double,
}

-- The text begins with a character other than a hyphen.
abbrev pub starts_shown : List Char → Bool
starts_shown [] = false
starts_shown (c ∷ cs) = not (is_hyphen c)

all_below : (ℕ → Bool) → ℕ → Bool
all_below f zero = true
all_below f (suc n) = f n && all_below f n

left_of : (a b : Bool) → (a && b) ≡ true → a ≡ true
left_of true b h = refl
left_of false b h = h

right_of : (a b : Bool) → (a && b) ≡ true → b ≡ true
right_of true b h = h
right_of false b h = absurd (cc)

lt_cases : (k n : ℕ) → k < suc n → (k ≡ n) ⊎ (k < n)
lt_cases k n l = omega (arith, l)

all_below-at : (f : ℕ → Bool) (n k : ℕ) → all_below f n ≡ true → k < n → f k ≡ true
unfolding all_below
all_below-at f zero k h l = absurd (omega (arith, l))
all_below-at f (suc n) k h l = elim (lt_cases k n l) [
  | inl e ↦ rw e (left_of (f n) _ h)
  | inr l' ↦ all_below-at f n k (right_of (f n) _ h) l'
]

abbrev small : ℕ → Char
small k = char_at "abcdefghijklmnopqrstuvwxyz" k

abbrev small_letter : ℕ → Bool
small_letter k = is_name_char (small k) && not (is_hyphen (small k))

small_letters : (k : ℕ) → k < 26 → small_letter k ≡ true
unfolding all_below
small_letters k l = all_below-at small_letter 26 k refl l

not-true : (b : Bool) → not b ≡ true → b ≡ false
not-true true h = absurd (cc)
not-true false h = refl

-- A capital letter has its small letter, which is at the same place of the alphabet.
lower-is_upper :
    (c : Char) → is_upper c ≡ true → (lower c ≡ small (code c - 65)) × (code c - 65 < 26)
unfolding lower
lower-is_upper c h = (rw h refl, ground (arith, h))

pub lower-other : (c : Char) → is_upper c ≡ false → lower c ≡ c
unfolding lower
lower-other c h = rw h refl

is_hyphen-lower : (c : Char) → is_hyphen (lower c) ≡ is_hyphen c
is_hyphen-lower c = elim (Bool-cases (is_upper c)) [
  | inl y ↦
      let (e, l) = lower-is_upper c y in
      let shown : is_hyphen c ≡ false = ground (arith, y) in
      ap is_hyphen e
      ∙ not-true _ (right_of (is_name_char (small (code c - 65))) _ (small_letters (code c - 65) l))
      ∙ sym shown
  | inr n ↦ ap is_hyphen (lower-other c n)
]

is_name_char-lower : (c : Char) → (is_alnum c || is_hyphen c) ≡ true → is_name_char (lower c) ≡ true
is_name_char-lower c h = elim (Bool-cases (is_upper c)) [
  | inl y ↦
      let (e, l) = lower-is_upper c y in
      ap is_name_char e
      ∙ left_of (is_name_char (small (code c - 65))) _ (small_letters (code c - 65) l)
  | inr n ↦ ap is_name_char (lower-other c n) ∙ ground (arith, h, n)
]

replace_char-class : (c : Char) → (is_alnum (replace_char c) || is_hyphen (replace_char c)) ≡ true
replace_char-class c = elim (Bool-cases (is_alnum c || is_hyphen c)) [
  | inl y ↦ rw y y
  | inr n ↦ rw n refl
]

starts_alnum-pad : (cs : List Char) → starts_alnum (pad cs) ≡ true
unfolding pad pad_start pad_end starts_alnum is_single_alnum ends_alnum
starts_alnum-pad [] = refl
starts_alnum-pad (c ∷ []) = ground arith
starts_alnum-pad (c ∷ d ∷ cs) = ground arith

starts_shown-replace :
    (cs : List Char) → starts_alnum cs ≡ true → starts_shown (map replace_char cs) ≡ true
unfolding starts_alnum
starts_shown-replace [] h = absurd (cc)
starts_shown-replace (c ∷ cs) h = ground (arith, h)

starts_shown-collapse :
    (cs : List Char) → starts_shown cs ≡ true → starts_shown (collapse cs) ≡ true
unfolding collapse
starts_shown-collapse [] h = h
starts_shown-collapse (c ∷ cs) h = ground (arith, h)

trim_left-shown : (cs : List Char) → starts_shown cs ≡ true → trim_left cs ≡ cs
unfolding trim_left
trim_left-shown [] h = refl
trim_left-shown (c ∷ cs) h = ground (arith, h)

starts_shown-trim_right :
    (cs : List Char) → starts_shown cs ≡ true → starts_shown (trim_right cs) ≡ true
unfolding trim_right add_kept
starts_shown-trim_right [] h = h
starts_shown-trim_right (c ∷ cs) h = added (trim_right cs)
  where
    added : (r : List Char) → starts_shown (add_kept c r) ≡ true
    added [] = ground (arith, h)
    added (d ∷ ds) = h

has_double-collapse : (cs : List Char) → has_double (collapse cs) ≡ false
unfolding collapse has_double
has_double-collapse [] = refl
has_double-collapse (c ∷ cs) = ground (arith, has_double-collapse cs)

-- What is left of a text at the right is nothing, or begins as the text does.
begins_hyphen-trim_right :
    (cs : List Char) (d : Char) (ds : List Char)
    → trim_right cs ≡ d ∷ ds
    → begins_hyphen (d ∷ ds) ≡ begins_hyphen cs
unfolding trim_right add_kept begins_hyphen
begins_hyphen-trim_right [] d ds h = absurd (cc)
begins_hyphen-trim_right (c ∷ cs) d ds h = ground (arith, h)

has_double-trim_right :
    (cs : List Char) → has_double cs ≡ false → has_double (trim_right cs) ≡ false
unfolding trim_right has_double add_kept begins_hyphen
has_double-trim_right [] h = refl
has_double-trim_right (c ∷ cs) h =
    added (trim_right cs) refl (has_double-trim_right cs (ground (arith, h)))
  where
    added :
        (r : List Char)
        → trim_right cs ≡ r
        → has_double (trim_right cs) ≡ false
        → has_double (add_kept c r) ≡ false
    added [] e k = ground arith
    added (d ∷ ds) e k = ground (arith, h, e, k, begins_hyphen-trim_right cs d ds e)

ends_hyphen-trim_right : (cs : List Char) → ends_hyphen (trim_right cs) ≡ false
unfolding trim_right add_kept ends_hyphen
ends_hyphen-trim_right [] = refl
ends_hyphen-trim_right (c ∷ cs) = added (trim_right cs) (ends_hyphen-trim_right cs)
  where
    added : (r : List Char) → ends_hyphen r ≡ false → ends_hyphen (add_kept c r) ≡ false
    added [] e = ground arith
    added (d ∷ ds) e = e

-- A class of characters is kept by each step that only drops characters.
module _ (p : Char → Bool) where
  all-collapse : (cs : List Char) → all p cs ≡ true → all p (collapse cs) ≡ true
  unfolding collapse
  all-collapse [] h = refl
  all-collapse (c ∷ cs) h = ground (arith, all-collapse cs, h)

  all-trim_right : (cs : List Char) → all p cs ≡ true → all p (trim_right cs) ≡ true
  unfolding trim_right add_kept
  all-trim_right [] h = refl
  all-trim_right (c ∷ cs) h = ground (arith, all-trim_right cs, h)

abbrev is_kept : Char → Bool
is_kept c = is_alnum c || is_hyphen c

all-replace : (cs : List Char) → all is_kept (map replace_char cs) ≡ true
all-replace [] = refl
all-replace (c ∷ cs) = rw (replace_char-class c) (all-replace cs)

all-lower : (cs : List Char) → all is_kept cs ≡ true → all is_name_char (map lower cs) ≡ true
all-lower [] h = refl
all-lower (c ∷ cs) h =
    rw (is_name_char-lower c (left_of (is_kept c) _ h)) (all-lower cs (right_of (is_kept c) _ h))

-- Small letters are hyphens where the letters were.
begins_hyphen-lower : (cs : List Char) → begins_hyphen (map lower cs) ≡ begins_hyphen cs
unfolding begins_hyphen
begins_hyphen-lower [] = refl
begins_hyphen-lower (c ∷ cs) = is_hyphen-lower c

ends_hyphen-lower : (cs : List Char) → ends_hyphen (map lower cs) ≡ ends_hyphen cs
unfolding ends_hyphen
ends_hyphen-lower [] = refl
ends_hyphen-lower (c ∷ []) = is_hyphen-lower c
ends_hyphen-lower (c ∷ d ∷ cs) = ends_hyphen-lower (d ∷ cs)

has_double-lower : (cs : List Char) → has_double (map lower cs) ≡ has_double cs
unfolding has_double
has_double-lower [] = refl
has_double-lower (c ∷ cs) = rw (is_hyphen-lower c, begins_hyphen-lower cs, has_double-lower cs) refl

-- The text is not empty, begins and ends with no hyphen, has no two hyphens in a row, and is of small
-- letters, digits and hyphens.
pub record IsNormal (cs : List Char) : Type 0 where
  pub long : 0 < length cs
  pub begins : begins_hyphen cs ≡ false
  pub ends : ends_hyphen cs ≡ false
  pub single : has_double cs ≡ false
  pub letters : all is_name_char cs ≡ true

starts_shown-long : (cs : List Char) → starts_shown cs ≡ true → 0 < length cs
starts_shown-long [] h = absurd (cc)
starts_shown-long (c ∷ cs) h = ground arith

starts_shown-begins : (cs : List Char) → starts_shown cs ≡ true → begins_hyphen cs ≡ false
unfolding begins_hyphen
starts_shown-begins [] h = refl
starts_shown-begins (c ∷ cs) h = not-true (is_hyphen c) h

length-lower : (cs : List Char) → length (map lower cs) ≡ length cs
length-lower [] = refl
length-lower (c ∷ cs) = ap suc (length-lower cs)

pub normalise-IsNormal : (cs : List Char) → IsNormal (normalise cs)
unfolding normalise
normalise-IsNormal cs =
    let one = collapse (map replace_char (pad cs)) in
    let first : starts_shown one ≡ true =
      starts_shown-collapse (map replace_char (pad cs))
        (starts_shown-replace (pad cs) (starts_alnum-pad cs)) in
    let last : starts_shown (trim_right one) ≡ true = starts_shown-trim_right one first in
    rw (trim_left-shown one first) (record {
      long = rw (length-lower (trim_right one)) (starts_shown-long (trim_right one) last);
      begins = begins_hyphen-lower (trim_right one) ∙ starts_shown-begins (trim_right one) last;
      ends = ends_hyphen-lower (trim_right one) ∙ ends_hyphen-trim_right one;
      single =
          has_double-lower (trim_right one)
          ∙ has_double-trim_right one (has_double-collapse (map replace_char (pad cs)));
      letters = all-lower (trim_right one) (
          all-trim_right is_kept one
            (all-collapse is_kept (map replace_char (pad cs)) (all-replace (pad cs))));
    })
