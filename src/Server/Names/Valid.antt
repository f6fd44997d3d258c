-- ===== src/Server/Names/Valid.antt =====
-- The names that are made: what each of them is, and when one is made.
use tinkerbell.Base.{
  ◌≤◌, ◌<◌, true, false, List, [], ◌∷◌, ◌++◌, ◌≡◌, ◌≢◌, refl, sym, ap, ◌∙◌, arith, ◌⊎◌, length, All,
  all, any, not,
}
use tinkerbell.Base.Fallible.{ok}
use tinkerbell.Server.Names.Chars.{Char, code, is_name_char, trim_space}
use tinkerbell.Server.Names.Normal.{IsNormal, normalise-IsNormal}
use tinkerbell.Server.Names.{
  begins_hyphen, ends_hyphen, has_double, is_valid, truncate, checked, normalise, make_trimmed,
  make_valid_chars,
}

-- A character is a small letter, a digit or a hyphen.
abbrev pub NameChar : Char → Type 0
NameChar c = ((97 ≤ code c) × (code c ≤ 122)) ⊎ ((48 ≤ code c) × (code c ≤ 57)) ⊎ (code c ≡ 45)

-- A name of Kubernetes: 1 to 63 small letters, digits and hyphens, with no hyphen at either end and no
-- two in a row.
pub record IsName (cs : List Char) : Type 0 where
  pub not_empty : 0 < length cs
  pub not_long : length cs ≤ 63
  pub letters : All NameChar cs
  pub first_shown : (c : Char) (ds : List Char) → cs ≡ c ∷ ds → code c ≢ 45
  pub last_shown : (c : Char) (ds : List Char) → cs ≡ ds ++ (c ∷ []) → code c ≢ 45
  pub no_double :
      (xs ys : List Char) (c d : Char) → cs ≡ xs ++ (c ∷ d ∷ ys) → (code c ≢ 45) ⊎ (code d ≢ 45)

first-shown :
    (cs : List Char) (c : Char) (ds : List Char)
    → begins_hyphen cs ≡ false
    → cs ≡ c ∷ ds
    → code c ≢ 45
unfolding begins_hyphen
first-shown cs c ds h e = ground (arith, h, e)

last-shown : (ds : List Char) (c : Char) → ends_hyphen (ds ++ (c ∷ [])) ≡ false → code c ≢ 45
unfolding ends_hyphen
last-shown [] c h = ground (arith, h)
last-shown (d ∷ []) c h = ground (arith, h)
last-shown (d ∷ e ∷ ds) c h = last-shown (e ∷ ds) c h

no-double :
    (xs ys : List Char) (c d : Char)
    → has_double (xs ++ (c ∷ d ∷ ys)) ≡ false
    → (code c ≢ 45) ⊎ (code d ≢ 45)
unfolding has_double begins_hyphen
no-double [] ys c d h = ground (arith, h)
no-double (x ∷ xs) ys c d h = no-double xs ys c d (ground (arith, h))

any-NameChar : (cs : List Char) → any (λ c. not (is_name_char c)) cs ≡ false → All NameChar cs
any-NameChar [] h = tt
any-NameChar (c ∷ cs) h = (ground (arith, h), any-NameChar cs (ground (arith, h)))

-- What the tests of `isValid` ask for.
Passed : List Char → Type 0
Passed cs =
    (0 < length cs)
    × (length cs ≤ 63)
    × (begins_hyphen cs ≡ false)
    × (ends_hyphen cs ≡ false)
    × (has_double cs ≡ false)
    × (any (λ c. not (is_name_char c)) cs ≡ false)

Passed-is_valid : (cs : List Char) → is_valid cs ≡ ok tt → Passed cs
unfolding is_valid Passed
Passed-is_valid cs h = ground (arith, h)

is_valid-Passed : (cs : List Char) → Passed cs → is_valid cs ≡ ok tt
unfolding is_valid Passed
is_valid-Passed cs h = ground (arith, h)

Passed-IsName : (cs : List Char) → Passed cs → IsName cs
unfolding Passed
Passed-IsName cs (a, b, f, l, d, n) = record {
  not_empty = a;
  not_long = b;
  letters = any-NameChar cs n;
  first_shown = λ c ds e. first-shown cs c ds f e;
  last_shown = λ c ds e. last-shown ds c (ap ends_hyphen (sym e) ∙ l);
  no_double = λ xs ys c d' e. no-double xs ys c d' (ap has_double (sym e) ∙ d);
}

all-any : (cs : List Char) → all is_name_char cs ≡ true → any (λ c. not (is_name_char c)) cs ≡ false
all-any [] h = refl
all-any (c ∷ cs) h = ground (arith, h, all-any cs)

IsNormal-Passed : (cs : List Char) → IsNormal cs → length cs ≤ 63 → Passed cs
unfolding Passed
IsNormal-Passed cs n l = (n.long, l, n.begins, n.ends, n.single, all-any cs n.letters)

checked-ok : (cs ds : List Char) → checked cs ≡ ok ds → (is_valid cs ≡ ok tt) × (cs ≡ ds)
unfolding checked
checked-ok cs ds h = ground (arith, h)

checked-Passed : (cs : List Char) → is_valid cs ≡ ok tt → checked cs ≡ ok cs
unfolding checked
checked-Passed cs h = rw (checked, h) refl

make_trimmed-IsName : (prefix t cs : List Char) → make_trimmed prefix t ≡ ok cs → IsName cs
unfolding make_trimmed
make_trimmed-IsName prefix [] cs h = absurd (ground (arith, h))
make_trimmed-IsName prefix (x ∷ xs) cs h =
    let made = truncate (normalise (prefix ++ (x ∷ xs))) in
    let (v, q) = checked-ok made cs h in
    Passed-IsName cs (Passed-is_valid cs (ap is_valid (sym q) ∙ v))

truncate-short : (cs : List Char) → length cs ≤ 63 → truncate cs ≡ cs
unfolding truncate
truncate-short cs h = ground (arith, h)

make_trimmed-normalise :
    (prefix t : List Char)
    → t ≢ []
    → length (normalise (prefix ++ t)) ≤ 63
    → make_trimmed prefix t ≡ ok (normalise (prefix ++ t))
unfolding make_trimmed
make_trimmed-normalise prefix [] n l = absurd (n refl)
make_trimmed-normalise prefix (x ∷ xs) n l =
    let made = normalise (prefix ++ (x ∷ xs)) in
    ap checked (truncate-short made l)
    ∙ checked-Passed made (is_valid-Passed made (IsNormal-Passed made (normalise-IsNormal _) l))

-- `makeValidName`: a name that it makes has 1 to 63 small letters, digits and hyphens, with no hyphen
-- at either end and no two in a row.
pub make_valid_chars-IsName :
    (name prefix cs : List Char) → make_valid_chars name prefix ≡ ok cs → IsName cs
unfolding make_valid_chars
make_valid_chars-IsName name prefix cs h = make_trimmed-IsName prefix (trim_space name) cs h

-- A name is made of every text that is not all white space, if the normalised text of the prefix and
-- the trimmed text is not longer than 63 characters; it is then that text.
pub make_valid_chars-normalise :
    (name prefix : List Char)
    → trim_space name ≢ []
    → length (normalise (prefix ++ trim_space name)) ≤ 63
    → make_valid_chars name prefix ≡ ok (normalise (prefix ++ trim_space name))
unfolding make_valid_chars
make_valid_chars-normalise name prefix n l = make_trimmed-normalise prefix (trim_space name) n l
