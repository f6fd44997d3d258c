-- ===== src/Server/Names.antt =====
-- The names that the service gives to the objects it creates (tink/server/internal/grpc/kube.go). A
-- text is handled as the list of its characters; each regular expression of the source is the
-- function on such a list that it stands for.
pub mod Chars
pub mod Normal
pub mod Valid
use Prim.Native.String.{◌++◌ as text_append}
use tinkerbell.Base.{
  ℕ, String, Bool, true, false, List, [], ◌∷◌, ◌++◌, map, take, length, if◌then◌else◌, ltb, any,
  all, not, ◌&&◌, ◌||◌,
}
use tinkerbell.Base.Equality.{◌==◌, ◌!=◌, string_eq}
use tinkerbell.Base.Fallible.{Result, ok, err}
use tinkerbell.Server.Names.Chars.{
  Char, code, chars, text, hyphen, is_hyphen, is_alnum, is_upper, is_name_char, lower, trim_space,
}

starts_alnum : List Char → Bool
starts_alnum [] = false
starts_alnum (c ∷ cs) = is_alnum c

unfoldable pub ends_alnum : List Char → Bool
ends_alnum [] = false
ends_alnum (c ∷ []) = is_alnum c
ends_alnum (c ∷ d ∷ cs) = ends_alnum (d ∷ cs)

is_single_alnum : List Char → Bool
is_single_alnum (c ∷ []) = is_alnum c
is_single_alnum _ = false

abbrev letter_e : Char
letter_e = "e"

pad_start : List Char → List Char
unfolding starts_alnum
pad_start cs = if starts_alnum cs then cs else letter_e ∷ cs

pad_end : List Char → List Char
pad_end cs = if ends_alnum cs then cs else cs ++ (letter_e ∷ [])

-- The text begins and ends with a letter or a digit afterwards.
unfoldable pub pad : List Char → List Char
unfolding is_single_alnum pad_start pad_end
pad cs = if is_single_alnum cs then cs else pad_end (pad_start cs)

-- `[^a-zA-Z0-9-]` replaced by a hyphen.
abbrev pub replace_char : Char → Char
replace_char c = if is_alnum c || is_hyphen c then c else hyphen

unfoldable pub begins_hyphen : List Char → Bool
begins_hyphen [] = false
begins_hyphen (c ∷ cs) = is_hyphen c

-- `-+` replaced by one hyphen.
unfoldable pub collapse : List Char → List Char
unfolding begins_hyphen
collapse [] = []
collapse (c ∷ cs) =
    let rest = collapse cs in if is_hyphen c && begins_hyphen rest then rest else c ∷ rest

unfoldable pub trim_left : List Char → List Char
trim_left [] = []
trim_left (c ∷ cs) = let rest = trim_left cs in if is_hyphen c then rest else c ∷ cs

add_kept : Char → List Char → List Char
add_kept c [] = if is_hyphen c then [] else c ∷ []
add_kept c (d ∷ ds) = c ∷ d ∷ ds

unfoldable pub trim_right : List Char → List Char
unfolding add_kept
trim_right [] = []
trim_right (c ∷ cs) = add_kept c (trim_right cs)

-- All steps before the length check.
unfoldable pub normalise : List Char → List Char
normalise cs = map lower (trim_right (trim_left (collapse (map replace_char (pad cs)))))

-- `isValid`. The names end before they end in a hyphen, and so on for each pattern.
unfoldable pub ends_hyphen : List Char → Bool
ends_hyphen [] = false
ends_hyphen (c ∷ []) = is_hyphen c
ends_hyphen (c ∷ d ∷ cs) = ends_hyphen (d ∷ cs)

unfoldable pub has_double : List Char → Bool
unfolding begins_hyphen
has_double [] = false
has_double (c ∷ cs) = let rest = has_double cs in is_hyphen c && begins_hyphen cs || rest

unfoldable pub is_valid : List Char → Result String (Unit {0})
unfolding begins_hyphen
is_valid cs =
    if not (ltb 0 (length cs))
    then err "name cannot be empty"
    else if ltb 63 (length cs)
    then err "name exceeds maximum length of 63 characters"
    else if begins_hyphen cs || ends_hyphen cs
    then err "name cannot start or end with hyphen"
    else if has_double cs
    then err "name contains consecutive hyphens"
    else if any (λ c. not (is_name_char c)) cs
    then err "name contains invalid characters"
    else ok tt

unfoldable pub truncate : List Char → List Char
truncate cs = if ltb 63 (length cs) then take 63 cs else cs

checked : List Char → Result String (List Char)
checked cs = elim (is_valid cs) [ err e ↦ err e | ok _ ↦ ok cs ]

-- The name that is made of a trimmed text.
unfoldable pub make_trimmed : List Char → List Char → Result String (List Char)
unfolding checked
make_trimmed prefix [] = err "name cannot be empty"
make_trimmed prefix (c ∷ cs) = checked (truncate (normalise (prefix ++ (c ∷ cs))))

-- `makeValidName`, on characters.
unfoldable pub make_valid_chars : List Char → List Char → Result String (List Char)
unfolding make_trimmed
make_valid_chars name prefix = make_trimmed prefix (trim_space name)

unfoldable pub named_text : Result String (List Char) → Result String String
named_text (err e) = err e
named_text (ok cs) = ok (text cs)

unfoldable pub make_valid_name : String → String → Result String String
unfolding named_text
make_valid_name name prefix = named_text (make_valid_chars (chars name) (chars prefix))
