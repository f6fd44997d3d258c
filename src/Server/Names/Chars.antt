-- ===== src/Server/Names/Chars.antt =====
-- Texts as lists of characters, and the classes of characters of the names.
pub use Prim.Native.Char.{Char, code}
use Prim.Native.String as Native
use Prim.Native.String.{char_at}
use tinkerbell.Base.{ℕ, ◌-◌, String, Bool, List, [], ◌∷◌, if◌then◌else◌, leb, eqb, ◌&&◌, ◌||◌}

abbrev pub chars : String → List Char
chars Native.[] = []
chars (Native.◌∷◌ c s) = c ∷ chars s

abbrev pub text : List Char → String
text [] = Native.[]
text (c ∷ cs) = Native.◌∷◌ c (text cs)

abbrev pub hyphen : Char
hyphen = "-"

abbrev between : ℕ → ℕ → Char → Bool
between a b c = leb a (code c) && leb (code c) b

abbrev pub is_hyphen : Char → Bool
is_hyphen c = eqb (code c) 45

abbrev pub is_upper : Char → Bool
is_upper c = between 65 90 c

abbrev is_lower : Char → Bool
is_lower c = between 97 122 c

abbrev is_digit : Char → Bool
is_digit c = between 48 57 c

-- `[a-zA-Z0-9]`
abbrev pub is_alnum : Char → Bool
is_alnum c = is_lower c || is_upper c || is_digit c

-- `[a-z0-9-]`
abbrev pub is_name_char : Char → Bool
is_name_char c = is_lower c || is_digit c || is_hyphen c

-- `strings.ToLower` on the characters that are left when it is called.
unfoldable pub lower : Char → Char
lower c = if is_upper c then char_at "abcdefghijklmnopqrstuvwxyz" (code c - 65) else c

-- The white space of Unicode.
abbrev is_space : Char → Bool
is_space c =
    between 9 13 c
    || eqb (code c) 32
    || eqb (code c) 133
    || eqb (code c) 160
    || eqb (code c) 5760
    || between 8192 8202 c
    || between 8232 8233 c
    || eqb (code c) 8239
    || eqb (code c) 8287
    || eqb (code c) 12288

unfoldable pub trim_space_left : List Char → List Char
trim_space_left [] = []
trim_space_left (c ∷ cs) = let rest = trim_space_left cs in if is_space c then rest else c ∷ cs

add_shown : Char → List Char → List Char
add_shown c [] = if is_space c then [] else c ∷ []
add_shown c (d ∷ ds) = c ∷ d ∷ ds

unfoldable pub trim_space_right : List Char → List Char
unfolding add_shown
trim_space_right [] = []
trim_space_right (c ∷ cs) = add_shown c (trim_space_right cs)

-- `strings.TrimSpace`
unfoldable pub trim_space : List Char → List Char
trim_space cs = trim_space_right (trim_space_left cs)
