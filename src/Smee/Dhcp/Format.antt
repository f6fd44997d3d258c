-- ===== src/Smee/Dhcp/Format.antt =====
-- The notations of a MAC address (smee/internal/dhcp/format.go), of bytes below 256, and
-- `macAddrFormat` (smee/internal/dhcp/dhcp.go).
use Prim.Native.Char.{Char}
use Prim.Native.String.{char_at, ◌++◌ as text_append}
use tinkerbell.Base.{ℕ, suc, ◌/◌, ◌%◌, String, some, [], ◌∷◌, eqb, ◌&&◌, ltb, if◌then◌else◌}
use tinkerbell.Smee.Dhcp.{
  Bytes, MacFormat, colon, dot, dash, no_delimiter, empty, other_format, Library,
}

hex_digit : ℕ → Char
hex_digit n = char_at "0123456789abcdef" n

-- The two digits of a byte.
hex_byte : ℕ → String
unfolding hex_digit
hex_byte b = String.◌∷◌ (hex_digit (b / 16)) (String.◌∷◌ (hex_digit (b % 16)) "")

-- `dotNotation`, from the byte at index `i` on.
dot_from : ℕ → Bytes → String
unfolding hex_byte
dot_from i [] = ""
dot_from i (b ∷ bs) =
    let rest = text_append (hex_byte b) (dot_from (suc i) bs) in
    if ltb 0 i && eqb (i % 2) 0 then text_append "." rest else rest

dash_from : ℕ → Bytes → String
unfolding hex_byte
dash_from i [] = ""
dash_from i (b ∷ bs) =
    let rest = text_append (hex_byte b) (dash_from (suc i) bs) in
    if ltb 0 i then text_append "-" rest else rest

no_delimiter_of : Bytes → String
unfolding hex_byte
no_delimiter_of [] = ""
no_delimiter_of (b ∷ bs) = text_append (hex_byte b) (no_delimiter_of bs)

unfoldable pub dot_notation : Bytes → String
unfolding dot_from
dot_notation a = dot_from 0 a

unfoldable pub dash_notation : Bytes → String
unfolding dash_from
dash_notation a = dash_from 0 a

unfoldable pub mac_addr_format : Library → Bytes → MacFormat → String
unfolding dot_notation dash_notation no_delimiter_of
mac_addr_format l mac colon = l.mac_text (some mac)
mac_addr_format l mac dot = dot_notation mac
mac_addr_format l mac dash = dash_notation mac
mac_addr_format l mac no_delimiter = no_delimiter_of mac
mac_addr_format l mac empty = ""
mac_addr_format l mac (other_format f) = l.mac_text (some mac)
