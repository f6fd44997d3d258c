-- ===== src/Smee/Syslog/Timed.antt =====
-- A message with its time, and what the parsers do with bytes (smee/internal/syslog/message.go). The
-- standard library's times are an argument.
use tinkerbell.Base.{ℕ, ℤ, Bool, Option, none, some, List, [], ◌∷◌, if◌then◌else◌, eqb}
use tinkerbell.Smee.Syslog.{Message}

-- The times of Go: a text in the layout `time.Stamp`, one in that of RFC 3339, `IsZero`, `Year`,
-- `AddDate` of years, `Sub` in nanoseconds, `Add`, and `Format` up to the second with a space after it.
pub record Times (T : Type 0) : Type 0 where
  pub parse_stamp : List ℕ → Option T
  pub parse_rfc3339 : List ℕ → Option T
  pub is_zero : T → Bool
  pub year : T → ℤ
  pub add_years : ℤ → T → T
  pub sub : T → T → ℤ
  pub add : T → ℕ → T
  pub format : T → List ℕ

-- A message with its time.
pub record Timed (T : Type 0) : Type 0 where
  pub message : Message
  pub time : T

abbrev pub bytes_of : Option (List ℕ) → List ℕ
bytes_of none = []
bytes_of (some b) = b

-- `bytes.TrimPrefix`
unfoldable pub trim_prefix : List ℕ → List ℕ → List ℕ → List ℕ
trim_prefix [] xs all = xs
trim_prefix (p ∷ ps) [] all = all
trim_prefix (p ∷ ps) (x ∷ xs) all =
    let rest = trim_prefix ps xs all in if eqb p x then rest else all

-- The part before the first byte of a kind, and what follows it.
unfoldable pub cut_at : ℕ → List ℕ → Option (List ℕ × List ℕ)
cut_at b [] = none
cut_at b (x ∷ xs) =
    if eqb x b
    then some ([], xs)
    else elim (cut_at b xs) [ none ↦ none | some (before, after) ↦ some (x ∷ before, after) ]

abbrev pub set_msg : List ℕ → Message → Message
set_msg b m = record m { msg = some b }
