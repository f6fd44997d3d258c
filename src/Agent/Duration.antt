-- ===== src/Agent/Duration.antt =====
-- `humanDuration` (tink/agent/agent.go), on the nanoseconds of a duration that is not negative.
-- `digits` prints a number, as the verb %d does.
pub mod Bounds
use Prim.Native.String.{◌++◌ as text_append}
use tinkerbell.Base.{
  ℕ, ◌*◌, ◌/◌, ◌%◌, ◌+◌, String, List, [], ◌∷◌, ◌++◌, ◌&&◌, ltb, length, map, if◌then◌else◌,
}

pub data TimeUnit : Type 0 where
  hour minute second millisecond microsecond nanosecond : TimeUnit

abbrev pub nanos_of : TimeUnit → ℕ
nanos_of hour = 3600000000000
nanos_of minute = 60000000000
nanos_of second = 1000000000
nanos_of millisecond = 1000000
nanos_of microsecond = 1000
nanos_of nanosecond = 1

abbrev pub suffix : TimeUnit → String
suffix hour = "h"
suffix minute = "m"
suffix second = "s"
suffix millisecond = "ms"
suffix microsecond = "us"
suffix nanosecond = "ns"

abbrev pub Part : Type 0
Part = ℕ × TimeUnit

-- The count of each unit.
unfoldable pub counts : ℕ → List Part
counts nanos =
    let after_hours = nanos % 3600000000000 in
    let after_minutes = after_hours % 60000000000 in
    let after_seconds = after_minutes % 1000000000 in
    let after_millis = after_seconds % 1000000 in
    (nanos / 3600000000000, hour)
    ∷ (after_hours / 60000000000, minute)
    ∷ (after_minutes / 1000000000, second)
    ∷ (after_seconds / 1000000, millisecond)
    ∷ (after_millis / 1000, microsecond)
    ∷ (after_millis % 1000, nanosecond)
    ∷ []

-- The tests of the units, one after the other.
unfoldable pub keep : ℕ → List Part → List Part → List Part
keep precision parts [] = parts
keep precision parts ((n, u) ∷ rest) =
    keep precision
      (if ltb 0 n && ltb (length parts) precision then parts ++ ((n, u) ∷ []) else parts) rest

unfoldable pub parts_of : ℕ → ℕ → List Part
parts_of d precision = keep precision [] (counts d)

-- `strings.Join(parts, "")`
join_parts : (ℕ → String) → List Part → String
join_parts digits [] = ""
join_parts digits ((n, u) ∷ parts) =
    text_append (text_append (digits n) (suffix u)) (join_parts digits parts)

unfoldable pub human_duration : (ℕ → String) → ℕ → ℕ → String
unfolding join_parts
human_duration digits d precision = join_parts digits (parts_of d precision)
