-- ===== src/Smee/Syslog/Legacy.antt =====
-- The header that came before RFC 5424 (`parseLegacyHeader` of smee/internal/syslog/message.go).
use tinkerbell.Base.{
  ℕ, suc, ◌-◌, ◌*◌, ◌/◌, ◌%◌, ℤ, pos, negsuc, Bool, false, Option, none, some, List, [], ◌∷◌, ◌++◌,
  if◌then◌else◌, ltb, leb, eqb, take, drop, ◌||◌, ◌&&◌,
}
use tinkerbell.Smee.Syslog.{Message, severity}
use tinkerbell.Smee.Syslog.Timed.{Times, Timed, bytes_of, trim_prefix, cut_at, set_msg}

abbrev is_tag_byte : ℕ → Bool
is_tag_byte c =
    (leb b'0' c && leb c b'9')
    || (leb b'a' c && leb c b'z')
    || (leb b'A' c && leb c b'Z')
    || eqb c b'-'
    || eqb c b'_'
    || eqb c b'/'
    || eqb c b'.'

-- The bytes of a tag at the front, and the rest.
unfoldable pub span_tag : List ℕ → List ℕ × List ℕ
span_tag [] = ([], [])
span_tag (x ∷ xs) =
    let (tag, rest) = span_tag xs in if is_tag_byte x then (x ∷ tag, rest) else ([], x ∷ xs)

-- `": "`
abbrev colon : List ℕ
colon = b':' ∷ b' ' ∷ []

abbrev trim_colon : List ℕ → Message → Message
trim_colon b m = set_msg (trim_prefix colon b b) m

-- From the bracket on: the process between the brackets, and what follows them.
with_pid : List ℕ → List ℕ → Option (List ℕ × List ℕ) → Message → Message
with_pid tag b none m = trim_colon b (record m { app = some tag; procid = none })
with_pid tag b (some (pid, after)) m =
    trim_colon after (record m { app = some tag; procid = some pid })

with_tag : List ℕ → List ℕ → Message → Message
unfolding with_pid
with_tag tag [] m = record m { app = none; procid = none }
with_tag tag (x ∷ xs) m =
    if eqb x b'['
    then with_pid tag (x ∷ xs) (cut_at b']' xs) m
    else trim_colon (x ∷ xs) (record m { app = some tag })

-- `parseLegacyTag`
unfoldable pub parse_legacy_tag : Message → Message
unfolding with_tag
parse_legacy_tag m = let (tag, rest) = span_tag (bytes_of m.msg) in with_tag tag rest m

-- The names of the severities.
abbrev severity_name : ℕ → List ℕ
severity_name n =
    if eqb n 0
    then b'E' ∷ b'M' ∷ b'E' ∷ b'R' ∷ b'G' ∷ []
    else if eqb n 1
    then b'A' ∷ b'L' ∷ b'E' ∷ b'R' ∷ b'T' ∷ []
    else if eqb n 2
    then b'C' ∷ b'R' ∷ b'I' ∷ b'T' ∷ []
    else if eqb n 3
    then b'E' ∷ b'R' ∷ b'R' ∷ []
    else if eqb n 4
    then b'W' ∷ b'A' ∷ b'R' ∷ b'N' ∷ b'I' ∷ b'N' ∷ b'G' ∷ []
    else if eqb n 5
    then b'N' ∷ b'O' ∷ b'T' ∷ b'I' ∷ b'C' ∷ b'E' ∷ []
    else if eqb n 6
    then b'I' ∷ b'N' ∷ b'F' ∷ b'O' ∷ []
    else b'D' ∷ b'E' ∷ b'B' ∷ b'U' ∷ b'G' ∷ []

trim : List ℕ → Message → Message
trim prefix m = set_msg (trim_prefix prefix (bytes_of m.msg) (bytes_of m.msg)) m

abbrev without_return : List ℕ → List ℕ
without_return [] = []
without_return (x ∷ xs) = if eqb x 13 then xs else x ∷ xs

-- `trimSeverityPrefix`, `trimTimePrefix` and `trimCarriageReturns`
unfoldable pub trimmed : List ℕ → Message → Message
unfolding trim
trimmed time m =
    let m' = trim time (trim (severity_name (severity m) ++ colon) m) in
    set_msg (without_return (bytes_of m'.msg)) m'

abbrev hour : ℕ
hour = 3600 * 1000000000

abbrev magnitude : ℤ → ℕ
magnitude (pos n) = n
magnitude (negsuc n) = suc n

module _ {T : Type 0} (c : Times T) where
  -- `correctLegacyTime`: the count of hours is added as nanoseconds.
  unfoldable pub correct_legacy_time : T → T → T
  correct_legacy_time now t =
      let t' = c.add_years (c.year now) t in
      let offset = magnitude (c.sub now t') in
      let hours_off = (offset - offset % hour) / hour in
      if ltb 1 hours_off then c.add t' hours_off else t'

  -- The time at the front of a legacy message, with the bytes after it.
  stamped : List ℕ → Option T → Timed T → Timed T
  stamped b none m = m
  stamped b (some t) m = record {
    message = set_msg (drop 16 b) m.message;
    time = if c.is_zero t then m.time else correct_legacy_time m.time t;
  }

  abbrev spaced : List ℕ → Bool
  spaced [] = false
  spaced (x ∷ xs) = eqb x b' '

  read_stamp : Timed T → Timed T
  unfolding stamped
  read_stamp m =
      let b = bytes_of m.message.msg in
      if spaced (drop 15 b) then stamped b (c.parse_stamp (take 15 b)) m else m

  -- `parseLegacyHeader`, which accepts every message.
  unfoldable pub parse_legacy_header : Timed T → Timed T
  unfolding read_stamp
  parse_legacy_header m =
      let m' = read_stamp m in
      record m' {
        message =
            trimmed (c.format m'.time) (parse_legacy_tag (record m'.message { hostname = none }));
      }
